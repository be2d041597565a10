-- ===== src/Proxy/Tcp/Peer.antt =====
-- A peer that stays connected: what it has written by the time it has read a given input, and rules
-- for an action on a connection with it, which then does not fail.
use proxec.Base.{ℕ, ◌≡◌, List, ◌++◌, length}
use proxec.Error.{Error}
use proxec.Result.{ok}
use proxec.Action.{Action, ◌>>=◌}
use proxec.Proxy.Tcp.{Tcp, send, receive_exact}
use proxec.Proxy.Tcp.Outcome.{Log, Talks, Talks-bind}

-- Every write is done, and a read is done when what it asks for has been or will be written in
-- answer to what was sent.
pub record Peer {W : Type 0} (tcp : Tcp W) (stream : ℕ) (reply : List ℕ → List ℕ) : Type 0 where
  pub out : W → List ℕ
  pub inn : W → List ℕ
  pub write_ok :
      (bs : List ℕ) (w : W)
      → ((tcp.write_all stream bs w).0 ≡ ok tt)
        × (out (tcp.write_all stream bs w).1 ≡ out w ++ bs)
        × (inn (tcp.write_all stream bs w).1 ≡ inn w)
  pub read_ok :
      (bs rest : List ℕ) (w : W)
      → reply (out w) ≡ inn w ++ (bs ++ rest)
      → ((tcp.read_exact stream (length bs) w).0 ≡ ok bs)
        × (out (tcp.read_exact stream (length bs) w).1 ≡ out w)
        × (inn (tcp.read_exact stream (length bs) w).1 ≡ inn w ++ bs)

module _ {W : Type 0} {tcp : Tcp W} {stream : ℕ} {reply : List ℕ → List ℕ}
    (peer : Peer tcp stream reply) where
  abbrev pub peer_log : Log W
  peer_log = record { out = peer.out; inn = peer.inn }

  module _ {B : Type 0} {P : B → List ℕ → List ℕ → Type 0}
      {Q : Error → List ℕ → List ℕ → Type 0} where
    pub Talks-send_ok :
        (f : Unit {0} → Action W B) (bs out inn : List ℕ)
        → Talks peer_log (f tt) (out ++ bs) inn P Q
        → Talks peer_log (send tcp stream bs >>= f) out inn P Q
    Talks-send_ok f bs out inn t = Talks-bind peer_log (send tcp stream bs) f out inn (record {
      at = λ w s r. let (done, more, same) = peer.write_ok bs w in rw (done, more, same, s, r) t;
    })

    pub Talks-exact_ok :
        (f : List ℕ → Action W B) (bs rest out inn : List ℕ)
        → reply out ≡ inn ++ (bs ++ rest)
        → Talks peer_log (f bs) out (inn ++ bs) P Q
        → Talks peer_log (receive_exact tcp stream (length bs) >>= f) out inn P Q
    Talks-exact_ok f bs rest out inn e t =
        Talks-bind peer_log (receive_exact tcp stream (length bs)) f out inn (record {
          at = λ w s r.
              let there : reply (peer.out w) ≡ peer.inn w ++ (bs ++ rest) = rw (s, r) e in
              let (done, same, more) = peer.read_ok bs rest w there in
              rw (done, same, more, s, r) t;
        })
