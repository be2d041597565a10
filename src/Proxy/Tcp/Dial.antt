-- ===== src/Proxy/Tcp/Dial.antt =====
-- Opening a connection and acting on it.
use proxec.Base.{ℕ, ◌≡◌, sym, ap, ◌∙◌, inl, inr, List, []}
use proxec.Error.{Error, IoError}
use proxec.Result.{Result, ok, err, map_err, Result-cases}
use proxec.Action.{Action, ◌>>=◌}
use proxec.Net.{SocketAddr}
use proxec.Proxy.Tcp.{Tcp, dial}
use proxec.Proxy.Tcp.Outcome.{History, Talks, log, Judge}

module _ {W A : Type 0} (tcp : Tcp W) (f : ℕ → Action W A) (addr : SocketAddr) (w : W) where
  pub dial_opened :
      (stream : ℕ)
      → (tcp.connect addr w).0 ≡ ok stream
      → (dial tcp addr >>= f) w ≡ f stream (tcp.connect addr w).1
  dial_opened stream opened =
      ap (λ r. ((λ _. (map_err Error.proxy_connect r, (tcp.connect addr w).1)) >>= f) w) opened

  dial_refused :
      (e : IoError)
      → (tcp.connect addr w).0 ≡ err e
      → ((dial tcp addr >>= f) w).0 ≡ err (Error.proxy_connect e)
  dial_refused e failed =
      ap (λ r. (((λ _. (map_err Error.proxy_connect r, (tcp.connect addr w).1)) >>= f) w).0) failed

module _ {W : Type 0} {tcp : Tcp W} (h : History tcp) (f : ℕ → Action W ℕ)
    {P : List ℕ → List ℕ → Type 0} {Q : Error → List ℕ → List ℕ → Type 0}
    (talks : (s : ℕ) → Talks (log h s) (f s) [] [] (λ a out inn. (a ≡ s) × P out inn) Q)
    (addr : SocketAddr) (w : W) (stream : ℕ) where
  -- A new connection has sent and received nothing.
  pub dial_judged :
      (tcp.connect addr w).0 ≡ ok stream
      → Judge
          (λ a out inn. (a ≡ stream) × P out inn)
          Q
          ((dial tcp addr >>= f) w).0
          (h.sent stream ((dial tcp addr >>= f) w).1)
          (h.received stream ((dial tcp addr >>= f) w).1)
  dial_judged opened =
      let (none_sent, none_received) = h.connect_new addr w stream opened in
      rw (dial_opened tcp f addr w stream opened)
        ((talks stream).at (tcp.connect addr w).1 none_sent none_received)

-- The stream that comes back is the one that was opened.
module _ {W : Type 0} {tcp : Tcp W} (h : History tcp) (f : ℕ → Action W ℕ)
    {P : List ℕ → List ℕ → Type 0} {Q : Error → List ℕ → List ℕ → Type 0}
    (talks : (s : ℕ) → Talks (log h s) (f s) [] [] (λ a out inn. (a ≡ s) × P out inn) Q)
    (addr : SocketAddr) (w : W) (stream : ℕ) where
  pub dial_returned :
      ((dial tcp addr >>= f) w).0 ≡ ok stream
      → P
          (h.sent stream ((dial tcp addr >>= f) w).1)
          (h.received stream ((dial tcp addr >>= f) w).1)
  dial_returned returned = elim (Result-cases (tcp.connect addr w).0) [
    | inr (e, failed) ↦ cc (dial_refused tcp f addr w e failed, returned)
    | inl (opened_stream, opened) ↦
        let (same, p) =
          on_success opened_stream _ _ _ returned
            (dial_judged h f talks addr w opened_stream opened) in
        rw same p
  ]
    where
      on_success :
          (s : ℕ) (r : Result Error ℕ) (out inn : List ℕ)
          → r ≡ ok stream
          → Judge (λ a out inn. (a ≡ s) × P out inn) Q r out inn
          → (stream ≡ s) × P out inn
      on_success s (ok a) out inn e j = let a' : a ≡ stream = cc in (sym a' ∙ j.0, j.1)
      on_success s (err e) out inn e' j = cc
