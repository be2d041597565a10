-- ===== src/Proxy/Socks5/Refusal.antt =====
-- `connect` of `src/proxy/socks5.rs` against a server that refuses: the error for each refusal.
pub mod Kinds
pub mod Steps
use proxec.Base.{ℕ, ◌≡◌, ap, List, []}
use proxec.Error.{Error}
use proxec.Result.{Result, ok, err}
use proxec.Net.{SocketAddr}
use proxec.Proxy.Tcp.{Tcp}
use proxec.Proxy.Tcp.Outcome.{Judge}
use proxec.Proxy.Tcp.Peer.{Peer}
use proxec.Proxy.Tcp.Dial.{dial_opened}
use proxec.Proxy.Socks5.{Auth, negotiate, connect}
use proxec.Proxy.Socks5.Refusal.Kinds.{Refusal}
use proxec.Proxy.Socks5.Refusal.Steps.{NoResult, EndsAt, negotiate_refused}

module _ {W : Type 0} {tcp : Tcp W} {stream : ℕ} {reply : List ℕ → List ℕ}
    (peer : Peer tcp stream reply) (dest : SocketAddr) (auth : Auth) where
  -- Against a server that stays connected, `connect` fails with the error for its refusal: a wrong
  -- version, a method that is not taken, a login that is missing, too long or not taken, and, after
  -- a login or without one, an answer to the request of a wrong version, with a code other than 0,
  -- or with an unknown type of address. What it has sent is the greeting, with the login or the
  -- request after it only where the server has asked for them: no request follows a refused method
  -- or login, and a name or a password above 255 bytes is not sent.
  pub connect-Refusal :
      {e : Error} {sent : List ℕ} (proxy_addr : SocketAddr) (w : W)
      → (tcp.connect proxy_addr w).0 ≡ ok stream
      → peer.out (tcp.connect proxy_addr w).1 ≡ []
      → peer.inn (tcp.connect proxy_addr w).1 ≡ []
      → Refusal reply dest auth e sent
      → ((connect tcp proxy_addr dest auth w).0 ≡ err e)
        × (peer.out (connect tcp proxy_addr dest auth w).1 ≡ sent)
  unfolding connect
  connect-Refusal {e} {sent} proxy_addr w opened none_sent none_received refusal =
      rw (dial_opened tcp (λ s. negotiate tcp s dest auth) proxy_addr w stream opened) (
        refused (negotiate tcp stream dest auth (tcp.connect proxy_addr w).1).0 _ _ (
          (negotiate_refused peer dest auth refusal).at (tcp.connect proxy_addr w).1 none_sent
            none_received))
    where
      refused :
          (r : Result Error ℕ) (out inn : List ℕ)
          → Judge NoResult (EndsAt e sent) r out inn
          → (r ≡ err e) × (out ≡ sent)
      refused (ok a) out inn j = absurd j
      refused (err e') out inn j = (ap err j.0, j.1)
