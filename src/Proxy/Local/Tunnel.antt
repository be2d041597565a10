-- ===== src/Proxy/Local/Tunnel.antt =====
-- From the `connect` of the traced program to the bytes that `src/proxy/local.rs` relays.
use proxec.Base.{ℕ, ◌≡◌, List}
use proxec.Base.Text.{Text}
use proxec.Error.{Error}
use proxec.Result.{Result, ok}
use proxec.Net.{SocketAddr}
use proxec.Os.{Os, Regs}
use proxec.Word.{as_i32}
use proxec.Socket.Stream.{group_of}
use proxec.Tracer.State.{Config, Ctx}
use proxec.Proxy.Tcp.{Tcp}
use proxec.Proxy.Tcp.Outcome.{History}
use proxec.Proxy.Config.{ProxyConfig, ProxyProtocol}
use proxec.Proxy.Socks5.{Auth}
use proxec.Proxy.Http.Tunnel.{Asked}
use proxec.Proxy.Socks5.Handshake.{Agreed}
use proxec.Proxy.Relay.{Copy, Progress}
use proxec.Proxy.Relay.Carried.{Copying, Relayed}

module _ {W N F : Type 0} (sys : Os W) (cfg : Config) (tcp : Tcp N) (display : SocketAddr → Text)
    (base64 : List ℕ → Text) (from_utf8_lossy : List ℕ → Text) (copy : Copy N F) where
  -- The socket of a `connect` in the tracker.
  abbrev pub socket_key : ℕ → Regs → Ctx W → ℕ × ℕ
  socket_key pid regs c = (group_of sys pid c.world c.tracker, as_i32 regs.rdi)

  -- The handshake of a protocol on a stream: what has been sent and received is a complete handshake
  -- of SOCKS5 for the destination, or a CONNECT request for it and an answer that is taken for a
  -- success.
  abbrev pub Opened : ProxyProtocol → SocketAddr → Auth → List ℕ → List ℕ → Type 0
  Opened ProxyProtocol.socks5 dest auth out inn = Agreed dest auth out inn
  Opened ProxyProtocol.http_connect dest auth out inn =
      Asked display base64 from_utf8_lossy dest auth out inn

  -- What `handle_client` has returned and left: it has reached a stream `upstream` with a handshake
  -- for `dest`, and what came after the handshake is relayed between that stream and the client's.
  pub record Tunnel {h : History tcp} (rules : Copying h copy) (dest : SocketAddr)
      (proxy : ProxyConfig) (client upstream : ℕ) (out : Result Error Progress × N) : Type 0 where
    pub opened : N
    pub handshake :
        Opened proxy.protocol dest proxy.auth (h.sent upstream opened) (h.received upstream opened)
    pub progress : Progress
    pub no_error : out.0 ≡ ok progress
    pub relayed : Relayed rules client upstream opened progress out.1
