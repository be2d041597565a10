-- ===== src/Proxy/Tcp.antt =====
-- What src/proxy calls of `tokio::net::TcpStream`: connections by number over a state of the
-- network, the errors as the code maps them, and rules for what a connection has sent and received.
pub mod Outcome
pub mod Peer
pub mod Dial
use proxec.Base.{ℕ, List}
use proxec.Error.{Error, IoError}
use proxec.Result.{Result, ok, err, map_err}
use proxec.Action.{Action}
use proxec.Net.{SocketAddr}

pub record Tcp (W : Type 0) : Type 0 where
  pub connect : SocketAddr → W → Result IoError ℕ × W
  pub write_all : ℕ → List ℕ → W → Result IoError (Unit {0}) × W
  -- As many bytes as asked for, or an error.
  pub read_exact : ℕ → ℕ → W → Result IoError (List ℕ) × W
  -- The bytes that are there, of the number asked for at most; none at the end.
  pub read : ℕ → ℕ → W → Result IoError (List ℕ) × W

-- `.await.map_err(Error::ProxyConnect)?`.
abbrev proxied : {W A : Type 0} → (W → Result IoError A × W) → Action W A
proxied call w = let (r, w') = call w in (map_err Error.proxy_connect r, w')

abbrev pub fail : {W A : Type 0} → Error → Action W A
fail e w = (err e, w)

module _ {W : Type 0} (tcp : Tcp W) where
  abbrev pub dial : SocketAddr → Action W ℕ
  dial addr = proxied (tcp.connect addr)

  abbrev pub send : ℕ → List ℕ → Action W (Unit {0})
  send stream bytes = proxied (tcp.write_all stream bytes)

  abbrev pub receive_exact : ℕ → ℕ → Action W (List ℕ)
  receive_exact stream n = proxied (tcp.read_exact stream n)

  abbrev pub receive : ℕ → ℕ → Action W (List ℕ)
  receive stream n = proxied (tcp.read stream n)
