-- ===== src/Proxy/Local.antt =====
-- `src/proxy/local.rs`: the local proxy finds the destination of a redirected connection and opens
-- the tunnel to it, with the relay between the two streams as far as some polls bring it.
pub mod Accept
pub mod Reach
pub mod Tunnel
use proxec.Base.{ℕ, Option, none, some, List, [], ◌∷◌}
use proxec.Base.Text.{Text}
use proxec.Error.{Error, IoError}
use proxec.Result.{Result, ok, err}
use proxec.Action.{Action, pure, ◌>>=◌, ◌>>◌}
use proxec.Net.{SocketAddr, IpAddr, ip, port}
use proxec.Os.{Os}
use proxec.Socket.{SocketInfo, SocketTracker, get_by_inode, get_by_pid_fd}
use proxec.Socket.ConnTable.{find_inode_by_conn, find_pid_fd_by_inode}
use proxec.Proxy.Tcp.{Tcp, fail}
use proxec.Proxy.Config.{ProxyProtocol, ProxyConfig}
use proxec.Proxy.Socks5.{Auth}
use proxec.Proxy.Socks5
use proxec.Proxy.Http
use proxec.Proxy.Relay.{Copy, Direction, Progress, unopened, relay}

-- What one attempt sees: the kernel when it looks for the connection, then the tracker that it
-- locks and the kernel at that time. Between attempts the tracer goes on.
pub record View (W : Type 0) : Type 0 where
  pub searched : W
  pub tracker : SocketTracker
  pub held : W

abbrev pub or_else : Option SocketAddr → Option SocketAddr → Option SocketAddr
or_else none later = later
or_else (some dest) later = some dest

abbrev pub dest_of : Option SocketInfo → Option SocketAddr
dest_of none = none
dest_of (some info) = some info.dest

module _ {W : Type 0} (sys : Os W) where
  -- By the inode, or else by the process and the descriptor that hold it.
  unfoldable pub dest_of_inode : Text → View W → Option SocketAddr
  dest_of_inode inode v = elim (get_by_inode sys inode v.tracker) [
    | some info ↦ some info.dest
    | none ↦ elim (find_pid_fd_by_inode sys inode v.held) [
      | none ↦ none
      | some (pid, fd) ↦ dest_of (get_by_pid_fd sys pid fd v.tracker)
    ]
  ]

  -- One attempt, for the addresses of the client and of the local end.
  unfoldable pub attempt : SocketAddr → SocketAddr → View W → Option SocketAddr
  unfolding dest_of_inode
  attempt client server v =
      elim (find_inode_by_conn sys (ip client) (port client) (ip server) (port server) v.searched) [
        | none ↦ none
        | some inode ↦ dest_of_inode inode v
      ]

  -- The attempts one after the other, until one has found the destination.
  unfoldable pub find_dest : SocketAddr → SocketAddr → List (View W) → Option SocketAddr
  unfolding attempt
  find_dest client server [] = none
  find_dest client server (v ∷ views) =
      or_else (attempt client server v) (find_dest client server views)

module _ {N F : Type 0} (tcp : Tcp N) (display : SocketAddr → Text) (base64 : List ℕ → Text)
    (from_utf8_lossy : List ℕ → Text) (copy : Copy N F) where
  abbrev pub open_upstream : ProxyProtocol → SocketAddr → SocketAddr → Auth → Action N ℕ
  open_upstream ProxyProtocol.http_connect proxy_addr dest auth =
      Http.connect display base64 tcp from_utf8_lossy proxy_addr dest auth
  open_upstream ProxyProtocol.socks5 proxy_addr dest auth = Socks5.connect tcp proxy_addr dest auth

  -- For the client's stream, and the polls of the relay.
  unfoldable pub proxy_connection :
      ℕ → ProxyConfig → SocketAddr → List Direction → Action N Progress
  unfolding Http.connect Socks5.connect relay
  proxy_connection client proxy dest polls = do
    upstream ← open_upstream proxy.protocol proxy.addr dest proxy.auth
    relay copy client upstream polls

  -- A connection with no destination is dropped, and that is no error.
  abbrev pub proxy_found : ℕ → ProxyConfig → List Direction → Option SocketAddr → Action N Progress
  proxy_found client proxy polls none = pure unopened
  proxy_found client proxy polls (some dest) = proxy_connection client proxy dest polls

  module _ {W : Type 0} (sys : Os W) where
    -- For the client's stream, with its local address, and the address of the client. There are
    -- three attempts.
    unfoldable pub handle_client :
        ℕ
        → Result IoError SocketAddr
        → SocketAddr
        → View W × View W × View W
        → ProxyConfig
        → List Direction
        → Action N Progress
    unfolding find_dest proxy_connection
    handle_client client (err e) client_addr views proxy polls = fail (Error.io e)
    handle_client client (ok server) client_addr (v, v', v'') proxy polls =
        proxy_found client proxy polls (find_dest sys client_addr server (v ∷ v' ∷ v'' ∷ []))
