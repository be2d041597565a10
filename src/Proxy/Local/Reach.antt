-- ===== src/Proxy/Local/Reach.antt =====
-- From the `connect` of the traced program to the handshake with the upstream proxy: the destination
-- that `src/tracer/trace_loop.rs` records is the one that `src/proxy/local.rs` finds and asks for.
use proxec.Base.{ℕ, ◌≡◌, refl, ap, ◌∙◌, ◌⊎◌, inl, inr, Option, none, some, List, [], ◌∷◌}
use proxec.Base.Text.{Text}
use proxec.Result.{ok}
use proxec.Action.{Action, ◌>>=◌}
use proxec.Net.{SocketAddr, IsAddr, ip, port}
use proxec.Os.{Os, Regs}
use proxec.Word.{as_i32}
use proxec.Socket.{SocketInfo, get_by_inode, get_by_pid_fd, read_socket_inode}
use proxec.Socket.ConnTable.{find_inode_by_conn, find_pid_fd_by_inode}
use proxec.Socket.Stream.{group_of}
use proxec.Tracer.State.{Config, Ctx}
use proxec.Tracer.Memory.{read_sockaddr}
use proxec.Tracer.Connect.{handle_connect_enter}
use proxec.Tracer.Connect.Plan.{divert, plan, Diverted}
use proxec.Tracer.Connect.Direct.{handle_connect_enter-Effect}
use proxec.Proxy.Tcp.{Tcp}
use proxec.Proxy.Tcp.Outcome.{History}
use proxec.Proxy.Config.{ProxyConfig, ProxyProtocol}
use proxec.Proxy.Socks5
use proxec.Proxy.Socks5.Handshake.{Agreed, connect-Agreed}
use proxec.Proxy.Relay.{Copy, Direction, Progress, relay}
use proxec.Proxy.Local.{
  View, or_else, attempt, find_dest, dest_of_inode, handle_client, open_upstream, proxy_connection,
  proxy_found,
}

module _ {W : Type 0} (sys : Os W) where
  -- `v` is the view of the first attempt that finds a destination.
  abbrev pub FirstAt : SocketAddr → SocketAddr → View W → View W × View W × View W → Type 0
  FirstAt client server v (a, b, c) =
      (a ≡ v)
      ⊎ ((attempt sys client server a ≡ none) × (b ≡ v))
      ⊎ ((attempt sys client server a ≡ none) × (attempt sys client server b ≡ none) × (c ≡ v))

  find_dest-FirstAt :
      (client server : SocketAddr) (v a b c : View W) (dest : SocketAddr)
      → attempt sys client server v ≡ some dest
      → FirstAt client server v (a, b, c)
      → find_dest sys client server (a ∷ b ∷ c ∷ []) ≡ some dest
  unfolding find_dest
  find_dest-FirstAt client server v a b c dest e place =
      let try : View W → Option SocketAddr = attempt sys client server in
      elim place [
        | inl first ↦
            ap (λ o. or_else o (or_else (try b) (or_else (try c) none))) (ap try first ∙ e)
        | inr (inl (missed, second)) ↦
            ap (λ o. or_else o (or_else (try b) (or_else (try c) none))) missed
            ∙ ap (λ o. or_else o (or_else (try c) none)) (ap try second ∙ e)
        | inr (inr (missed, missed', third)) ↦
            ap (λ o. or_else o (or_else (try b) (or_else (try c) none))) missed
            ∙ ap (λ o. or_else o (or_else (try c) none)) missed'
            ∙ ap (λ o. or_else o none) (ap try third ∙ e)
      ]

  attempt_by_inode :
      (client server : SocketAddr) (v : View W) (inode : Text) (info : SocketInfo)
      → find_inode_by_conn sys (ip client) (port client) (ip server) (port server) v.searched
        ≡ some inode
      → get_by_inode sys inode v.tracker ≡ some info
      → attempt sys client server v ≡ some info.dest
  unfolding attempt dest_of_inode
  attempt_by_inode client server v inode info e f = rw (e, f, attempt, dest_of_inode) refl

  attempt_by_descriptor :
      (client server : SocketAddr) (v : View W) (inode : Text) (pid fd : ℕ) (info : SocketInfo)
      → find_inode_by_conn sys (ip client) (port client) (ip server) (port server) v.searched
        ≡ some inode
      → get_by_inode sys inode v.tracker ≡ none
      → find_pid_fd_by_inode sys inode v.held ≡ some (pid, fd)
      → get_by_pid_fd sys pid fd v.tracker ≡ some info
      → attempt sys client server v ≡ some info.dest
  unfolding attempt dest_of_inode
  attempt_by_descriptor client server v inode pid fd info e none_by_inode owner f =
      rw (e, none_by_inode, owner, f, attempt, dest_of_inode) refl

module _ {W N F : Type 0} (sys : Os W) (cfg : Config) (tcp : Tcp N) (display : SocketAddr → Text)
    (base64 : List ℕ → Text) (from_utf8_lossy : List ℕ → Text) (copy : Copy N F) where
  -- The connection of a client whose inode leads to a destination in the tracker.
  pub handle_client_stored :
      (dest : SocketAddr) (inode : Text) (client server : SocketAddr) (v : View W)
      (views : View W × View W × View W) (stream : ℕ) (proxy : ProxyConfig) (polls : List Direction)
      (n : N)
      → get_by_inode sys inode v.tracker ≡ some (record { dest = dest })
      → find_inode_by_conn sys (ip client) (port client) (ip server) (port server) v.searched
        ≡ some inode
      → FirstAt sys client server v views
      → handle_client tcp display base64 from_utf8_lossy copy sys stream
          (ok server)
          client
          views
          proxy
          polls
          n
        ≡ proxy_connection tcp display base64 from_utf8_lossy copy stream proxy dest polls n
  unfolding handle_client
  handle_client_stored dest inode client server v (a, b, d) stream proxy polls n stored shown
        place =
      let found =
        find_dest-FirstAt sys client server v a b d dest
          (attempt_by_inode sys client server v inode _ shown stored) place in
      ap (λ o. proxy_found tcp display base64 from_utf8_lossy copy stream proxy polls o n) found

  -- With a stream that either protocol has opened, the relay follows on it.
  pub proxy_connection-relay :
      (dest : SocketAddr) (stream : ℕ) (proxy : ProxyConfig) (polls : List Direction) (n : N)
      (upstream : ℕ)
      → (let opening =
            open_upstream tcp display base64 from_utf8_lossy copy proxy.protocol proxy.addr dest
              proxy.auth n in
          opening.0 ≡ ok upstream
          → proxy_connection tcp display base64 from_utf8_lossy copy stream proxy dest polls n
            ≡ relay copy stream upstream polls opening.1)
  unfolding proxy_connection
  proxy_connection-relay dest stream proxy polls n upstream returned =
      let n' : N =
        (open_upstream tcp display base64 from_utf8_lossy copy proxy.protocol proxy.addr dest
          proxy.auth n).1 in
      ap (λ r. ((λ _. (r, n')) >>= relay_on) n) returned
    where
      relay_on : ℕ → Action N Progress
      relay_on opened = relay copy stream opened polls

  -- With an upstream handshake by SOCKS5 that has returned a stream, the relay follows on it.
  pub proxy_connection-socks :
      (dest : SocketAddr) (stream : ℕ) (proxy : ProxyConfig) (polls : List Direction) (n : N)
      (upstream : ℕ)
      → proxy.protocol ≡ ProxyProtocol.socks5
      → (Socks5.connect tcp proxy.addr dest proxy.auth n).0 ≡ ok upstream
      → proxy_connection tcp display base64 from_utf8_lossy copy stream proxy dest polls n
        ≡ relay copy stream upstream polls (Socks5.connect tcp proxy.addr dest proxy.auth n).1
  unfolding proxy_connection
  proxy_connection-socks dest stream proxy polls n upstream socks returned =
      let n' : N = (Socks5.connect tcp proxy.addr dest proxy.auth n).1 in
      ap
        (λ p.
          (open_upstream tcp display base64 from_utf8_lossy copy p proxy.addr dest proxy.auth
              >>= relay_on)
            n)
        socks
      ∙ ap (λ r. ((λ _. (r, n')) >>= relay_on) n) returned
    where
      relay_on : ℕ → Action N Progress
      relay_on opened = relay copy stream opened polls

  -- A `connect` that the tracer redirects, of a socket whose inode can be read, is one whose
  -- connection the local proxy opens for the program's destination: if at one of the three attempts
  -- the table of connections shows that inode and the tracker is as the redirection left it, and the
  -- attempts before it found nothing.
  pub handle_client-redirected :
      (pid : ℕ) (regs : Regs) (dest : SocketAddr) (c : Ctx W) (inode : Text)
      (client server : SocketAddr) (v : View W) (views : View W × View W × View W) (stream : ℕ)
      (proxy : ProxyConfig) (polls : List Direction) (n : N)
      → read_sockaddr sys pid regs.rsi regs.rdx c.world ≡ ok dest
      → plan sys cfg pid (as_i32 regs.rdi) dest c ≡ divert
      → read_socket_inode sys pid (as_i32 regs.rdi) c.world ≡ some inode
      → v.tracker ≡ (handle_connect_enter sys cfg pid regs c).1.tracker
      → find_inode_by_conn sys (ip client) (port client) (ip server) (port server) v.searched
        ≡ some inode
      → FirstAt sys client server v views
      → handle_client tcp display base64 from_utf8_lossy copy sys stream
          (ok server)
          client
          views
          proxy
          polls
          n
        ≡ proxy_connection tcp display base64 from_utf8_lossy copy stream proxy dest polls n
  handle_client-redirected pid regs dest c inode client server v views stream proxy polls n read
        diverts has_inode tracked shown place =
      let effect : Diverted sys cfg pid (as_i32 regs.rdi) regs.rsi dest c
          (handle_connect_enter sys cfg pid regs c) =
        rw diverts at (handle_connect_enter-Effect sys cfg pid regs dest c read) in
      handle_client_stored dest inode client server v views stream proxy polls n
        (rw tracked (effect.by_inode inode has_inode)) shown place

  -- The inode of the socket need not have been read at the `connect`: if the tracker has no
  -- destination for the inode that the table shows, and the search in `/proc` finds the process of
  -- the redirected socket and its descriptor, the connection is opened for the program's destination
  -- as well.
  pub handle_client_by_descriptor :
      (pid : ℕ) (regs : Regs) (dest : SocketAddr) (c : Ctx W) (inode : Text)
      (client server : SocketAddr) (v : View W) (views : View W × View W × View W) (stream : ℕ)
      (proxy : ProxyConfig) (polls : List Direction) (n : N)
      → read_sockaddr sys pid regs.rsi regs.rdx c.world ≡ ok dest
      → plan sys cfg pid (as_i32 regs.rdi) dest c ≡ divert
      → v.tracker ≡ (handle_connect_enter sys cfg pid regs c).1.tracker
      → find_inode_by_conn sys (ip client) (port client) (ip server) (port server) v.searched
        ≡ some inode
      → get_by_inode sys inode v.tracker ≡ none
      → find_pid_fd_by_inode sys inode v.held
        ≡ some (group_of sys pid c.world c.tracker, as_i32 regs.rdi)
      → FirstAt sys client server v views
      → handle_client tcp display base64 from_utf8_lossy copy sys stream
          (ok server)
          client
          views
          proxy
          polls
          n
        ≡ proxy_connection tcp display base64 from_utf8_lossy copy stream proxy dest polls n
  unfolding handle_client
  handle_client_by_descriptor pid regs dest c inode client server v (a, b, d) stream proxy polls n
        read diverts tracked shown none_by_inode owner place =
      let fd : ℕ = as_i32 regs.rdi in
      let effect : Diverted sys cfg pid fd regs.rsi dest c
          (handle_connect_enter sys cfg pid regs c) =
        rw diverts at (handle_connect_enter-Effect sys cfg pid regs dest c read) in
      let stored : get_by_pid_fd sys (group_of sys pid c.world c.tracker) fd v.tracker
          ≡ some (record { dest = dest }) =
        rw tracked effect.by_fd in
      let found =
        find_dest-FirstAt sys client server v a b d dest
          (attempt_by_descriptor sys client server v inode _ fd _ shown none_by_inode owner stored)
          place in
      ap (λ o. proxy_found tcp display base64 from_utf8_lossy copy stream proxy polls o n) found

  -- The whole way of a connection: the tracer redirects a `connect` of a socket whose inode can be
  -- read; at one of the three attempts of the local proxy the table of connections shows that inode
  -- and the tracker is as the redirection left it, the attempts before it having found nothing; and
  -- the handshake with the upstream proxy, by SOCKS5, returns a stream; the numbers of the
  -- destination fit an address. Then what `handle_client` returns, and the network that it leaves,
  -- are those of the relay on that stream, and what went over it before is, as a server reads it, a complete handshake for the destination that the
  -- program passed to `connect`.
  pub handle_client-Agreed :
      (h : History tcp) (pid : ℕ) (regs : Regs) (dest : SocketAddr) (c : Ctx W) (inode : Text)
      (client server : SocketAddr) (v : View W) (views : View W × View W × View W) (stream : ℕ)
      (proxy : ProxyConfig) (polls : List Direction) (n : N) (upstream : ℕ)
      → IsAddr dest
      → read_sockaddr sys pid regs.rsi regs.rdx c.world ≡ ok dest
      → plan sys cfg pid (as_i32 regs.rdi) dest c ≡ divert
      → read_socket_inode sys pid (as_i32 regs.rdi) c.world ≡ some inode
      → v.tracker ≡ (handle_connect_enter sys cfg pid regs c).1.tracker
      → find_inode_by_conn sys (ip client) (port client) (ip server) (port server) v.searched
        ≡ some inode
      → FirstAt sys client server v views
      → proxy.protocol ≡ ProxyProtocol.socks5
      → (Socks5.connect tcp proxy.addr dest proxy.auth n).0 ≡ ok upstream
      → let n' = (Socks5.connect tcp proxy.addr dest proxy.auth n).1 in
        (handle_client tcp display base64 from_utf8_lossy copy sys stream
            (ok server)
            client
            views
            proxy
            polls
            n
          ≡ relay copy stream upstream polls n')
        × Agreed dest proxy.auth (h.sent upstream n') (h.received upstream n')
  handle_client-Agreed h pid regs dest c inode client server v views stream proxy polls n upstream
        fits read diverts has_inode tracked shown place socks returned =
      (
        handle_client-redirected pid regs dest c inode client server v views stream proxy polls n
              read diverts has_inode tracked shown place
            ∙ proxy_connection-socks dest stream proxy polls n upstream socks returned,
        connect-Agreed h dest proxy.auth proxy.addr n upstream fits returned,
      )
