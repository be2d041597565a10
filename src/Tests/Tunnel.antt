-- ===== src/Tests/Tunnel.antt =====
-- The relay of `src/proxy/local.rs` after the redirected `connect` of the examples: the client of a
-- pair of streams sends two bytes, and the server's first bytes of the tunnel are `hi`.
use proxec.Base.{ℕ, ◌≡◌, refl, ap, Eq-ℕ, Eq-pair, Eq-text, some, List, [], ◌∷◌, ◌++◌, arith}
use proxec.Base.Text.{codes}
use proxec.Error.{Error, IoError}
use proxec.Result.{ok, err}
use proxec.Base.HashMap
use proxec.Base.HashSet
use proxec.NoProxy.{should_bypass}
use proxec.Socket.{
  SocketTracker, SocketInfo, socket_enter, close_enter, is_stream_socket_fd, resolve_tgid,
  probe_socket_is_stream, read_socket_inode,
}
use proxec.Socket.Between.{Later, here, next, entered, closed, Leads, Later-Leads}
use proxec.Socket.Between.Bound.{Sole}
use proxec.Tracer.Memory.{read_sockaddr}
use proxec.Tracer.Connect.{handle_connect_enter}
use proxec.Proxy.Socks5
use proxec.Proxy.Relay.{Direction, client_to_proxy, proxy_to_client, Progress, relaying, relay}
use proxec.Proxy.Local.{View}
use proxec.Proxy.Relay.Carried.{Relayed, relay-Relayed}
use proxec.Proxy.Local.Accept.{debug, logged, run}
use proxec.Proxy.Local.Tunnel.{Tunnel}
use proxec.Tests.Kernel.{Bytes, kernel}
use proxec.Tests.Memory.{web, at_start}
use proxec.Tests.Connect.{cfg, connect_regs, start}
use proxec.Tests.Network.{nothing_yet}
use proxec.Tests.Pair.{Pair, pair, by_twos, by_twos_rules}
use proxec.Tests.Local.{client, upstream}
use proxec.Tests.Proxy.{proxy_addr, auth, server, server-IsBytes}

abbrev before : Pair
before = record { client = nothing_yet; upstream = nothing_yet }

abbrev connected : Pair
connected = (Socks5.connect (pair server) proxy_addr web auth before).1

abbrev polls : List Direction
polls = client_to_proxy ∷ proxy_to_client ∷ client_to_proxy ∷ proxy_to_client ∷ []

-- Both directions have carried two bytes, and both copies go on.
both_ways : (relay (by_twos server) 0 1 polls connected).0 ≡ ok relaying
unfolding relay Socks5.connect
both_ways = refl

client_has : (relay (by_twos server) 0 1 polls connected).1.client.sent ≡ b'h' ∷ b'i' ∷ []
unfolding relay Socks5.connect
client_has = refl

-- The copy of the client that has come to its end closes the relay, and the server's bytes, which
-- have been received, are not sent to the client.
half_closed :
    relay
      (by_twos server)
      0
      1
      (proxy_to_client ∷ client_to_proxy ∷ client_to_proxy ∷ client_to_proxy ∷ [])
      connected
    ≡ (
      ok (Progress.closed client_to_proxy (ok 0)),
      record {
        client = record { sent = []; read = 71 ∷ 69 ∷ [] };
        upstream = record {
          sent = connected.upstream.sent ++ 71 ∷ 69 ∷ [];
          read = connected.upstream.read ++ b'h' ∷ b'i' ∷ [];
        };
      },
    )
unfolding relay Socks5.connect
half_closed = refl

-- After the `connect` another process opens a socket, and the program closes descriptor 5.
abbrev connected_tracker : SocketTracker
connected_tracker = (handle_connect_enter kernel cfg 10 connect_regs (start web)).1.tracker

abbrev opened_elsewhere : SocketTracker
opened_elsewhere = socket_enter kernel 20 2 1 connected_tracker

abbrev later_view : View Bytes
later_view = record {
  searched = at_start web;
  tracker = close_enter kernel 10 5 (at_start web) opened_elsewhere;
  held = at_start web;
}

meanwhile : Later kernel (10, 3) (codes "77") connected_tracker later_view.tracker
unfolding handle_connect_enter HashMap.get read_sockaddr at_start should_bypass is_stream_socket_fd
    HashSet.contains resolve_tgid probe_socket_is_stream proxec.Tracer.Memory.write_sockaddr
    read_socket_inode proxec.Socket.insert_dest proxec.Socket.mark_stream_socket_fd HashMap.insert
meanwhile =
    next (next here (entered 20 2 1))
      (closed 10 5 (at_start web) (λ e. omega (arith, ap (λ (k : ℕ × ℕ). k.1) e)))

only_one : Sole (10, 3) (codes "77") connected_tracker.fd_inode
unfolding handle_connect_enter HashMap.get read_sockaddr at_start should_bypass is_stream_socket_fd
    HashSet.contains resolve_tgid probe_socket_is_stream proxec.Tracer.Memory.write_sockaddr
    read_socket_inode proxec.Socket.insert_dest proxec.Socket.mark_stream_socket_fd HashMap.insert
    proxec.Socket.bind_inode proxec.Socket.tgid_or_self
only_one = ((λ e. refl), tt)

-- Two clients are served, and the third accept fails.
served :
    run (ok (5, client) ∷ ok (6, client) ∷ err IoError.unexpected_eof ∷ ok (7, client) ∷ [])
    ≡ record {
      tasks = (5, client) ∷ (6, client) ∷ [];
      ended = some (Error.io IoError.unexpected_eof);
    }
unfolding run
served = refl

disconnected :
    logged {A = Progress}
      (λ e. codes "IO error: Broken pipe (os error 32)")
      (err (Error.io (IoError.os 32)))
    ≡ some debug
unfolding logged
disconnected = refl

relay-Relayed_example :
    (p : Progress) × ((relay (by_twos server) 0 1 polls connected).0 ≡ ok p)
    × Relayed
        (by_twos_rules server server-IsBytes)
        0
        1
        connected
        p
        (relay (by_twos server) 0 1 polls connected).1
relay-Relayed_example =
    relay-Relayed (by_twos_rules server server-IsBytes) 0 1 polls connected (λ e. omega (arith, e))

connected_tracker-Leads :
    Leads kernel (10, 3) (codes "77") (record { dest = web }) connected_tracker
unfolding handle_connect_enter HashMap.get read_sockaddr at_start should_bypass is_stream_socket_fd
    HashSet.contains resolve_tgid probe_socket_is_stream proxec.Tracer.Memory.write_sockaddr
    read_socket_inode proxec.Socket.insert_dest proxec.Socket.mark_stream_socket_fd HashMap.insert
    proxec.Socket.bind_inode proxec.Socket.tgid_or_self
connected_tracker-Leads = record { by_fd = refl; by_inode = refl; sole = only_one }

Later-Leads_example : Leads kernel (10, 3) (codes "77") (record { dest = web }) later_view.tracker
Later-Leads_example = Later-Leads kernel (10, 3) (codes "77") meanwhile connected_tracker-Leads
