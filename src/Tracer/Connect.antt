-- ===== src/Tracer/Connect.antt =====
-- `handle_connect_enter` of `src/tracer/trace_loop.rs`, in the order of its tests: the address, the
-- destinations that stay direct, the kind of the socket, and the redirection.
pub mod Plan
pub mod Direct
use proxec.Base.{ℕ, Bool, true, false, ◌&&◌, Option, none, some, nat_eq, if◌then◌else◌}
use proxec.Error.{Error, unknown_address_family, IoError}
use proxec.Action.{Action, pure, ◌>>=◌, ◌>>◌}
use proxec.Result.{Result, ok, err}
use proxec.Net.{SocketAddr, ip, port, is_v6, is_loopback, is_unspecified, addr_eq}
use proxec.NoProxy.{NoProxy, should_bypass}
use proxec.Os.{Os, Regs}
use proxec.Word.{as_i32}
use proxec.Socket.{
  SocketInfo, SocketTracker, is_stream_socket_fd, mark_stream_socket_fd, insert_dest, bind_inode,
  read_socket_inode, probe_socket_is_stream,
}
use proxec.Tracer.Arch.{get_syscall_arg, arg0, arg1, arg2}
use proxec.Tracer.Memory.{read_sockaddr, write_sockaddr}
use proxec.Tracer.State.{Config, Ctx, ThreadState, TraceStats, PendingConnectRestore, count}

abbrev pub eafnosupport : ℕ
eafnosupport = 97

module _ {W : Type 0} (sys : Os W) (cfg : Config) where
  abbrev pub Handler : Type 0
  Handler = Ctx W → Result Error (Unit {0}) × Ctx W

  -- Return after counting.
  abbrev counted : (TraceStats → TraceStats) → Handler
  counted f c = (ok tt, record c { stats = f c.stats })

  -- `insert_dest`, and `bind_inode` where the inode can be read.
  pub store_dest : ℕ → ℕ → SocketAddr → W → SocketTracker → SocketTracker
  store_dest pid fd dest w t =
      let t' = insert_dest sys pid fd (record { dest = dest }) w t in
      elim (read_socket_inode sys pid fd w) [
        | none ↦ t'
        | some inode ↦ bind_inode sys pid fd inode w t'
      ]

  -- The address in the memory is overwritten; the tracker keeps the destination also on an error.
  pub redirect : ℕ → ℕ → ℕ → SocketAddr → Handler
  unfolding store_dest
  redirect pid fd addr_ptr dest c =
      let t = store_dest pid fd dest c.world c.tracker in
      let (r, w) = write_sockaddr sys pid addr_ptr cfg.local_addr c.world in
      elim r [
        | err e ↦ (err e, record c { tracker = t; world = w })
        | ok _ ↦ (
          ok tt,
          record c {
            tracker = t;
            world = w;
            thread = record c.thread {
              pending_connect_restore = some (record { addr_ptr = addr_ptr; dest = dest });
            };
            stats = record c.stats { connect_rewritten = count c.stats.connect_rewritten };
          },
        )
      ]

  pub unless_upstream : ℕ → ℕ → ℕ → SocketAddr → Handler
  unfolding redirect
  unless_upstream pid fd addr_ptr dest c =
      if addr_eq dest cfg.proxy_addr
      then counted (λ s. record s { connect_upstream_skipped = count s.connect_upstream_skipped }) c
      else redirect pid fd addr_ptr dest c

  -- By the probe of a descriptor that is not tracked.
  pub after_probe : ℕ → ℕ → ℕ → SocketAddr → Result IoError Bool → Handler
  unfolding unless_upstream
  after_probe pid fd addr_ptr dest (ok true) c = unless_upstream pid fd addr_ptr dest (record c {
    stats = record c.stats { connect_stream_probed = count c.stats.connect_stream_probed };
    tracker = mark_stream_socket_fd sys pid fd c.world c.tracker;
  })
  after_probe pid fd addr_ptr dest (ok false) c =
      counted (λ s. record s { connect_non_stream_skipped = count s.connect_non_stream_skipped }) c
  after_probe pid fd addr_ptr dest (err e) c =
      counted (λ s. record s { connect_non_stream_skipped = count s.connect_non_stream_skipped }) c

  pub if_stream : ℕ → ℕ → ℕ → SocketAddr → Handler
  unfolding unless_upstream after_probe
  if_stream pid fd addr_ptr dest c =
      let (tracked, t) = is_stream_socket_fd sys pid fd c.world c.tracker in
      let c' = record c { tracker = t } in
      if tracked
      then unless_upstream pid fd addr_ptr dest c'
      else after_probe pid fd addr_ptr dest (probe_socket_is_stream sys pid fd c.world) c'

  -- The tests on the destination.
  pub connect_to : ℕ → ℕ → ℕ → SocketAddr → Handler
  unfolding if_stream
  connect_to pid fd addr_ptr dest c =
      if is_loopback (ip dest)
      then counted (λ s. record s { connect_loopback_skipped = count s.connect_loopback_skipped }) c
      else if is_unspecified (ip dest)
      then counted
          (λ s. record s { connect_unspecified_skipped = count s.connect_unspecified_skipped }) c
      else if nat_eq (port dest) 0
      then counted (λ s. record s { connect_port0_skipped = count s.connect_port0_skipped }) c
      else if should_bypass cfg.no_proxy dest
      then (ok tt, c)
      else if is_v6 dest && cfg.disable_ipv6
      then (
        ok tt,
        record c {
          stats = record c.stats { connect_ipv6_blocked = count c.stats.connect_ipv6_blocked };
          thread = record c.thread { forced_connect_errno = some eafnosupport };
        },
      )
      else if_stream pid fd addr_ptr dest c

  -- By the address that was read; another family passes through.
  pub with_dest : ℕ → ℕ → ℕ → Result Error SocketAddr → Handler
  unfolding connect_to
  with_dest pid fd addr_ptr (ok dest) c = connect_to pid fd addr_ptr dest c
  with_dest pid fd addr_ptr (err (unknown_address_family family)) c =
      counted
        (λ s. record s { connect_unknown_family_skipped = count s.connect_unknown_family_skipped })
        c
  with_dest pid fd addr_ptr (err e) c = (err e, c)

  unfoldable pub handle_connect_enter : ℕ → Regs → Handler
  unfolding with_dest
  handle_connect_enter pid regs c =
      let sockfd = as_i32 (get_syscall_arg regs arg0) in
      let addr_ptr = get_syscall_arg regs arg1 in
      let addrlen = get_syscall_arg regs arg2 in
      let c' = record c {
        stats = record c.stats { connect_seen = count c.stats.connect_seen };
        thread = record c.thread { pending_connect_restore = none };
      } in
      with_dest pid sockfd addr_ptr (read_sockaddr sys pid addr_ptr addrlen c.world) c'
