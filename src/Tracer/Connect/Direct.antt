-- ===== src/Tracer/Connect/Direct.antt =====
-- That `handle_connect_enter` of `src/tracer/trace_loop.rs` follows the plan for its destination.
use proxec.Base.{
  ℕ, ◌≡◌, refl, ap, ◌∙◌, inl, inr, Bool, true, false, not, ◌&&◌, Option, none, some, nat_eq,
  Bool-cases, Eq-pair, Eq-text, Eq-ℕ,
}
use proxec.Error.{Error, IoError}
use proxec.Result.{Result, ok, err}
use proxec.Net.{SocketAddr, ip, port, is_v6, is_loopback, is_unspecified, addr_eq}
use proxec.NoProxy.{should_bypass}
use proxec.Os.{Os, Regs}
use proxec.Word.{as_i32}
use proxec.Socket.{is_stream_socket_fd, probe_socket_is_stream}
use proxec.Socket.Stream.{group_of, is_stream_socket_fd-group, mark_stream_socket_fd-group}
use proxec.Tracer.Memory.{read_sockaddr}
use proxec.Tracer.State.{Config, Ctx, count}
use proxec.Tracer.Connect.{
  handle_connect_enter, connect_to, if_stream, after_probe, unless_upstream, eafnosupport,
}
use proxec.Tracer.Connect.Plan.{
  Plan, pass, block, divert, divert_or_pass, says_stream, is_stream, plan, SameDests, Untouched,
  Effect, redirect-Diverted, Diverted-tracker, SameDests-refl, SameDests-trans, SameDests-mark,
  Untouched-counted, SameDests-is_stream,
}

module _ {W : Type 0} (sys : Os W) (cfg : Config) where
  -- The context after the look at the stream sockets.
  abbrev looked : ℕ → ℕ → Ctx W → Ctx W
  looked pid fd c = record c { tracker = (is_stream_socket_fd sys pid fd c.world c.tracker).1 }

  abbrev not_upstream : SocketAddr → Bool
  not_upstream dest = not (addr_eq dest cfg.proxy_addr)

  unless_upstream-Effect :
      (pid fd addr_ptr : ℕ) (dest : SocketAddr) (c c' : Ctx W)
      → c'.world ≡ c.world
      → c'.thread ≡ c.thread
      → c.thread.pending_connect_restore ≡ none
      → SameDests sys cfg c.tracker c'.tracker
      → group_of sys pid c.world c'.tracker ≡ group_of sys pid c.world c.tracker
      → Effect sys cfg
          (divert_or_pass (not_upstream dest))
          pid
          fd
          addr_ptr
          dest
          c
          (unless_upstream sys cfg pid fd addr_ptr dest c')
  unfolding unless_upstream
  unless_upstream-Effect pid fd addr_ptr dest c c' same thread clear dests group =
      elim (Bool-cases (addr_eq dest cfg.proxy_addr)) [
        | inl upstream ↦ rw upstream (record {
          done = refl;
          world = same;
          restore = ap (λ t. t.pending_connect_restore) thread ∙ clear;
          forced = ap (λ t. t.forced_connect_errno) thread;
          dests = dests;
        })
        | inr other ↦ rw other (
            Diverted-tracker sys cfg pid fd addr_ptr dest c c' _ same
              (ap (λ t. t.forced_connect_errno) thread) group
              (redirect-Diverted sys cfg pid fd addr_ptr dest c'))
      ]

  after_probe-Effect :
      (pid fd addr_ptr : ℕ) (dest : SocketAddr) (c : Ctx W) (probe : Result IoError Bool)
      → c.thread.pending_connect_restore ≡ none
      → Effect sys cfg
          (divert_or_pass (says_stream probe && not_upstream dest))
          pid
          fd
          addr_ptr
          dest
          c
          (after_probe sys cfg pid fd addr_ptr dest probe (looked pid fd c))
  unfolding after_probe
  after_probe-Effect pid fd addr_ptr dest c (ok true) clear =
      let t = (is_stream_socket_fd sys pid fd c.world c.tracker).1 in
      unless_upstream-Effect pid fd addr_ptr dest c _ refl refl clear
        (SameDests-trans sys cfg c.tracker t _
          (SameDests-is_stream sys cfg pid fd c.world c.tracker)
          (SameDests-mark sys cfg pid fd c.world t))
        (mark_stream_socket_fd-group sys pid fd c.world t
          ∙ is_stream_socket_fd-group sys pid fd c.world c.tracker)
  after_probe-Effect pid fd addr_ptr dest c (ok false) clear =
      Untouched-counted sys cfg c _ _ clear (SameDests-is_stream sys cfg pid fd c.world c.tracker)
  after_probe-Effect pid fd addr_ptr dest c (err e) clear =
      Untouched-counted sys cfg c _ _ clear (SameDests-is_stream sys cfg pid fd c.world c.tracker)

  if_stream-Effect :
      (pid fd addr_ptr : ℕ) (dest : SocketAddr) (c : Ctx W)
      → c.thread.pending_connect_restore ≡ none
      → Effect sys cfg
          (divert_or_pass (is_stream sys cfg pid fd c && not_upstream dest))
          pid
          fd
          addr_ptr
          dest
          c
          (if_stream sys cfg pid fd addr_ptr dest c)
  unfolding if_stream
  if_stream-Effect pid fd addr_ptr dest c clear =
      elim (Bool-cases (is_stream_socket_fd sys pid fd c.world c.tracker).0) [
        | inl tracked ↦ rw tracked (
            unless_upstream-Effect pid fd addr_ptr dest c (looked pid fd c) refl refl clear
              (SameDests-is_stream sys cfg pid fd c.world c.tracker)
              (is_stream_socket_fd-group sys pid fd c.world c.tracker))
        | inr untracked ↦ rw untracked (
            after_probe-Effect pid fd addr_ptr dest c (probe_socket_is_stream sys pid fd c.world)
              clear)
      ]

  -- The rest of the tests on the destination.
  connect_to-Effect :
      (pid fd addr_ptr : ℕ) (dest : SocketAddr) (c : Ctx W)
      → c.thread.pending_connect_restore ≡ none
      → Effect sys cfg
          (plan sys cfg pid fd dest c)
          pid
          fd
          addr_ptr
          dest
          c
          (connect_to sys cfg pid fd addr_ptr dest c)
  unfolding connect_to plan
  connect_to-Effect pid fd addr_ptr dest c clear = elim (Bool-cases (is_loopback (ip dest))) [
    | inl e ↦
        rw e (Untouched-counted sys cfg c c.tracker _ clear (SameDests-refl sys cfg c.tracker))
    | inr a ↦ rw a (elim (Bool-cases (is_unspecified (ip dest))) [
      | inl e ↦
          rw e (Untouched-counted sys cfg c c.tracker _ clear (SameDests-refl sys cfg c.tracker))
      | inr b ↦ rw b (elim (Bool-cases (nat_eq (port dest) 0)) [
        | inl e ↦
            rw e (Untouched-counted sys cfg c c.tracker _ clear (SameDests-refl sys cfg c.tracker))
        | inr d ↦ rw d (elim (Bool-cases (should_bypass cfg.no_proxy dest)) [
          | inl e ↦
              rw e
                (Untouched-counted sys cfg c c.tracker _ clear (SameDests-refl sys cfg c.tracker))
          | inr f ↦ rw f (elim (Bool-cases (is_v6 dest && cfg.disable_ipv6)) [
            | inl e ↦ rw e (record {
              done = refl;
              world = refl;
              restore = clear;
              forced = refl;
              dests = SameDests-refl sys cfg c.tracker;
            })
            | inr g ↦ rw g (if_stream-Effect pid fd addr_ptr dest c clear)
          ])
        ])
      ])
    ])
  ]

  -- The context that the tests start from.
  abbrev entered : Ctx W → Ctx W
  entered c = record c {
    stats = record c.stats { connect_seen = count c.stats.connect_seen };
    thread = record c.thread { pending_connect_restore = none };
  }

  Untouched-entered :
      (errno : Option ℕ) (c : Ctx W) (r : Result Error (Unit {0}) × Ctx W)
      → Untouched sys cfg errno (entered c) r
      → Untouched sys cfg errno c r
  Untouched-entered errno c r u = record {
    done = u.done;
    world = u.world;
    restore = u.restore;
    forced = u.forced;
    dests = u.dests;
  }

  Effect-entered :
      (p : Plan) (pid fd addr_ptr : ℕ) (dest : SocketAddr) (c : Ctx W)
      (r : Result Error (Unit {0}) × Ctx W)
      → Effect sys cfg p pid fd addr_ptr dest (entered c) r
      → Effect sys cfg p pid fd addr_ptr dest c r
  Effect-entered pass pid fd addr_ptr dest c r u =
      Untouched-entered c.thread.forced_connect_errno c r u
  Effect-entered block pid fd addr_ptr dest c r u = Untouched-entered (some eafnosupport) c r u
  Effect-entered divert pid fd addr_ptr dest c r d =
      Diverted-tracker sys cfg pid fd addr_ptr dest c (entered c) r refl refl refl d

  -- A `connect` whose address can be read goes by the plan. It passes with the memory and the
  -- destinations untouched if the destination is loopback, unspecified, of port 0 or under a
  -- no-proxy rule. If not, and it is IPv6 with IPv6 disabled, the memory and the destinations stay
  -- and EAFNOSUPPORT is noted, whatever the kind of the socket. If not, it passes if the socket is
  -- no stream socket or the destination is the upstream proxy. Any other is redirected: the memory
  -- becomes what `write_sockaddr` makes of it with the local address, the result is that of the
  -- write, the destination is found by descriptor and, where the inode can be read, by inode, and
  -- if the write succeeded the address is noted for the restoration.
  pub handle_connect_enter-Effect :
      (pid : ℕ) (regs : Regs) (dest : SocketAddr) (c : Ctx W)
      → read_sockaddr sys pid regs.rsi regs.rdx c.world ≡ ok dest
      → Effect sys cfg
          (plan sys cfg pid (as_i32 regs.rdi) dest c)
          pid
          (as_i32 regs.rdi)
          regs.rsi
          dest
          c
          (handle_connect_enter sys cfg pid regs c)
  unfolding handle_connect_enter plan
  handle_connect_enter-Effect pid regs dest c e = rw e (
      Effect-entered (plan sys cfg pid (as_i32 regs.rdi) dest c) pid (as_i32 regs.rdi) regs.rsi dest
        c _ (connect_to-Effect pid (as_i32 regs.rdi) regs.rsi dest (entered c) refl))
