-- ===== src/Tracer/Syscall/Restore.antt =====
-- A whole `connect` in `src/tracer/trace_loop.rs`: its entry by `handle_connect_enter` and its exit by
-- `handle_syscall_exit`, on the memory of the traced process.
use proxec.Base.{ℕ, ◌+◌, ◌-◌, ◌<◌, ◌^◌, ◌≡◌, ap, ◌∙◌, false, none, some, arith, nat_eq}
use mathlib.Core.Path.{subst}
use proxec.Error.{Error}
use proxec.Result.{Result, ok}
use proxec.Net.{SocketAddr, IsAddr}
use proxec.Os.{Os, Regs}
use proxec.Word.{as_i32, neg64}
use proxec.Tracer.Arch.{socket_nr, set_return_value}
use proxec.Tracer.Memory.{read_sockaddr, write_sockaddr}
use proxec.Tracer.Memory.Laws.{Memory}
use proxec.Tracer.Memory.Layout.{without_scope}
use proxec.Tracer.Memory.Write.{IsMapped}
use proxec.Tracer.Memory.Sockaddr.{
  write_sockaddr-IsWritten, read_sockaddr-write_sockaddr, read_sockaddr_restored,
}
use proxec.Tracer.State.{Config, Ctx}
use proxec.Tracer.Connect.{handle_connect_enter, eafnosupport}
use proxec.Tracer.Connect.Plan.{block, divert, plan, Effect}
use proxec.Tracer.Connect.Direct.{handle_connect_enter-Effect}
use proxec.Tracer.Syscall.{handle_syscall_exit}

module _ {W : Type 0} (sys : Os W) (cfg : Config) (pid : ℕ) where
  abbrev entry : Regs → Ctx W → Result Error (Unit {0}) × Ctx W
  entry regs c = handle_connect_enter sys cfg pid regs c

  abbrev exit : Regs → Ctx W → Result Error (Unit {0}) × Ctx W
  exit regs c = handle_syscall_exit sys cfg pid regs c

  -- The exit of a call other than `socket` that has an address to restore and no error to force.
  exit_restores :
      (regs : Regs) (a : ℕ) (dest : SocketAddr) (c : Ctx W)
      → nat_eq regs.orig_rax socket_nr ≡ false
      → c.thread.pending_connect_restore ≡ some (record { addr_ptr = a; dest = dest })
      → c.thread.forced_connect_errno ≡ none
      → (write_sockaddr sys pid a dest c.world).0 ≡ ok tt
      → ((exit regs c).0 ≡ ok tt)
        × ((exit regs c).1.world ≡ (write_sockaddr sys pid a dest c.world).1)
        × ((exit regs c).1.thread.pending_connect_restore ≡ none)
  unfolding handle_syscall_exit
  exit_restores regs a dest c other pending unforced written = ground arith

  -- A blocked `connect`: the memory is never written, and at the exit the call's result becomes
  -- -EAFNOSUPPORT in the registers of the thread.
  pub connect_blocked :
      (regs regs' : Regs) (dest : SocketAddr) (c : Ctx W)
      → read_sockaddr sys pid regs.rsi regs.rdx c.world ≡ ok dest
      → plan sys cfg pid (as_i32 regs.rdi) dest c ≡ block
      → nat_eq regs'.orig_rax socket_nr ≡ false
      → let c1 = (handle_connect_enter sys cfg pid regs c).1 in
        let c2 = (handle_syscall_exit sys cfg pid regs' c1).1 in
        (c1.world ≡ c.world)
        × (c2.world ≡ (sys.ptrace_setregs pid (set_return_value regs' (2 ^ 64 - 97)) c.world).1)
        × (c2.thread.forced_connect_errno ≡ none)
  connect_blocked regs regs' dest c readable blocked other =
      let u =
        subst (λ p. Effect sys cfg p pid (as_i32 regs.rdi) regs.rsi dest c (entry regs c)) blocked
          (handle_connect_enter-Effect sys cfg pid regs dest c readable) in
      let out = exit_forces regs' eafnosupport (entry regs c).1 other u.restore u.forced in
      (
        u.world,
        out.0
            ∙ ap (λ w. (sys.ptrace_setregs pid (set_return_value regs' (2 ^ 64 - 97)) w).1) u.world,
        out.1,
      )
    where
      exit_forces :
          (regs : Regs) (errno : ℕ) (c : Ctx W)
          → nat_eq regs.orig_rax socket_nr ≡ false
          → c.thread.pending_connect_restore ≡ none
          → c.thread.forced_connect_errno ≡ some errno
          → ((exit regs c).1.world
              ≡ (sys.ptrace_setregs pid (set_return_value regs (neg64 errno)) c.world).1)
            × ((exit regs c).1.thread.forced_connect_errno ≡ none)
      exit_forces regs errno c other pending forced = unfold handle_syscall_exit in ground arith

  module _ (m : Memory sys pid) where
    -- A redirected `connect`, from its entry to its exit, with its address in 32 mapped bytes and no
    -- error to force: while the kernel runs the call the address is that of the local proxy, up to
    -- an IPv6 scope; afterwards the program reads the address that it passed, and nothing is left
    -- to restore. Both handlers succeed.
    pub connect_restored :
        (regs regs' : Regs) (dest : SocketAddr) (c : Ctx W)
        → regs.rsi + 64 < 2 ^ 64
        → IsMapped sys pid m regs.rsi 32 c.world
        → IsAddr cfg.local_addr
        → read_sockaddr sys pid regs.rsi regs.rdx c.world ≡ ok dest
        → plan sys cfg pid (as_i32 regs.rdi) dest c ≡ divert
        → c.thread.forced_connect_errno ≡ none
        → nat_eq regs'.orig_rax socket_nr ≡ false
        → let c1 = (handle_connect_enter sys cfg pid regs c).1 in
          let c2 = (handle_syscall_exit sys cfg pid regs' c1).1 in
          ((handle_connect_enter sys cfg pid regs c).0 ≡ ok tt)
          × (read_sockaddr sys pid regs.rsi regs.rdx c1.world ≡ ok (without_scope cfg.local_addr))
          × ((handle_syscall_exit sys cfg pid regs' c1).0 ≡ ok tt)
          × (read_sockaddr sys pid regs.rsi regs.rdx c2.world ≡ ok dest)
          × (c2.thread.pending_connect_restore ≡ none)
    connect_restored regs regs' dest c fits there local readable diverted unforced other =
        let d =
          subst (λ p. Effect sys cfg p pid (as_i32 regs.rdi) regs.rsi dest c (entry regs c))
            diverted (handle_connect_enter-Effect sys cfg pid regs dest c readable) in
        let done =
          d.result
          ∙ (write_sockaddr-IsWritten sys pid m regs.rsi fits cfg.local_addr c.world there).done in
        let c1 = (entry regs c).1 in
        let there1 : IsMapped sys pid m regs.rsi 32 c1.world = λ k l.
          ap (λ w. m.mapped (regs.rsi + k) w) d.world
          ∙ (write_sockaddr-IsWritten sys pid m regs.rsi fits cfg.local_addr c.world there).mappings
              (regs.rsi + k)
          ∙ there k l in
        let out =
          exit_restores regs' regs.rsi dest c1 other (d.restore done) (d.forced ∙ unforced)
            (write_sockaddr-IsWritten sys pid m regs.rsi fits dest c1.world there1).done in
        (
          done,
          ap (read_sockaddr sys pid regs.rsi regs.rdx) d.world
              ∙ read_sockaddr-write_sockaddr sys pid m regs.rsi fits cfg.local_addr regs.rdx c.world
                  local there,
          out.0,
          ap (read_sockaddr sys pid regs.rsi regs.rdx)
                (out.1 ∙ ap (λ w. (write_sockaddr sys pid regs.rsi dest w).1) d.world)
              ∙ read_sockaddr_restored sys pid m regs.rsi fits dest cfg.local_addr regs.rdx c.world
                  there readable,
          out.2,
        )
