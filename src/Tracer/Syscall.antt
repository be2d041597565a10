-- ===== src/Tracer/Syscall.antt =====
-- The handlers of `src/tracer/trace_loop.rs` for the entry and the exit of a system call.
pub mod Clone
pub mod Restore
use proxec.Base.{
  ℕ, ◌-◌, ◌%◌, ◌^◌, Bool, true, false, not, Option, none, some, nat_eq, if◌then◌else◌, bit_and,
}
use proxec.Error.{Error}
use proxec.Result.{Result, ok, err}
use proxec.Action.{Action, pure, ◌>>=◌, ◌>>◌}
use proxec.Os.{Os, Regs}
use proxec.Word.{as_i32, neg64, has_flag}
use proxec.Socket.{socket_enter, socket_exit, close_enter}
use proxec.Tracer.Arch.{
  get_syscall_nr, get_syscall_arg, set_syscall_arg, get_return_value, set_return_value, get_regs,
  set_regs, arg0, arg1, socket_nr, connect_nr, close_nr, clone_nr, clone3_nr,
}
use proxec.Tracer.Memory.{write_sockaddr, read_u64, write_u64}
use proxec.Tracer.State.{Config, Ctx, SyscallPhase, entering, exiting, PendingConnectRestore, count}
use proxec.Tracer.Connect.{handle_connect_enter}

abbrev pub clone_untraced : ℕ
clone_untraced = 0x00800000

-- `!CLONE_UNTRACED` of a 64-bit word.
abbrev pub not_clone_untraced : ℕ
not_clone_untraced = 2 ^ 64 - 1 - clone_untraced

module _ {W : Type 0} (sys : Os W) (cfg : Config) where
  abbrev pub Handler : Type 0
  Handler = Action (Ctx W) (Unit {0})

  -- A call on the kernel alone.
  abbrev pub on_world : Action W (Unit {0}) → Handler
  on_world f c = let (r, w) = f c.world in (r, record c { world = w })

  unfoldable pub handle_socket_enter : ℕ → Regs → Handler
  handle_socket_enter pid regs c = (
    ok tt,
    record c {
      stats = record c.stats { socket_enter_seen = count c.stats.socket_enter_seen };
      tracker =
          socket_enter sys pid (as_i32 (get_syscall_arg regs arg0))
            (as_i32 (get_syscall_arg regs arg1)) c.tracker;
    },
  )

  unfoldable pub handle_socket_exit : ℕ → Regs → Ctx W → Ctx W
  handle_socket_exit pid regs c = record c {
    stats = record c.stats { socket_exit_seen = count c.stats.socket_exit_seen };
    tracker = socket_exit sys pid (as_i32 (get_return_value regs)) c.world c.tracker;
  }

  unfoldable pub handle_close_enter : ℕ → Regs → Handler
  handle_close_enter pid regs c = (
    ok tt,
    record c {
      tracker = close_enter sys pid (as_i32 (get_syscall_arg regs arg0)) c.world c.tracker;
    },
  )

  unfoldable pub handle_clone_enter : ℕ → Regs → Action W (Unit {0})
  handle_clone_enter pid regs w =
      let flags = get_syscall_arg regs arg0 in
      if has_flag flags clone_untraced
      then set_regs sys pid (set_syscall_arg regs arg0 (bit_and flags not_clone_untraced)) w
      else (ok tt, w)

  unfoldable pub handle_clone3_enter : ℕ → Regs → Action W (Unit {0})
  handle_clone3_enter pid regs w =
      let clone_args_ptr = get_syscall_arg regs arg0 in
      if nat_eq clone_args_ptr 0 then (ok tt, w) else elim (read_u64 sys pid clone_args_ptr w) [
        | err e ↦ (err e, w)
        | ok flags ↦
            if has_flag flags clone_untraced
            then write_u64 sys pid clone_args_ptr (bit_and flags not_clone_untraced) w
            else (ok tt, w)
      ]

  unfoldable pub handle_syscall_enter : ℕ → Regs → Handler
  handle_syscall_enter pid regs =
      if nat_eq (get_syscall_nr regs) socket_nr
      then handle_socket_enter pid regs
      else if nat_eq (get_syscall_nr regs) connect_nr
      then handle_connect_enter sys cfg pid regs
      else if nat_eq (get_syscall_nr regs) close_nr
      then handle_close_enter pid regs
      else if nat_eq (get_syscall_nr regs) clone_nr
      then on_world (handle_clone_enter pid regs)
      else if nat_eq (get_syscall_nr regs) clone3_nr
      then on_world (handle_clone3_enter pid regs)
      else pure tt

  -- `pending_connect_restore.take()` and the write.
  unfoldable pub restore_address : ℕ → Handler
  restore_address pid c = elim c.thread.pending_connect_restore [
    | none ↦ (ok tt, c)
    | some restore ↦
        on_world (write_sockaddr sys pid restore.addr_ptr restore.dest)
          (record c { thread = record c.thread { pending_connect_restore = none } })
  ]

  -- `forced_connect_errno.take()` and the registers.
  unfoldable pub force_errno : ℕ → Regs → Handler
  force_errno pid regs c = elim c.thread.forced_connect_errno [
    | none ↦ (ok tt, c)
    | some errno ↦
        on_world (set_regs sys pid (set_return_value regs (neg64 errno)))
          (record c { thread = record c.thread { forced_connect_errno = none } })
  ]

  unfoldable pub handle_syscall_exit : ℕ → Regs → Handler
  unfolding restore_address force_errno
  handle_syscall_exit pid regs c =
      let c' =
        if nat_eq (get_syscall_nr regs) socket_nr then handle_socket_exit pid regs c else c in
      (restore_address pid >> force_errno pid regs) c'

  abbrev set_phase : SyscallPhase → Handler
  set_phase phase c = (ok tt, record c { thread = record c.thread { phase = phase } })

  handle_in_phase : ℕ → Regs → SyscallPhase → Handler
  handle_in_phase pid regs entering = handle_syscall_enter pid regs >> set_phase exiting
  handle_in_phase pid regs exiting = handle_syscall_exit pid regs >> set_phase entering

  -- A stop at a system call, in the phase that the thread is in.
  unfoldable pub handle_syscall_ptrace : ℕ → Handler
  unfolding handle_in_phase
  handle_syscall_ptrace pid c = elim (get_regs sys pid c.world) [
    | err e ↦ (err e, c)
    | ok regs ↦ handle_in_phase pid regs c.thread.phase c
  ]
