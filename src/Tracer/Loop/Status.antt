-- ===== src/Tracer/Loop/Status.antt =====
-- The arms of `run` in `src/tracer/trace_loop.rs` for the results of `waitpid` that are no errors.
use proxec.Base.{
  ℕ, ◌+◌, Bool, true, false, not, ◌||◌, Option, none, some, List, [], ◌∷◌, nat_eq, if◌then◌else◌,
  Eq-ℕ,
}
use proxec.Base.HashMap
use proxec.Base.HashSet
use proxec.Error.{Error, os}
use proxec.Result.{Result, ok, err}
use proxec.Os.{
  Os, Regs, WaitStatus, exited, signaled, stopped, ptrace_event, ptrace_syscall, continued,
  still_alive, Done,
}
use proxec.Word.{as_i32}
use proxec.Tracer.Arch.{get_regs}
use proxec.Tracer.State.{Config, ThreadState, exiting, default_thread}
use proxec.Tracer.Syscall.{handle_syscall_enter, handle_syscall_ptrace, Handler}
use proxec.Tracer.Loop.State.{LoopState, esrch, cleanup_dead_tracee, resume_tracee}

abbrev pub sigtrap : ℕ
sigtrap = 5

abbrev pub sigstop : ℕ
sigstop = 19

abbrev pub event_fork : ℕ
event_fork = 1

abbrev pub event_vfork : ℕ
event_vfork = 2

abbrev pub event_clone : ℕ
event_clone = 3

abbrev pub event_seccomp : ℕ
event_seccomp = 7

-- How an arm ends: the next iteration, the end of the loop, or an error out of `run`.
pub data Flow (W : Type 0) : Type 0 where
  next stop : LoopState W → Flow W
  fail : Error → LoopState W → Flow W

-- TRACECLONE, TRACEEXEC, TRACEFORK, TRACEVFORK and TRACESYSGOOD, and TRACESECCOMP.
abbrev pub ptrace_options : Bool → ℕ
ptrace_options use_seccomp = if use_seccomp then 31 + 128 else 31

abbrev pub list_empty : List ℕ → Bool
list_empty [] = true
list_empty (_ ∷ _) = false

-- `matches!(&err, Error::Io(io_err) if is_esrch_io(io_err))`.
abbrev pub is_gone : Error → Bool
is_gone (Error.io (os e)) = nat_eq e esrch
is_gone _ = false

module _ {W : Type 0} (sys : Os W) (cfg : Config) (child_pid : ℕ) (use_seccomp : Bool) where
  abbrev pub add_pid : ℕ → LoopState W → LoopState W
  add_pid pid s = record s { active_pids = HashSet.insert pid s.active_pids }

  -- The end of an iteration by `resume_tracee(..)?`.
  unfoldable pub resume : ℕ → Option ℕ → LoopState W → Flow W
  resume pid sig s =
      let (r, s') = resume_tracee sys use_seccomp pid sig s in
      elim r [ ok _ ↦ next s' | err e ↦ fail e s' ]

  -- `thread_states.entry(pid).or_default()`, a handler on that entry, and the entry stored.
  unfoldable pub with_thread :
      ℕ → Handler sys cfg → LoopState W → Result Error (Unit {0}) × LoopState W
  with_thread pid handler s =
      let thread : ThreadState = elim (HashMap.get pid s.thread_states) [
        | none ↦ default_thread
        | some t ↦ t
      ] in
      let (r, c) =
        handler
          (record { tracker = s.tracker; stats = s.stats; thread = thread; world = s.world }) in
      (
        r,
        record s {
          tracker = c.tracker;
          stats = c.stats;
          world = c.world;
          thread_states = HashMap.insert pid c.thread s.thread_states;
        },
      )

  -- The error of a handler: a process that has disappeared is cleaned up, all else ends `run`.
  unfoldable pub handler_failed : ℕ → Error → LoopState W → Flow W
  handler_failed pid e s = if is_gone e then next (cleanup_dead_tracee sys pid s) else fail e s

  -- After a handler: the process goes on, or the error counts.
  unfoldable pub handled : ℕ → Result Error (Unit {0}) × LoopState W → Flow W
  handled pid (ok _, s) = resume pid none s
  handled pid (err e, s) = handler_failed pid e s

  -- The end of the loop if no process is active.
  unfoldable pub unless_empty : LoopState W → Flow W
  unless_empty s = if list_empty s.active_pids then stop s else next s

  -- A process that stops is an active one from then on.
  unfoldable pub seen : ℕ → LoopState W → LoopState W
  seen pid s = if HashSet.contains pid s.active_pids then s else add_pid pid s

  -- The options of a process, with an error only logged.
  abbrev pub setup_ptrace_options : ℕ → LoopState W → LoopState W
  setup_ptrace_options pid s = record s {
    world = (sys.ptrace_setoptions pid (ptrace_options use_seccomp) s.world).1;
  }

  unfoldable pub on_gone : ℕ → ℕ → LoopState W → Flow W
  unfolding unless_empty
  on_gone pid code s =
      let s' = cleanup_dead_tracee sys pid s in
      unless_empty
        (if nat_eq pid child_pid then record s' { exit_code = code; main_exited = true } else s')

  unfoldable pub on_exited : ℕ → ℕ → LoopState W → Flow W
  unfolding on_gone
  on_exited pid code s = on_gone pid code s

  unfoldable pub on_signaled : ℕ → ℕ → LoopState W → Flow W
  unfolding on_gone
  on_signaled pid sig s = on_gone pid (128 + sig) s

  abbrev pub handle_seccomp : ℕ → Regs → Handler sys cfg
  handle_seccomp pid regs c =
      let (r, c') = handle_syscall_enter sys cfg pid regs c in
      elim r [
        | ok _ ↦ (ok tt, record c' { thread = record c'.thread { phase = exiting } })
        | err e ↦ (err e, c')
      ]

  -- `get_regs(pid)?` stands in the argument of the handler's call: its error leaves `run`.
  unfoldable pub with_regs : ℕ → Result Error Regs → LoopState W → Flow W
  with_regs pid (ok regs) s = handled pid (with_thread pid (handle_seccomp pid regs) s)
  with_regs pid (err e) s = fail e (record s {
    thread_states =
        HashMap.insert pid
          (elim (HashMap.get pid s.thread_states) [ none ↦ default_thread | some t ↦ t ])
          s.thread_states;
  })

  unfoldable pub on_seccomp : ℕ → LoopState W → Flow W
  unfolding with_regs
  on_seccomp pid s = with_regs pid (get_regs sys pid s.world) s

  -- A new child by `PTRACE_GETEVENTMSG`: its own stop sets its options.
  unfoldable pub with_child : ℕ → Result ℕ ℕ → LoopState W → Flow W
  with_child pid (ok msg) s = resume pid none (seen (as_i32 msg) s)
  with_child pid (err e) s = fail (Error.ptrace e) s

  unfoldable pub on_new_child : ℕ → LoopState W → Flow W
  unfolding with_child
  on_new_child pid s = with_child pid (sys.ptrace_geteventmsg pid s.world) s

  unfoldable pub on_event : ℕ → ℕ → LoopState W → Flow W
  on_event pid event s =
      if nat_eq event event_seccomp
      then on_seccomp pid s
      else if nat_eq event event_fork || nat_eq event event_vfork || nat_eq event event_clone
      then on_new_child pid s
      else resume pid none s

  unfoldable pub on_ptrace_event : ℕ → ℕ → LoopState W → Flow W
  on_ptrace_event pid event s =
      on_event pid event
        (if HashSet.contains pid s.active_pids then s else setup_ptrace_options pid (add_pid pid s))

  unfoldable pub on_ptrace_syscall : ℕ → LoopState W → Flow W
  on_ptrace_syscall pid s =
      handled pid (with_thread pid (handle_syscall_ptrace sys cfg pid) (seen pid s))

  unfoldable pub on_sigstop : ℕ → LoopState W → Flow W
  on_sigstop pid s =
      let is_new = not (HashSet.contains pid s.active_pids) in
      resume pid none (
        if is_new || nat_eq pid child_pid
        then setup_ptrace_options pid (seen pid s)
        else seen pid s)

  -- A signal is delivered if the stop has a `siginfo`.
  unfoldable pub with_siginfo : ℕ → ℕ → Done → LoopState W → Flow W
  with_siginfo pid sig (ok _) s = resume pid (some sig) s
  with_siginfo pid sig (err e) s =
      if nat_eq e esrch then next (cleanup_dead_tracee sys pid s) else resume pid none s

  unfoldable pub on_stopped : ℕ → ℕ → LoopState W → Flow W
  unfolding with_siginfo
  on_stopped pid sig s = with_siginfo pid sig (sys.ptrace_getsiginfo pid s.world) s

  -- Any other status: some active process is resumed, and its error is dropped.
  unfoldable pub on_other : List ℕ → LoopState W → Flow W
  on_other [] s = next s
  on_other (first_pid ∷ _) s = next (resume_tracee sys use_seccomp first_pid none s).1

  unfoldable pub on_status : WaitStatus → LoopState W → Flow W
  on_status (exited pid code) s = on_exited pid code s
  on_status (signaled pid sig) s = on_signaled pid sig s
  on_status (ptrace_event pid event) s = on_ptrace_event pid event s
  on_status (ptrace_syscall pid) s = on_ptrace_syscall pid s
  on_status (stopped pid sig) s =
      if nat_eq sig sigstop
      then on_sigstop pid s
      else if nat_eq sig sigtrap
      then resume pid none s
      else on_stopped pid sig s
  on_status (continued pid) s = on_other s.active_pids s
  on_status still_alive s = on_other s.active_pids s
