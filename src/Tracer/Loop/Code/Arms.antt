-- ===== src/Tracer/Loop/Code/Arms.antt =====
-- The arms of `run` in `src/tracer/trace_loop.rs`: only the end of the main process changes the exit
-- code and `main_exited`.
use proxec.Base.{
  ℕ, ◌+◌, ◌≡◌, refl, inl, inr, Bool, true, false, not, ◌||◌, Option, none, some, List, [], ◌∷◌,
  nat_eq, arith, if◌then◌else◌, Eq-ℕ,
}
use proxec.Base.HashSet
use proxec.Error.{Error}
use proxec.Result.{Result, ok, err, Result-cases}
use proxec.Os.{
  Os, Regs, WaitStatus, exited, signaled, stopped, ptrace_event, ptrace_syscall, continued,
  still_alive, Done,
}
use proxec.Word.{as_i32}
use proxec.Tracer.Arch.{get_regs}
use proxec.Tracer.State.{Config}
use proxec.Tracer.Syscall.{Handler, handle_syscall_ptrace}
use proxec.Tracer.Loop.State.{LoopState, cleanup_dead_tracee, resume_tracee, esrch}
use proxec.Tracer.Loop.Tracked.{cleanup_dead_tracee-Drops, resume_tracee-Drops}
use proxec.Tracer.Loop.Status.{
  Flow, next, stop, fail, list_empty, resume, with_thread, handler_failed, on_gone, on_exited,
  on_signaled, on_seccomp, on_new_child, on_ptrace_event, on_ptrace_syscall, on_sigstop, on_stopped,
  on_other, on_status, is_gone, handled, unless_empty, seen, handle_seccomp, with_regs, with_child,
  on_event, with_siginfo, event_seccomp, event_fork, event_vfork, event_clone, sigstop, sigtrap,
}
use proxec.Tracer.Loop.Code.{
  Event, ended, gone, reported, Accounts, Accounts-Drops, Accounts-refl, Accounts-trans,
  Accounts-if, Accounts-flow, state_of,
}

module _ {W : Type 0} (sys : Os W) (cfg : Config) (child_pid : ℕ) (use_seccomp : Bool) where
  -- With no event.
  abbrev Keeps : LoopState W → Flow W → Type 0
  Keeps s f = Accounts s [] (state_of f)

  -- A state with the same exit code and the same `main_exited`.
  same :
      (s s' : LoopState W)
      → s'.exit_code ≡ s.exit_code
      → s'.main_exited ≡ s.main_exited
      → Accounts s [] s'
  same s s' code main = record { code = code; main_exited = ground (arith, main) }

  resume-Keeps :
      (pid : ℕ) (sig : Option ℕ) (s t : LoopState W)
      → Accounts s [] t
      → Keeps s (resume sys cfg child_pid use_seccomp pid sig t)
  unfolding resume
  resume-Keeps pid sig s t a =
      let kept =
        Accounts-trans [] [] a (Accounts-Drops (resume_tracee-Drops sys use_seccomp pid sig t)) in
      elim (Result-cases (resume_tracee sys use_seccomp pid sig t).0) [
        | inl (u, e) ↦ rw (e, state_of) kept
        | inr (x, e) ↦ rw (e, state_of) kept
      ]

  with_thread-same :
      (pid : ℕ) (handler : Handler sys cfg) (s : LoopState W)
      → Accounts s [] (with_thread sys cfg child_pid use_seccomp pid handler s).1
  unfolding with_thread
  with_thread-same pid handler s = same s _ refl refl

  handled-Keeps :
      (pid : ℕ) (s : LoopState W) (r : Result Error (Unit {0}) × LoopState W)
      → Accounts s [] r.1
      → Keeps s (handled sys cfg child_pid use_seccomp pid r)
  unfolding handled handler_failed
  handled-Keeps pid s (ok u, t) a = resume-Keeps pid none s t a
  handled-Keeps pid s (err e, t) a =
      Accounts-flow (is_gone e) [] (next (cleanup_dead_tracee sys pid t)) (fail e t)
        (Accounts-trans [] [] a (Accounts-Drops (cleanup_dead_tracee-Drops sys pid t))) a

  seen-same : (pid : ℕ) (s : LoopState W) → Accounts s [] (seen sys cfg child_pid use_seccomp pid s)
  unfolding seen
  seen-same pid s =
      Accounts-if (HashSet.contains pid s.active_pids) [] (Accounts-refl s) (same s _ refl refl)

  with_regs-Keeps :
      (pid : ℕ) (r : Result Error Regs) (s t : LoopState W)
      → Accounts s [] t
      → Keeps s (with_regs sys cfg child_pid use_seccomp pid r t)
  unfolding with_regs
  with_regs-Keeps pid (ok regs) s t a =
      let handler = handle_seccomp sys cfg child_pid use_seccomp pid regs in
      handled-Keeps pid s _ (Accounts-trans [] [] a (with_thread-same pid handler t))
  with_regs-Keeps pid (err e) s t a = Accounts-trans [] [] a (same t _ refl refl)

  with_child-Keeps :
      (pid : ℕ) (r : Result ℕ ℕ) (s t : LoopState W)
      → Accounts s [] t
      → Keeps s (with_child sys cfg child_pid use_seccomp pid r t)
  unfolding with_child
  with_child-Keeps pid (ok msg) s t a =
      resume-Keeps pid none s _ (Accounts-trans [] [] a (seen-same (as_i32 msg) t))
  with_child-Keeps pid (err e) s t a = a

  on_event-Keeps :
      (pid event : ℕ) (s t : LoopState W)
      → Accounts s [] t
      → Keeps s (on_event sys cfg child_pid use_seccomp pid event t)
  unfolding on_event on_seccomp on_new_child
  on_event-Keeps pid event s t a =
      Accounts-flow (nat_eq event event_seccomp) [] (on_seccomp sys cfg child_pid use_seccomp pid t)
        _ (with_regs-Keeps pid (get_regs sys pid t.world) s t a)
        (Accounts-flow
          (nat_eq event event_fork || nat_eq event event_vfork || nat_eq event event_clone) []
          (on_new_child sys cfg child_pid use_seccomp pid t)
          (resume sys cfg child_pid use_seccomp pid none t)
          (with_child-Keeps pid (sys.ptrace_geteventmsg pid t.world) s t a)
          (resume-Keeps pid none s t a))

  with_siginfo-Keeps :
      (pid sig : ℕ) (r : Done) (s : LoopState W)
      → Keeps s (with_siginfo sys cfg child_pid use_seccomp pid sig r s)
  unfolding with_siginfo
  with_siginfo-Keeps pid sig (ok u) s = resume-Keeps pid (some sig) s s (Accounts-refl s)
  with_siginfo-Keeps pid sig (err e) s =
      Accounts-flow (nat_eq e esrch) [] (next (cleanup_dead_tracee sys pid s)) _
        (Accounts-Drops (cleanup_dead_tracee-Drops sys pid s))
        (resume-Keeps pid none s s (Accounts-refl s))

  on_sigstop-Keeps :
      (pid : ℕ) (s : LoopState W) → Keeps s (on_sigstop sys cfg child_pid use_seccomp pid s)
  unfolding on_sigstop
  on_sigstop-Keeps pid s =
      let seen_first = seen-same pid s in
      resume-Keeps pid none s _ (
        Accounts-if (not (HashSet.contains pid s.active_pids) || nat_eq pid child_pid) []
          (Accounts-trans [] [] seen_first
            (same (seen sys cfg child_pid use_seccomp pid s) _ refl refl))
          seen_first)

  on_other-Keeps :
      (pids : List ℕ) (s : LoopState W) → Keeps s (on_other sys cfg child_pid use_seccomp pids s)
  unfolding on_other
  on_other-Keeps [] s = Accounts-refl s
  on_other-Keeps (pid ∷ pids) s = Accounts-Drops (resume_tracee-Drops sys use_seccomp pid none s)

  pub unless_empty-state :
      (s t : LoopState W) (xs : List Event)
      → Accounts s xs t
      → Accounts s xs (state_of (unless_empty sys cfg child_pid use_seccomp t))
  unfolding unless_empty
  unless_empty-state s t xs a = Accounts-flow (list_empty t.active_pids) xs (stop t) (next t) a a

  -- The end of a process counts if it is the main one.
  counted :
      (main : Bool) (code : ℕ) (s t : LoopState W)
      → Accounts s [] t
      → Accounts s
          (if main then ended code ∷ [] else [])
          (if main then record t { exit_code = code; main_exited = true } else t)
  counted true code s t a = record { code = refl; main_exited = ground arith }
  counted false code s t a = a

  on_gone-Accounts :
      (pid code : ℕ) (s : LoopState W)
      → Accounts s
          (gone sys cfg child_pid use_seccomp pid code)
          (state_of (on_gone sys cfg child_pid use_seccomp pid code s))
  unfolding on_gone
  on_gone-Accounts pid code s =
      unless_empty-state s _ (gone sys cfg child_pid use_seccomp pid code) (
        counted (nat_eq pid child_pid) code s (cleanup_dead_tracee sys pid s)
          (Accounts-Drops (cleanup_dead_tracee-Drops sys pid s)))

  pub on_status-Accounts :
      (status : WaitStatus) (s : LoopState W)
      → Accounts s
          (reported sys cfg child_pid use_seccomp status)
          (state_of (on_status sys cfg child_pid use_seccomp status s))
  unfolding on_status on_exited on_signaled on_ptrace_event on_ptrace_syscall on_stopped
  on_status-Accounts (exited pid code) s = on_gone-Accounts pid code s
  on_status-Accounts (signaled pid sig) s = on_gone-Accounts pid (128 + sig) s
  on_status-Accounts (ptrace_event pid event) s =
      on_event-Keeps pid event s _
        (Accounts-if (HashSet.contains pid s.active_pids) [] (Accounts-refl s) (same s _ refl refl))
  on_status-Accounts (ptrace_syscall pid) s =
      let handler = handle_syscall_ptrace sys cfg pid in
      handled-Keeps pid s _
        (Accounts-trans [] [] (seen-same pid s) (with_thread-same pid handler _))
  on_status-Accounts (stopped pid sig) s =
      Accounts-flow (nat_eq sig sigstop) [] (on_sigstop sys cfg child_pid use_seccomp pid s) _
        (on_sigstop-Keeps pid s)
        (Accounts-flow (nat_eq sig sigtrap) [] (resume sys cfg child_pid use_seccomp pid none s)
          (on_stopped sys cfg child_pid use_seccomp pid sig s)
          (resume-Keeps pid none s s (Accounts-refl s))
          (with_siginfo-Keeps pid sig (sys.ptrace_getsiginfo pid s.world) s))
  on_status-Accounts (continued pid) s = on_other-Keeps s.active_pids s
  on_status-Accounts still_alive s = on_other-Keeps s.active_pids s
