-- ===== src/Tracer/Loop/Arms.antt =====
-- The arms of `run` in `src/tracer/trace_loop.rs` for the results of `waitpid` that name a process: each keeps the
-- thread states to active processes.
use proxec.Base.{
  ℕ, ◌+◌, ◌≡◌, ◌⊎◌, inl, inr, Bool, true, false, not, ◌||◌, Option, none, some, List, [], ◌∷◌,
  nat_eq, nat_eq_iff, arith, if◌then◌else◌, Eq-ℕ, Bool-cases,
}
use mathlib.Core.Path.{subst}
use proxec.Base.HashMap
use proxec.Base.HashMap.{get-insert}
use proxec.Base.HashSet
use proxec.Base.HashSet.{contains-insert}
use proxec.Error.{Error}
use proxec.Result.{Result, ok, err, Result-cases}
use proxec.Os.{
  Os, Regs, WaitStatus, exited, signaled, stopped, ptrace_event, ptrace_syscall, continued,
  still_alive, Done,
}
use proxec.Word.{as_i32}
use proxec.Tracer.Arch.{get_regs}
use proxec.Tracer.State.{Config, ThreadState}
use proxec.Tracer.Syscall.{Handler, handle_syscall_ptrace}
use proxec.Tracer.Loop.State.{LoopState, cleanup_dead_tracee, resume_tracee, esrch}
use proxec.Tracer.Loop.Tracked.{IsTracked, cleanup_dead_tracee-Drops, resume_tracee-Drops}
use proxec.Tracer.Loop.Status.{
  Flow, next, stop, fail, list_empty, add_pid, resume, with_thread, handler_failed, on_gone,
  on_exited, on_signaled, on_seccomp, on_new_child, on_ptrace_event, on_ptrace_syscall, on_sigstop,
  on_stopped, on_other, on_status, is_gone, handled, unless_empty, seen, setup_ptrace_options,
  handle_seccomp, with_regs, with_child, on_event, with_siginfo, event_seccomp, event_fork,
  event_vfork, event_clone, sigstop, sigtrap,
}

module _ {W : Type 0} where
  -- The loop goes on, or ends by an error, with thread states of active processes only; it ends
  -- well if no process is active or there is none to wait for.
  abbrev pub EndsWell : (LoopState W → Type 0) → Flow W → Type 0
  EndsWell childless (next s) = IsTracked s
  EndsWell childless (stop s) = IsTracked s × ((list_empty s.active_pids ≡ true) ⊎ childless s)
  EndsWell childless (fail e s) = IsTracked s

  -- A test for active processes before the next step.
  pub if_empty :
      (childless : LoopState W → Type 0) (s : LoopState W) (f : Flow W)
      → IsTracked s
      → EndsWell childless f
      → EndsWell childless (if list_empty s.active_pids then stop s else f)
  if_empty childless s f h g = elim (Bool-cases (list_empty s.active_pids)) [
    | inl none_left ↦ rw none_left (h, inl none_left)
    | inr some_left ↦ rw some_left g
  ]

  pub if_ends :
      (childless : LoopState W → Type 0) (b : Bool) (f g : Flow W)
      → EndsWell childless f
      → EndsWell childless g
      → EndsWell childless (if b then f else g)
  if_ends childless true f g hf hg = hf
  if_ends childless false f g hf hg = hg

pub IsTracked-if :
    {W : Type 0} (b : Bool) (s t : LoopState W)
    → IsTracked s
    → IsTracked t
    → IsTracked (if b then s else t)
IsTracked-if true s t hs ht = hs
IsTracked-if false s t hs ht = ht

module _ {W : Type 0} (sys : Os W) (cfg : Config) (child_pid : ℕ) (use_seccomp : Bool)
    (childless : LoopState W → Type 0) where
  IsTracked-add_pid :
      (pid : ℕ) (s : LoopState W)
      → IsTracked s
      → IsTracked (add_pid sys cfg child_pid use_seccomp pid s)
  IsTracked-add_pid pid s h other t e =
      ground (arith, contains-insert other pid s.active_pids, h other t e)

  resume-EndsWell :
      (pid : ℕ) (sig : Option ℕ) (s : LoopState W)
      → IsTracked s
      → EndsWell childless (resume sys cfg child_pid use_seccomp pid sig s)
  unfolding resume
  resume-EndsWell pid sig s h =
      let kept = (resume_tracee-Drops sys use_seccomp pid sig s).tracked h in
      elim (Result-cases (resume_tracee sys use_seccomp pid sig s).0) [
        | inl (u, e) ↦ rw (e, EndsWell) kept
        | inr (x, e) ↦ rw (e, EndsWell) kept
      ]

  -- The thread state of an active process may change.
  IsTracked-insert :
      (pid : ℕ) (t : ThreadState) (s : LoopState W)
      → HashSet.contains pid s.active_pids ≡ true
      → IsTracked s
      → IsTracked (record s { thread_states = HashMap.insert pid t s.thread_states })
  IsTracked-insert pid t s active h other u e = elim (Bool-cases (nat_eq pid other)) [
    | inl same ↦
        subst (λ (p : ℕ). HashSet.contains p s.active_pids ≡ true) ((nat_eq_iff pid other).0 same)
          active
    | inr differ ↦ h other u (rw (get-insert other pid t s.thread_states, differ) at e)
  ]

  with_thread-IsTracked :
      (pid : ℕ) (handler : Handler sys cfg) (s : LoopState W)
      → HashSet.contains pid s.active_pids ≡ true
      → IsTracked s
      → IsTracked (with_thread sys cfg child_pid use_seccomp pid handler s).1
  unfolding with_thread
  with_thread-IsTracked pid handler s active h = IsTracked-insert pid _ s active h

  handler_failed-EndsWell :
      (pid : ℕ) (e : Error) (s : LoopState W)
      → IsTracked s
      → EndsWell childless (handler_failed sys cfg child_pid use_seccomp pid e s)
  unfolding handler_failed
  handler_failed-EndsWell pid e s h =
      if_ends childless (is_gone e) (next (cleanup_dead_tracee sys pid s)) (fail e s)
        ((cleanup_dead_tracee-Drops sys pid s).tracked h) h

  handled-EndsWell :
      (pid : ℕ) (r : Result Error (Unit {0}) × LoopState W)
      → IsTracked r.1
      → EndsWell childless (handled sys cfg child_pid use_seccomp pid r)
  unfolding handled
  handled-EndsWell pid (ok u, s) h = resume-EndsWell pid none s h
  handled-EndsWell pid (err e, s) h = handler_failed-EndsWell pid e s h

  pub unless_empty-EndsWell :
      (s : LoopState W)
      → IsTracked s
      → EndsWell childless (unless_empty sys cfg child_pid use_seccomp s)
  unfolding unless_empty
  unless_empty-EndsWell s h = if_empty childless s (next s) h h

  on_gone-EndsWell :
      (pid code : ℕ) (s : LoopState W)
      → IsTracked s
      → EndsWell childless (on_gone sys cfg child_pid use_seccomp pid code s)
  unfolding on_gone
  on_gone-EndsWell pid code s h =
      unless_empty-EndsWell _ (IsTracked-if (nat_eq pid child_pid) _ _ kept kept)
    where
      kept : IsTracked (cleanup_dead_tracee sys pid s)
      kept = (cleanup_dead_tracee-Drops sys pid s).tracked h

  -- A process that was seen is active.
  seen-IsTracked :
      (pid : ℕ) (s : LoopState W)
      → IsTracked s
      → IsTracked (seen sys cfg child_pid use_seccomp pid s)
        × (HashSet.contains pid (seen sys cfg child_pid use_seccomp pid s).active_pids ≡ true)
  unfolding seen
  seen-IsTracked pid s h = elim (Bool-cases (HashSet.contains pid s.active_pids)) [
    | inl known ↦ rw (known, IsTracked) (h, known)
    | inr fresh ↦
        rw (fresh, IsTracked)
          (IsTracked-add_pid pid s h, ground (arith, contains-insert pid pid s.active_pids))
  ]

  with_regs-EndsWell :
      (pid : ℕ) (r : Result Error Regs) (s : LoopState W)
      → HashSet.contains pid s.active_pids ≡ true
      → IsTracked s
      → EndsWell childless (with_regs sys cfg child_pid use_seccomp pid r s)
  unfolding with_regs
  with_regs-EndsWell pid (ok regs) s active h =
      handled-EndsWell pid _ (
        with_thread-IsTracked pid (handle_seccomp sys cfg child_pid use_seccomp pid regs) s active
          h)
  with_regs-EndsWell pid (err e) s active h = IsTracked-insert pid _ s active h

  with_child-EndsWell :
      (pid : ℕ) (r : Result ℕ ℕ) (s : LoopState W)
      → IsTracked s
      → EndsWell childless (with_child sys cfg child_pid use_seccomp pid r s)
  unfolding with_child
  with_child-EndsWell pid (ok msg) s h =
      resume-EndsWell pid none _ (seen-IsTracked (as_i32 msg) s h).0
  with_child-EndsWell pid (err e) s h = h

  on_event-EndsWell :
      (pid event : ℕ) (s : LoopState W)
      → HashSet.contains pid s.active_pids ≡ true
      → IsTracked s
      → EndsWell childless (on_event sys cfg child_pid use_seccomp pid event s)
  unfolding on_event on_seccomp on_new_child
  on_event-EndsWell pid event s active h =
      if_ends childless (nat_eq event event_seccomp)
        (on_seccomp sys cfg child_pid use_seccomp pid s) _
        (with_regs-EndsWell pid (get_regs sys pid s.world) s active h)
        (if_ends childless
          (nat_eq event event_fork || nat_eq event event_vfork || nat_eq event event_clone)
          (on_new_child sys cfg child_pid use_seccomp pid s)
          (resume sys cfg child_pid use_seccomp pid none s)
          (with_child-EndsWell pid (sys.ptrace_geteventmsg pid s.world) s h)
          (resume-EndsWell pid none s h))

  on_ptrace_event-EndsWell :
      (pid event : ℕ) (s : LoopState W)
      → IsTracked s
      → EndsWell childless (on_ptrace_event sys cfg child_pid use_seccomp pid event s)
  unfolding on_ptrace_event
  on_ptrace_event-EndsWell pid event s h = elim (Bool-cases (HashSet.contains pid s.active_pids)) [
    | inl known ↦ rw known (on_event-EndsWell pid event s known h)
    | inr fresh ↦ rw fresh (
        on_event-EndsWell pid event
          (setup_ptrace_options sys cfg child_pid use_seccomp pid
            (add_pid sys cfg child_pid use_seccomp pid s))
          (ground (arith, contains-insert pid pid s.active_pids)) (IsTracked-add_pid pid s h))
  ]

  with_siginfo-EndsWell :
      (pid sig : ℕ) (r : Done) (s : LoopState W)
      → IsTracked s
      → EndsWell childless (with_siginfo sys cfg child_pid use_seccomp pid sig r s)
  unfolding with_siginfo
  with_siginfo-EndsWell pid sig (ok u) s h = resume-EndsWell pid (some sig) s h
  with_siginfo-EndsWell pid sig (err e) s h =
      if_ends childless (nat_eq e esrch) (next (cleanup_dead_tracee sys pid s)) _
        ((cleanup_dead_tracee-Drops sys pid s).tracked h) (resume-EndsWell pid none s h)

  on_sigstop-EndsWell :
      (pid : ℕ) (s : LoopState W)
      → IsTracked s
      → EndsWell childless (on_sigstop sys cfg child_pid use_seccomp pid s)
  unfolding on_sigstop
  on_sigstop-EndsWell pid s h = resume-EndsWell pid none _ (
      IsTracked-if (not (HashSet.contains pid s.active_pids) || nat_eq pid child_pid)
        (setup_ptrace_options sys cfg child_pid use_seccomp pid
          (seen sys cfg child_pid use_seccomp pid s))
        _ (seen-IsTracked pid s h).0 (seen-IsTracked pid s h).0)

  on_other-EndsWell :
      (pids : List ℕ) (s : LoopState W)
      → IsTracked s
      → EndsWell childless (on_other sys cfg child_pid use_seccomp pids s)
  unfolding on_other
  on_other-EndsWell [] s h = h
  on_other-EndsWell (pid ∷ pids) s h = (resume_tracee-Drops sys use_seccomp pid none s).tracked h

  pub on_status-EndsWell :
      (status : WaitStatus) (s : LoopState W)
      → IsTracked s
      → EndsWell childless (on_status sys cfg child_pid use_seccomp status s)
  unfolding on_status on_exited on_signaled on_ptrace_syscall on_stopped
  on_status-EndsWell (exited pid code) s h = on_gone-EndsWell pid code s h
  on_status-EndsWell (signaled pid sig) s h = on_gone-EndsWell pid (128 + sig) s h
  on_status-EndsWell (ptrace_event pid event) s h = on_ptrace_event-EndsWell pid event s h
  on_status-EndsWell (ptrace_syscall pid) s h =
      let (kept, active) = seen-IsTracked pid s h in
      handled-EndsWell pid _
        (with_thread-IsTracked pid (handle_syscall_ptrace sys cfg pid) _ active kept)
  on_status-EndsWell (stopped pid sig) s h =
      if_ends childless (nat_eq sig sigstop) (on_sigstop sys cfg child_pid use_seccomp pid s) _
        (on_sigstop-EndsWell pid s h)
        (if_ends childless (nat_eq sig sigtrap) (resume sys cfg child_pid use_seccomp pid none s)
          (on_stopped sys cfg child_pid use_seccomp pid sig s) (resume-EndsWell pid none s h)
          (with_siginfo-EndsWell pid sig (sys.ptrace_getsiginfo pid s.world) s h))
  on_status-EndsWell (continued pid) s h = on_other-EndsWell s.active_pids s h
  on_status-EndsWell still_alive s h = on_other-EndsWell s.active_pids s h
