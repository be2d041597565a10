-- ===== src/Tracer/Loop/Resume.antt =====
-- `resume_tracee` in `src/tracer/trace_loop.rs` after the two stops of a system call: that the exit of a
-- filtered call stops the thread again.
use proxec.Base.{ℕ, ◌≡◌, refl, Bool, Option, none, some, Eq-ℕ, Bool-cases, inl, inr}
use proxec.Base.HashMap
use proxec.Base.HashMap.{get-insert_self}
use proxec.Result.{ok}
use proxec.Os.{Os, Regs}
use proxec.Tracer.State.{Config, Ctx, ThreadState, exiting, default_thread}
use proxec.Tracer.Syscall.{handle_syscall_enter}
use proxec.Tracer.Loop.State.{LoopState, resume_call}
use proxec.Tracer.Loop.Status.{with_thread, handle_seccomp}

module _ {W : Type 0} (sys : Os W) (cfg : Config) (child_pid : ℕ) (use_seccomp : Bool) where
  -- What a handler of the thread works on.
  abbrev pub ctx_of : ℕ → LoopState W → Ctx W
  ctx_of pid s = record {
    tracker = s.tracker;
    stats = s.stats;
    thread = elim (HashMap.get pid s.thread_states) [ none ↦ default_thread | some t ↦ t ];
    world = s.world;
  }

  resume_call_exiting :
      (pid : ℕ) (sig : Option ℕ) (s : LoopState W) (t : ThreadState)
      → HashMap.get pid s.thread_states ≡ some t
      → t.phase ≡ exiting
      → resume_call sys use_seccomp pid sig s ≡ sys.ptrace_syscall pid sig s.world
  unfolding resume_call
  resume_call_exiting pid sig s t e phase = elim (Bool-cases use_seccomp) [
    | inl filtered ↦ rw (filtered, e, phase) refl
    | inr stepped ↦ rw stepped refl
  ]

  handle_seccomp-phase :
      (pid : ℕ) (regs : Regs) (c : Ctx W)
      → (handle_syscall_enter sys cfg pid regs c).0 ≡ ok tt
      → (handle_seccomp sys cfg child_pid use_seccomp pid regs c).1.thread.phase ≡ exiting
  handle_seccomp-phase pid regs c accepted = rw (accepted, handle_seccomp) refl

  -- After the entry of a filtered call that its handler accepted, the thread is resumed by
  -- PTRACE_SYSCALL, in seccomp mode too: it stops again at the exit of the call, where a rewritten
  -- address is restored.
  pub resume_call-handle_seccomp :
      (pid : ℕ) (regs : Regs) (sig : Option ℕ) (s : LoopState W)
      → (handle_syscall_enter sys cfg pid regs (ctx_of pid s)).0 ≡ ok tt
      → let s' =
          (with_thread sys cfg child_pid use_seccomp pid
            (handle_seccomp sys cfg child_pid use_seccomp pid regs)
            s).1 in
        resume_call sys use_seccomp pid sig s' ≡ sys.ptrace_syscall pid sig s'.world
  unfolding with_thread
  resume_call-handle_seccomp pid regs sig s accepted =
      resume_call_exiting pid sig _ _ (get-insert_self pid _ s.thread_states)
        (handle_seccomp-phase pid regs (ctx_of pid s) accepted)
