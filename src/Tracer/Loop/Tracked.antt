-- ===== src/Tracer/Loop/Tracked.antt =====
-- What the helpers of `run` in `src/tracer/trace_loop.rs` keep: they take processes out of the set of
-- active ones, and every thread state stays that of an active process.
use proxec.Base.{
  ℕ, ◌≡◌, refl, ◌∙◌, inl, inr, Bool, true, not, ◌||◌, Option, some, List, [], ◌∷◌, nat_eq, arith,
  filter, Eq-ℕ, Bool-cases,
}
use proxec.Base.HashMap
use proxec.Base.HashMap.{get-remove}
use proxec.Base.HashSet
use proxec.Base.HashSet.{contains-remove}
use proxec.Result.{Result, ok, err}
use proxec.Os.{
  Os, WaitStatus, exited, signaled, stopped, ptrace_event, ptrace_syscall, continued, still_alive,
  Done,
}
use proxec.Tracer.State.{ThreadState}
use proxec.Tracer.Loop.State.{
  LoopState, cleanup_dead_tracee, after_ptrace, cleanup_each, prune_gone_tracees, polled, poll_each,
  poll_known_tracees, resumed, resume_call, resume_tracee, esrch, echild,
}
use proxec.Tracer.Loop.Shutdown.{
  terminate_each, terminate_active_tracees, kill_each, kill_active_tracees, begin_shutdown,
  escalate_shutdown, sigterm, sigkill,
}

module _ {W : Type 0} where
  -- Every thread state belongs to an active process.
  abbrev pub IsTracked : LoopState W → Type 0
  IsTracked s =
      (pid : ℕ) (t : ThreadState)
      → HashMap.get pid s.thread_states ≡ some t
      → HashSet.contains pid s.active_pids ≡ true

  -- The second state is the first one after some processes have been cleaned up.
  pub record Drops (s s' : LoopState W) : Type 0 where
    pub stats : s'.stats ≡ s.stats
    pub shutdown : s'.shutdown ≡ s.shutdown
    pub main_exited : s'.main_exited ≡ s.main_exited
    pub exit_code : s'.exit_code ≡ s.exit_code
    pub signals : s'.signals ≡ s.signals
    pub tracked : IsTracked s → IsTracked s'

  pub Drops-refl : (s : LoopState W) → Drops s s
  Drops-refl s = record {
    stats = refl;
    shutdown = refl;
    main_exited = refl;
    exit_code = refl;
    signals = refl;
    tracked = λ h. h;
  }

  pub Drops-trans : (s t u : LoopState W) → Drops s t → Drops t u → Drops s u
  Drops-trans s t u a b = record {
    stats = b.stats ∙ a.stats;
    shutdown = b.shutdown ∙ a.shutdown;
    main_exited = b.main_exited ∙ a.main_exited;
    exit_code = b.exit_code ∙ a.exit_code;
    signals = b.signals ∙ a.signals;
    tracked = λ h. b.tracked (a.tracked h);
  }

  pub Drops-world : (s : LoopState W) (w : W) → Drops s (record s { world = w })
  Drops-world s w = record {
    stats = refl;
    shutdown = refl;
    main_exited = refl;
    exit_code = refl;
    signals = refl;
    tracked = λ h. h;
  }

module _ {W : Type 0} (sys : Os W) where
  pub cleanup_dead_tracee-Drops :
      (pid : ℕ) (s : LoopState W) → Drops s (cleanup_dead_tracee sys pid s)
  unfolding cleanup_dead_tracee
  cleanup_dead_tracee-Drops pid s = record {
    stats = refl;
    shutdown = refl;
    main_exited = refl;
    exit_code = refl;
    signals = refl;
    tracked = λ h other t e. ground (
      arith,
      get-remove other pid s.thread_states,
      contains-remove other pid s.active_pids,
      h other t,
    );
  }

  -- A cleanup after the world has moved on.
  cleanup_in-Drops :
      (pid : ℕ) (s : LoopState W) (w : W)
      → Drops s (cleanup_dead_tracee sys pid (record s { world = w }))
  cleanup_in-Drops pid s w =
      Drops-trans s (record s { world = w }) _ (Drops-world s w)
        (cleanup_dead_tracee-Drops pid (record s { world = w }))

  after_ptrace-Drops :
      (pid : ℕ) (call : Done × W) (s : LoopState W) → Drops s (after_ptrace sys pid call s)
  unfolding after_ptrace
  after_ptrace-Drops pid (ok u, w) s = Drops-world s w
  after_ptrace-Drops pid (err e, w) s = elim (Bool-cases (nat_eq e esrch)) [
    | inl gone ↦ rw gone (cleanup_in-Drops pid s w)
    | inr other ↦ rw other (Drops-world s w)
  ]

  cleanup_each-Drops : (pids : List ℕ) (s : LoopState W) → Drops s (cleanup_each sys pids s)
  unfolding cleanup_each
  cleanup_each-Drops [] s = Drops-refl s
  cleanup_each-Drops (pid ∷ pids) s =
      Drops-trans s (cleanup_dead_tracee sys pid s) _ (cleanup_dead_tracee-Drops pid s)
        (cleanup_each-Drops pids _)

  pub prune_gone_tracees-Drops : (s : LoopState W) → Drops s (prune_gone_tracees sys s)
  unfolding prune_gone_tracees
  prune_gone_tracees-Drops s =
      cleanup_each-Drops (filter (λ pid. not (sys.proc_exists pid s.world)) s.active_pids) s

  polled-Drops :
      (pid : ℕ) (r : Result ℕ WaitStatus) (s : LoopState W) → Drops s (polled sys pid r s)
  unfolding polled
  polled-Drops pid (ok (exited done_pid code)) s = cleanup_dead_tracee-Drops done_pid s
  polled-Drops pid (ok (signaled done_pid sig)) s = cleanup_dead_tracee-Drops done_pid s
  polled-Drops pid (ok (stopped p sig)) s = Drops-refl s
  polled-Drops pid (ok (ptrace_event p event)) s = Drops-refl s
  polled-Drops pid (ok (ptrace_syscall p)) s = Drops-refl s
  polled-Drops pid (ok (continued p)) s = Drops-refl s
  polled-Drops pid (ok still_alive) s = Drops-refl s
  polled-Drops pid (err e) s = elim (Bool-cases (nat_eq e echild || nat_eq e esrch)) [
    | inl gone ↦ rw gone (cleanup_dead_tracee-Drops pid s)
    | inr other ↦ rw other (Drops-refl s)
  ]

  poll_each-Drops : (pids : List ℕ) (s : LoopState W) → Drops s (poll_each sys pids s)
  unfolding poll_each
  poll_each-Drops [] s = Drops-refl s
  poll_each-Drops (pid ∷ pids) s =
      let (r, w) = sys.waitpid_nohang pid s.world in
      let s1 = record s { world = w } in
      let s2 = polled sys pid r s1 in
      Drops-trans s s1 _ (Drops-world s w)
        (Drops-trans s1 s2 _ (polled-Drops pid r s1) (poll_each-Drops pids s2))

  pub poll_known_tracees-Drops : (s : LoopState W) → Drops s (poll_known_tracees sys s)
  unfolding poll_known_tracees
  poll_known_tracees-Drops s = poll_each-Drops s.active_pids s

  module _ (use_seccomp : Bool) where
    terminate_each-Drops :
        (signal : ℕ) (pids : List ℕ) (s : LoopState W)
        → Drops s (terminate_each sys use_seccomp signal pids s)
    unfolding terminate_each
    terminate_each-Drops signal [] s = Drops-refl s
    terminate_each-Drops signal (pid ∷ pids) s =
        let s1 = record s { world = (sys.kill pid signal s.world).1 } in
        Drops-trans s s1 _ (Drops-world s s1.world)
          (Drops-trans s1 _ _ (after_ptrace-Drops pid _ s1) (terminate_each-Drops signal pids _))

    kill_each-Drops : (pids : List ℕ) (s : LoopState W) → Drops s (kill_each sys use_seccomp pids s)
    unfolding kill_each
    kill_each-Drops [] s = Drops-refl s
    kill_each-Drops (pid ∷ pids) s =
        let s1 = record s { world = (sys.kill pid sigkill s.world).1 } in
        Drops-trans s s1 _ (Drops-world s s1.world)
          (Drops-trans s1 _ _ (after_ptrace-Drops pid _ s1) (kill_each-Drops pids _))

    pub kill_active_tracees-Drops :
        (s : LoopState W) → Drops s (kill_active_tracees sys use_seccomp s)
    unfolding kill_active_tracees
    kill_active_tracees-Drops s = kill_each-Drops s.active_pids s

    pub begin_shutdown-Drops :
        (pgid signal : ℕ) (s : LoopState W) → Drops s (begin_shutdown sys use_seccomp pgid signal s)
    unfolding begin_shutdown terminate_active_tracees
    begin_shutdown-Drops pgid signal s =
        let s1 = record s { world = (sys.killpg pgid sigterm s.world).1 } in
        Drops-trans s s1 _ (Drops-world s s1.world) (terminate_each-Drops sigterm s1.active_pids s1)

    pub escalate_shutdown-Drops :
        (pgid : ℕ) (s : LoopState W) → Drops s (escalate_shutdown sys use_seccomp pgid s)
    unfolding escalate_shutdown
    escalate_shutdown-Drops pgid s =
        let s1 = record s { world = (sys.killpg pgid sigkill s.world).1 } in
        Drops-trans s s1 _ (Drops-world s s1.world) (kill_active_tracees-Drops s1)

    pub resume_tracee-Drops :
        (pid : ℕ) (sig : Option ℕ) (s : LoopState W)
        → Drops s (resume_tracee sys use_seccomp pid sig s).1
    unfolding resume_tracee resumed
    resume_tracee-Drops pid sig s = resumed-Drops (resume_call sys use_seccomp pid sig s)
      where
        resumed-Drops : (call : Done × W) → Drops s (resumed sys use_seccomp pid call s).1
        resumed-Drops (ok u, w) = Drops-world s w
        resumed-Drops (err e, w) = elim (Bool-cases (nat_eq e esrch)) [
          | inl gone ↦ rw gone (cleanup_in-Drops pid s w)
          | inr other ↦ rw other (Drops-world s w)
        ]
