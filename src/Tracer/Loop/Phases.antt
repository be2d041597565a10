-- ===== src/Tracer/Loop/Phases.antt =====
-- The shutdown of `src/tracer/trace_loop.rs` as a machine of three phases that only goes forward.
use proxec.Base.{
  ℕ, ◌+◌, ◌-◌, ◌≡◌, ◌≢◌, refl, ◌∙◌, sym, ◌⊎◌, inl, inr, Bool, false, ◌||◌, Option, none, some, List,
  [], ◌∷◌, ltb, leb, arith, if◌then◌else◌, Bool-cases,
}
use proxec.Os.{Os}
use proxec.Tracer.Loop.State.{LoopState, Signals, ShutdownState}
use proxec.Tracer.Loop.Shutdown.{
  handle_shutdown_signal, pending_shutdown_signal, start_shutdown, is_due, answer,
  update_shutdown_state, sigint, sigterm, sighup,
}
use proxec.Tracer.Loop.Tracked.{IsTracked, begin_shutdown-Drops, escalate_shutdown-Drops}

-- Tracing, after SIGTERM, or after SIGKILL, with the signal that was answered.
pub data Phase : Type 0 where
  tracing : Phase
  terminating killing : ℕ → Phase

abbrev pub phase_of : Option ShutdownState → Phase
phase_of none = tracing
phase_of (some state) = if state.escalated then killing state.signal else terminating state.signal

-- The next phase, by the pending signal and by the test for a second signal or the time.
abbrev pub next_phase : Option ℕ → Bool → Phase → Phase
next_phase none due p = p
next_phase (some signal) due tracing = terminating signal
next_phase (some signal) due (terminating first) = if due then killing first else terminating first
next_phase (some signal) due (killing first) = killing first

-- The exit code changes in one step only: the first answer to a signal.
abbrev pub next_code : Option ℕ → Phase → ℕ → ℕ
next_code none p code = code
next_code (some signal) tracing code = 128 + signal
next_code (some signal) (terminating first) code = code
next_code (some signal) (killing first) code = code

module _ {W : Type 0} (sys : Os W) (use_seccomp : Bool) where
  -- A second signal has come, or two seconds have passed since the first answer.
  abbrev pub overdue : LoopState W → Bool
  overdue s = ltb 1 s.signals.received || elim s.shutdown [
    | none ↦ false
    | some state ↦ leb 2000 (sys.now s.world - state.started_at)
  ]

  -- What a call with this pending signal does.
  pub record IsStep (pending : Option ℕ) (s s' : LoopState W) : Type 0 where
    pub phase : phase_of s'.shutdown ≡ next_phase pending (overdue s) (phase_of s.shutdown)
    pub code : s'.exit_code ≡ next_code pending (phase_of s.shutdown) s.exit_code
    pub signals : s'.signals ≡ s.signals
    pub stats : s'.stats ≡ s.stats
    pub main_exited : s'.main_exited ≡ s.main_exited
    pub tracked : IsTracked s → IsTracked s'

  answer-IsStep :
      (pgid : ℕ) (pending : Option ℕ) (shutdown : Option ShutdownState) (s : LoopState W)
      → s.shutdown ≡ shutdown
      → IsStep pending s (answer sys use_seccomp pgid pending shutdown s)
  unfolding answer start_shutdown is_due
  answer-IsStep pgid none shutdown s e = record {
    phase = refl;
    code = refl;
    signals = refl;
    stats = refl;
    main_exited = refl;
    tracked = λ h. h;
  }
  answer-IsStep pgid (some signal) none s e =
      let d = begin_shutdown-Drops sys use_seccomp pgid signal s in
      record {
        phase = rw e refl;
        code = rw e refl;
        signals = d.signals;
        stats = d.stats;
        main_exited = d.main_exited;
        tracked = d.tracked;
      }
  answer-IsStep pgid (some signal) (some state) s e =
      let d = escalate_shutdown-Drops sys use_seccomp pgid s in
      elim (Bool-cases (is_due sys use_seccomp state s)) [
        | inl due ↦ rw due (record {
          phase = ground (arith, e, due);
          code = ground (arith, e, due, d.exit_code);
          signals = d.signals;
          stats = d.stats;
          main_exited = d.main_exited;
          tracked = d.tracked;
        })
        | inr early ↦ rw early (record {
          phase = ground (arith, e, early);
          code = ground (arith, e, early);
          signals = refl;
          stats = refl;
          main_exited = refl;
          tracked = λ h. h;
        })
      ]

  -- One call of `update_shutdown_state` is one step of the machine: a pending signal takes it from
  -- tracing to terminating, with 128 plus the signal as the exit code, and from there to killing if
  -- the step is overdue; the exit code changes in the first step only. The received signals, the
  -- counters and `main_exited` stay, and thread states stay those of active processes.
  pub update_shutdown_state-IsStep :
      (pgid : ℕ) (s : LoopState W)
      → IsStep (pending_shutdown_signal s.signals) s (update_shutdown_state sys use_seccomp pgid s)
  unfolding update_shutdown_state
  update_shutdown_state-IsStep pgid s =
      answer-IsStep pgid (pending_shutdown_signal s.signals) s.shutdown s refl

-- The signals in the order of their arrival.
abbrev pub handle_all : List ℕ → Signals → Signals
handle_all [] s = s
handle_all (sig ∷ sigs) s = handle_all sigs (handle_shutdown_signal sig s)

handle_all_latched :
    (sigs : List ℕ) (s : Signals) → s.signal ≢ 0 → (handle_all sigs s).signal ≡ s.signal
unfolding handle_shutdown_signal
handle_all_latched [] s set = refl
handle_all_latched (sig ∷ sigs) s set =
    let kept : (handle_shutdown_signal sig s).signal ≡ s.signal = ground (arith, set) in
    handle_all_latched sigs (handle_shutdown_signal sig s) (λ e. set (sym kept ∙ e)) ∙ kept

-- Of the signals SIGINT, SIGTERM and SIGHUP that arrive when none is recorded, the first is the one
-- that the loop answers, whatever signals follow.
pub pending_shutdown_signal_first :
    (sig : ℕ) (sigs : List ℕ) (s : Signals)
    → (sig ≡ sigint) ⊎ (sig ≡ sigterm) ⊎ (sig ≡ sighup)
    → s.signal ≡ 0
    → pending_shutdown_signal (handle_all (sig ∷ sigs) s) ≡ some sig
unfolding handle_shutdown_signal pending_shutdown_signal
pending_shutdown_signal_first sig sigs s known unset =
    ground (arith, handle_all_latched sigs (handle_shutdown_signal sig s))
