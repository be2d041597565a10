-- ===== src/Tracer/Loop/Code.antt =====
-- What has a say in the exit code of `run` in `src/tracer/trace_loop.rs`, round by round: a shutdown
-- that begins, and the end of the main process as `waitpid` reports it.
pub mod Arms
pub mod Rounds
use proxec.Base.{
  ℕ, ◌+◌, ◌≡◌, refl, sym, ◌∙◌, ap, Bool, true, false, ◌||◌, Option, none, some, List, [], ◌∷◌, ◌++◌,
  any, nat_eq, arith, if◌then◌else◌,
}
use proxec.Result.{Result, ok, err}
use proxec.Os.{Os, WaitStatus, exited, signaled}
use proxec.Tracer.State.{Config}
use proxec.Tracer.Loop.State.{LoopState, prune_gone_tracees}
use proxec.Tracer.Loop.Shutdown.{pending_shutdown_signal, update_shutdown_state}
use proxec.Tracer.Loop.Phases.{
  Phase, tracing, terminating, killing, phase_of, next_code, update_shutdown_state-IsStep,
}
use proxec.Tracer.Loop.Tracked.{Drops}
use proxec.Tracer.Loop.Status.{Flow, next, stop, fail, list_empty}
use proxec.Tracer.Loop.Wait.{deliver, iterate, eintr}

-- The shutdown begins by a signal; the main process has ended, with a code.
pub data Event : Type 0 where
  began ended : ℕ → Event

abbrev pub code_of : Event → ℕ
code_of (began signal) = 128 + signal
code_of (ended code) = code

-- The code of the last event, or the one before them.
abbrev pub last_code : ℕ → List Event → ℕ
last_code code [] = code
last_code code (x ∷ xs) = last_code (code_of x) xs

abbrev pub is_end : Event → Bool
is_end (began _) = false
is_end (ended _) = true

pub last_code-append :
    (code : ℕ) (xs ys : List Event) → last_code code (xs ++ ys) ≡ last_code (last_code code xs) ys
last_code-append code [] ys = refl
last_code-append code (x ∷ xs) ys = last_code-append (code_of x) xs ys

pub any-append : (xs ys : List Event) → any is_end (xs ++ ys) ≡ (any is_end xs || any is_end ys)
any-append [] ys = refl
any-append (x ∷ xs) ys = ground (arith, any-append xs ys)

module _ {W : Type 0} (sys : Os W) (cfg : Config) (child_pid : ℕ) (use_seccomp : Bool) where
  -- The first answer to a signal begins the shutdown.
  abbrev pub begins : Option ℕ → Phase → List Event
  begins none p = []
  begins (some signal) tracing = began signal ∷ []
  begins (some signal) (terminating _) = []
  begins (some signal) (killing _) = []

  abbrev pub begun : LoopState W → List Event
  begun s = begins (pending_shutdown_signal s.signals) (phase_of s.shutdown)

  abbrev pub gone : ℕ → ℕ → List Event
  gone pid code = if nat_eq pid child_pid then ended code ∷ [] else []

  abbrev pub reported : WaitStatus → List Event
  reported (exited pid code) = gone pid code
  reported (signaled pid sig) = gone pid (128 + sig)
  reported _ = []

  -- An interrupted `waitpid` looks at the signals once more, unless no process is left.
  abbrev pub waited : Result ℕ WaitStatus → LoopState W → List Event
  waited (ok status) s = reported status
  waited (err e) s =
      let s' = prune_gone_tracees sys s in
      if nat_eq e eintr then (if list_empty s'.active_pids then [] else begun s') else []

  abbrev pub events_in_round : List ℕ → LoopState W → List Event
  events_in_round arrived s =
      let s1 = prune_gone_tracees sys s in
      let s2 = update_shutdown_state sys use_seccomp child_pid s1 in
      let (r, w) = sys.waitpid_any s2.world in
      if list_empty s1.active_pids
      then []
      else begun s1
        ++ waited r (deliver sys cfg child_pid use_seccomp arrived (record s2 { world = w }))

  -- The events of the rounds that `run` has.
  abbrev pub events : List (List ℕ) → LoopState W → List Event
  events [] s = []
  events (arrived ∷ rounds) s =
      let later : LoopState W → List Event = events rounds in
      events_in_round arrived s ++ elim (iterate sys cfg child_pid use_seccomp arrived s) [
        | next s' ↦ later s'
        | stop s' ↦ []
        | fail e s' ↦ []
      ]

module _ {W : Type 0} where
  -- From one state to another, the events account for the exit code and for `main_exited`.
  pub record Accounts (s : LoopState W) (xs : List Event) (s' : LoopState W) : Type 0 where
    pub code : s'.exit_code ≡ last_code s.exit_code xs
    pub main_exited : s'.main_exited ≡ (s.main_exited || any is_end xs)

  pub Accounts-Drops : {s s' : LoopState W} → Drops s s' → Accounts s [] s'
  Accounts-Drops d = record { code = d.exit_code; main_exited = ground (arith, d.main_exited) }

  pub Accounts-refl : (s : LoopState W) → Accounts s [] s
  Accounts-refl s = record { code = refl; main_exited = ground arith }

  pub Accounts-trans :
      {s t u : LoopState W} (xs ys : List Event)
      → Accounts s xs t
      → Accounts t ys u
      → Accounts s (xs ++ ys) u
  Accounts-trans {s} xs ys a b = record {
    code = b.code ∙ ap (λ c. last_code c ys) a.code ∙ sym (last_code-append s.exit_code xs ys);
    main_exited = ground (arith, a.main_exited, b.main_exited, any-append xs ys);
  }

  pub Accounts-if :
      {s t t' : LoopState W} (b : Bool) (xs : List Event)
      → Accounts s xs t
      → Accounts s xs t'
      → Accounts s xs (if b then t else t')
  Accounts-if true xs a a' = a
  Accounts-if false xs a a' = a'

  -- How the arms of the loop end, whichever way it is.
  abbrev pub state_of : Flow W → LoopState W
  state_of (next s) = s
  state_of (stop s) = s
  state_of (fail e s) = s

  pub Accounts-flow :
      {s : LoopState W} (b : Bool) (xs : List Event) (f g : Flow W)
      → Accounts s xs (state_of f)
      → Accounts s xs (state_of g)
      → Accounts s xs (state_of (if b then f else g))
  Accounts-flow true xs f g a a' = a
  Accounts-flow false xs f g a a' = a'

module _ {W : Type 0} (sys : Os W) (cfg : Config) (child_pid : ℕ) (use_seccomp : Bool) where
  next_code-begins :
      (pending : Option ℕ) (p : Phase) (code : ℕ)
      → (next_code pending p code ≡ last_code code (begins sys cfg child_pid use_seccomp pending p))
        × (any is_end (begins sys cfg child_pid use_seccomp pending p) ≡ false)
  next_code-begins none p code = (refl, refl)
  next_code-begins (some signal) tracing code = (refl, refl)
  next_code-begins (some signal) (terminating _) code = (refl, refl)
  next_code-begins (some signal) (killing _) code = (refl, refl)

  pub update_shutdown_state-Accounts :
      (s : LoopState W)
      → Accounts s
          (begun sys cfg child_pid use_seccomp s)
          (update_shutdown_state sys use_seccomp child_pid s)
  update_shutdown_state-Accounts s =
      let step = update_shutdown_state-IsStep sys use_seccomp child_pid s in
      let (code, no_end) =
        next_code-begins (pending_shutdown_signal s.signals) (phase_of s.shutdown) s.exit_code in
      record { code = step.code ∙ code; main_exited = ground (arith, step.main_exited, no_end) }
