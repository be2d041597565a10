-- ===== src/Tracer/Loop/Shutdown.antt =====
-- The shutdown of `src/tracer/trace_loop.rs`: the signal handler, SIGTERM to the process group and
-- every traced process, and SIGKILL after a second signal or two seconds.
use proxec.Base.{
  ℕ, ◌+◌, ◌-◌, ◌%◌, ◌^◌, Bool, true, false, not, ◌&&◌, ◌||◌, Option, none, some, List, [], ◌∷◌,
  nat_eq, ltb, leb, if◌then◌else◌,
}
use proxec.Error.{Error}
use proxec.Result.{Result, ok, err}
use proxec.Os.{Os}
use proxec.Tracer.Loop.State.{Signals, ShutdownState, LoopState, after_ptrace}

abbrev pub sighup : ℕ
sighup = 1

abbrev pub sigint : ℕ
sigint = 2

abbrev pub sigkill : ℕ
sigkill = 9

abbrev pub sigterm : ℕ
sigterm = 15

-- `handle_shutdown_signal`: the first signal stays, and every one is counted.
unfoldable pub handle_shutdown_signal : ℕ → Signals → Signals
handle_shutdown_signal sig s = record {
  signal = if nat_eq s.signal 0 then sig else s.signal;
  received = (s.received + 1) % 2 ^ 64;
}

unfoldable pub pending_shutdown_signal : Signals → Option ℕ
pending_shutdown_signal s =
    if nat_eq s.signal 0
    then none
    else if nat_eq s.signal sigint
    then some sigint
    else if nat_eq s.signal sigterm
    then some sigterm
    else if nat_eq s.signal sighup
    then some sighup
    else some sigterm

module _ {W : Type 0} (sys : Os W) where
  unfoldable pub install_each : List ℕ → W → Result Error (Unit {0}) × W
  install_each [] w = (ok tt, w)
  install_each (sig ∷ sigs) w =
      let (r, w') = sys.sigaction sig w in
      let rest = install_each sigs w' in elim r [ ok _ ↦ rest | err e ↦ (err (Error.ptrace e), w') ]

  -- The two statics are reset after it, in the variables that the loop starts with.
  unfoldable pub install_shutdown_handlers : W → Result Error (Unit {0}) × W
  unfolding install_each
  install_shutdown_handlers w = install_each (sigint ∷ sigterm ∷ sighup ∷ []) w

module _ {W : Type 0} (sys : Os W) (use_seccomp : Bool) where
  unfoldable pub terminate_each : ℕ → List ℕ → LoopState W → LoopState W
  terminate_each signal [] s = s
  terminate_each signal (pid ∷ pids) s =
      let w = (sys.kill pid signal s.world).1 in
      let call =
        if use_seccomp
        then sys.ptrace_cont pid (some signal) w
        else sys.ptrace_syscall pid (some signal) w in
      terminate_each signal pids (after_ptrace sys pid call (record s { world = w }))

  unfoldable pub terminate_active_tracees : ℕ → LoopState W → LoopState W
  unfolding terminate_each
  terminate_active_tracees signal s = terminate_each signal s.active_pids s

  unfoldable pub kill_each : List ℕ → LoopState W → LoopState W
  kill_each [] s = s
  kill_each (pid ∷ pids) s =
      let w = (sys.kill pid sigkill s.world).1 in
      kill_each pids (after_ptrace sys pid (sys.ptrace_kill pid w) (record s { world = w }))

  unfoldable pub kill_active_tracees : LoopState W → LoopState W
  unfolding kill_each
  kill_active_tracees s = kill_each s.active_pids s

  -- The received signal is only logged: what is sent is SIGTERM.
  unfoldable pub begin_shutdown : ℕ → ℕ → LoopState W → LoopState W
  begin_shutdown pgid signal s =
      terminate_active_tracees sigterm (record s { world = (sys.killpg pgid sigterm s.world).1 })

  unfoldable pub escalate_shutdown : ℕ → LoopState W → LoopState W
  escalate_shutdown pgid s =
      kill_active_tracees (record s { world = (sys.killpg pgid sigkill s.world).1 })

  unfoldable pub start_shutdown : ℕ → ℕ → LoopState W → LoopState W
  start_shutdown pgid signal s =
      let s' = begin_shutdown pgid signal s in
      record s' {
        exit_code = 128 + signal;
        shutdown =
            some (record { signal = signal; started_at = sys.now s'.world; escalated = false });
      }

  unfoldable pub is_due : ShutdownState → LoopState W → Bool
  is_due state s =
      not state.escalated
      && (ltb 1 s.signals.received || leb 2000 (sys.now s.world - state.started_at))

  -- By the pending signal and the shutdown so far.
  unfoldable pub answer : ℕ → Option ℕ → Option ShutdownState → LoopState W → LoopState W
  unfolding start_shutdown is_due
  answer pgid none shutdown s = s
  answer pgid (some signal) none s = start_shutdown pgid signal s
  answer pgid (some signal) (some state) s =
      if is_due state s
      then record (escalate_shutdown pgid s) { shutdown = some (record state { escalated = true }) }
      else s

  unfoldable pub update_shutdown_state : ℕ → LoopState W → LoopState W
  unfolding answer
  update_shutdown_state pgid s = answer pgid (pending_shutdown_signal s.signals) s.shutdown s
