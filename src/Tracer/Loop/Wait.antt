-- ===== src/Tracer/Loop/Wait.antt =====
-- One iteration of `run` in `src/tracer/trace_loop.rs`: the check for processes that are gone, the
-- shutdown, `waitpid`, and the arm for its result.
use proxec.Base.{ℕ, Bool, false, Option, none, some, List, [], ◌∷◌, nat_eq, if◌then◌else◌, Eq-ℕ}
use proxec.Base.HashSet
use proxec.Error.{Error}
use proxec.Result.{Result, ok, err}
use proxec.Os.{Os, WaitStatus}
use proxec.Socket
use proxec.Tracer.State.{Config, no_stats}
use proxec.Tracer.Loop.State.{LoopState, echild, prune_gone_tracees, poll_known_tracees}
use proxec.Tracer.Loop.Shutdown.{
  install_shutdown_handlers, handle_shutdown_signal, update_shutdown_state, kill_active_tracees,
}
use proxec.Tracer.Loop.Status.{Flow, next, stop, fail, list_empty, unless_empty, on_status}

abbrev pub eintr : ℕ
eintr = 4

abbrev pub einval : ℕ
einval = 22

module _ {W : Type 0} (sys : Os W) (cfg : Config) (child_pid : ℕ) (use_seccomp : Bool) where
  unfoldable pub on_eintr : LoopState W → Flow W
  on_eintr s =
      let s' = prune_gone_tracees sys s in
      if list_empty s'.active_pids
      then stop s'
      else next (update_shutdown_state sys use_seccomp child_pid s')

  -- The residual processes after the main one has exited are killed.
  unfoldable pub drain : LoopState W → LoopState W
  drain s = prune_gone_tracees sys (poll_known_tracees sys (kill_active_tracees sys use_seccomp s))

  unfoldable pub on_einval : LoopState W → Flow W
  unfolding drain unless_empty
  on_einval s =
      let s' = prune_gone_tracees sys (poll_known_tracees sys s) in
      if list_empty s'.active_pids
      then stop s'
      else if s'.main_exited
      then unless_empty sys cfg child_pid use_seccomp (drain s')
      else next s'

  unfoldable pub on_error : ℕ → LoopState W → Flow W
  on_error e s =
      if nat_eq e eintr
      then on_eintr s
      else if nat_eq e echild
      then stop s
      else if nat_eq e einval
      then on_einval s
      else fail (Error.wait e) s

  unfoldable pub on_wait : Result ℕ WaitStatus → LoopState W → Flow W
  on_wait (ok status) s = on_status sys cfg child_pid use_seccomp status s
  on_wait (err e) s = on_error e s

  -- The signals that arrive while `waitpid` waits.
  unfoldable pub deliver : List ℕ → LoopState W → LoopState W
  deliver [] s = s
  deliver (sig ∷ sigs) s =
      deliver sigs (record s { signals = handle_shutdown_signal sig s.signals })

  -- One round of the loop.
  unfoldable pub iterate : List ℕ → LoopState W → Flow W
  unfolding deliver
  iterate arrived s =
      let s1 = prune_gone_tracees sys s in
      let s2 = update_shutdown_state sys use_seccomp child_pid s1 in
      let (r, w) = sys.waitpid_any s2.world in
      if list_empty s1.active_pids
      then stop s1
      else on_wait r (deliver arrived (record s2 { world = w }))

  -- The variables before the loop, with the handlers just installed.
  unfoldable pub initial : W → Socket.SocketTracker → LoopState W
  initial w tracker = record {
    thread_states = [];
    active_pids = HashSet.insert child_pid [];
    tracker = tracker;
    stats = no_stats;
    shutdown = none;
    main_exited = false;
    exit_code = 0;
    signals = record { signal = 0; received = 0 };
    world = w;
  }

  abbrev finished : LoopState W → Result Error ℕ × LoopState W
  finished s = (ok s.exit_code, s)

  -- The loop of `run` for one round per list of the signals that arrive in it; `none` if it still traces then.
  unfoldable pub run : List (List ℕ) → LoopState W → Option (Result Error ℕ × LoopState W)
  run [] s = none
  run (arrived ∷ rounds) s = elim (iterate arrived s) [
    | next s' ↦ run rounds s'
    | stop s' ↦ some (finished s')
    | fail e s' ↦ some (err e, s')
  ]

  -- The whole of `run`: the handlers first, whose error leaves it before anything is traced.
  unfoldable pub start :
      List (List ℕ) → W → Socket.SocketTracker → Option (Result Error ℕ × LoopState W)
  unfolding run install_shutdown_handlers
  start rounds w tracker =
      let (r, w') = install_shutdown_handlers sys w in
      elim r [ ok _ ↦ run rounds (initial w' tracker) | err e ↦ some (err e, initial w' tracker) ]
