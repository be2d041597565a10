-- ===== src/Tracer/Loop/State.antt =====
-- The variables of `run` in `src/tracer/trace_loop.rs` and what its helpers do to them:
-- `cleanup_dead_tracee`, `prune_gone_tracees`, `poll_known_tracees` and `resume_tracee`.
use proxec.Base.{
  ℕ, Bool, true, false, not, ◌&&◌, ◌||◌, Option, none, some, List, [], ◌∷◌, nat_eq, if◌then◌else◌,
  filter, Eq-ℕ,
}
use proxec.Base.HashMap
use proxec.Base.HashMap.{HashMap}
use proxec.Base.HashSet
use proxec.Base.HashSet.{HashSet}
use proxec.Error.{Error}
use proxec.Result.{Result, ok, err}
use proxec.Os.{Os, WaitStatus, exited, signaled, Done}
use proxec.Socket.{SocketTracker, cleanup_process}
use proxec.Tracer.State.{ThreadState, TraceStats, entering, exiting}

-- The two statics that the signal handler writes.
pub record Signals : Type 0 where
  pub signal : ℕ
  pub received : ℕ

pub record ShutdownState : Type 0 where
  pub signal : ℕ
  pub started_at : ℕ
  pub escalated : Bool

pub record LoopState (W : Type 0) : Type 0 where
  pub thread_states : HashMap ℕ ThreadState
  pub active_pids : HashSet ℕ
  pub tracker : SocketTracker
  pub stats : TraceStats
  pub shutdown : Option ShutdownState
  pub main_exited : Bool
  pub exit_code : ℕ
  pub signals : Signals
  pub world : W

abbrev pub esrch : ℕ
esrch = 3

abbrev pub echild : ℕ
echild = 10

abbrev pub is_exiting : Option ThreadState → Bool
is_exiting none = false
is_exiting (some t) = elim (t.phase) [ exiting ↦ true | entering ↦ false ]

module _ {W : Type 0} (sys : Os W) where
  unfoldable pub cleanup_dead_tracee : ℕ → LoopState W → LoopState W
  cleanup_dead_tracee pid s = record s {
    thread_states = HashMap.remove pid s.thread_states;
    tracker = cleanup_process sys pid s.world s.tracker;
    active_pids = HashSet.remove pid s.active_pids;
  }

  -- A call of ptrace that the process may have been too late for.
  unfoldable pub after_ptrace : ℕ → Done × W → LoopState W → LoopState W
  after_ptrace pid (ok _, w) s = record s { world = w }
  after_ptrace pid (err e, w) s =
      if nat_eq e esrch
      then cleanup_dead_tracee pid (record s { world = w })
      else record s { world = w }

  -- The pids are collected before the first is cleaned up.
  unfoldable pub cleanup_each : List ℕ → LoopState W → LoopState W
  cleanup_each [] s = s
  cleanup_each (pid ∷ pids) s = cleanup_each pids (cleanup_dead_tracee pid s)

  unfoldable pub prune_gone_tracees : LoopState W → LoopState W
  unfolding cleanup_each
  prune_gone_tracees s =
      cleanup_each (filter (λ pid. not (sys.proc_exists pid s.world)) s.active_pids) s

  -- One answer of `waitpid` with WNOHANG: for an exit the pid that it names is cleaned up.
  unfoldable pub polled : ℕ → Result ℕ WaitStatus → LoopState W → LoopState W
  polled pid (ok (exited done_pid code)) s = cleanup_dead_tracee done_pid s
  polled pid (ok (signaled done_pid sig)) s = cleanup_dead_tracee done_pid s
  polled pid (ok _) s = s
  polled pid (err e) s = if nat_eq e echild || nat_eq e esrch then cleanup_dead_tracee pid s else s

  unfoldable pub poll_each : List ℕ → LoopState W → LoopState W
  unfolding polled
  poll_each [] s = s
  poll_each (pid ∷ pids) s =
      let (r, w) = sys.waitpid_nohang pid s.world in
      poll_each pids (polled pid r (record s { world = w }))

  unfoldable pub poll_known_tracees : LoopState W → LoopState W
  unfolding poll_each
  poll_known_tracees s = poll_each s.active_pids s

  module _ (use_seccomp : Bool) where
    -- PTRACE_CONT runs to the next filtered call; a thread inside a call has to stop at its exit.
    unfoldable pub resume_call : ℕ → Option ℕ → LoopState W → Done × W
    resume_call pid sig s =
        if use_seccomp && not (is_exiting (HashMap.get pid s.thread_states))
        then sys.ptrace_cont pid sig s.world
        else sys.ptrace_syscall pid sig s.world

    unfoldable pub resumed : ℕ → Done × W → LoopState W → Result Error (Unit {0}) × LoopState W
    resumed pid (ok _, w) s = (ok tt, record s { world = w })
    resumed pid (err e, w) s =
        if nat_eq e esrch
        then (ok tt, cleanup_dead_tracee pid (record s { world = w }))
        else (err (Error.ptrace e), record s { world = w })

    unfoldable pub resume_tracee :
        ℕ → Option ℕ → LoopState W → Result Error (Unit {0}) × LoopState W
    unfolding resume_call resumed
    resume_tracee pid sig s = resumed pid (resume_call pid sig s) s
