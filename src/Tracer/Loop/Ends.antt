-- ===== src/Tracer/Loop/Ends.antt =====
-- How an iteration of `run` in `src/tracer/trace_loop.rs` ends, and with it the loop.
use proxec.Base.{true, ◌≡◌, ℕ, refl, inl, inr, Bool, false, List, [], ◌∷◌, nat_eq, Eq-ℕ, Bool-cases}
use proxec.Error.{Error}
use proxec.Result.{Result, ok, err}
use proxec.Os.{Os, WaitStatus}
use proxec.Tracer.State.{Config}
use proxec.Tracer.Loop.State.{LoopState, prune_gone_tracees, poll_known_tracees, echild}
use proxec.Tracer.Loop.Shutdown.{update_shutdown_state, kill_active_tracees}
use proxec.Tracer.Loop.Tracked.{
  IsTracked, Drops, Drops-trans, prune_gone_tracees-Drops, poll_known_tracees-Drops,
  kill_active_tracees-Drops,
}
use proxec.Tracer.Loop.Phases.{update_shutdown_state-IsStep}
use proxec.Tracer.Loop.Status.{fail, unless_empty}
use proxec.Tracer.Loop.Wait.{
  on_eintr, drain, on_einval, on_error, on_wait, deliver, iterate, eintr, einval,
}
use proxec.Tracer.Loop.Arms.{EndsWell, if_empty, if_ends, unless_empty-EndsWell, on_status-EndsWell}

module _ {W : Type 0} (sys : Os W) (cfg : Config) (child_pid : ℕ) (use_seccomp : Bool) where
  pub drain-Drops : (s : LoopState W) → Drops s (drain sys cfg child_pid use_seccomp s)
  unfolding drain
  drain-Drops s =
      let killed = kill_active_tracees sys use_seccomp s in
      let polled = poll_known_tracees sys killed in
      Drops-trans s killed _ (kill_active_tracees-Drops sys use_seccomp s) (
        Drops-trans killed polled _ (poll_known_tracees-Drops sys killed)
          (prune_gone_tracees-Drops sys polled))

  module _ (childless : LoopState W → Type 0) where
    on_eintr-EndsWell :
        (s : LoopState W)
        → IsTracked s
        → EndsWell childless (on_eintr sys cfg child_pid use_seccomp s)
    unfolding on_eintr
    on_eintr-EndsWell s h =
        let kept = (prune_gone_tracees-Drops sys s).tracked h in
        if_empty childless (prune_gone_tracees sys s) _ kept (
          (update_shutdown_state-IsStep sys use_seccomp child_pid
              (prune_gone_tracees sys s)).tracked
            kept)

    on_einval-EndsWell :
        (s : LoopState W)
        → IsTracked s
        → EndsWell childless (on_einval sys cfg child_pid use_seccomp s)
    unfolding on_einval
    on_einval-EndsWell s h =
        let s' = prune_gone_tracees sys (poll_known_tracees sys s) in
        let kept =
          (prune_gone_tracees-Drops sys _).tracked ((poll_known_tracees-Drops sys s).tracked h) in
        if_empty childless s' _ kept (
          if_ends childless s'.main_exited
            (unless_empty sys cfg child_pid use_seccomp (drain sys cfg child_pid use_seccomp s')) _
            (unless_empty-EndsWell sys cfg child_pid use_seccomp childless _
              ((drain-Drops s').tracked kept))
            kept)

  -- `waitpid` says that there is no child.
  abbrev pub says_childless : Result ℕ WaitStatus → Bool
  says_childless (ok status) = false
  says_childless (err e) = nat_eq e echild

  -- The state is the one after a `waitpid` with this result, which says that there is no child.
  abbrev pub Childless : Result ℕ WaitStatus → W → LoopState W → Type 0
  Childless r w s = (says_childless r ≡ true) × (s.world ≡ w)

  on_wait-EndsWell :
      (r : Result ℕ WaitStatus) (s : LoopState W)
      → IsTracked s
      → EndsWell (Childless r s.world) (on_wait sys cfg child_pid use_seccomp r s)
  unfolding on_wait on_error
  on_wait-EndsWell (ok status) s h =
      on_status-EndsWell sys cfg child_pid use_seccomp (Childless (ok status) s.world) status s h
  on_wait-EndsWell (err e) s h =
      let ends = Childless (err e) s.world in
      if_ends ends (nat_eq e eintr) (on_eintr sys cfg child_pid use_seccomp s) _
        (on_eintr-EndsWell ends s h)
        (elim (Bool-cases (nat_eq e echild)) [
          | inl childless ↦ rw childless (h, inr (childless, refl))
          | inr other ↦ rw other (
              if_ends ends (nat_eq e einval) (on_einval sys cfg child_pid use_seccomp s)
                (fail (Error.wait e) s) (on_einval-EndsWell ends s h) h)
        ])

  -- The variables when an iteration comes to `waitpid`.
  abbrev pub waiting : LoopState W → LoopState W
  waiting s = update_shutdown_state sys use_seccomp child_pid (prune_gone_tracees sys s)

  deliver-IsTracked :
      (arrived : List ℕ) (s : LoopState W)
      → IsTracked s
      → IsTracked (deliver sys cfg child_pid use_seccomp arrived s)
  unfolding deliver
  deliver-IsTracked [] s h = h
  deliver-IsTracked (sig ∷ sigs) s h = deliver-IsTracked sigs _ h

  deliver-world :
      (arrived : List ℕ) (s : LoopState W)
      → (deliver sys cfg child_pid use_seccomp arrived s).world ≡ s.world
  unfolding deliver
  deliver-world [] s = refl
  deliver-world (sig ∷ sigs) s = deliver-world sigs _

  -- The answer of the `waitpid` that the iteration comes to.
  abbrev pub answered : LoopState W → Result ℕ WaitStatus × W
  answered s = sys.waitpid_any (waiting s).world

  pub iterate-EndsWell :
      (arrived : List ℕ) (s : LoopState W)
      → IsTracked s
      → EndsWell
          (Childless (answered s).0 (answered s).1)
          (iterate sys cfg child_pid use_seccomp arrived s)
  unfolding iterate
  iterate-EndsWell arrived s h =
      let kept = (prune_gone_tracees-Drops sys s).tracked h in
      let stepped =
        (update_shutdown_state-IsStep sys use_seccomp child_pid (prune_gone_tracees sys s)).tracked
          kept in
      let s' = record (waiting s) { world = (answered s).1 } in
      let arm =
        on_wait-EndsWell (answered s).0 (deliver sys cfg child_pid use_seccomp arrived s')
          (deliver-IsTracked arrived s' stepped) in
      if_empty (Childless (answered s).0 (answered s).1) (prune_gone_tracees sys s) _ kept
        (rw (deliver-world arrived s') at arm)
