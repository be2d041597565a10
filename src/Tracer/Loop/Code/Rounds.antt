-- ===== src/Tracer/Loop/Code/Rounds.antt =====
-- The exit code that `run` of `src/tracer/trace_loop.rs` returns, by the events of its rounds.
use proxec.Base.{
  ℕ, ◌≡◌, refl, ◌∙◌, inl, inr, Bool, some, List, [], ◌∷◌, ◌++◌, append-nil, any, nat_eq,
  if◌then◌else◌, Eq-ℕ, Bool-cases,
}
use mathlib.Core.Path.{subst}
use proxec.Error.{Error}
use proxec.Result.{Result, ok, err}
use proxec.Os.{Os, WaitStatus}
use proxec.Socket.{SocketTracker}
use proxec.Tracer.State.{Config}
use proxec.Tracer.Loop.State.{LoopState, prune_gone_tracees, poll_known_tracees, echild}
use proxec.Tracer.Loop.Shutdown.{update_shutdown_state, install_shutdown_handlers}
use proxec.Tracer.Loop.Tracked.{
  Drops, Drops-trans, prune_gone_tracees-Drops, poll_known_tracees-Drops,
}
use proxec.Tracer.Loop.Status.{Flow, next, stop, fail, list_empty}
use proxec.Tracer.Loop.Wait.{
  on_eintr, on_einval, on_error, on_wait, deliver, iterate, initial, run, start, eintr, einval,
}
use proxec.Tracer.Loop.Run.{run_ends}
use proxec.Tracer.Loop.Ends.{drain-Drops}
use proxec.Tracer.Loop.Code.{
  Event, is_end, last_code, begun, waited, events_in_round, events, Accounts, Accounts-Drops,
  Accounts-refl, Accounts-trans, Accounts-flow, state_of, update_shutdown_state-Accounts,
}
use proxec.Tracer.Loop.Code.Arms.{unless_empty-state, on_status-Accounts}

module _ {W : Type 0} (sys : Os W) (cfg : Config) (child_pid : ℕ) (use_seccomp : Bool) where
  on_eintr-Accounts :
      (s : LoopState W)
      → (let s' = prune_gone_tracees sys s in
          Accounts s
            (if list_empty s'.active_pids then [] else begun sys cfg child_pid use_seccomp s')
            (state_of (on_eintr sys cfg child_pid use_seccomp s)))
  unfolding on_eintr
  on_eintr-Accounts s =
      let s' : LoopState W = prune_gone_tracees sys s in
      let pruned = Accounts-Drops (prune_gone_tracees-Drops sys s) in
      elim (Bool-cases (list_empty s'.active_pids)) [
        | inl none_left ↦ rw none_left pruned
        | inr some_left ↦ rw some_left (
            Accounts-trans [] _ pruned
              (update_shutdown_state-Accounts sys cfg child_pid use_seccomp s'))
      ]

  on_einval-Accounts :
      (s : LoopState W) → Accounts s [] (state_of (on_einval sys cfg child_pid use_seccomp s))
  unfolding on_einval
  on_einval-Accounts s =
      let s' : LoopState W = prune_gone_tracees sys (poll_known_tracees sys s) in
      let looked : Drops s s' =
        Drops-trans s _ s' (poll_known_tracees-Drops sys s) (prune_gone_tracees-Drops sys _) in
      let killed = Drops-trans s s' _ looked (drain-Drops sys cfg child_pid use_seccomp s') in
      let a = Accounts-Drops looked in
      Accounts-flow (list_empty s'.active_pids) [] (stop s') _ a (
        Accounts-flow s'.main_exited [] _ (next s')
          (unless_empty-state sys cfg child_pid use_seccomp s _ [] (Accounts-Drops killed)) a)

  on_wait-Accounts :
      (r : Result ℕ WaitStatus) (s : LoopState W)
      → Accounts s
          (waited sys cfg child_pid use_seccomp r s)
          (state_of (on_wait sys cfg child_pid use_seccomp r s))
  unfolding on_wait on_error
  on_wait-Accounts (ok status) s = on_status-Accounts sys cfg child_pid use_seccomp status s
  on_wait-Accounts (err e) s = elim (Bool-cases (nat_eq e eintr)) [
    | inl interrupted ↦ rw interrupted (on_eintr-Accounts s)
    | inr other ↦ rw other (
        Accounts-flow (nat_eq e echild) [] (stop s) _ (Accounts-refl s) (
          Accounts-flow (nat_eq e einval) [] (on_einval sys cfg child_pid use_seccomp s) _
            (on_einval-Accounts s) (Accounts-refl s)))
  ]

  deliver-Accounts :
      (arrived : List ℕ) (s : LoopState W)
      → Accounts s [] (deliver sys cfg child_pid use_seccomp arrived s)
  unfolding deliver
  deliver-Accounts [] s = Accounts-refl s
  deliver-Accounts (sig ∷ sigs) s =
      let a = deliver-Accounts sigs _ in record { code = a.code; main_exited = a.main_exited }

  iterate-Accounts :
      (arrived : List ℕ) (s : LoopState W)
      → Accounts s
          (events_in_round sys cfg child_pid use_seccomp arrived s)
          (state_of (iterate sys cfg child_pid use_seccomp arrived s))
  unfolding iterate
  iterate-Accounts arrived s =
      let s1 : LoopState W = prune_gone_tracees sys s in
      let pruned = Accounts-Drops (prune_gone_tracees-Drops sys s) in
      let s2 : LoopState W = update_shutdown_state sys use_seccomp child_pid s1 in
      let (r, w) = sys.waitpid_any s2.world in
      let s3 : LoopState W = record s2 { world = w } in
      let stepped = update_shutdown_state-Accounts sys cfg child_pid use_seccomp s1 in
      let waiting : Accounts s1 (begun sys cfg child_pid use_seccomp s1) s3 = record {
        code = stepped.code;
        main_exited = stepped.main_exited;
      } in
      let delivered = Accounts-trans [] [] (Accounts-refl s3) (deliver-Accounts arrived s3) in
      elim (Bool-cases (list_empty s1.active_pids)) [
        | inl none_left ↦ rw none_left pruned
        | inr some_left ↦ rw some_left (
            Accounts-trans [] _ pruned
              (Accounts-trans _ _ waiting (Accounts-trans [] _ delivered (on_wait-Accounts r _))))
      ]

  run-Accounts :
      (rounds : List (List ℕ)) (s : LoopState W) (out : Result Error ℕ × LoopState W)
      → run sys cfg child_pid use_seccomp rounds s ≡ some out
      → Accounts s (events sys cfg child_pid use_seccomp rounds s) out.1
  unfolding run
  run-Accounts [] s out e = cc
  run-Accounts (arrived ∷ rounds) s out e =
      by_flow (iterate sys cfg child_pid use_seccomp arrived s) (iterate-Accounts arrived s)
        (λ s' e. run-Accounts rounds s' out e) e
    where
      now : List Event
      now = events_in_round sys cfg child_pid use_seccomp arrived s

      at_end :
          (r : Result Error ℕ) (t : LoopState W)
          → some (r, t) ≡ some out
          → Accounts s now t
          → Accounts s (now ++ []) out.1
      at_end r t e a =
          let same : (r, t) ≡ out = cc in
          rw (append-nil now) (subst (λ o. Accounts s now o.1) same a)

      by_flow :
          (f : Flow W)
          → Accounts s now (state_of f)
          → ((s' : LoopState W)
              → run sys cfg child_pid use_seccomp rounds s' ≡ some out
              → Accounts s' (events sys cfg child_pid use_seccomp rounds s') out.1)
          → elim f [
            | next s' ↦ run sys cfg child_pid use_seccomp rounds s'
            | stop s' ↦ some (ok s'.exit_code, s')
            | fail e s' ↦ some (err e, s')
          ]
            ≡ some out
          → Accounts s
              (now ++ elim f [
                | next s' ↦ events sys cfg child_pid use_seccomp rounds s'
                | stop s' ↦ []
                | fail e s' ↦ []
              ])
              out.1
      by_flow (next s') a rest e = Accounts-trans now _ a (rest s' e)
      by_flow (stop s') a rest e = at_end (ok s'.exit_code) s' e a
      by_flow (fail x s') a rest e = at_end (err x) s' e a

  -- If `run` returns a code, the handlers have been installed and it is the code of the last event of
  -- its rounds, and 0 if there is none: 128 plus the signal where a shutdown begins, and the code of
  -- the main process, or 128 plus its signal, where a `waitpid` for any process reports its end. What
  -- the check of the known processes reaps, and the ends of other processes, have no say.
  -- `main_exited` is set just if the main process was so reported.
  pub start-last_code :
      (rounds : List (List ℕ)) (w : W) (t : SocketTracker) (code : ℕ) (s : LoopState W)
      → start sys cfg child_pid use_seccomp rounds w t ≡ some (ok code, s)
      → (let (installed, w') = install_shutdown_handlers sys w in
          let all =
            events sys cfg child_pid use_seccomp rounds
              (initial sys cfg child_pid use_seccomp w' t) in
          (installed ≡ ok tt) × (code ≡ last_code 0 all) × (s.main_exited ≡ any is_end all))
  unfolding start initial
  start-last_code rounds w t code s e = by_handlers (install_shutdown_handlers sys w) e
    where
      by_handlers :
          (installed : Result Error (Unit {0}) × W)
          → elim installed.0 [
            | ok _ ↦
                run sys cfg child_pid use_seccomp rounds
                  (initial sys cfg child_pid use_seccomp installed.1 t)
            | err x ↦ some (err x, initial sys cfg child_pid use_seccomp installed.1 t)
          ]
            ≡ some (ok code, s)
          → (let all =
                events sys cfg child_pid use_seccomp rounds
                  (initial sys cfg child_pid use_seccomp installed.1 t) in
              (installed.0 ≡ ok tt) × (code ≡ last_code 0 all) × (s.main_exited ≡ any is_end all))
      by_handlers (ok tt, w') e =
          let a = run-Accounts rounds (initial sys cfg child_pid use_seccomp w' t) (ok code, s) e in
          let (same, _) = run_ends sys cfg child_pid use_seccomp rounds w' t (ok code, s) e in
          (refl, same ∙ a.code, a.main_exited)
      by_handlers (err x, w') e = cc
