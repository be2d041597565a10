-- ===== src/Tracer/Loop/Run.antt =====
-- The result of `run` in `src/tracer/trace_loop.rs`: when the loop returns, and with what.
use mathlib.Core.Path.{subst}
use proxec.Base.{
  ℕ, ◌≡◌, refl, ap, ◌⊎◌, inl, inr, Bool, true, false, not, ◌&&◌, none, some, List, [], ◌∷◌, arith,
  filter, Eq-ℕ, Option-cases,
}
use proxec.Base.HashMap
use proxec.Base.HashSet
use proxec.Base.HashSet.{contains-remove}
use proxec.Error.{Error}
use proxec.Result.{Result, ok, err}
use proxec.Os.{Os}
use proxec.Socket.{SocketTracker}
use proxec.Tracer.State.{Config}
use proxec.Tracer.Loop.State.{LoopState, cleanup_dead_tracee, cleanup_each, prune_gone_tracees}
use proxec.Tracer.Loop.Tracked.{IsTracked, prune_gone_tracees-Drops}
use proxec.Tracer.Loop.Status.{Flow, next, stop, fail, list_empty}
use proxec.Tracer.Loop.Wait.{iterate, initial, run}
use proxec.Tracer.Loop.Arms.{EndsWell}
use proxec.Tracer.Loop.Ends.{Childless, answered, waiting, iterate-EndsWell}

module _ {W : Type 0} (sys : Os W) where
  contains-filter :
      (p : ℕ → Bool) (j : ℕ) (xs : List ℕ)
      → HashSet.contains j (filter p xs) ≡ (p j && HashSet.contains j xs)
  unfolding HashSet.contains
  contains-filter p j [] = ground arith
  contains-filter p j (x ∷ xs) = ground (arith, contains-filter p j xs, same_test)
    where
      same_test : x ≡ j → p x ≡ p j
      same_test e = cc

  contains-cleanup_each :
      (j : ℕ) (pids : List ℕ) (s : LoopState W)
      → HashSet.contains j (cleanup_each sys pids s).active_pids
        ≡ (not (HashSet.contains j pids) && HashSet.contains j s.active_pids)
  unfolding cleanup_each cleanup_dead_tracee HashSet.contains
  contains-cleanup_each j [] s = refl
  contains-cleanup_each j (pid ∷ pids) s = ground (
    arith,
    contains-cleanup_each j pids (cleanup_dead_tracee sys pid s),
    contains-remove j pid s.active_pids,
  )

  -- `prune_gone_tracees` leaves exactly those active processes that procfs shows.
  pub contains-prune_gone_tracees :
      (pid : ℕ) (s : LoopState W)
      → HashSet.contains pid (prune_gone_tracees sys s).active_pids
        ≡ (HashSet.contains pid s.active_pids && sys.proc_exists pid s.world)
  unfolding prune_gone_tracees
  contains-prune_gone_tracees pid s = ground (
    arith,
    contains-cleanup_each pid (filter (λ p. not (sys.proc_exists p s.world)) s.active_pids) s,
    contains-filter (λ p. not (sys.proc_exists p s.world)) pid s.active_pids,
  )

-- A set without members is the empty list.
empty_set : (xs : List ℕ) → ((x : ℕ) → HashSet.contains x xs ≡ false) → list_empty xs ≡ true
unfolding HashSet.contains
empty_set [] h = refl
empty_set (x ∷ xs) h = ground (arith, h x)

no_member : (xs : List ℕ) (x : ℕ) → list_empty xs ≡ true → HashSet.contains x xs ≡ false
unfolding HashSet.contains
no_member [] x e = refl
no_member (y ∷ ys) x e = cc

module _ {W : Type 0} (sys : Os W) (cfg : Config) (child_pid : ℕ) (use_seccomp : Bool) where
  -- How `run` may return: well, with its exit code, once no process is active, so that no thread
  -- state is left, or right after a `waitpid` that said that there is no child; or with an error.
  abbrev pub Returns : Result Error ℕ × LoopState W → Type 0
  Returns (ok code, s) =
      (code ≡ s.exit_code)
      × (((list_empty s.active_pids ≡ true) × ((pid : ℕ) → HashMap.get pid s.thread_states ≡ none))
          ⊎ ((w : W) × Childless sys cfg child_pid use_seccomp (sys.waitpid_any w).0
                (sys.waitpid_any w).1 s))
  Returns (err e, s) = IsTracked s

  no_threads :
      (s : LoopState W)
      → IsTracked s
      → list_empty s.active_pids ≡ true
      → (pid : ℕ) → HashMap.get pid s.thread_states ≡ none
  no_threads s h e pid = elim (Option-cases (HashMap.get pid s.thread_states)) [
    | inl absent ↦ absent
    | inr (t, there) ↦ absurd (ground (arith, h pid t there, no_member s.active_pids pid e))
  ]

  run-Returns :
      (rounds : List (List ℕ)) (s : LoopState W)
      → IsTracked s
      → (out : Result Error ℕ × LoopState W) → run sys cfg child_pid use_seccomp rounds s ≡ some out
      → Returns out
  unfolding run
  run-Returns [] s h out e = cc
  run-Returns (arrived ∷ rounds) s h out e =
      by_flow (iterate sys cfg child_pid use_seccomp arrived s)
        (iterate-EndsWell sys cfg child_pid use_seccomp arrived s h)
        (λ s' well e. run-Returns rounds s' well out e) e
    where
      subst_out : (o : Result Error ℕ × LoopState W) → some o ≡ some out → Returns o → Returns out
      subst_out o e r = let same : o ≡ out = cc in subst Returns same r

      by_flow :
          (f : Flow W)
          → EndsWell
              (Childless sys cfg child_pid use_seccomp
                (answered sys cfg child_pid use_seccomp s).0
                (answered sys cfg child_pid use_seccomp s).1)
              f
          → ((s' : LoopState W)
              → IsTracked s'
              → run sys cfg child_pid use_seccomp rounds s' ≡ some out
              → Returns out)
          → elim f [
            | next s' ↦ run sys cfg child_pid use_seccomp rounds s'
            | stop s' ↦ some (ok s'.exit_code, s')
            | fail e s' ↦ some (err e, s')
          ]
            ≡ some out
          → Returns out
      by_flow (next s') well rest e = rest s' well e
      by_flow (stop s') (kept, inl none_left) rest e =
          subst_out (ok s'.exit_code, s') e (refl, inl (none_left, no_threads s' kept none_left))
      by_flow (stop s') (kept, inr childless) rest e =
          subst_out (ok s'.exit_code, s') e
            (refl, inr ((waiting sys cfg child_pid use_seccomp s).world, childless))
      by_flow (fail x s') kept rest e = subst_out (err x, s') e kept

  -- From its start, `run` returns a code only when no traced process is active any more, and then
  -- no thread state is left, or in the state right after a `waitpid` that said that there is no
  -- child; the code is the one in that state. With an error the thread states are those of active
  -- processes.
  pub run_ends :
      (rounds : List (List ℕ)) (w : W) (t : SocketTracker) (out : Result Error ℕ × LoopState W)
      → run sys cfg child_pid use_seccomp rounds (initial sys cfg child_pid use_seccomp w t)
        ≡ some out
      → Returns out
  unfolding initial HashMap.get
  run_ends rounds w t out e =
      run-Returns rounds (initial sys cfg child_pid use_seccomp w t) (λ pid u h. cc) out e

  -- Once procfs shows none of the active processes, the next round is the last one, whatever
  -- signals arrive: `run` returns the exit code that it has, without waiting.
  pub run_gone :
      (arrived : List ℕ) (rounds : List (List ℕ)) (s : LoopState W)
      → ((pid : ℕ)
          → HashSet.contains pid s.active_pids ≡ true
          → sys.proc_exists pid s.world ≡ false)
      → run sys cfg child_pid use_seccomp (arrived ∷ rounds) s
        ≡ some (ok s.exit_code, prune_gone_tracees sys s)
  unfolding run iterate
  run_gone arrived rounds s gone =
      rw (empty_set (prune_gone_tracees sys s).active_pids none_left, run)
        (ap (λ c. some (ok c, prune_gone_tracees sys s)) (prune_gone_tracees-Drops sys s).exit_code)
    where
      none_left : (pid : ℕ) → HashSet.contains pid (prune_gone_tracees sys s).active_pids ≡ false
      none_left pid = ground (arith, contains-prune_gone_tracees sys pid s, gone pid)
