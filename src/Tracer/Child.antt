-- ===== src/Tracer/Child.antt =====
-- `fork_exec` of `src/tracer/ptrace.rs` on the side of the child, from the fork to `execvp`, with the
-- calls of `install_filter` in `src/tracer/seccomp.rs` that install the filter.
use proxec.Base.{
  ℕ, ◌≡◌, refl, sym, ap, ◌∙◌, ◌++◌, Bool, true, false, List, [], ◌∷◌, any, if◌then◌else◌,
}
use proxec.Base.Text.{Text, contains_char}
use proxec.Result.{ok, err}
use proxec.Os.{Done}
use proxec.Tracer.Seccomp.{SockFilter, filter}

-- The calls of the child on the kernel's state. `execvp` returns to it only when it fails.
pub record Child (W : Type 0) : Type 0 where
  pub setpgid : W → Done × W
  pub set_pdeathsig : W → W
  pub traceme : W → Done × W
  pub raise_sigstop : W → Done × W
  pub set_no_new_privs : W → Done × W
  pub set_filter : List SockFilter → W → Done × W
  pub execvp : Text → List Text → W → Done × W

-- The child is the program now, or it has exited with a code, or it has panicked at an `expect` or an
-- `unwrap`.
pub data Fate : Type 0 where
  running panicked : Fate
  exited : ℕ → Fate

module _ {W : Type 0} where
  -- `.expect(..)`.
  abbrev pub expecting : Done × W → (W → Fate × W) → Fate × W
  expecting (ok _, w) k = k w
  expecting (err _, w) k = (panicked, w)

  abbrev pub exit_on : ℕ → Done × W → (W → Fate × W) → Fate × W
  exit_on code (ok _, w) k = k w
  exit_on code (err _, w) k = (exited code, w)

  abbrev pub fate_of : Done × W → Fate × W
  fate_of (ok _, w) = (running, w)
  fate_of (err _, w) = (exited 127, w)

-- `CString::new(..)` fails on a text with a NUL.
abbrev pub has_nul : Text → Bool
has_nul s = contains_char 0 s

module _ {W : Type 0} (sys : Child W) where
  abbrev and_then : Done × W → (W → Done × W) → Done × W
  and_then (ok _, w) k = k w
  and_then (err e, w) k = (err e, w)

  unfoldable pub install_filter : W → Done × W
  install_filter w = and_then (sys.set_no_new_privs w) (sys.set_filter filter)

  unfoldable pub exec_child : Text → List Text → W → Fate × W
  exec_child command args w =
      if any has_nul (command ∷ args)
      then (panicked, w)
      else fate_of (sys.execvp command (command ∷ args) w)

  unfoldable pub filter_then_exec : Text → List Text → Bool → W → Fate × W
  unfolding install_filter exec_child
  filter_then_exec command args true w = exit_on 127 (install_filter w) (exec_child command args)
  filter_then_exec command args false w = exec_child command args w

  -- The arm of the child.
  unfoldable pub run_child : Text → List Text → Bool → W → Fate × W
  unfolding filter_then_exec
  run_child command args use_seccomp w = expecting (sys.setpgid w) (λ w1.
      expecting (sys.traceme (sys.set_pdeathsig w1))
        (λ w2. expecting (sys.raise_sigstop w2) (filter_then_exec command args use_seccomp)))

-- A call that has been done.
pub data Call : Type 0 where
  setpgid traceme stop no_new_privs : Call
  filter_set : List SockFilter → Call
  exec : Text → List Text → Call

-- The calls that have been done, the latest first: one that fails leaves nothing behind.
pub record Calls {W : Type 0} (sys : Child W) : Type 0 where
  pub calls : W → List Call
  pub setpgid_ok : (w : W) → (sys.setpgid w).0 ≡ ok tt → calls (sys.setpgid w).1 ≡ setpgid ∷ calls w
  pub pdeathsig : (w : W) → calls (sys.set_pdeathsig w) ≡ calls w
  pub traceme_ok : (w : W) → (sys.traceme w).0 ≡ ok tt → calls (sys.traceme w).1 ≡ traceme ∷ calls w
  pub stop_ok :
      (w : W) → (sys.raise_sigstop w).0 ≡ ok tt → calls (sys.raise_sigstop w).1 ≡ stop ∷ calls w
  pub no_new_privs_ok :
      (w : W)
      → (sys.set_no_new_privs w).0 ≡ ok tt
      → calls (sys.set_no_new_privs w).1 ≡ no_new_privs ∷ calls w
  pub filter_ok :
      (f : List SockFilter) (w : W)
      → (sys.set_filter f w).0 ≡ ok tt
      → calls (sys.set_filter f w).1 ≡ filter_set f ∷ calls w
  pub exec_ok :
      (command : Text) (argv : List Text) (w : W)
      → (sys.execvp command argv w).0 ≡ ok tt
      → calls (sys.execvp command argv w).1 ≡ exec command argv ∷ calls w

module _ {W : Type 0} where
  expecting_running :
      (r : Done × W) (k : W → Fate × W)
      → (expecting r k).0 ≡ running
      → (r.0 ≡ ok tt) × (expecting r k ≡ k r.1)
  expecting_running (ok tt, w) k e = (refl, refl)
  expecting_running (err x, w) k e = cc

  exit_on_running :
      (code : ℕ) (r : Done × W) (k : W → Fate × W)
      → (exit_on code r k).0 ≡ running
      → (r.0 ≡ ok tt) × (exit_on code r k ≡ k r.1)
  exit_on_running code (ok tt, w) k e = (refl, refl)
  exit_on_running code (err x, w) k e = cc

  fate_of_running : (r : Done × W) → (fate_of r).0 ≡ running → (r.0 ≡ ok tt) × ((fate_of r).1 ≡ r.1)
  fate_of_running (ok tt, w) e = (refl, refl)
  fate_of_running (err x, w) e = cc

  unless_running :
      (b : Bool) (w : W) (r : Done × W)
      → (if b then (panicked, w) else fate_of r).0 ≡ running
      → (r.0 ≡ ok tt) × ((if b then (panicked, w) else fate_of r).1 ≡ r.1)
  unless_running true w r e = cc
  unless_running false w r e = fate_of_running r e

module _ {W : Type 0} {sys : Child W} (c : Calls sys) (command : Text) (args : List Text) where
  -- `execvp` with the command in front of its arguments.
  abbrev executed : Call
  executed = exec command (command ∷ args)

  exec_child_calls :
      (w : W)
      → (exec_child sys command args w).0 ≡ running
      → c.calls (exec_child sys command args w).1 ≡ executed ∷ c.calls w
  unfolding exec_child
  exec_child_calls w e =
      let (done, same) =
        unless_running (any has_nul (command ∷ args)) w (sys.execvp command (command ∷ args) w) e in
      ap c.calls same ∙ c.exec_ok command (command ∷ args) w done

  install_filter_calls :
      (w : W)
      → (install_filter sys w).0 ≡ ok tt
      → c.calls (install_filter sys w).1 ≡ filter_set filter ∷ no_new_privs ∷ c.calls w
  unfolding install_filter
  install_filter_calls w e =
      let (first, then_filter) = and_then_ok (sys.set_no_new_privs w) e in
      let w1 : W = (sys.set_no_new_privs w).1 in
      ap (λ r. c.calls r.1) then_filter
      ∙ c.filter_ok filter w1 (sym (ap (λ r. r.0) then_filter) ∙ e)
      ∙ ap (λ l. filter_set filter ∷ l) (c.no_new_privs_ok w first)
    where
      and_then_ok :
          (r : Done × W)
          → (and_then sys r (sys.set_filter filter)).0 ≡ ok tt
          → (r.0 ≡ ok tt) × (and_then sys r (sys.set_filter filter) ≡ sys.set_filter filter r.1)
      and_then_ok (ok tt, w) e = (refl, refl)
      and_then_ok (err x, w) e = cc

  -- The calls for the filter, the latest first.
  abbrev pub filter_calls : Bool → List Call
  filter_calls true = filter_set filter ∷ no_new_privs ∷ []
  filter_calls false = []

  filter_then_exec_calls :
      (use_seccomp : Bool) (w : W)
      → (filter_then_exec sys command args use_seccomp w).0 ≡ running
      → c.calls (filter_then_exec sys command args use_seccomp w).1
        ≡ executed ∷ filter_calls use_seccomp ++ c.calls w
  unfolding filter_then_exec
  filter_then_exec_calls true w e =
      let (done, same) =
        exit_on_running 127 (install_filter sys w) (exec_child sys command args) e in
      let w1 : W = (install_filter sys w).1 in
      ap (λ r. c.calls r.1) same
      ∙ exec_child_calls w1 (sym (ap (λ r. r.0) same) ∙ e)
      ∙ ap (λ l. executed ∷ l) (install_filter_calls w done)
  filter_then_exec_calls false w e = exec_child_calls w e

  -- When the child has become the program, the calls before were these and in this order: it has put
  -- itself into a process group of its own, asked to be traced and stopped for its tracer; then, with
  -- seccomp, it has given up new privileges and installed the filter; and the program was started
  -- last, with the command in front of its arguments. So no program runs untraced or, where seccomp
  -- is used, without the filter.
  pub run_child_calls :
      (use_seccomp : Bool) (w : W)
      → (run_child sys command args use_seccomp w).0 ≡ running
      → c.calls (run_child sys command args use_seccomp w).1
        ≡ executed ∷ filter_calls use_seccomp ++ stop ∷ traceme ∷ setpgid ∷ c.calls w
  unfolding run_child
  run_child_calls use_seccomp w e =
      let last : W → Fate × W = filter_then_exec sys command args use_seccomp in
      let stopping : W → Fate × W = λ w2. expecting (sys.raise_sigstop w2) last in
      let tracing : W → Fate × W = λ w1. expecting (sys.traceme (sys.set_pdeathsig w1)) stopping in
      let (grouped, s1) = expecting_running (sys.setpgid w) tracing e in
      let w1 : W = (sys.setpgid w).1 in
      let e1 : (tracing w1).0 ≡ running = sym (ap (λ r. r.0) s1) ∙ e in
      let (traced, s2) = expecting_running (sys.traceme (sys.set_pdeathsig w1)) stopping e1 in
      let w2 : W = (sys.traceme (sys.set_pdeathsig w1)).1 in
      let e2 : (stopping w2).0 ≡ running = sym (ap (λ r. r.0) s2) ∙ e1 in
      let (stopped, s3) = expecting_running (sys.raise_sigstop w2) last e2 in
      let w3 : W = (sys.raise_sigstop w2).1 in
      let e3 : (last w3).0 ≡ running = sym (ap (λ r. r.0) s3) ∙ e2 in
      let before : c.calls w3 ≡ stop ∷ traceme ∷ setpgid ∷ c.calls w =
        c.stop_ok w2 stopped
        ∙ ap (λ l. stop ∷ l)
            (c.traceme_ok (sys.set_pdeathsig w1) traced
              ∙ ap (λ l. traceme ∷ l) (c.pdeathsig w1 ∙ c.setpgid_ok w grouped)) in
      ap (λ r. c.calls r.1) (s1 ∙ s2 ∙ s3)
      ∙ filter_then_exec_calls use_seccomp w3 e3
      ∙ ap (λ l. executed ∷ filter_calls use_seccomp ++ l) before
