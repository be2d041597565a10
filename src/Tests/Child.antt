-- ===== src/Tests/Child.antt =====
-- `src/tracer/ptrace.rs` with a kernel on which every call succeeds and is noted.
use proxec.Base.{◌≡◌, refl, true, List, [], ◌∷◌}
use proxec.Base.Text.{codes}
use proxec.Result.{ok}
use proxec.Tracer.Seccomp.{filter}
use proxec.Tracer.Child.{
  Child, Calls, Call, setpgid, traceme, stop, no_new_privs, filter_set, exec, run_child,
  run_child_calls,
}

abbrev pub willing : Child (List Call)
willing = record {
  setpgid = λ w. (ok tt, setpgid ∷ w);
  set_pdeathsig = λ w. w;
  traceme = λ w. (ok tt, traceme ∷ w);
  raise_sigstop = λ w. (ok tt, stop ∷ w);
  set_no_new_privs = λ w. (ok tt, no_new_privs ∷ w);
  set_filter = λ f w. (ok tt, filter_set f ∷ w);
  execvp = λ command argv w. (ok tt, exec command argv ∷ w);
}

abbrev noted : Calls willing
noted = record {
  calls = λ w. w;
  setpgid_ok = λ w e. refl;
  pdeathsig = λ w. refl;
  traceme_ok = λ w e. refl;
  stop_ok = λ w e. refl;
  no_new_privs_ok = λ w e. refl;
  filter_ok = λ f w e. refl;
  exec_ok = λ command argv w e. refl;
}

run_child_calls_example :
    (run_child willing (codes "ls") (codes "-l" ∷ []) true []).1
    ≡ exec (codes "ls") (codes "ls" ∷ codes "-l" ∷ [])
      ∷ filter_set filter
      ∷ no_new_privs
      ∷ stop
      ∷ traceme
      ∷ setpgid
      ∷ []
unfolding run_child
run_child_calls_example = run_child_calls noted (codes "ls") (codes "-l" ∷ []) true [] refl
