-- ===== src/Tests/Loop.antt =====
-- The loop of `src/tracer/trace_loop.rs` on the kernel of the examples: its only process has exited.
use proxec.Base.{
  ℕ, ◌≡◌, refl, inl, inr, Bool, true, false, ◌&&◌, Option, none, some, List, [], ◌∷◌, any, Eq-ℕ,
  nat_eq, arith, if◌then◌else◌,
}
use proxec.Base.HashSet
use proxec.Result.{ok}
use proxec.Net.{SocketAddr}
use proxec.Socket.{new}
use proxec.Tracer.State.{Config, no_stats}
use proxec.Tracer.Loop.State.{LoopState, Signals, prune_gone_tracees}
use proxec.Tracer.Loop.Shutdown.{
  install_shutdown_handlers, pending_shutdown_signal, update_shutdown_state,
}
use proxec.Tracer.Loop.Phases.{
  IsStep, handle_all, update_shutdown_state-IsStep, pending_shutdown_signal_first,
}
use proxec.Tracer.Loop.Wait.{initial, run, start}
use proxec.Tracer.Loop.Code.{Event, events, last_code, is_end}
use proxec.Tracer.Loop.Code.Rounds.{start-last_code}
use proxec.Tracer.Loop.Run.{Returns, run_ends, run_gone}
use proxec.Os.{Regs}
use proxec.Tracer.Syscall.{handle_syscall_enter, handle_close_enter}
use proxec.Tracer.Loop.State.{resume_call}
use proxec.Tracer.Loop.Status.{with_thread, handle_seccomp}
use proxec.Tracer.Loop.Resume.{resume_call-handle_seccomp}
use proxec.Tests.Kernel.{Bytes, kernel, no_regs}

abbrev cfg : Config
cfg = record {
  local_addr = SocketAddr.v4 0x7f000001 9999;
  proxy_addr = SocketAddr.v4 0x0a000001 1080;
  no_proxy = record { rules = []; unsupported_suffix_patterns = []; unresolved_hostnames = [] };
  disable_ipv6 = true;
}

abbrev zeros : Bytes
zeros x = 0

-- Two processes of which procfs shows the first, and a signal that has come.
abbrev two : LoopState Bytes
two = record {
  thread_states = [];
  active_pids = 10 ∷ 11 ∷ [];
  tracker = new;
  stats = no_stats;
  shutdown = none;
  main_exited = false;
  exit_code = 0;
  signals = record { signal = 2; received = 1 };
  world = zeros;
}

abbrev all_gone : LoopState Bytes
all_gone = record two { active_pids = 11 ∷ []; exit_code = 3 }

abbrev ended : LoopState Bytes
ended = record two {
  active_pids = [];
  main_exited = true;
  exit_code = 7;
  signals = record { signal = 0; received = 0 };
}

update_shutdown_state-IsStep_example :
    IsStep kernel true
      (pending_shutdown_signal two.signals)
      two
      (update_shutdown_state kernel true 10 two)
update_shutdown_state-IsStep_example = update_shutdown_state-IsStep kernel true 10 two

pending_shutdown_signal_first_example :
    pending_shutdown_signal (handle_all (15 ∷ 2 ∷ []) (record { signal = 0; received = 0 }))
    ≡ some 15
pending_shutdown_signal_first_example =
    pending_shutdown_signal_first 15 (2 ∷ []) (record { signal = 0; received = 0 }) (inr (inl refl))
      refl

run_once :
    run kernel cfg 10 true ([] ∷ []) (initial kernel cfg 10 true zeros new) ≡ some (ok 7, ended)
unfolding run proxec.Tracer.Loop.Wait.iterate prune_gone_tracees initial HashSet.insert
    proxec.Tracer.Loop.Wait.on_wait proxec.Tracer.Loop.Status.on_status
    proxec.Tracer.Loop.Status.on_exited proxec.Tracer.Loop.State.cleanup_dead_tracee
    update_shutdown_state pending_shutdown_signal proxec.Base.HashMap.remove
    proxec.Socket.cleanup_process proxec.Base.HashMap.get proxec.Socket.tgid_or_self
    proxec.Socket.forget_process proxec.Base.HashMap.retain HashSet.retain
run_once = refl

-- The one event of that round.
run_once_events :
    events kernel cfg 10 true ([] ∷ []) (initial kernel cfg 10 true zeros new) ≡ Event.ended 7 ∷ []
unfolding run proxec.Tracer.Loop.Wait.iterate prune_gone_tracees initial HashSet.insert
    proxec.Tracer.Loop.Wait.on_wait proxec.Tracer.Loop.Status.on_status
    proxec.Tracer.Loop.Status.on_exited proxec.Tracer.Loop.State.cleanup_dead_tracee
    update_shutdown_state pending_shutdown_signal proxec.Base.HashMap.remove
    proxec.Socket.cleanup_process proxec.Base.HashMap.get proxec.Socket.tgid_or_self
    proxec.Socket.forget_process proxec.Base.HashMap.retain HashSet.retain
run_once_events = refl

start_once : start kernel cfg 10 true ([] ∷ []) zeros new ≡ some (ok 7, ended)
unfolding start install_shutdown_handlers
start_once = run_once

start-last_code_example :
    let (installed, w) = install_shutdown_handlers kernel zeros in
    let all = events kernel cfg 10 true ([] ∷ []) (initial kernel cfg 10 true w new) in
    (installed ≡ ok tt) × (7 ≡ last_code 0 all) × (true ≡ any is_end all)
start-last_code_example = start-last_code kernel cfg 10 true ([] ∷ []) zeros new 7 ended start_once

run_ends_example : Returns kernel cfg 10 true (ok 7, ended)
run_ends_example = run_ends kernel cfg 10 true ([] ∷ []) zeros new (ok 7, ended) run_once

only_other :
    (pid : ℕ)
    → HashSet.contains pid all_gone.active_pids ≡ true
    → kernel.proc_exists pid zeros ≡ false
unfolding HashSet.contains
only_other pid h = ground (arith, h)

run_gone_example :
    run kernel cfg 10 true ((2 ∷ []) ∷ []) all_gone
    ≡ some (ok 3, prune_gone_tracees kernel all_gone)
run_gone_example = run_gone kernel cfg 10 true (2 ∷ []) [] all_gone only_other

-- close(3) by process 10, stopped by the filter.
abbrev close_regs : Regs
close_regs = record no_regs { orig_rax = 3; rdi = 3 }

resume_call-handle_seccomp_example :
    let s' =
      (with_thread kernel cfg 10 true 10 (handle_seccomp kernel cfg 10 true 10 close_regs) two).1 in
    resume_call kernel true 10 none s' ≡ kernel.ptrace_syscall 10 none s'.world
unfolding handle_syscall_enter handle_close_enter
resume_call-handle_seccomp_example =
    resume_call-handle_seccomp kernel cfg 10 true 10 close_regs none two refl
