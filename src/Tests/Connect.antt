-- ===== src/Tests/Connect.antt =====
-- `connect` and `clone` in `src/tracer/trace_loop.rs` on the kernel of the examples.
use proxec.Base.{
  ℕ, ◌+◌, ◌-◌, ◌/◌, ◌%◌, ◌<◌, ◌^◌, ◌≡◌, ◌≢◌, refl, Bool, true, false, Option, none, some, List, [],
  ◌∷◌, nat_eq, if◌then◌else◌, arith,
}
use proxec.Result.{ok}
use proxec.Net.{SocketAddr}
use proxec.NoProxy.{NoProxy, any_dest}
use proxec.Os.{Regs}
use proxec.Word.{as_i32}
use proxec.Socket.{new}
use proxec.Tracer.Arch.{set_return_value}
use proxec.Tracer.Memory.{read_sockaddr, read_u64}
use proxec.Tracer.State.{Config, Ctx, default_thread, no_stats}
use proxec.Tracer.Connect.{handle_connect_enter}
use proxec.Tracer.Connect.Plan.{block, divert, plan, Effect}
use proxec.Tracer.Connect.Direct.{handle_connect_enter-Effect}
use proxec.Tracer.Syscall.{handle_syscall_exit}
use proxec.Tracer.Syscall.Restore.{connect_blocked, connect_restored}
use proxec.Tests.Kernel.{Bytes, kernel, memory, no_regs}
use proxec.Tests.Memory.{web, local_addr, at_start, all-IsMapped, read_web}

abbrev pub cfg : Config
cfg = record {
  local_addr = local_addr;
  proxy_addr = SocketAddr.v4 0x0a000001 1080;
  no_proxy = record { rules = []; unsupported_suffix_patterns = []; unresolved_hostnames = [] };
  disable_ipv6 = true;
}

abbrev web_v6 : SocketAddr
web_v6 = SocketAddr.v6 0x20010db8000000000000000000000001 443 0 0

-- connect(3, 0x1000, 16) by process 10.
abbrev pub connect_regs : Regs
connect_regs = record no_regs { orig_rax = 42; rdi = 3; rsi = 0x1000; rdx = 16 }

abbrev clone_regs : Regs
clone_regs = record no_regs { orig_rax = 56; rdi = 0x00800011 }

abbrev pub start : SocketAddr → Ctx Bytes
start s = record { tracker = new; stats = no_stats; thread = default_thread; world = at_start s }

pub plan-web : plan kernel cfg 10 3 web (start web) ≡ divert
unfolding plan proxec.NoProxy.should_bypass proxec.Socket.is_stream_socket_fd
    proxec.Base.HashSet.contains proxec.Socket.resolve_tgid proxec.Base.HashMap.get
    proxec.Socket.probe_socket_is_stream
plan-web = refl

plan-web_v6 : plan kernel cfg 10 3 web_v6 (start web_v6) ≡ block
unfolding plan proxec.NoProxy.should_bypass
plan-web_v6 = refl

read_web_v6 : read_sockaddr kernel 10 0x1000 16 (at_start web_v6) ≡ ok web_v6
unfolding read_sockaddr at_start
read_web_v6 = refl

handle_connect_enter-Effect_example :
    Effect kernel cfg
      (plan kernel cfg 10 (as_i32 3) web (start web))
      10
      (as_i32 3)
      0x1000
      web
      (start web)
      (handle_connect_enter kernel cfg 10 connect_regs (start web))
handle_connect_enter-Effect_example =
    handle_connect_enter-Effect kernel cfg 10 connect_regs web (start web) read_web

connect_blocked_example :
    let c1 = (handle_connect_enter kernel cfg 10 connect_regs (start web_v6)).1 in
    let c2 = (handle_syscall_exit kernel cfg 10 connect_regs c1).1 in
    (c1.world ≡ at_start web_v6)
    × (c2.world
        ≡ (kernel.ptrace_setregs 10
            (set_return_value connect_regs (2 ^ 64 - 97))
            (at_start web_v6)).1)
    × (c2.thread.forced_connect_errno ≡ none)
connect_blocked_example =
    connect_blocked kernel cfg 10 connect_regs connect_regs web_v6 (start web_v6) read_web_v6
      plan-web_v6 refl

connect_restored_example :
    let c1 = (handle_connect_enter kernel cfg 10 connect_regs (start web)).1 in
    let c2 = (handle_syscall_exit kernel cfg 10 connect_regs c1).1 in
    ((handle_connect_enter kernel cfg 10 connect_regs (start web)).0 ≡ ok tt)
    × (read_sockaddr kernel 10 0x1000 16 c1.world ≡ ok local_addr)
    × ((handle_syscall_exit kernel cfg 10 connect_regs c1).0 ≡ ok tt)
    × (read_sockaddr kernel 10 0x1000 16 c2.world ≡ ok web)
    × (c2.thread.pending_connect_restore ≡ none)
connect_restored_example =
    connect_restored kernel cfg 10 memory connect_regs connect_regs web (start web) (omega arith)
      (all-IsMapped (at_start web)) (omega arith, omega arith) read_web plan-web refl refl

-- clone3 with the structure at 0x1000.
abbrev flags_only : Bytes
flags_only x = if nat_eq x 0x1002 then 0x80 else 0

abbrev clone3_regs : Regs
clone3_regs = record no_regs { orig_rax = 435; rdi = 0x1000 }

read_flags : read_u64 kernel 10 0x1000 flags_only ≡ ok 0x00800000
unfolding read_u64
read_flags = refl
