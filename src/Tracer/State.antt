-- ===== src/Tracer/State.antt =====
-- The state of `src/tracer/trace_loop.rs` that a system call handler works on: one thread, the
-- counters, the socket tracker and the kernel.
use proxec.Base.{ℕ, ◌+◌, ◌%◌, ◌^◌, Bool, Option, none}
use proxec.Net.{SocketAddr}
use proxec.NoProxy.{NoProxy}
use proxec.Socket.{SocketTracker}

pub data SyscallPhase : Type 0 where
  entering exiting : SyscallPhase

pub record PendingConnectRestore : Type 0 where
  pub addr_ptr : ℕ
  pub dest : SocketAddr

pub record ThreadState : Type 0 where
  pub phase : SyscallPhase
  pub forced_connect_errno : Option ℕ
  pub pending_connect_restore : Option PendingConnectRestore

-- `ThreadState::default`.
abbrev pub default_thread : ThreadState
default_thread = record {
  phase = entering;
  forced_connect_errno = none;
  pending_connect_restore = none;
}

pub record TraceStats : Type 0 where
  pub connect_seen : ℕ
  pub connect_unknown_family_skipped : ℕ
  pub connect_non_stream_skipped : ℕ
  pub connect_stream_probed : ℕ
  pub connect_ipv6_blocked : ℕ
  pub connect_loopback_skipped : ℕ
  pub connect_unspecified_skipped : ℕ
  pub connect_port0_skipped : ℕ
  pub connect_upstream_skipped : ℕ
  pub connect_rewritten : ℕ
  pub socket_enter_seen : ℕ
  pub socket_exit_seen : ℕ

-- `TraceStats::default`.
abbrev pub no_stats : TraceStats
no_stats = record {
  connect_seen = 0;
  connect_unknown_family_skipped = 0;
  connect_non_stream_skipped = 0;
  connect_stream_probed = 0;
  connect_ipv6_blocked = 0;
  connect_loopback_skipped = 0;
  connect_unspecified_skipped = 0;
  connect_port0_skipped = 0;
  connect_upstream_skipped = 0;
  connect_rewritten = 0;
  socket_enter_seen = 0;
  socket_exit_seen = 0;
}

-- `+= 1` on a `u64` counter.
unfoldable pub count : ℕ → ℕ
count n = (n + 1) % 2 ^ 64

-- The arguments of `run` that the handlers read.
pub record Config : Type 0 where
  pub local_addr : SocketAddr
  pub proxy_addr : SocketAddr
  pub no_proxy : NoProxy
  pub disable_ipv6 : Bool

-- What a handler may change.
pub record Ctx (W : Type 0) : Type 0 where
  pub tracker : SocketTracker
  pub stats : TraceStats
  pub thread : ThreadState
  pub world : W
