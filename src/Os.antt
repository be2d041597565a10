-- ===== src/Os.antt =====
-- What the program calls of the kernel and of `libc` and `nix`: procfs, ptrace, signals and
-- `waitpid`, as one interface over a state of the kernel and of the traced processes. A query reads
-- the state, any other call returns the next one; an error is an errno.
use proxec.Base.{ℕ, Bool, Option, List}
use proxec.Base.Text.{Text}
use proxec.Result.{Result}

-- `user_regs_struct`: the registers that the program reads or writes, with the others as one value.
pub record Regs : Type 0 where
  pub orig_rax : ℕ
  pub rax : ℕ
  pub rdi : ℕ
  pub rsi : ℕ
  pub rdx : ℕ
  pub r10 : ℕ
  pub r8 : ℕ
  pub r9 : ℕ
  pub others : List ℕ

-- `WaitStatus` of `nix`.
pub data WaitStatus : Type 0 where
  exited : ℕ → ℕ → WaitStatus
  signaled : ℕ → ℕ → WaitStatus
  stopped : ℕ → ℕ → WaitStatus
  ptrace_event : ℕ → ℕ → WaitStatus
  ptrace_syscall : ℕ → WaitStatus
  continued : ℕ → WaitStatus
  still_alive : WaitStatus

abbrev pub Done : Type 0
Done = Result ℕ (Unit {0})

pub record Os (W : Type 0) : Type 0 where
  -- `/proc/{tid}/status`, `/proc/{pid}` and the link `/proc/{pid}/fd/{fd}`.
  pub proc_status : ℕ → W → Option Text
  pub proc_exists : ℕ → W → Bool
  pub fd_link : ℕ → ℕ → W → Option Text
  -- The lines of `/proc/net/tcp` and the names in `/proc`, each with what could be read of it, and
  -- the names in `/proc/{pid}/fd` with the links behind them.
  pub net_tcp : W → Option (List (Option Text))
  pub proc_entries : W → Option (List (Option Text))
  pub fd_entries : ℕ → W → Option (List (Text × Option Text))
  -- `pidfd_open`, `pidfd_getfd` and `getsockopt(SO_TYPE)`.
  pub pidfd_open : ℕ → W → Result ℕ ℕ
  pub pidfd_getfd : ℕ → ℕ → W → Result ℕ ℕ
  pub socket_type : ℕ → W → Result ℕ ℕ
  -- The bytes that `process_vm_readv` transfers, of the number asked for at most.
  pub process_vm_readv : ℕ → ℕ → ℕ → W → Result ℕ (List ℕ)
  -- Words of 8 bytes, by `PTRACE_PEEKDATA` and `PTRACE_POKEDATA`.
  pub ptrace_read : ℕ → ℕ → W → Result ℕ ℕ
  pub ptrace_write : ℕ → ℕ → ℕ → W → Done × W
  pub ptrace_getregs : ℕ → W → Result ℕ Regs
  pub ptrace_setregs : ℕ → Regs → W → Done × W
  pub ptrace_geteventmsg : ℕ → W → Result ℕ ℕ
  pub ptrace_getsiginfo : ℕ → W → Done
  pub ptrace_setoptions : ℕ → ℕ → W → Done × W
  pub ptrace_cont : ℕ → Option ℕ → W → Done × W
  pub ptrace_syscall : ℕ → Option ℕ → W → Done × W
  pub ptrace_kill : ℕ → W → Done × W
  pub kill : ℕ → ℕ → W → Done × W
  pub killpg : ℕ → ℕ → W → Done × W
  -- The handler of a signal.
  pub sigaction : ℕ → W → Done × W
  -- `waitpid(-1, __WALL | WSTOPPED)`, and for one process with `WNOHANG`.
  pub waitpid_any : W → Result ℕ WaitStatus × W
  pub waitpid_nohang : ℕ → W → Result ℕ WaitStatus × W
  -- A monotonic clock, in milliseconds.
  pub now : W → ℕ
