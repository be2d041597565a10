-- ===== src/Tracer/Arch.antt =====
-- `src/tracer/arch_x86_64.rs`: system call numbers, arguments and results in the registers.
use proxec.Base.{ℕ}
use proxec.Error.{Error, os}
use proxec.Result.{Result, map_err}
use proxec.Os.{Os, Regs}

abbrev pub close_nr : ℕ
close_nr = 3

abbrev pub clone_nr : ℕ
clone_nr = 56

abbrev pub clone3_nr : ℕ
clone3_nr = 435

abbrev pub connect_nr : ℕ
connect_nr = 42

abbrev pub socket_nr : ℕ
socket_nr = 41

abbrev pub get_syscall_nr : Regs → ℕ
get_syscall_nr regs = regs.orig_rax

abbrev pub set_syscall_nr : Regs → ℕ → Regs
set_syscall_nr regs nr = record regs { orig_rax = nr }

-- The argument indices 0 to 5; the source panics on any other, and its callers pass constants.
pub data ArgIndex : Type 0 where
  arg0 arg1 arg2 arg3 arg4 arg5 : ArgIndex

abbrev pub get_syscall_arg : Regs → ArgIndex → ℕ
get_syscall_arg regs arg0 = regs.rdi
get_syscall_arg regs arg1 = regs.rsi
get_syscall_arg regs arg2 = regs.rdx
get_syscall_arg regs arg3 = regs.r10
get_syscall_arg regs arg4 = regs.r8
get_syscall_arg regs arg5 = regs.r9

abbrev pub get_return_value : Regs → ℕ
get_return_value regs = regs.rax

abbrev pub set_return_value : Regs → ℕ → Regs
set_return_value regs val = record regs { rax = val }

abbrev pub set_syscall_arg : Regs → ArgIndex → ℕ → Regs
set_syscall_arg regs arg0 val = record regs { rdi = val }
set_syscall_arg regs arg1 val = record regs { rsi = val }
set_syscall_arg regs arg2 val = record regs { rdx = val }
set_syscall_arg regs arg3 val = record regs { r10 = val }
set_syscall_arg regs arg4 val = record regs { r8 = val }
set_syscall_arg regs arg5 val = record regs { r9 = val }

module _ {W : Type 0} (sys : Os W) where
  -- `get_regs`, with the conversion of `?` from `io::Error`.
  abbrev pub get_regs : ℕ → W → Result Error Regs
  get_regs pid w = map_err (λ e. Error.io (os e)) (sys.ptrace_getregs pid w)

  -- `set_regs` with the `Errno::last()` that its callers report.
  abbrev pub set_regs : ℕ → Regs → W → Result Error (Unit {0}) × W
  set_regs pid regs w = let (r, w') = sys.ptrace_setregs pid regs w in (map_err Error.ptrace r, w')
