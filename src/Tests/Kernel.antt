-- ===== src/Tests/Kernel.antt =====
-- A kernel for the examples: its state is the memory of the traced process, every address is mapped,
-- process 10 is the only one, and descriptor 3 is a stream socket with the inode 77.
use proxec.Base.{
  ℕ, ◌+◌, ◌-◌, ◌/◌, ◌%◌, ◌^◌, ◌<◌, ◌≡◌, refl, true, ◌&&◌, none, some, [], ◌∷◌, nat_eq, ltb, leb,
  if◌then◌else◌, arith,
}
use proxec.Base.Bytes.{from_ne_bytes}
use proxec.Base.Text.{Text, codes}
use proxec.Result.{ok, err}
use proxec.Os.{Os, Regs, exited}
use proxec.Tracer.Memory.Layout.{tabulate}
use proxec.Tracer.Memory.Laws.{Memory}

abbrev pub Bytes : Type 0
Bytes = ℕ → ℕ

abbrev byte_at : Bytes → ℕ → ℕ
byte_at w x = w x % 256

abbrev poked : ℕ → ℕ → Bytes → Bytes
poked a word w x = if leb a x && ltb x (a + 8) then word / 256 ^ (x - a) % 256 else w x

abbrev pub no_regs : Regs
no_regs = record {
  orig_rax = 0;
  rax = 0;
  rdi = 0;
  rsi = 0;
  rdx = 0;
  r10 = 0;
  r8 = 0;
  r9 = 0;
  others = [];
}

-- The socket 77, from 127.0.0.1:40000 to 127.0.0.1:9999.
abbrev pub tcp_row : Text
tcp_row =
    codes "   1: 0100007F:9C40 0100007F:270F 01 00000000:00000000 00:00000000 00000000  1000 0 77 1"

abbrev pub kernel : Os Bytes
kernel = record {
  proc_status = λ tid w. some (codes "Name: sh\nTgid:\t10\n");
  proc_exists = λ pid w. nat_eq pid 10;
  fd_link = λ pid fd w. if nat_eq fd 3 then some (codes "socket:[77]") else none;
  net_tcp = λ w. some (some (codes "  sl  local_address rem_address") ∷ some tcp_row ∷ []);
  proc_entries = λ w. some (some (codes "self") ∷ some (codes "10") ∷ []);
  fd_entries = λ pid w. some ((codes "3", some (codes "socket:[77]")) ∷ []);
  pidfd_open = λ pid w. ok 4;
  pidfd_getfd = λ pidfd fd w. ok fd;
  socket_type = λ fd w. if nat_eq fd 3 then ok 1 else err 88;
  process_vm_readv = λ pid a n w. ok (tabulate n (λ k. byte_at w (a + k)));
  ptrace_read = λ pid a w. ok (from_ne_bytes (tabulate 8 (λ k. byte_at w (a + k))));
  ptrace_write = λ pid a word w. (ok tt, poked a word w);
  ptrace_getregs = λ pid w. ok no_regs;
  ptrace_setregs = λ pid regs w. (ok tt, w);
  ptrace_geteventmsg = λ pid w. ok 11;
  ptrace_getsiginfo = λ pid w. ok tt;
  ptrace_setoptions = λ pid options w. (ok tt, w);
  ptrace_cont = λ pid sig w. (ok tt, w);
  ptrace_syscall = λ pid sig w. (ok tt, w);
  ptrace_kill = λ pid w. (err 3, w);
  kill = λ pid sig w. (ok tt, w);
  killpg = λ pgid sig w. (ok tt, w);
  waitpid_any = λ w. (ok (exited 10 7), w);
  waitpid_nohang = λ pid w. (err 10, w);
  sigaction = λ sig w. (ok tt, w);
  now = λ w. 0;
}

pub poked_byte :
    (a word : ℕ) (w : Bytes) (x : ℕ)
    → byte_at (poked a word w) x
      ≡ (if leb a x && ltb x (a + 8) then word / 256 ^ (x - a) % 256 else byte_at w x)
poked_byte a word w x = ground arith

abbrev pub memory : Memory kernel 10
memory = record {
  byte = λ x w. byte_at w x;
  mapped = λ x w. true;
  byte_lt = λ x w. byte_small (w x);
  readv = λ a n w there. refl;
  peek = λ a w there. refl;
  poke_done = λ a word w there. refl;
  poke_byte = λ a word w there x. poked_byte a word w x;
  poke_mapped = λ a word w x. refl;
}
  where
    byte_small : (b : ℕ) → b % 256 < 256
    byte_small b = omega arith
