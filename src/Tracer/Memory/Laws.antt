-- ===== src/Tracer/Memory/Laws.antt =====
-- What `src/tracer/memory.rs` relies on of a stopped process's memory: the kernel's documented
-- behaviour of `process_vm_readv`, `PTRACE_PEEKDATA` and `PTRACE_POKEDATA` on mapped addresses.
use proxec.Base.{ℕ, ◌+◌, ◌-◌, ◌/◌, ◌%◌, ◌^◌, ◌<◌, ◌≡◌, Bool, true, ◌&&◌, ltb, leb, if◌then◌else◌}
use proxec.Base.Bytes.{from_ne_bytes}
use proxec.Result.{ok}
use proxec.Os.{Os}
use proxec.Tracer.Memory.Layout.{tabulate}

-- `byte` is the memory, and `mapped` its addresses that are there and writable by ptrace.
pub record Memory {W : Type 0} (sys : Os W) (pid : ℕ) : Type 0 where
  pub byte : ℕ → W → ℕ
  pub mapped : ℕ → W → Bool
  pub byte_lt : (x : ℕ) (w : W) → byte x w < 256
  pub readv :
      (a n : ℕ) (w : W)
      → ((k : ℕ) → k < n → mapped (a + k) w ≡ true)
      → sys.process_vm_readv pid a n w ≡ ok (tabulate n (λ k. byte (a + k) w))
  pub peek :
      (a : ℕ) (w : W)
      → ((k : ℕ) → k < 8 → mapped (a + k) w ≡ true)
      → sys.ptrace_read pid a w ≡ ok (from_ne_bytes (tabulate 8 (λ k. byte (a + k) w)))
  pub poke_done :
      (a word : ℕ) (w : W)
      → ((k : ℕ) → k < 8 → mapped (a + k) w ≡ true)
      → (sys.ptrace_write pid a word w).0 ≡ ok tt
  pub poke_byte :
      (a word : ℕ) (w : W)
      → ((k : ℕ) → k < 8 → mapped (a + k) w ≡ true)
      → (x : ℕ)
      → byte x (sys.ptrace_write pid a word w).1
        ≡ (if leb a x && ltb x (a + 8) then word / 256 ^ (x - a) % 256 else byte x w)
  pub poke_mapped :
      (a word : ℕ) (w : W) (x : ℕ) → mapped x (sys.ptrace_write pid a word w).1 ≡ mapped x w
