-- ===== src/Tracer/Syscall/Clone.antt =====
-- `handle_clone_enter` and `handle_clone3_enter` of `src/tracer/trace_loop.rs`: the flag CLONE_UNTRACED
-- goes, and every other bit of the flags stays.
use proxec.Base.{
  ℕ, ◌-◌, ◌/◌, ◌%◌, ◌<◌, ◌^◌, ◌≡◌, ◌≢◌, inl, inr, Bool, true, arith, nat_eq, if◌then◌else◌, bit_and,
  Bool-cases,
}
use proxec.Base.Bits.{bit_and_split, bit_and_field, bit_and_low}
use proxec.Result.{ok}
use proxec.Os.{Os, Regs}
use proxec.Word.{has_flag}
use proxec.Tracer.Arch.{set_regs}
use proxec.Tracer.Memory.{read_u64, write_u64}
use proxec.Tracer.State.{Config}
use proxec.Tracer.Syscall.{
  handle_clone_enter, handle_clone3_enter, clone_untraced, not_clone_untraced,
}

-- Bit 23 of the flags.
abbrev pub is_untraced : ℕ → Bool
is_untraced flags = nat_eq (flags / 2 ^ 23 % 2) 1

has_flag-is_untraced : (flags : ℕ) → has_flag flags clone_untraced ≡ is_untraced flags
has_flag-is_untraced flags = ground (arith, bit_and_field 23 1 flags)

-- Clearing the bit is taking its value away where it is set.
cleared :
    (flags : ℕ)
    → flags < 2 ^ 64
    → is_untraced flags ≡ true
    → bit_and flags not_clone_untraced ≡ flags - 2 ^ 23
cleared flags h set = ground (
  arith,
  bit_and_split 24 flags (2 ^ 40 - 1) (2 ^ 23 - 1) (omega arith),
  bit_and_low 40 (flags / 2 ^ 24),
  bit_and_low 23 (flags % 2 ^ 24),
)

module _ {W : Type 0} (sys : Os W) (cfg : Config) where
  -- `clone`: with CLONE_UNTRACED in its 64-bit flags the registers are written with exactly that
  -- bit cleared; without it nothing is done.
  pub handle_clone_enter_lem :
      (pid : ℕ) (regs : Regs) (w : W)
      → regs.rdi < 2 ^ 64
      → handle_clone_enter sys cfg pid regs w ≡ (
          if is_untraced regs.rdi
          then set_regs sys pid (record regs { rdi = regs.rdi - 2 ^ 23 }) w
          else (ok tt, w))
  unfolding handle_clone_enter
  handle_clone_enter_lem pid regs w h = elim (Bool-cases (is_untraced regs.rdi)) [
    | inl set ↦ rw (has_flag-is_untraced regs.rdi, set, cleared regs.rdi h set)
    | inr clear ↦ rw (has_flag-is_untraced regs.rdi, clear)
  ]

  -- `clone3`: the flags are the first word of the structure, whose pointer may be null; with
  -- CLONE_UNTRACED that word is written with exactly that bit cleared, without it nothing is done.
  pub handle_clone3_enter_lem :
      (pid : ℕ) (regs : Regs) (flags : ℕ) (w : W)
      → regs.rdi ≢ 0
      → flags < 2 ^ 64
      → read_u64 sys pid regs.rdi w ≡ ok flags
      → handle_clone3_enter sys cfg pid regs w
        ≡ (if is_untraced flags then write_u64 sys pid regs.rdi (flags - 2 ^ 23) w else (ok tt, w))
  unfolding handle_clone3_enter
  handle_clone3_enter_lem pid regs flags w some_ptr h e = elim (Bool-cases (is_untraced flags)) [
    | inl set ↦ ground (arith, e, has_flag-is_untraced flags, set, cleared flags h set)
    | inr clear ↦ ground (arith, e, has_flag-is_untraced flags, clear)
  ]
