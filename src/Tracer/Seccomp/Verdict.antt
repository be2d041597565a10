-- ===== src/Tracer/Seccomp/Verdict.antt =====
-- What the filter of `src/tracer/seccomp.rs` answers, for every system call and arguments.
use proxec.Base.{
  ℕ, ◌/◌, ◌%◌, ◌^◌, ◌<◌, ◌≡◌, refl, ◌⊎◌, ◌↔◌, Bool, true, false, ◌&&◌, ◌||◌, List, nat_eq, bit_and,
  if◌then◌else◌, arith,
}
use proxec.Base.Bits.{bit_and-one, bit_and_field}
use proxec.Tracer.Seccomp.{
  SockFilter, Bpf, SeccompData, filter, ret_allow, ret_trace, clone_untraced,
}

-- The answer as a function of the call.
abbrev pub verdict : SeccompData → ℕ
verdict d =
    if nat_eq d.nr 3 || nat_eq d.nr 42 || nat_eq d.nr 435
    then ret_trace
    else if nat_eq d.nr 56
    then (if nat_eq (d.arg0 / 2 ^ 23 % 2) 0 then ret_allow else ret_trace)
    else if nat_eq d.nr 41 && (nat_eq (d.arg0 % 2 ^ 32) 2 || nat_eq (d.arg0 % 2 ^ 32) 10)
    then (if nat_eq (d.arg0 / 2 ^ 32 % 2) 0 then ret_allow else ret_trace)
    else ret_allow

untraced_bit : (a : ℕ) → nat_eq (bit_and (a % 2 ^ 32) clone_untraced) 0 ≡ nat_eq (a / 2 ^ 23 % 2) 0
untraced_bit a = ground (arith, bit_and_field 23 1 (a % 2 ^ 32))

module _ (m : Bpf) (d : SeccompData) where
  open m use {run, run_ld, run_ret, run_jeq, run_jset, word, word_nr, word_arg0_low, word_arg0_high}

  run_if :
      (b : Bool) (p q : List SockFilter) (a : ℕ)
      → run (if b then p else q) a d ≡ (if b then run p a d else run q a d)
  run_if true p q a = refl
  run_if false p q a = refl

  -- For every call the filter ends in a verdict: `close`, `connect` and `clone3` are traced, `clone`
  -- exactly with CLONE_UNTRACED, and `socket` of an internet family exactly if bit 32 of its first
  -- argument is set; all else is allowed.
  pub filter-verdict : (a : ℕ) → run filter a d ≡ verdict d
  filter-verdict a =
      simp (run_ld, run_ret, run_jeq, run_jset, run_if, word_nr, word_arg0_low, word_arg0_high)
        (ground (arith, untraced_bit d.arg0, bit_and-one (d.arg0 / 2 ^ 32)))

  -- A `socket` call whose first argument is below 2^32, as every domain is, is allowed without
  -- tracing, whatever its domain and its type.
  pub filter-socket_allowed : (a : ℕ) → d.nr ≡ 41 → d.arg0 < 2 ^ 32 → run filter a d ≡ ret_allow
  filter-socket_allowed a nr small =
      let high : d.arg0 / 2 ^ 32 ≡ 0 = omega arith in ground (arith, filter-verdict a, high)

  -- The filter stops a call for the tracer exactly if it is `close`, `connect`, `clone3`, a `clone`
  -- whose first argument has bit 23 set, or a `socket` whose first argument is 2 or 10 in its low
  -- 32 bits and has bit 32 set.
  pub filter-traced :
      (a : ℕ)
      → (run filter a d ≡ ret_trace) ↔ (
          (d.nr ≡ 3)
          ⊎ (d.nr ≡ 42)
          ⊎ (d.nr ≡ 435)
          ⊎ ((d.nr ≡ 56) × (d.arg0 / 2 ^ 23 % 2 ≡ 1))
          ⊎ ((d.nr ≡ 41)
              × ((d.arg0 % 2 ^ 32 ≡ 2) ⊎ (d.arg0 % 2 ^ 32 ≡ 10))
              × (d.arg0 / 2 ^ 32 % 2 ≡ 1)))
  filter-traced a = ground (arith, filter-verdict a)
