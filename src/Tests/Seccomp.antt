-- ===== src/Tests/Seccomp.antt =====
-- The filter of `src/tracer/seccomp.rs` on a machine that counts the instructions to skip.
use proxec.Base.{
  ℕ, zero, suc, ◌/◌, ◌%◌, ◌^◌, ◌≡◌, refl, List, [], ◌∷◌, nat_eq, bit_and, drop, if◌then◌else◌,
  arith, Bool-cases, inl, inr,
}
use proxec.Tracer.Seccomp.{
  SockFilter, Bpf, SeccompData, filter, ld_abs, jeq, jset, ret, bpf_jump, ret_allow, ret_trace,
}
use proxec.Tracer.Seccomp.Verdict.{filter-traced, filter-socket_allowed}

abbrev word_at : ℕ → SeccompData → ℕ
word_at k d =
    if nat_eq k 0
    then d.nr
    else if nat_eq k 16
    then d.arg0 % 2 ^ 32
    else if nat_eq k 20
    then d.arg0 / 2 ^ 32
    else if nat_eq k 24
    then d.arg1 % 2 ^ 32
    else d.arg1 / 2 ^ 32

-- The instructions to skip and the accumulator after one instruction.
abbrev after : SockFilter → ℕ → SeccompData → ℕ × ℕ
after i a d =
    if nat_eq i.code ld_abs
    then (0, word_at i.k d)
    else if nat_eq i.code jeq
    then (if nat_eq a i.k then i.jt else i.jf, a)
    else (if nat_eq (bit_and a i.k) 0 then i.jf else i.jt, a)

abbrev exec : ℕ → List SockFilter → ℕ → SeccompData → ℕ
exec n [] a d = 0
exec (suc n) (i ∷ p) a d = exec n p a d
exec zero (i ∷ p) a d =
    let next = after i a d in
    let rest = exec next.0 p next.1 d in if nat_eq i.code ret then i.k else rest

exec-drop :
    (n : ℕ) (p : List SockFilter) (a : ℕ) (d : SeccompData) → exec n p a d ≡ exec 0 (drop n p) a d
exec-drop zero p a d = refl
exec-drop (suc n) [] a d = refl
exec-drop (suc n) (i ∷ p) a d = exec-drop n p a d

exec-jeq :
    (k jt jf : ℕ) (p : List SockFilter) (a : ℕ) (d : SeccompData)
    → exec 0 (bpf_jump jeq k jt jf ∷ p) a d
      ≡ exec 0 (if nat_eq a k then drop jt p else drop jf p) a d
exec-jeq k jt jf p a d = elim (Bool-cases (nat_eq a k)) [
  | inl e ↦ rw e (exec-drop jt p a d)
  | inr e ↦ rw e (exec-drop jf p a d)
]

exec-jset :
    (k jt jf : ℕ) (p : List SockFilter) (a : ℕ) (d : SeccompData)
    → exec 0 (bpf_jump jset k jt jf ∷ p) a d
      ≡ exec 0 (if nat_eq (bit_and a k) 0 then drop jf p else drop jt p) a d
exec-jset k jt jf p a d = elim (Bool-cases (nat_eq (bit_and a k) 0)) [
  | inl e ↦ rw e (exec-drop jf p a d)
  | inr e ↦ rw e (exec-drop jt p a d)
]

machine : Bpf
machine = record {
  word = word_at;
  run = exec 0;
  word_nr = λ d. refl;
  word_arg0_low = λ d. refl;
  word_arg0_high = λ d. refl;
  run_ld = λ k p a d. refl;
  run_ret = λ k p a d. refl;
  run_jeq = exec-jeq;
  run_jset = exec-jset;
}

-- socket(AF_INET, SOCK_STREAM, 0) and close(3).
abbrev socket_call : SeccompData
socket_call = record { nr = 41; arg0 = 2; arg1 = 1 }

abbrev close_call : SeccompData
close_call = record { nr = 3; arg0 = 3; arg1 = 0 }

filter-socket_allowed_example : machine.run filter 0 socket_call ≡ ret_allow
filter-socket_allowed_example = filter-socket_allowed machine socket_call 0 refl (omega arith)

filter-traced_example : machine.run filter 0 close_call ≡ ret_trace
filter-traced_example = (filter-traced machine close_call 0).1 (inl refl)
