-- ===== src/Tracer/Seccomp.antt =====
-- `src/tracer/seccomp.rs`: the filter that `install_filter` hands to the kernel, the choice of the
-- mode by the kernel's version, and the machine that runs a filter, as a parameter.
pub mod Verdict
use proxec.Base.{
  ℕ, ◌+◌, ◌-◌, ◌*◌, ◌/◌, ◌%◌, ◌^◌, ◌≤◌, ◌<◌, ◌≡◌, ◌≢◌, refl, Bool, true, false, ◌&&◌, ◌||◌, Option,
  none, some, List, [], ◌∷◌, nat_eq, ltb, leb, bit_and, drop, if◌then◌else◌,
}
use proxec.Base.Text.{Text, split_once, parse_unsigned}

abbrev sys_close : ℕ
sys_close = 3

abbrev sys_socket : ℕ
sys_socket = 41

abbrev sys_connect : ℕ
sys_connect = 42

abbrev sys_clone : ℕ
sys_clone = 56

abbrev sys_clone3 : ℕ
sys_clone3 = 435

abbrev inet : ℕ
inet = 2

abbrev inet6 : ℕ
inet6 = 10

abbrev stream : ℕ
stream = 1

abbrev clone_untraced : ℕ
clone_untraced = 0x00800000

-- One instruction: `SockFilter`.
pub record SockFilter : Type 0 where
  pub code : ℕ
  pub jt : ℕ
  pub jf : ℕ
  pub k : ℕ

-- BPF_LD | BPF_W | BPF_ABS, BPF_JMP | BPF_JEQ | BPF_K, BPF_JMP | BPF_JSET | BPF_K, BPF_RET | BPF_K.
abbrev pub ld_abs : ℕ
ld_abs = 0x20

abbrev pub jeq : ℕ
jeq = 0x15

abbrev pub jset : ℕ
jset = 0x25

abbrev pub ret : ℕ
ret = 0x06

abbrev pub bpf_stmt : ℕ → ℕ → SockFilter
bpf_stmt code k = record { code = code; jt = 0; jf = 0; k = k }

abbrev pub bpf_jump : ℕ → ℕ → ℕ → ℕ → SockFilter
bpf_jump code k jt jf = record { code = code; jt = jt; jf = jf; k = k }

abbrev pub ret_allow : ℕ
ret_allow = 0x7fff0000

abbrev pub ret_trace : ℕ
ret_trace = 0x7ff00000

-- The program of `install_filter`, instruction by instruction.
abbrev pub filter : List SockFilter
filter =
    bpf_stmt ld_abs 0
    ∷ bpf_jump jeq sys_close 12 0
    ∷ bpf_jump jeq sys_connect 11 0
    ∷ bpf_jump jeq sys_clone3 10 0
    ∷ bpf_jump jeq sys_clone 2 0
    ∷ bpf_jump jeq sys_socket 3 0
    ∷ bpf_stmt ret ret_allow
    ∷ bpf_stmt ld_abs 16
    ∷ bpf_jump jset clone_untraced 5 6
    ∷ bpf_stmt ld_abs 16
    ∷ bpf_jump jeq inet 1 0
    ∷ bpf_jump jeq inet6 0 3
    ∷ bpf_stmt ld_abs 20
    ∷ bpf_jump jset stream 0 1
    ∷ bpf_stmt ret ret_trace
    ∷ bpf_stmt ret ret_allow
    ∷ []

-- `seccomp_data`: the number of the system call and its first two arguments. The words of the
-- structure lie at 0 (the number), 16 and 20 (the low and the high half of the first argument), 24
-- and 28 (those of the second).
pub record SeccompData : Type 0 where
  pub nr : ℕ
  pub arg0 : ℕ
  pub arg1 : ℕ

-- The kernel's machine for such programs, with the documented meaning of the four instructions:
-- `run` takes the rest of the program, the accumulator and the data.
pub record Bpf : Type 0 where
  pub word : ℕ → SeccompData → ℕ
  pub run : List SockFilter → ℕ → SeccompData → ℕ
  pub word_nr : (d : SeccompData) → word 0 d ≡ d.nr
  pub word_arg0_low : (d : SeccompData) → word 16 d ≡ d.arg0 % 2 ^ 32
  pub word_arg0_high : (d : SeccompData) → word 20 d ≡ d.arg0 / 2 ^ 32
  pub run_ld :
      (k : ℕ) (p : List SockFilter) (a : ℕ) (d : SeccompData)
      → run (bpf_stmt ld_abs k ∷ p) a d ≡ run p (word k d) d
  pub run_ret :
      (k : ℕ) (p : List SockFilter) (a : ℕ) (d : SeccompData) → run (bpf_stmt ret k ∷ p) a d ≡ k
  pub run_jeq :
      (k jt jf : ℕ) (p : List SockFilter) (a : ℕ) (d : SeccompData)
      → run (bpf_jump jeq k jt jf ∷ p) a d ≡ run (if nat_eq a k then drop jt p else drop jf p) a d
  pub run_jset :
      (k jt jf : ℕ) (p : List SockFilter) (a : ℕ) (d : SeccompData)
      → run (bpf_jump jset k jt jf ∷ p) a d
        ≡ run (if nat_eq (bit_and a k) 0 then drop jf p else drop jt p) a d

-- `is_available`: from the release of `uname`, where it begins with two numbers; yes otherwise.
-- The second of the dot-separated parts ends at the next dot, if there is one.
part_before_dot : Text → Text
unfolding split_once
part_before_dot s = elim (split_once b'.' s) [ none ↦ s | some (a, rest) ↦ a ]

version_at_least : Option ℕ → Option ℕ → Bool
version_at_least none minor = true
version_at_least (some major) none = true
version_at_least (some major) (some minor) = ltb 4 major || nat_eq major 4 && leb 8 minor

pub is_available : Option Text → Bool
unfolding split_once part_before_dot version_at_least parse_unsigned
is_available none = true
is_available (some release) = elim (split_once b'.' release) [
  | none ↦ true
  | some (major, rest) ↦
      version_at_least (parse_unsigned (2 ^ 32 - 1) major)
        (parse_unsigned (2 ^ 32 - 1) (part_before_dot rest))
]
