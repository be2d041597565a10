-- ===== src/NoProxy/Mask.antt =====
-- `contains_v4` and `contains_v6` of `src/no_proxy.rs`: the masks as prefixes of the address.
use native.Mathlib.Nat.{
  pow-suc, one-le-pow, mul-div_cancel, mod-eq_of_lt, div-lt_iff_lt-mul, mul_comm,
}
use proxec.Base.{
  ℕ, zero, suc, ◌-◌, ◌*◌, ◌/◌, ◌%◌, ◌^◌, ◌+◌, ◌≤◌, ◌<◌, ◌≡◌, refl, sym, ap, ◌∙◌, ◌↔◌, Bool, true,
  ◌&&◌, arith, bit_and, nat_eq, nat_eq_iff,
}
use proxec.Base.Bits.{bit_and_field}
use proxec.NoProxy.{contains_addr, max_prefix, mask}
use proxec.Net.{IpAddr}

pow-sum : (k n : ℕ) → 2 ^ (k + n) ≡ 2 ^ k * 2 ^ n
pow-sum k zero = let e : k + 0 ≡ k = omega arith in rw e (omega arith)
pow-sum k (suc n) =
    let e : k + suc n ≡ suc (k + n) = omega arith in
    rw (e, pow-suc 2 (k + n), pow-suc 2 n) (omega (arith, ap (λ (t : ℕ). t * 2) (pow-sum k n)))

-- The test holds of the first `n` numbers.
every : (ℕ → Bool) → ℕ → Bool
every test zero = true
every test (suc n) = every test n && test n

every_sound : (test : ℕ → Bool) (n x : ℕ) → x < n → every test n ≡ true → test x ≡ true
unfolding every
every_sound test zero x small all = absurd (omega arith)
every_sound test (suc n) x small all = ground (arith, every_sound test n x)

mask_table :
    (every (λ p. nat_eq (mask 32 p) ((2 ^ p - 1) * 2 ^ (32 - p))) 33 ≡ true)
    × (every (λ p. nat_eq (mask 128 p) ((2 ^ p - 1) * 2 ^ (128 - p))) 129 ≡ true)
unfolding every
mask_table = (refl, refl)

-- A mask is a block of ones at the top of the word.
mask-v4 : (p : ℕ) → p ≤ 32 → mask 32 p ≡ (2 ^ p - 1) * 2 ^ (32 - p)
mask-v4 p h = (nat_eq_iff _ _).0 (
    every_sound (λ p. nat_eq (mask 32 p) ((2 ^ p - 1) * 2 ^ (32 - p))) 33 p (omega arith)
      mask_table.0)

mask-v6 : (p : ℕ) → p ≤ 128 → mask 128 p ≡ (2 ^ p - 1) * 2 ^ (128 - p)
mask-v6 p h = (nat_eq_iff _ _).0 (
    every_sound (λ p. nat_eq (mask 128 p) ((2 ^ p - 1) * 2 ^ (128 - p))) 129 p (omega arith)
      mask_table.1)

mul_cancel : (x y t : ℕ) → 0 < t → x * t ≡ y * t → x ≡ y
mul_cancel x y t h e = sym (mul-div_cancel x h) ∙ ap (λ (s : ℕ). s / t) e ∙ mul-div_cancel y h

-- The digits above `k` of a word of `k + p` digits.
top_digits : (k p a : ℕ) → a < 2 ^ (k + p) → a / 2 ^ k % 2 ^ p ≡ a / 2 ^ k
top_digits k p a h = mod-eq_of_lt (
    (div-lt_iff_lt-mul (one-le-pow k 2 (omega arith))).1
      (rw (mul_comm (2 ^ p) (2 ^ k), ← pow-sum k p) h))

masked : (k p a : ℕ) → a < 2 ^ (k + p) → bit_and a ((2 ^ p - 1) * 2 ^ k) ≡ a / 2 ^ k * 2 ^ k
masked k p a h = bit_and_field k p a ∙ ap (λ (t : ℕ). t * 2 ^ k) (top_digits k p a h)

masked_iff :
    (w k p a b m : ℕ)
    → k + p ≡ w
    → m ≡ (2 ^ p - 1) * 2 ^ k
    → a < 2 ^ w
    → b < 2 ^ w
    → (nat_eq (bit_and a m) (bit_and b m) ≡ true) ↔ (a / 2 ^ k ≡ b / 2 ^ k)
masked_iff w k p a b m e f ha hb = (
  λ t.
      mul_cancel (a / 2 ^ k) (b / 2 ^ k) (2 ^ k) (one-le-pow k 2 (omega arith))
        (sym left ∙ (nat_eq_iff _ _).0 t ∙ right),
  λ t. (nat_eq_iff _ _).1 (left ∙ ap (λ (s : ℕ). s * 2 ^ k) t ∙ sym right),
)
  where
    left : bit_and a m ≡ a / 2 ^ k * 2 ^ k
    left = rw f (masked k p a (rw e ha))

    right : bit_and b m ≡ b / 2 ^ k * 2 ^ k
    right = rw f (masked k p b (rw e hb))

-- The network and the address as words that fit the family of the network.
abbrev pub FitsFamily : IpAddr → Type 0
FitsFamily (IpAddr.v4 a) = a < 2 ^ 32
FitsFamily (IpAddr.v6 a) = a < 2 ^ 128

-- The addresses are of one family and agree in their first `prefix_len` bits.
abbrev pub SamePrefix : IpAddr → ℕ → IpAddr → Type 0
SamePrefix (IpAddr.v4 n) p (IpAddr.v4 a) = n / 2 ^ (32 - p) ≡ a / 2 ^ (32 - p)
SamePrefix (IpAddr.v4 n) p (IpAddr.v6 a) = ⊥
SamePrefix (IpAddr.v6 n) p (IpAddr.v4 a) = ⊥
SamePrefix (IpAddr.v6 n) p (IpAddr.v6 a) = n / 2 ^ (128 - p) ≡ a / 2 ^ (128 - p)

-- `IpNet::contains` for a prefix length that fits the family of the network: it is true exactly
-- when both addresses are of one family and agree in their first `prefix_len` bits.
pub contains_addr-SamePrefix_iff :
    (network : IpAddr) (p : ℕ) (a : IpAddr)
    → FitsFamily network
    → FitsFamily a
    → p ≤ max_prefix network
    → (contains_addr network p a ≡ true) ↔ SamePrefix network p a
unfolding contains_addr
contains_addr-SamePrefix_iff (IpAddr.v4 n) p (IpAddr.v4 a) hn ha h =
    masked_iff 32 (32 - p) p n a (mask 32 p) (omega arith) (mask-v4 p h) hn ha
contains_addr-SamePrefix_iff (IpAddr.v4 n) p (IpAddr.v6 a) hn ha h = (λ t. cc, λ t. absurd t)
contains_addr-SamePrefix_iff (IpAddr.v6 n) p (IpAddr.v4 a) hn ha h = (λ t. cc, λ t. absurd t)
contains_addr-SamePrefix_iff (IpAddr.v6 n) p (IpAddr.v6 a) hn ha h =
    masked_iff 128 (128 - p) p n a (mask 128 p) (omega arith) (mask-v6 p h) hn ha
