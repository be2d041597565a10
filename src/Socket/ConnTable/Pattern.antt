-- ===== src/Socket/ConnTable/Pattern.antt =====
-- The text that `find_inode_by_conn` looks for is the one that the kernel shows: the address as one
-- number, read in the order of the machine from its four bytes, and the port.
use native.Mathlib.Nat.{pow-suc}
use proxec.Base.{
  ℕ, zero, suc, ◌+◌, ◌-◌, ◌*◌, ◌/◌, ◌%◌, ◌^◌, ◌<◌, ◌≡◌, refl, sym, ap, ◌∙◌, inl, inr, true, ◌&&◌,
  [], ◌∷◌, ◌++◌, append_assoc, ltb, nat_eq, if◌then◌else◌, take, drop, text_eq, text_eq_iff,
  IsBytes, Bool-cases, arith,
}
use proxec.Base.Bytes.{
  be_bytes, from_be_bytes, ne_bytes, from_ne_bytes, be_bytes-IsBytes, from_be_bytes-be_bytes,
  ne_bytes-from_ne_bytes, from_ne_bytes-lt,
}
use proxec.Base.Text.{Text}
use proxec.Socket.ConnTable.{upper_hex_digit, upper_hex, addr_pattern}

-- `%08X:%04X` of the kernel's fields.
unfoldable pub shown_addr : ℕ → ℕ → Text
shown_addr ip port = upper_hex 8 (from_ne_bytes (be_bytes 4 ip)) ++ b':' ∷ upper_hex 4 port

-- One more byte below a number is two more digits.
upper_hex-byte :
    (w b m : ℕ) → b < 256 → upper_hex (suc (suc w)) (b + 256 * m) ≡ upper_hex w m ++ upper_hex 2 b
upper_hex-byte w b m lt =
    let high : (b + 256 * m) / 16 / 16 ≡ m = omega (arith, lt) in
    let mid : (b + 256 * m) / 16 % 16 ≡ b / 16 % 16 = omega (arith, lt) in
    let low : (b + 256 * m) % 16 ≡ b % 16 = omega (arith, lt) in
    rw (high, mid, low)
      (append_assoc (upper_hex w m) (upper_hex_digit (b / 16 % 16) ∷ [])
        (upper_hex_digit (b % 16) ∷ []))

four_bytes_shown :
    (b0 b1 b2 b3 : ℕ)
    → b0 < 256
    → b1 < 256
    → b2 < 256
    → b3 < 256
    → upper_hex 8 (b0 + 256 * (b1 + 256 * (b2 + 256 * (b3 + 256 * 0))))
      ≡ upper_hex 2 b3 ++ upper_hex 2 b2 ++ upper_hex 2 b1 ++ upper_hex 2 b0
four_bytes_shown b0 b1 b2 b3 h0 h1 h2 h3 =
    upper_hex-byte 6 b0 (b1 + 256 * (b2 + 256 * (b3 + 256 * 0))) h0
    ∙ ap (λ t. t ++ upper_hex 2 b0)
        (upper_hex-byte 4 b1 (b2 + 256 * (b3 + 256 * 0)) h1
          ∙ ap (λ t. t ++ upper_hex 2 b1)
              (upper_hex-byte 2 b2 (b3 + 256 * 0) h2
                ∙ ap (λ t. t ++ upper_hex 2 b2) (upper_hex-byte 0 b3 0 h3)))

pub addr_pattern-shown_addr : (ip port : ℕ) → addr_pattern ip port ≡ shown_addr ip port
unfolding addr_pattern shown_addr
addr_pattern-shown_addr ip port =
    let octets : IsBytes (be_bytes 4 ip) = be_bytes-IsBytes 4 ip in
    ap (λ t. t ++ b':' ∷ upper_hex 4 port)
      (sym (four_bytes_shown _ _ _ _ (octets.0) (octets.1.0) (octets.1.1.0) (octets.1.1.1.0)))

-- A number again from its digits.
abbrev digit_value : ℕ → ℕ
digit_value c = if ltb c b'A' then c - b'0' else c - b'A' + 10

abbrev from_hex_acc : ℕ → Text → ℕ
from_hex_acc acc [] = acc
from_hex_acc acc (c ∷ s) = from_hex_acc (acc * 16 + digit_value c) s

digit_value-upper_hex_digit : (d : ℕ) → d < 16 → digit_value (upper_hex_digit d) ≡ d
digit_value-upper_hex_digit d h = ground arith

from_hex_acc-append :
    (acc : ℕ) (s : Text) (c : ℕ)
    → from_hex_acc acc (s ++ c ∷ []) ≡ from_hex_acc acc s * 16 + digit_value c
from_hex_acc-append acc [] c = refl
from_hex_acc-append acc (d ∷ s) c = from_hex_acc-append (acc * 16 + digit_value d) s c

from_hex_acc-upper_hex : (w n : ℕ) → n < 16 ^ w → from_hex_acc 0 (upper_hex w n) ≡ n
from_hex_acc-upper_hex zero n h = omega arith
from_hex_acc-upper_hex (suc w) n h = omega (
  arith,
  from_hex_acc-append 0 (upper_hex w (n / 16)) (upper_hex_digit (n % 16)),
  digit_value-upper_hex_digit (n % 16) (omega arith),
  from_hex_acc-upper_hex w (n / 16) (omega (arith, pow-suc 16 w)),
)

-- The address and the port that a text shows.
abbrev read_addr : Text → ℕ × ℕ
read_addr s = (from_be_bytes (ne_bytes 4 (from_hex_acc 0 (take 8 s))), from_hex_acc 0 (drop 9 s))

read_addr-shown_addr :
    (ip port : ℕ) → ip < 2 ^ 32 → port < 2 ^ 16 → read_addr (shown_addr ip port) ≡ (ip, port)
unfolding shown_addr
read_addr-shown_addr ip port i p =
    let octets : IsBytes (be_bytes 4 ip) = be_bytes-IsBytes 4 ip in
    let x : ℕ = from_ne_bytes (be_bytes 4 ip) in
    let number : from_hex_acc 0 (upper_hex 8 x) ≡ x =
      from_hex_acc-upper_hex 8 x (from_ne_bytes-lt (be_bytes 4 ip) octets) in
    let bytes : from_be_bytes (ne_bytes 4 x) ≡ ip =
      ap from_be_bytes (ne_bytes-from_ne_bytes (be_bytes 4 ip) octets)
      ∙ from_be_bytes-be_bytes 4 ip i in
    let port' : from_hex_acc 0 (upper_hex 4 port) ≡ port = from_hex_acc-upper_hex 4 port p in
    let address : from_be_bytes (ne_bytes 4 (from_hex_acc 0 (upper_hex 8 x))) ≡ ip =
      ap (λ y. from_be_bytes (ne_bytes 4 y)) number ∙ bytes in
    ap (λ a. (a, from_hex_acc 0 (upper_hex 4 port))) address ∙ ap (λ q. (ip, q)) port'

-- The texts are the same for the same address and port only.
pub shown_addr-addr_pattern :
    (x p y q : ℕ)
    → x < 2 ^ 32
    → p < 2 ^ 16
    → y < 2 ^ 32
    → q < 2 ^ 16
    → text_eq (shown_addr x p) (addr_pattern y q) ≡ (nat_eq x y && nat_eq p q)
shown_addr-addr_pattern x p y q hx hp hy hq =
    rw (addr_pattern-shown_addr y q) (elim (Bool-cases (nat_eq x y && nat_eq p q)) [
      | inl same ↦ rw (same, both same) ((text_eq_iff (shown_addr y q) (shown_addr y q)).1 refl)
      | inr other ↦ elim (Bool-cases (text_eq (shown_addr x p) (shown_addr y q))) [
        | inr apart ↦ apart ∙ sym other
        | inl found ↦
            let read : (x, p) ≡ (y, q) =
              sym (read_addr-shown_addr x p hx hp)
              ∙ ap read_addr ((text_eq_iff (shown_addr x p) (shown_addr y q)).0 found)
              ∙ read_addr-shown_addr y q hy hq in
            found ∙ sym (equal (ap (λ a. a.0) read) (ap (λ a. a.1) read))
      ]
    ])
  where
    equal : x ≡ y → p ≡ q → (nat_eq x y && nat_eq p q) ≡ true
    equal e f = ground arith

    both : (nat_eq x y && nat_eq p q) ≡ true → shown_addr x p ≡ shown_addr y q
    both same =
        let e : x ≡ y = ground arith in
        let f : p ≡ q = ground arith in ap (λ a. shown_addr a p) e ∙ ap (shown_addr y) f
