-- ===== src/Base/Text.antt =====
-- `str` as the list of its code points: the operations of the standard library that the code
-- calls on text, with the integer parsers of `FromStr`.
use Prim.Native.Nat.{ℕ, ◌+◌, ◌-◌, ◌*◌, ◌/◌, ◌%◌, ◌≤◌}
use Prim.Native.Char.{code}
use Prim.Native.String.{String}
use mathlib.Core.Path.{◌≡◌}
use mathlib.Core.Bool.{Bool, true, false, ◌&&◌, ◌||◌}
use mathlib.Core.List.{List, [], ◌∷◌, ◌++◌}
use mathlib.Core.Option.{Option, none, some}
use native.Mathlib.Omega.{arith}
use proxec.Base.Tests.{leb, nat_eq, if◌then◌else◌}

abbrev pub Text : Type 0
Text = List ℕ

-- A literal.
abbrev pub codes : String → Text
codes String.[] = []
codes (String.◌∷◌ c s) = code c ∷ codes s

-- `char::is_whitespace`: the Unicode property White_Space.
unfoldable pub is_whitespace : ℕ → Bool
is_whitespace c =
    leb 9 c && leb c 13
    || nat_eq c 32
    || nat_eq c 0x85
    || nat_eq c 0xa0
    || nat_eq c 0x1680
    || leb 0x2000 c && leb c 0x200a
    || nat_eq c 0x2028
    || nat_eq c 0x2029
    || nat_eq c 0x202f
    || nat_eq c 0x205f
    || nat_eq c 0x3000

unfoldable pub trim_start : Text → Text
unfolding is_whitespace
trim_start [] = []
trim_start (c ∷ s) = let rest = trim_start s in if is_whitespace c then rest else c ∷ s

unfoldable pub trim_end : Text → Text
unfolding is_whitespace
trim_end [] = []
trim_end (c ∷ s) = elim (trim_end s) [
  | [] ↦ (if is_whitespace c then [] else c ∷ [])
  | d ∷ r ↦ c ∷ d ∷ r
]

unfoldable pub trim : Text → Text
unfolding trim_start trim_end
trim s = trim_end (trim_start s)

abbrev pub is_empty : Text → Bool
is_empty [] = true
is_empty (_ ∷ _) = false

abbrev to_ascii_lowercase : ℕ → ℕ
to_ascii_lowercase c = if leb b'A' c && leb c b'Z' then c + 32 else c

abbrev pub eq_ignore_ascii_case : Text → Text → Bool
eq_ignore_ascii_case [] [] = true
eq_ignore_ascii_case [] (_ ∷ _) = false
eq_ignore_ascii_case (_ ∷ _) [] = false
eq_ignore_ascii_case (x ∷ s) (y ∷ t) =
    nat_eq (to_ascii_lowercase x) (to_ascii_lowercase y) && eq_ignore_ascii_case s t

-- `contains(char)` and `starts_with(char)`.
abbrev pub contains_char : ℕ → Text → Bool
contains_char c [] = false
contains_char c (d ∷ s) = nat_eq d c || contains_char c s

abbrev pub starts_with_char : ℕ → Text → Bool
starts_with_char c [] = false
starts_with_char c (d ∷ s) = nat_eq d c

abbrev cons_first : ℕ → Option (Text × Text) → Option (Text × Text)
cons_first c none = none
cons_first c (some (a, b)) = some (c ∷ a, b)

-- `split_once(char)`: at the first occurrence, which is dropped.
unfoldable pub split_once : ℕ → Text → Option (Text × Text)
split_once c [] = none
split_once c (d ∷ s) =
    let rest = split_once c s in if nat_eq d c then some ([], s) else cons_first d rest

abbrev pub strip_prefix : Text → Text → Option Text
strip_prefix [] s = some s
strip_prefix (c ∷ p) [] = none
strip_prefix (c ∷ p) (d ∷ s) = let rest = strip_prefix p s in if nat_eq c d then rest else none

-- `strip_suffix(char)`.
abbrev pub strip_suffix_char : ℕ → Text → Option Text
strip_suffix_char c [] = none
strip_suffix_char c (d ∷ []) = if nat_eq d c then some [] else none
strip_suffix_char c (d ∷ e ∷ s) = elim (strip_suffix_char c (e ∷ s)) [
  | none ↦ none
  | some r ↦ some (d ∷ r)
]

-- The digits of `FromStr` for integers, with the overflow check at each step.
unfoldable pub parse_digits : ℕ → ℕ → Text → Option ℕ
parse_digits max acc [] = some acc
parse_digits max acc (c ∷ s) =
    let acc' = acc * 10 + (c - b'0') in
    let rest = parse_digits max acc' s in
    if leb b'0' c && leb c b'9' && leb acc' max then rest else none

-- `str::parse` for an unsigned type with the greatest value `max`; one leading `+` is accepted.
unfoldable pub parse_unsigned : ℕ → Text → Option ℕ
unfolding parse_digits
parse_unsigned max [] = none
parse_unsigned max (c ∷ []) = parse_digits max 0 (c ∷ [])
parse_unsigned max (c ∷ d ∷ s) =
    if nat_eq c b'+' then parse_digits max 0 (d ∷ s) else parse_digits max 0 (c ∷ d ∷ s)

pub parse_digits-le :
    (max acc : ℕ) (s : Text) (n : ℕ) → acc ≤ max → parse_digits max acc s ≡ some n → n ≤ max
unfolding parse_digits
parse_digits-le max acc [] n h e = ground arith
parse_digits-le max acc (c ∷ s) n h e =
    ground (arith, parse_digits-le max (acc * 10 + (c - b'0')) s n)

-- A number that parses fits its type.
pub parse_unsigned-le : (max : ℕ) (s : Text) (n : ℕ) → parse_unsigned max s ≡ some n → n ≤ max
unfolding parse_unsigned
parse_unsigned-le max [] n e = cc
parse_unsigned-le max (c ∷ []) n e = parse_digits-le max 0 (c ∷ []) n (omega arith) e
parse_unsigned-le max (c ∷ d ∷ s) n e = ground (
  arith,
  parse_digits-le max 0 (d ∷ s) n (omega arith),
  parse_digits-le max 0 (c ∷ d ∷ s) n (omega arith),
)

-- The decimal digits of a byte, as `{}` prints it.
abbrev pub display_u8 : ℕ → Text
display_u8 n =
    (if leb 100 n then (b'0' + n / 100) ∷ [] else [])
    ++ (if leb 10 n then (b'0' + n / 10 % 10) ∷ [] else [])
    ++ ((b'0' + n % 10) ∷ [])

abbrev push_char : ℕ → List Text → List Text
push_char c [] = (c ∷ []) ∷ []
push_char c (l ∷ ls) = (c ∷ l) ∷ ls

-- `str::lines`: split at `\n`, a `\r` right before it dropped, with no empty last line.
unfoldable pub lines : Text → List Text
lines [] = []
lines (c ∷ s) =
    let rest = lines s in
    if nat_eq c 10
    then [] ∷ rest
    else if nat_eq c 13 && starts_with_char 10 s
    then rest
    else push_char c rest

-- A word that is not empty, in front of the others.
abbrev pub push_word : Text → List Text → List Text
push_word [] words = words
push_word (c ∷ w) words = (c ∷ w) ∷ words

-- One character more in front of a word that has begun and the words behind it.
abbrev pub add_char : Bool → ℕ → Text × List Text → Text × List Text
add_char true c (word, words) = ([], push_word word words)
add_char false c (word, words) = (c ∷ word, words)

-- The word at the start of a text, and the words behind it.
unfoldable pub first_word : Text → Text × List Text
first_word [] = ([], [])
first_word (c ∷ s) = add_char (is_whitespace c) c (first_word s)

abbrev pub push_first : Text × List Text → List Text
push_first (word, words) = push_word word words

-- `str::split_whitespace`.
unfoldable pub split_whitespace : Text → List Text
unfolding first_word is_whitespace
split_whitespace s = push_first (first_word s)
