-- ===== src/Base/Bytes.antt =====
-- Integers as byte strings: `to_be_bytes`, `from_be_bytes` and, for the native order of x86_64,
-- `to_ne_bytes` and `from_ne_bytes`.
use native.Mathlib.Nat.{pow-suc}
use Prim.Native.Nat.{ℕ, zero, suc, ◌+◌, ◌*◌, ◌/◌, ◌%◌, ◌^◌, ◌<◌}
use mathlib.Core.Path.{◌≡◌, refl}
use mathlib.Core.List.{List, [], ◌∷◌, ◌++◌}
use native.Mathlib.Omega.{arith}
use proxec.Base.Lists.{length, length-append, IsBytes}

-- The bytes of an integer, most significant first.
abbrev pub be_bytes : ℕ → ℕ → List ℕ
be_bytes zero n = []
be_bytes (suc w) n = be_bytes w (n / 256) ++ (n % 256) ∷ []

abbrev pub from_be_acc : ℕ → List ℕ → ℕ
from_be_acc acc [] = acc
from_be_acc acc (b ∷ bs) = from_be_acc (acc * 256 + b) bs

abbrev pub from_be_bytes : List ℕ → ℕ
from_be_bytes bs = from_be_acc 0 bs

-- The bytes of an integer, least significant first.
abbrev pub ne_bytes : ℕ → ℕ → List ℕ
ne_bytes zero n = []
ne_bytes (suc w) n = (n % 256) ∷ ne_bytes w (n / 256)

abbrev pub from_ne_bytes : List ℕ → ℕ
from_ne_bytes [] = 0
from_ne_bytes (b ∷ bs) = b + 256 * from_ne_bytes bs

from_be_acc-append :
    (acc : ℕ) (xs : List ℕ) (b : ℕ) → from_be_acc acc (xs ++ b ∷ []) ≡ from_be_acc acc xs * 256 + b
from_be_acc-append acc [] b = refl
from_be_acc-append acc (x ∷ xs) b = from_be_acc-append (acc * 256 + x) xs b

pub length-be_bytes : (w n : ℕ) → length (be_bytes w n) ≡ w
length-be_bytes zero n = refl
length-be_bytes (suc w) n =
    omega
      (arith, length-append (be_bytes w (n / 256)) ((n % 256) ∷ []), length-be_bytes w (n / 256))

pub be_bytes-IsBytes : (w n : ℕ) → IsBytes (be_bytes w n)
be_bytes-IsBytes zero n = tt
be_bytes-IsBytes (suc w) n =
    IsBytes-snoc (be_bytes w (n / 256)) (n % 256) (be_bytes-IsBytes w (n / 256)) (omega arith)
  where
    IsBytes-snoc : (xs : List ℕ) (b : ℕ) → IsBytes xs → b < 256 → IsBytes (xs ++ b ∷ [])
    IsBytes-snoc [] b h k = (k, tt)
    IsBytes-snoc (x ∷ xs) b h k = (h.0, IsBytes-snoc xs b h.1 k)

-- Reading back the bytes of a number that fits gives the number.
pub from_be_bytes-be_bytes : (w n : ℕ) → n < 256 ^ w → from_be_bytes (be_bytes w n) ≡ n
from_be_bytes-be_bytes zero n h = omega arith
from_be_bytes-be_bytes (suc w) n h = omega (
  arith,
  from_be_acc-append 0 (be_bytes w (n / 256)) (n % 256),
  from_be_bytes-be_bytes w (n / 256) (omega (arith, pow-suc 256 w)),
)

pub from_ne_bytes-ne_bytes : (w n : ℕ) → n < 256 ^ w → from_ne_bytes (ne_bytes w n) ≡ n
from_ne_bytes-ne_bytes zero n h = omega arith
from_ne_bytes-ne_bytes (suc w) n h =
    omega (arith, from_ne_bytes-ne_bytes w (n / 256) (omega (arith, pow-suc 256 w)))

pub ne_bytes-from_ne_bytes :
    (bs : List ℕ) → IsBytes bs → ne_bytes (length bs) (from_ne_bytes bs) ≡ bs
ne_bytes-from_ne_bytes [] h = refl
ne_bytes-from_ne_bytes (b ∷ bs) h =
    let q : (b + 256 * from_ne_bytes bs) / 256 ≡ from_ne_bytes bs = omega (arith, h.0) in
    let r : (b + 256 * from_ne_bytes bs) % 256 ≡ b = omega (arith, h.0) in
    rw (q, r, ne_bytes-from_ne_bytes bs h.1)

pub from_ne_bytes-lt : (bs : List ℕ) → IsBytes bs → from_ne_bytes bs < 256 ^ length bs
from_ne_bytes-lt [] h = omega arith
from_ne_bytes-lt (b ∷ bs) h = omega (arith, h.0, from_ne_bytes-lt bs h.1, pow-suc 256 (length bs))

from_be_acc-lt :
    (acc k : ℕ) (bs : List ℕ)
    → acc < 256 ^ k
    → IsBytes bs
    → from_be_acc acc bs < 256 ^ (k + length bs)
from_be_acc-lt acc k [] a h = let e : k + 0 ≡ k = omega arith in rw e a
from_be_acc-lt acc k (b ∷ bs) a h =
    let e : k + suc (length bs) ≡ suc k + length bs = omega arith in
    rw e (from_be_acc-lt (acc * 256 + b) (suc k) bs (omega (arith, h.0, a, pow-suc 256 k)) h.1)

-- The number that `w` bytes stand for fits `w` bytes.
pub from_be_bytes-lt : (bs : List ℕ) → IsBytes bs → from_be_bytes bs < 256 ^ length bs
from_be_bytes-lt bs h =
    let e : 0 + length bs ≡ length bs = omega arith in
    rw e at (from_be_acc-lt 0 0 bs (omega arith) h)
