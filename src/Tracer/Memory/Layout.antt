-- ===== src/Tracer/Memory/Layout.antt =====
-- Bytes in words and in buffers, for the memory operations of `src/tracer/memory.rs`, and the
-- layout of a socket address read back.
use native.Mathlib.Nat.{
  pow-suc, div-div-eq-div-mul, mul_comm, zero-div, div-one, le_trans, pow-le-pow_right,
}
use mathlib.Core.Path.{subst}
use proxec.Error.{Error}
use proxec.Base.{
  ℕ, zero, suc, ◌+◌, ◌*◌, ◌/◌, ◌%◌, ◌^◌, ◌≤◌, ◌<◌, ◌≡◌, refl, ap, ◌∙◌, List, [], ◌∷◌, ◌++◌, arith,
  take, drop, get_or, length, IsBytes, if◌then◌else◌, ltb, nat_eq, Bool-cases, inl, inr,
}
use proxec.Base.Bytes.{
  be_bytes, from_be_bytes, from_ne_bytes, from_be_bytes-be_bytes, from_be_bytes-lt,
}
use proxec.Result.{Result, ok, err}
use proxec.Net.{SocketAddr, IsAddr}
use proxec.Tracer.Memory.{parse_sockaddr, sockaddr_bytes, slice}

-- The values of a function at 0, 1, …, n - 1.
abbrev pub tabulate : ℕ → (ℕ → ℕ) → List ℕ
tabulate zero f = []
tabulate (suc n) f = f 0 ∷ tabulate n (λ k. f (suc k))

pub tabulate-get_or :
    (xs : List ℕ) (f : ℕ → ℕ)
    → ((k : ℕ) → k < length xs → f k ≡ get_or xs k 0)
    → tabulate (length xs) f ≡ xs
tabulate-get_or [] f h = refl
tabulate-get_or (x ∷ xs) f h = λ i.
    h 0 (omega arith) i ∷ tabulate-get_or xs (λ k. f (suc k)) (λ k l. h (suc k) (omega arith)) i

pub tabulate-add :
    (m n : ℕ) (f : ℕ → ℕ) → tabulate (m + n) f ≡ tabulate m f ++ tabulate n (λ k. f (m + k))
tabulate-add zero n f =
    let e : 0 + n ≡ n = omega arith in rw e (ap (tabulate n) (λ i k. f (zero_add k i)))
  where
    zero_add : (k : ℕ) → k ≡ 0 + k
    zero_add k = omega arith
tabulate-add (suc m) n f =
    let e : suc m + n ≡ suc (m + n) = omega arith in
    rw e (
      ap (λ l. f 0 ∷ l)
        (tabulate-add m n (λ k. f (suc k))
          ∙ ap (λ g. tabulate m (λ k. f (suc k)) ++ tabulate n g) (λ i k. f (suc_add k i))))
  where
    suc_add : (k : ℕ) → suc (m + k) ≡ suc m + k
    suc_add k = omega arith

div-pow-suc : (k a : ℕ) → a / 256 ^ suc k ≡ a / 256 / 256 ^ k
div-pow-suc k a = rw (pow-suc 256 k, mul_comm (256 ^ k) 256, ← div-div-eq-div-mul a 256 (256 ^ k))

-- The byte of a word at each place.
pub byte_of_word :
    (bs : List ℕ) (k : ℕ) → IsBytes bs → from_ne_bytes bs / 256 ^ k % 256 ≡ get_or bs k 0
byte_of_word [] k h = rw (zero-div (256 ^ k)) refl
byte_of_word (b ∷ bs) zero h = rw (div-one (b + 256 * from_ne_bytes bs)) (omega (arith, h.0))
byte_of_word (b ∷ bs) (suc k) h =
    let q : (b + 256 * from_ne_bytes bs) / 256 ≡ from_ne_bytes bs = omega (arith, h.0) in
    rw (div-pow-suc k (b + 256 * from_ne_bytes bs), q) (byte_of_word bs k h.1)

get_or-take : (n k : ℕ) (xs : List ℕ) → k < n → get_or (take n xs) k 0 ≡ get_or xs k 0
get_or-take zero k xs h = absurd (omega arith)
get_or-take (suc n) k [] h = refl
get_or-take (suc n) zero (x ∷ xs) h = refl
get_or-take (suc n) (suc k) (x ∷ xs) h = get_or-take n k xs (omega arith)

get_or-drop : (n k : ℕ) (xs : List ℕ) → get_or (drop n xs) k 0 ≡ get_or xs (n + k) 0
get_or-drop zero k xs = ap (λ j. get_or xs j 0) (omega arith)
get_or-drop (suc n) k [] = refl
get_or-drop (suc n) k (x ∷ xs) =
    let e : suc n + k ≡ suc (n + k) = omega arith in rw e (get_or-drop n k xs)

pub get_or-slice :
    (i n k : ℕ) (xs : List ℕ) → k < n → get_or (slice i n xs) k 0 ≡ get_or xs (i + k) 0
get_or-slice i n k xs h = get_or-take n k (drop i xs) h ∙ get_or-drop i k xs

IsBytes-append : (xs ys : List ℕ) → IsBytes xs → IsBytes ys → IsBytes (xs ++ ys)
IsBytes-append [] ys hx hy = hy
IsBytes-append (x ∷ xs) ys hx hy = (hx.0, IsBytes-append xs ys hx.1 hy)

IsBytes-take : (n : ℕ) (xs : List ℕ) → IsBytes xs → IsBytes (take n xs)
IsBytes-take zero xs h = tt
IsBytes-take (suc n) [] h = tt
IsBytes-take (suc n) (x ∷ xs) h = (h.0, IsBytes-take n xs h.1)

IsBytes-drop : (n : ℕ) (xs : List ℕ) → IsBytes xs → IsBytes (drop n xs)
IsBytes-drop zero xs h = h
IsBytes-drop (suc n) [] h = tt
IsBytes-drop (suc n) (x ∷ xs) h = IsBytes-drop n xs h.1

pub slice-IsBytes : (i n : ℕ) (xs : List ℕ) → IsBytes xs → IsBytes (slice i n xs)
slice-IsBytes i n xs h = IsBytes-take n (drop i xs) (IsBytes-drop i xs h)

pub sockaddr_bytes-IsBytes : (s : SocketAddr) → IsBytes (sockaddr_bytes s)
unfolding sockaddr_bytes
sockaddr_bytes-IsBytes (SocketAddr.v4 a p) = omega arith
sockaddr_bytes-IsBytes (SocketAddr.v6 a p f s) = omega arith

-- The address that reading back gives: `read_sockaddr` takes the flow label and the scope as 0.
abbrev pub without_scope : SocketAddr → SocketAddr
without_scope (SocketAddr.v4 a p) = SocketAddr.v4 a p
without_scope (SocketAddr.v6 a p f s) = SocketAddr.v6 a p 0 0

-- The bytes of an address read back as that address, whatever stands behind them.
pub parse_sockaddr-sockaddr_bytes :
    (s : SocketAddr) (rest : List ℕ)
    → IsAddr s
    → parse_sockaddr (sockaddr_bytes s ++ rest) ≡ ok (without_scope s)
unfolding parse_sockaddr sockaddr_bytes
parse_sockaddr-sockaddr_bytes (SocketAddr.v4 a p) rest h =
    let ip : from_be_bytes (be_bytes 4 a) ≡ a = from_be_bytes-be_bytes 4 a h.0 in
    let port : from_be_bytes (be_bytes 2 p) ≡ p = from_be_bytes-be_bytes 2 p h.1 in
    λ i. ok (SocketAddr.v4 (ip i) (port i))
parse_sockaddr-sockaddr_bytes (SocketAddr.v6 a p f s) rest h =
    let ip : from_be_bytes (be_bytes 16 a) ≡ a = from_be_bytes-be_bytes 16 a h.0 in
    let port : from_be_bytes (be_bytes 2 p) ≡ p = from_be_bytes-be_bytes 2 p h.1 in
    λ i. ok (SocketAddr.v6 (ip i) (port i) 0 0)

pub tabulate-IsBytes : (n : ℕ) (f : ℕ → ℕ) → ((k : ℕ) → f k < 256) → IsBytes (tabulate n f)
tabulate-IsBytes zero f h = tt
tabulate-IsBytes (suc n) f h = (h 0, tabulate-IsBytes n (λ k. f (suc k)) (λ k. h (suc k)))

pub get_or-tabulate : (n k : ℕ) (f : ℕ → ℕ) → k < n → get_or (tabulate n f) k 0 ≡ f k
get_or-tabulate zero k f h = absurd (omega arith)
get_or-tabulate (suc n) zero f h = refl
get_or-tabulate (suc n) (suc k) f h = get_or-tabulate n k (λ j. f (suc j)) (omega arith)

pub length-slice : (i n : ℕ) (xs : List ℕ) → i + n ≤ length xs → length (slice i n xs) ≡ n
length-slice zero zero xs h = refl
length-slice zero (suc n) [] h = absurd (omega arith)
length-slice zero (suc n) (x ∷ xs) h = ap suc (length-slice zero n xs (omega arith))
length-slice (suc i) n [] h = short n (omega arith)
  where
    short : (n : ℕ) → n ≤ 0 → length {A = ℕ} (take n []) ≡ n
    short zero h = refl
    short (suc n) h = absurd (omega arith)
length-slice (suc i) n (x ∷ xs) h = length-slice i n xs (omega arith)

-- A list whose first `length xs` elements are replaced.
pub get_or-splice :
    (xs ys : List ℕ) (k : ℕ)
    → get_or (xs ++ drop (length xs) ys) k 0
      ≡ (if ltb k (length xs) then get_or xs k 0 else get_or ys k 0)
get_or-splice [] ys k = ground arith
get_or-splice (x ∷ xs) ys zero = ground arith
get_or-splice (x ∷ xs) [] (suc k) = ground (arith, get_or-splice xs [] k, drop_nil (length xs))
  where
    drop_nil : (n : ℕ) → drop {A = ℕ} n [] ≡ []
    drop_nil zero = refl
    drop_nil (suc n) = refl
get_or-splice (x ∷ xs) (y ∷ ys) (suc k) = ground (arith, get_or-splice xs ys k)

pub splice-IsBytes : (xs ys : List ℕ) (n : ℕ) → IsBytes xs → IsBytes ys → IsBytes (xs ++ drop n ys)
splice-IsBytes xs ys n hx hy = IsBytes-append xs (drop n ys) hx (IsBytes-drop n ys hy)

length-take_le : (n : ℕ) (xs : List ℕ) → length (take n xs) ≤ n
length-take_le zero xs = omega arith
length-take_le (suc n) [] = omega arith
length-take_le (suc n) (x ∷ xs) = omega (arith, length-take_le n xs)

-- A field of `n` bytes holds a number below 256^n.
field-lt : (i n : ℕ) (buf : List ℕ) → IsBytes buf → from_be_bytes (slice i n buf) < 256 ^ n
field-lt i n buf h =
    le_trans (from_be_bytes-lt (slice i n buf) (slice-IsBytes i n buf h))
      (pow-le-pow_right {n = 256} (omega arith) (length-take_le n (drop i buf)))

abbrev GoodAddr : Result Error SocketAddr → Type 0
GoodAddr (ok s) = IsAddr s × (without_scope s ≡ s)
GoodAddr (err e) = Unit

parse_sockaddr-GoodAddr : (buf : List ℕ) → IsBytes buf → GoodAddr (parse_sockaddr buf)
unfolding parse_sockaddr
parse_sockaddr-GoodAddr buf h = elim (Bool-cases (nat_eq (from_ne_bytes (slice 0 2 buf)) 2)) [
  | inl v4 ↦ rw v4 ((field-lt 4 4 buf h, field-lt 2 2 buf h), refl)
  | inr other ↦ rw other (elim (Bool-cases (nat_eq (from_ne_bytes (slice 0 2 buf)) 10)) [
    | inl v6 ↦ rw v6 ((field-lt 8 16 buf h, field-lt 2 2 buf h, omega arith, omega arith), refl)
    | inr unknown ↦ rw unknown tt
  ])
]

-- What `parse_sockaddr` gives fits its fields, and has no flow label and no scope.
pub parse_sockaddr-IsAddr :
    (buf : List ℕ) (s : SocketAddr)
    → IsBytes buf
    → parse_sockaddr buf ≡ ok s
    → IsAddr s × (without_scope s ≡ s)
parse_sockaddr-IsAddr buf s h e = subst GoodAddr e (parse_sockaddr-GoodAddr buf h)
