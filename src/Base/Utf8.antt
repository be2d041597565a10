-- ===== src/Base/Utf8.antt =====
-- `str::as_bytes`: the UTF-8 encoding of a text.
use Prim.Native.Nat.{ℕ, ◌+◌, ◌/◌, ◌%◌, ◌<◌}
use mathlib.Core.List.{List, [], ◌∷◌, ◌++◌}
use native.Mathlib.Omega.{arith}
use proxec.Base.Lists.{All, IsBytes}
use proxec.Base.Tests.{ltb, if◌then◌else◌}
use proxec.Base.Text.{Text}

abbrev pub encode_utf8 : ℕ → List ℕ
encode_utf8 c =
    if ltb c 0x80
    then c ∷ []
    else if ltb c 0x800
    then (0xc0 + c / 64) ∷ (0x80 + c % 64) ∷ []
    else if ltb c 0x10000
    then (0xe0 + c / 4096) ∷ (0x80 + c / 64 % 64) ∷ (0x80 + c % 64) ∷ []
    else (0xf0 + c / 262144) ∷ (0x80 + c / 4096 % 64) ∷ (0x80 + c / 64 % 64) ∷ (0x80 + c % 64) ∷ []

abbrev pub as_bytes : Text → List ℕ
as_bytes [] = []
as_bytes (c ∷ s) = encode_utf8 c ++ as_bytes s

-- The code points of `char`, but for the surrogates, which make no difference here.
abbrev pub IsText : Text → Type 0
IsText = All (λ c. c < 0x110000)

encode_utf8-IsBytes : (c : ℕ) → c < 0x110000 → IsBytes (encode_utf8 c)
encode_utf8-IsBytes c h = ground arith

pub IsBytes-append : (xs ys : List ℕ) → IsBytes xs → IsBytes ys → IsBytes (xs ++ ys)
IsBytes-append [] ys h k = k
IsBytes-append (x ∷ xs) ys h k = (h.0, IsBytes-append xs ys h.1 k)

pub as_bytes-IsBytes : (s : Text) → IsText s → IsBytes (as_bytes s)
as_bytes-IsBytes [] h = tt
as_bytes-IsBytes (c ∷ s) h =
    IsBytes-append (encode_utf8 c) (as_bytes s) (encode_utf8-IsBytes c h.0) (as_bytes-IsBytes s h.1)
