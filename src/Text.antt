-- ===== src/Text.antt =====
-- Rust text as the crate uses it: a `str` or `String` is its list of Unicode scalar values, with
-- the standard library's UTF-8 encoding (`str::as_bytes`) and lossy decoding
-- (`String::from_utf8_lossy`), and the formatting of numbers.
pub mod Utf8
pub mod Lossy
pub mod Format
use Prim.Native.Char.{code}
use swupdate_rs.Common.{
  ℕ, ◌+◌, ◌-◌, ◌*◌, ◌/◌, ◌%◌, ◌≤◌, ◌<◌, ◌⊎◌, ◌&&◌, List, [], ◌∷◌, ◌++◌, String, Bytes, ltb, leb,
  ◌==◌, if◌then◌else◌,
}

abbrev pub Text : Type 0
Text = List ℕ

-- A Unicode scalar value: what a Rust `char` can be.
abbrev pub IsScalar : ℕ → Type 0
IsScalar c = (c < 0xd800) ⊎ ((0xe000 ≤ c) × (c < 0x110000))

-- A text literal.
abbrev pub codes : String → Text
codes String.[] = []
codes (String.◌∷◌ c s) = code c ∷ codes s

unfoldable pub encode : ℕ → Bytes
encode c =
    if ltb c 0x80
    then c ∷ []
    else if ltb c 0x800
    then (0xc0 + c / 64) ∷ (0x80 + c % 64) ∷ []
    else if ltb c 0x10000
    then (0xe0 + c / 4096) ∷ (0x80 + c / 64 % 64) ∷ (0x80 + c % 64) ∷ []
    else (0xf0 + c / 262144) ∷ (0x80 + c / 4096 % 64) ∷ (0x80 + c / 64 % 64) ∷ (0x80 + c % 64) ∷ []

-- `str::as_bytes`
unfoldable pub as_bytes : Text → Bytes
unfolding encode
as_bytes [] = []
as_bytes (c ∷ s) = encode c ++ as_bytes s

-- U+FFFD, which stands for a byte sequence that is not UTF-8.
abbrev pub replacement : ℕ
replacement = 0xfffd

-- A decoder between two bytes: the next one must lie in `lo ..= hi`, `left` more come after it,
-- and `acc` holds the bits so far.
pub data Pending : Type 0 where
  idle : Pending
  more : (lo hi left acc : ℕ) → Pending

unfoldable pub start : ℕ → Text × Pending
start b =
    if ltb b 0x80
    then (b ∷ [], idle)
    else if ltb b 0xc2
    then (replacement ∷ [], idle)
    else if ltb b 0xe0
    then ([], more 0x80 0xbf 0 (b - 0xc0))
    else if b == 0xe0
    then ([], more 0xa0 0xbf 1 0)
    else if b == 0xed
    then ([], more 0x80 0x9f 1 13)
    else if ltb b 0xf0
    then ([], more 0x80 0xbf 1 (b - 0xe0))
    else if b == 0xf0
    then ([], more 0x90 0xbf 2 0)
    else if ltb b 0xf4
    then ([], more 0x80 0xbf 2 (b - 0xf0))
    else if b == 0xf4
    then ([], more 0x80 0x8f 2 4)
    else (replacement ∷ [], idle)

-- A byte that does not continue a sequence ends it with one replacement, and is read afresh.
unfoldable pub feed : Pending → ℕ → Text × Pending
unfolding start
feed idle b = start b
feed (more lo hi left acc) b =
    if leb lo b && leb b hi
    then if left == 0
      then ((acc * 64 + b % 64) ∷ [], idle)
      else ([], more 0x80 0xbf (left - 1) (acc * 64 + b % 64))
    else (replacement ∷ (start b).0, (start b).1)

unfoldable pub decode : Pending → Bytes → Text
unfolding feed
decode idle [] = []
decode (more lo hi left acc) [] = replacement ∷ []
decode st (b ∷ bs) = (feed st b).0 ++ decode (feed st b).1 bs

-- `String::from_utf8_lossy(bytes).into_owned()`
unfoldable pub from_utf8_lossy : Bytes → Text
unfolding decode
from_utf8_lossy bs = decode idle bs
