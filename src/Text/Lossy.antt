-- ===== src/Text/Lossy.antt =====
-- Whole texts through the UTF-8 encoder and the lossy decoder.
use native.Mathlib.Decide.{dec_lt, dec_le}
use swupdate_rs.Common.{
  ℕ, zero, suc, ◌-◌, ◌≤◌, ◌<◌, ◌≡◌, refl, ap, ◌∙◌, ◌⊎◌, [], ◌∷◌, ◌++◌, Bytes, All, All-append,
  length, length-append, take, leb, ◌==◌, if◌then◌else◌, arith, IsByte,
}
use swupdate_rs.Text.{
  Text, IsScalar, encode, as_bytes, replacement, Pending, idle, more, feed, decode, from_utf8_lossy,
}
use swupdate_rs.Text.Utf8.{decode-encode, decode-encode_cut, by_width, IsScalar-lt}

-- A text survives its encoding.
pub from_utf8_lossy-as_bytes : (s : Text) → All IsScalar s → from_utf8_lossy (as_bytes s) ≡ s
unfolding from_utf8_lossy as_bytes
from_utf8_lossy-as_bytes [] h = refl
from_utf8_lossy-as_bytes (c ∷ s) (hc, hs) =
    decode-encode c (as_bytes s) hc ∙ ap (λ t. c ∷ t) (from_utf8_lossy-as_bytes s hs)

-- What is left of a text in `m` bytes: its characters that fit, and one replacement for a
-- character that is cut.
unfoldable pub fit : ℕ → Text → Text
fit m [] = []
fit m (c ∷ s) =
    if leb (length (encode c)) m
    then c ∷ fit (m - length (encode c)) s
    else if m == 0
    then []
    else replacement ∷ []

take-append_more :
    (m : ℕ) (xs ys : Bytes) → length xs ≤ m → take m (xs ++ ys) ≡ xs ++ take (m - length xs) ys
take-append_more m [] ys h = ap (λ t. take t ys) (omega arith)
take-append_more zero (x ∷ xs) ys h = elim h [ ]
take-append_more (suc m) (x ∷ xs) ys h =
    ap (λ t. x ∷ t)
      (take-append_more m xs ys (omega arith) ∙ ap (λ t. xs ++ take t ys) (omega arith))

take-append_less : (m : ℕ) (xs ys : Bytes) → m ≤ length xs → take m (xs ++ ys) ≡ take m xs
take-append_less zero xs ys h = refl
take-append_less (suc m) [] ys h = elim h [ ]
take-append_less (suc m) (x ∷ xs) ys h = ap (λ t. x ∷ t) (take-append_less m xs ys (omega arith))

take_none : (m : ℕ) (xs : Bytes) → m ≡ 0 → take m xs ≡ []
take_none zero xs h = refl
take_none (suc m) xs h = absurd (omega arith)

-- A text cut at any byte is read as `fit` says.
pub from_utf8_lossy-take :
    (m : ℕ) (s : Text) → All IsScalar s → from_utf8_lossy (take m (as_bytes s)) ≡ fit m s
unfolding from_utf8_lossy as_bytes fit
from_utf8_lossy-take zero [] h = refl
from_utf8_lossy-take (suc m) [] h = refl
from_utf8_lossy-take m (c ∷ s) (hc, hs) = elim (dec_le (length (encode c)) m) [
  | yes fits ↦
      rw (take-append_more m (encode c) (as_bytes s) fits) (
        decode-encode c _ hc
        ∙ rw (from_utf8_lossy-take (m - length (encode c)) s hs) (ground arith))
  | no cut ↦ elim (dec_lt 0 m) [
    | yes pos ↦
        rw (take-append_less m (encode c) (as_bytes s) (omega arith))
          (decode-encode_cut c m hc pos (omega arith) ∙ ground arith)
    | no empty ↦
        ap from_utf8_lossy (take_none m (encode c ++ as_bytes s) (omega arith)) ∙ ground arith
  ]
]

-- A text that fits is kept whole.
pub fit-all : (m : ℕ) (s : Text) → length (as_bytes s) ≤ m → fit m s ≡ s
unfolding fit as_bytes
fit-all m [] h = refl
fit-all m (c ∷ s) h =
    ground (arith, length-append (encode c) (as_bytes s), fit-all (m - length (encode c)) s)

abbrev NonZero : ℕ → Type 0
NonZero c = 0 < c

encode-NonZero : (c : ℕ) → 0 < c → All NonZero (encode c)
encode-NonZero c h =
    by_width (All NonZero) c (λ one. omega arith) (λ _ _. omega arith) (λ _ _. omega arith)
      (λ _. omega arith)

encode-IsByte : (c : ℕ) → IsScalar c → All IsByte (encode c)
encode-IsByte c h =
    by_width (All IsByte) c (λ one. omega arith) (λ lo hi. omega arith) (λ lo hi. omega arith)
      (λ lo. omega (arith, IsScalar-lt c h))

-- A text is encoded as bytes.
pub as_bytes-IsByte : (s : Text) → All IsScalar s → All IsByte (as_bytes s)
unfolding as_bytes
as_bytes-IsByte [] h = tt
as_bytes-IsByte (c ∷ s) (hc, hs) =
    All-append IsByte (encode c) (as_bytes s) (encode-IsByte c hc) (as_bytes-IsByte s hs)

-- A text without NUL has no zero byte.
pub as_bytes-NonZero : (s : Text) → All (λ (c : ℕ). 0 < c) s → All (λ (c : ℕ). 0 < c) (as_bytes s)
unfolding as_bytes
as_bytes-NonZero [] h = tt
as_bytes-NonZero (c ∷ s) (hc, hs) =
    All-append _ (encode c) (as_bytes s) (encode-NonZero c hc) (as_bytes-NonZero s hs)

-- What a pending sequence still can give is a scalar value.
abbrev Fits : Pending → Type 0
Fits idle = Unit
Fits (more lo hi zero acc) =
    (0x80 ≤ lo) × (hi ≤ 0xbf) × ((acc < 864) ⊎ ((896 ≤ acc) × (acc < 17408)))
Fits (more lo hi (suc zero) acc) =
    (0x80 ≤ lo)
    × (hi ≤ 0xbf)
    × ((acc < 13) ⊎ ((acc ≡ 13) × (hi ≤ 0x9f)) ⊎ ((14 ≤ acc) × (acc < 272)))
Fits (more lo hi (suc (suc left)) acc) =
    (left ≡ 0)
    × (0x80 ≤ lo)
    × (hi ≤ 0xbf)
    × (((1 ≤ acc) × (acc < 4)) ⊎ ((acc ≡ 0) × (0x90 ≤ lo)) ⊎ ((acc ≡ 4) × (hi ≤ 0x8f)))

start-Fits : (b : ℕ) → All IsScalar (feed idle b).0 × Fits (feed idle b).1
unfolding feed
start-Fits b = ground arith

feed-Fits : (st : Pending) (b : ℕ) → Fits st → All IsScalar (feed st b).0 × Fits (feed st b).1
unfolding feed
feed-Fits idle b h = start-Fits b
feed-Fits (more lo hi zero acc) b h = ground (arith, start-Fits b)
feed-Fits (more lo hi (suc zero) acc) b h = ground (arith, start-Fits b)
feed-Fits (more lo hi (suc (suc left)) acc) b h = ground (arith, start-Fits b)

decode-IsScalar : (bs : Bytes) (st : Pending) → Fits st → All IsScalar (decode st bs)
unfolding decode
decode-IsScalar [] idle h = tt
decode-IsScalar [] (more lo hi left acc) h = omega arith
decode-IsScalar (b ∷ bs) idle h =
    All-append IsScalar _ _ (feed-Fits idle b h).0
      (decode-IsScalar bs (feed idle b).1 (feed-Fits idle b h).1)
decode-IsScalar (b ∷ bs) (more lo hi left acc) h =
    All-append IsScalar _ _ (feed-Fits (more lo hi left acc) b h).0
      (decode-IsScalar bs (feed (more lo hi left acc) b).1 (feed-Fits (more lo hi left acc) b h).1)

-- Whatever the bytes are, the result is a text.
pub from_utf8_lossy-IsScalar : (bs : Bytes) → All IsScalar (from_utf8_lossy bs)
unfolding from_utf8_lossy
from_utf8_lossy-IsScalar bs = decode-IsScalar bs idle tt
