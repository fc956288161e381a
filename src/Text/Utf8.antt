-- ===== src/Text/Utf8.antt =====
-- The lossy decoder reads back what the encoder wrote, whole or cut.
use swupdate_rs.Common.{
  ℕ, zero, suc, ◌+◌, ◌*◌, ◌/◌, ◌%◌, ◌≤◌, ◌<◌, ◌≡◌, refl, ap, ◌∙◌, inl, inr, [], ◌∷◌, ◌++◌, Bytes,
  length, take, arith,
}
use native.Mathlib.Decide.{dec_lt}
use swupdate_rs.Text.{Text, IsScalar, encode, replacement, Pending, idle, more, start, feed, decode}

-- One byte in the middle of a sequence, and the last one.
last_byte :
    (acc x : ℕ) → x < 64 → feed (more 0x80 0xbf 0 acc) (0x80 + x) ≡ ((acc * 64 + x) ∷ [], idle)
unfolding feed
last_byte acc x h = ground arith

middle_byte :
    (acc x : ℕ)
    → x < 64
    → feed (more 0x80 0xbf 1 acc) (0x80 + x) ≡ ([], more 0x80 0xbf 0 (acc * 64 + x))
unfolding feed
middle_byte acc x h = ground arith

start_one : (c : ℕ) → c < 0x80 → feed idle c ≡ (c ∷ [], idle)
unfolding feed
start_one c h = ground arith

start_two : (c : ℕ) → 0x80 ≤ c → c < 0x800 → start (0xc0 + c / 64) ≡ ([], more 0x80 0xbf 0 (c / 64))
unfolding start
start_two c lo hi = ground arith

-- The lead byte of three, with the range that it asks of the second.
abbrev second_of_three : ℕ → Pending
second_of_three c = (start (0xe0 + c / 4096)).1

start_three : (c : ℕ) → 0x800 ≤ c → c < 0x10000 → start (0xe0 + c / 4096) ≡ ([], second_of_three c)
unfolding start
start_three c lo hi = ground arith

feed_three :
    (c : ℕ)
    → 0x800 ≤ c
    → c < 0x10000
    → IsScalar c
    → feed (second_of_three c) (0x80 + c / 64 % 64) ≡ ([], more 0x80 0xbf 0 (c / 64))
unfolding feed
feed_three c lo hi (inl h) = ground arith
feed_three c lo hi (inr h) = ground arith

abbrev second_of_four : ℕ → Pending
second_of_four c = (start (0xf0 + c / 262144)).1

start_four :
    (c : ℕ) → 0x10000 ≤ c → c < 0x110000 → start (0xf0 + c / 262144) ≡ ([], second_of_four c)
unfolding start
start_four c lo hi = ground arith

feed_four :
    (c : ℕ)
    → 0x10000 ≤ c
    → c < 0x110000
    → feed (second_of_four c) (0x80 + c / 4096 % 64) ≡ ([], more 0x80 0xbf 1 (c / 4096))
unfolding feed
feed_four c lo hi = ground arith

decode_step :
    (st : Pending) (b : ℕ) (bs : Bytes) {out : Text} {st' : Pending}
    → feed st b ≡ (out, st')
    → decode st (b ∷ bs) ≡ out ++ decode st' bs
unfolding decode
decode_step idle b bs e = rw e
decode_step (more lo hi left acc) b bs e = rw e

abbrev pub two_bytes : ℕ → Bytes
two_bytes c = (0xc0 + c / 64) ∷ (0x80 + c % 64) ∷ []

abbrev pub three_bytes : ℕ → Bytes
three_bytes c = (0xe0 + c / 4096) ∷ (0x80 + c / 64 % 64) ∷ (0x80 + c % 64) ∷ []

abbrev pub four_bytes : ℕ → Bytes
four_bytes c =
    (0xf0 + c / 262144) ∷ (0x80 + c / 4096 % 64) ∷ (0x80 + c / 64 % 64) ∷ (0x80 + c % 64) ∷ []

encode_one : (c : ℕ) → c < 0x80 → encode c ≡ c ∷ []
unfolding encode
encode_one c h = ground arith

encode_two : (c : ℕ) → 0x80 ≤ c → c < 0x800 → encode c ≡ two_bytes c
unfolding encode
encode_two c lo hi = ground arith

encode_three : (c : ℕ) → 0x800 ≤ c → c < 0x10000 → encode c ≡ three_bytes c
unfolding encode
encode_three c lo hi = ground arith

encode_four : (c : ℕ) → 0x10000 ≤ c → encode c ≡ four_bytes c
unfolding encode
encode_four c lo = ground arith

-- A property of the encodings is shown for each of the four widths.
pub by_width :
    (P : Bytes → Type 0) (c : ℕ)
    → (c < 0x80 → P (c ∷ []))
    → (0x80 ≤ c → c < 0x800 → P (two_bytes c))
    → (0x800 ≤ c → c < 0x10000 → P (three_bytes c))
    → (0x10000 ≤ c → P (four_bytes c))
    → P (encode c)
by_width P c one two three four = elim (dec_lt c 0x80) [
  | yes h ↦ rw (encode_one c h) (one h)
  | no h1 ↦ elim (dec_lt c 0x800) [
    | yes h ↦ rw (encode_two c (omega arith) h) (two (omega arith) h)
    | no h2 ↦ elim (dec_lt c 0x10000) [
      | yes h ↦ rw (encode_three c (omega arith) h) (three (omega arith) h)
      | no h3 ↦ rw (encode_four c (omega arith)) (four (omega arith))
    ]
  ]
]

split_two : (c : ℕ) → c / 64 * 64 + c % 64 ≡ c
split_two c = omega arith

split_three : (c : ℕ) → c / 4096 * 64 + c / 64 % 64 ≡ c / 64
split_three c = omega arith

pub IsScalar-lt : (c : ℕ) → IsScalar c → c < 0x110000
IsScalar-lt c (inl h) = omega arith
IsScalar-lt c (inr h) = omega arith

-- The decoder behind the bytes that have arrived of a character.
two_lead :
    (c : ℕ) (rest : Bytes)
    → 0x80 ≤ c
    → c < 0x800
    → decode idle ((0xc0 + c / 64) ∷ rest) ≡ decode (more 0x80 0xbf 0 (c / 64)) rest
unfolding feed
two_lead c rest lo hi = decode_step idle _ rest (start_two c lo hi)

last_lead :
    (c : ℕ) (rest : Bytes)
    → decode (more 0x80 0xbf 0 (c / 64)) ((0x80 + c % 64) ∷ rest) ≡ c ∷ decode idle rest
last_lead c rest =
    decode_step (more 0x80 0xbf 0 (c / 64)) _ rest (last_byte (c / 64) (c % 64) (omega arith))
    ∙ ap (λ t. t ∷ decode idle rest) (split_two c)

three_lead :
    (c : ℕ) (rest : Bytes)
    → 0x800 ≤ c
    → c < 0x10000
    → decode idle ((0xe0 + c / 4096) ∷ rest) ≡ decode (second_of_three c) rest
unfolding feed
three_lead c rest lo hi = decode_step idle _ rest (start_three c lo hi)

three_second :
    (c : ℕ) (rest : Bytes)
    → 0x800 ≤ c
    → c < 0x10000
    → IsScalar c
    → decode (second_of_three c) ((0x80 + c / 64 % 64) ∷ rest)
      ≡ decode (more 0x80 0xbf 0 (c / 64)) rest
three_second c rest lo hi h = decode_step (second_of_three c) _ rest (feed_three c lo hi h)

four_lead :
    (c : ℕ) (rest : Bytes)
    → 0x10000 ≤ c
    → c < 0x110000
    → decode idle ((0xf0 + c / 262144) ∷ rest) ≡ decode (second_of_four c) rest
unfolding feed
four_lead c rest lo hi = decode_step idle _ rest (start_four c lo hi)

four_second :
    (c : ℕ) (rest : Bytes)
    → 0x10000 ≤ c
    → c < 0x110000
    → decode (second_of_four c) ((0x80 + c / 4096 % 64) ∷ rest)
      ≡ decode (more 0x80 0xbf 1 (c / 4096)) rest
four_second c rest lo hi = decode_step (second_of_four c) _ rest (feed_four c lo hi)

four_third :
    (c : ℕ) (rest : Bytes)
    → decode (more 0x80 0xbf 1 (c / 4096)) ((0x80 + c / 64 % 64) ∷ rest)
      ≡ decode (more 0x80 0xbf 0 (c / 64)) rest
four_third c rest =
    decode_step (more 0x80 0xbf 1 (c / 4096)) _ rest
      (middle_byte (c / 4096) (c / 64 % 64) (omega arith))
    ∙ ap (λ t. decode (more 0x80 0xbf 0 t) rest) (split_three c)

-- A whole character is read back, whatever follows.
pub decode-encode :
    (c : ℕ) (rest : Bytes) → IsScalar c → decode idle (encode c ++ rest) ≡ c ∷ decode idle rest
decode-encode c rest h =
    by_width (λ bs. decode idle (bs ++ rest) ≡ c ∷ decode idle rest) c
      (λ one. decode_step idle c rest (start_one c one))
      (λ lo hi. two_lead c _ lo hi ∙ last_lead c rest)
      (λ lo hi. three_lead c _ lo hi ∙ three_second c _ lo hi h ∙ last_lead c rest)
      (λ lo.
        four_lead c _ lo (IsScalar-lt c h)
        ∙ four_second c _ lo (IsScalar-lt c h)
        ∙ four_third c _
        ∙ last_lead c rest)

three_open : (c : ℕ) → 0x800 ≤ c → c < 0x10000 → decode (second_of_three c) [] ≡ replacement ∷ []
unfolding decode
three_open c lo hi = ground arith

four_open : (c : ℕ) → 0x10000 ≤ c → c < 0x110000 → decode (second_of_four c) [] ≡ replacement ∷ []
unfolding decode
four_open c lo hi = ground arith

last_open : (acc left : ℕ) → decode (more 0x80 0xbf left acc) [] ≡ replacement ∷ []
unfolding decode
last_open acc left = refl

-- A character that is cut behind its first byte or later is read as one replacement.
pub decode-encode_cut :
    (c m : ℕ)
    → IsScalar c
    → 0 < m
    → m < length (encode c)
    → decode idle (take m (encode c)) ≡ replacement ∷ []
decode-encode_cut c m h pos short =
    by_width (λ bs. m < length bs → decode idle (take m bs) ≡ replacement ∷ []) c
      (λ one. cut_one m pos) (λ lo hi. cut_two m lo hi pos) (λ lo hi. cut_three m lo hi pos)
      (λ lo. cut_four m lo pos) short
  where
    cut_one : (m : ℕ) → 0 < m → m < 1 → decode idle (take m (c ∷ [])) ≡ replacement ∷ []
    cut_one m pos lt = absurd (omega arith)

    cut_two :
        (m : ℕ)
        → 0x80 ≤ c
        → c < 0x800
        → 0 < m
        → m < 2
        → decode idle (take m (two_bytes c)) ≡ replacement ∷ []
    cut_two zero lo hi pos lt = absurd (omega arith)
    cut_two (suc zero) lo hi pos lt = two_lead c [] lo hi ∙ last_open _ _
    cut_two (suc (suc m)) lo hi pos lt = absurd (omega arith)

    cut_three :
        (m : ℕ)
        → 0x800 ≤ c
        → c < 0x10000
        → 0 < m
        → m < 3
        → decode idle (take m (three_bytes c)) ≡ replacement ∷ []
    cut_three zero lo hi pos lt = absurd (omega arith)
    cut_three (suc zero) lo hi pos lt = three_lead c [] lo hi ∙ three_open c lo hi
    cut_three (suc (suc zero)) lo hi pos lt =
        three_lead c _ lo hi ∙ three_second c [] lo hi h ∙ last_open _ _
    cut_three (suc (suc (suc m))) lo hi pos lt = absurd (omega arith)

    cut_four :
        (m : ℕ)
        → 0x10000 ≤ c
        → 0 < m
        → m < 4
        → decode idle (take m (four_bytes c)) ≡ replacement ∷ []
    cut_four zero lo pos lt = absurd (omega arith)
    cut_four (suc zero) lo pos lt =
        four_lead c [] lo (IsScalar-lt c h) ∙ four_open c lo (IsScalar-lt c h)
    cut_four (suc (suc zero)) lo pos lt =
        four_lead c _ lo (IsScalar-lt c h) ∙ four_second c [] lo (IsScalar-lt c h) ∙ last_open _ _
    cut_four (suc (suc (suc zero))) lo pos lt =
        four_lead c _ lo (IsScalar-lt c h)
        ∙ four_second c _ lo (IsScalar-lt c h)
        ∙ four_third c []
        ∙ last_open _ _
    cut_four (suc (suc (suc (suc m)))) lo pos lt = absurd (omega arith)
