-- ===== src/Text/Format.antt =====
-- Numbers as text: decimal `Display`, the sign of an `i32` kept as its bit pattern, the `Debug`
-- form of a byte array, and `str::parse::<u32>`.
use native.Mathlib.Decide.{dec_lt}
use native.Mathlib.Nat.{pow-suc}
use swupdate_rs.Common.{
  ℕ, zero, suc, ◌+◌, ◌-◌, ◌*◌, ◌/◌, ◌%◌, ◌^◌, ◌≤◌, ◌<◌, ◌≡◌, refl, ap, ◌∙◌, ◌&&◌, Bool, Option,
  none, some, [], ◌∷◌, ◌++◌, Bytes, All, All-append, ◌≢◌, ltb, leb, ◌==◌, if◌then◌else◌, arith,
}
use swupdate_rs.Text.{Text, codes}

-- The decimal digits of a number below 10 ^ fuel.
unfoldable pub digits : ℕ → ℕ → Text
digits zero n = []
digits (suc f) n =
    let rest = digits f (n / 10) in
    if ltb n 10 then (b'0' + n) ∷ [] else rest ++ (b'0' + n % 10) ∷ []

-- `format!("{n}")` of a u32 or u64: at most 20 digits
unfoldable pub display : ℕ → Text
unfolding digits
display n = digits 20 n

-- `format!("{n}")` of an i32
unfoldable pub display_i32 : ℕ → Text
unfolding display
display_i32 v = if ltb v (2 ^ 31) then display v else b'-' ∷ display (2 ^ 32 - v)

items : Text → Bytes → Text
unfolding display
items sep [] = []
items sep (b ∷ bs) = sep ++ display b ++ items (codes ", ") bs

-- `format!("{:?}")` of a byte array
unfoldable pub debug_bytes : Bytes → Text
unfolding items
debug_bytes bs = codes "[" ++ items [] bs ++ codes "]"

abbrev pub is_digit : ℕ → Bool
is_digit c = leb b'0' c && leb c b'9'

-- The loop of `u32::from_str`, with its checked multiplication and addition.
unfoldable pub parse_digits : ℕ → Text → Option ℕ
parse_digits acc [] = some acc
parse_digits acc (c ∷ cs) =
    let acc' = acc * 10 + (c - b'0') in
    let rest = parse_digits acc' cs in if is_digit c && ltb acc' (2 ^ 32) then rest else none

-- `s.parse::<u32>().ok()`: an optional plus sign and at least one digit
unfoldable pub parse_u32 : Text → Option ℕ
unfolding parse_digits
parse_u32 [] = none
parse_u32 (c ∷ []) = parse_digits 0 (c ∷ [])
parse_u32 (c ∷ d ∷ s) = if c == b'+' then parse_digits 0 (d ∷ s) else parse_digits 0 (c ∷ d ∷ s)

-- A run of digits, read from an accumulator.
parse_digits-append :
    (acc : ℕ) (xs : Text) (d v : ℕ)
    → parse_digits acc xs ≡ some v
    → d < 10
    → v * 10 + d < 2 ^ 32
    → parse_digits acc (xs ++ (b'0' + d) ∷ []) ≡ some (v * 10 + d)
unfolding parse_digits
parse_digits-append acc [] d v e hd hv = ground arith
parse_digits-append acc (x ∷ xs) d v e hd hv =
    ground (arith, parse_digits-append (acc * 10 + (x - b'0')) xs d v)

digits_small : (f n : ℕ) → n < 10 → digits (suc f) n ≡ (b'0' + n) ∷ []
unfolding digits
digits_small f n h = ground arith

digits_large : (f n : ℕ) → 10 ≤ n → digits (suc f) n ≡ digits f (n / 10) ++ (b'0' + n % 10) ∷ []
unfolding digits
digits_large f n h = ground arith

pub parse_digits-digits :
    (f n : ℕ) → n < 10 ^ f → 0 < f → n < 2 ^ 32 → parse_digits 0 (digits f n) ≡ some n
parse_digits-digits zero n h pos hn = absurd (omega arith)
parse_digits-digits (suc f) n h pos hn = elim (dec_lt n 10) [
  | yes small ↦ rw (digits_small f n small) (unfold parse_digits in ground arith)
  | no large ↦ rw (digits_large f n (omega arith)) (
      parse_digits-append 0 (digits f (n / 10)) (n % 10) (n / 10)
        (parse_digits-digits f (n / 10) (tenth_fits f n h) (fuel_left f n h (omega arith))
          (omega arith))
        (omega arith) (omega arith)
      ∙ ap some (omega arith))
]
  where
    tenth_fits : (f n : ℕ) → n < 10 ^ suc f → n / 10 < 10 ^ f
    tenth_fits f n h = omega (arith, pow-suc 10 f)

    fuel_left : (f n : ℕ) → n < 10 ^ suc f → 10 ≤ n → 0 < f
    fuel_left zero n h k = absurd (omega arith)
    fuel_left (suc f) n h k = omega arith

abbrev pub IsDigit : ℕ → Type 0
IsDigit c = (b'0' ≤ c) × (c ≤ b'9')

digits-IsDigit : (f n : ℕ) → All IsDigit (digits f n)
digits-IsDigit zero n = unfold digits in tt
digits-IsDigit (suc f) n = elim (dec_lt n 10) [
  | yes small ↦ rw (digits_small f n small) (omega arith)
  | no large ↦
      rw (digits_large f n (omega arith))
        (All-append IsDigit _ _ (digits-IsDigit f (n / 10)) (omega arith))
]

pub display-IsDigit : (n : ℕ) → All IsDigit (display n)
unfolding display
display-IsDigit n = digits-IsDigit 20 n

parse_u32-digits_text :
    (s : Text) {v : ℕ} → All IsDigit s → s ≢ [] → parse_digits 0 s ≡ some v → parse_u32 s ≡ some v
unfolding parse_u32
parse_u32-digits_text [] h ne e = absurd (ne refl)
parse_u32-digits_text (c ∷ []) h ne e = e
parse_u32-digits_text (c ∷ d ∷ s) h ne e = ground arith

pub display-ne-nil : (n : ℕ) → display n ≢ []
unfolding display
display-ne-nil n = ground arith

-- A printed u32 is parsed back.
pub parse_u32-display : (n : ℕ) → n < 2 ^ 32 → parse_u32 (display n) ≡ some n
unfolding display
parse_u32-display n h =
    parse_u32-digits_text _ (digits-IsDigit 20 n) (display-ne-nil n)
      (parse_digits-digits 20 n (omega arith) (omega arith) h)
