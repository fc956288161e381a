-- ===== src/Progress/Version/Roundtrip.antt =====
-- Printed versions are parsed back.
use swupdate_rs.Text.Lossy.{from_utf8_lossy-as_bytes}
use swupdate_rs.Runtime.{Runtime}
use swupdate_rs.Text.Format.{IsDigit, display, display-IsDigit, parse_u32-display}
use swupdate_rs.Common.{
  ℕ, ◌≡◌, refl, Bool, true, false, [], ◌∷◌, ◌++◌, All, List, ◌<◌, All-append, arith, append-nil,
  ◌^◌, some, ◌==◌, ◌∙◌, Option, Bytes, ap, ◌↔◌, ◌⊎◌, ◌≤◌,
}
use swupdate_rs.Text.{Text, codes, as_bytes, from_utf8_lossy}
use swupdate_rs.Text.{IsScalar}
use swupdate_rs.Wire.Constants.{packed}
use swupdate_rs.Progress.Version.{
  split, is_whitespace, parse_part, has_dot, parse_swupdate_version, is_version_part, layout_of,
  find_version_part, detect_layout,
}

-- Whole words stay whole.
pub split-word :
    (p : ℕ → Bool) (word : Text) → All (λ (c : ℕ). p c ≡ false) word → split p word ≡ word ∷ []
unfolding split
split-word p [] h = refl
split-word p (c ∷ s) (hc, hs) = rw hc (rw (split-word p s hs))

pub split-separator :
    (p : ℕ → Bool) (word : Text) (c : ℕ) (rest : Text)
    → All (λ (c : ℕ). p c ≡ false) word
    → p c ≡ true
    → split p (word ++ (c ∷ rest)) ≡ word ∷ split p rest
unfolding split
split-separator p [] c rest h e = rw e
split-separator p (x ∷ word) c rest (hx, h) e = rw hx (rw (split-separator p word c rest h e))

-- A text that goes on with a separator, or ends.
abbrev pub Ends : (ℕ → Bool) → Text → Type 0
Ends p [] = Unit {0}
Ends p (c ∷ rest) = p c ≡ true

pub split-Ends :
    (p : ℕ → Bool) (word rest : Text)
    → All (λ (c : ℕ). p c ≡ false) word
    → Ends p rest
    → (words : List Text) × (split p (word ++ rest) ≡ word ∷ words)
split-Ends p word [] h e = ([], rw append-nil (split-word p word h))
split-Ends p word (c ∷ rest) h e = (split p rest, split-separator p word c rest h e)

abbrev pub is_dot : ℕ → Bool
is_dot d = d == b'.'

digits-no_space : (s : Text) → All IsDigit s → All (λ (c : ℕ). is_whitespace c ≡ false) s
unfolding is_whitespace
digits-no_space [] h = tt
digits-no_space (c ∷ s) (hc, hs) = (ground arith, digits-no_space s hs)

digits-no_dot : (s : Text) → All IsDigit s → All (λ (c : ℕ). is_dot c ≡ false) s
digits-no_dot [] h = tt
digits-no_dot (c ∷ s) (hc, hs) = (ground arith, digits-no_dot s hs)

has_dot-append : (xs ys : Text) → has_dot (xs ++ (b'.' ∷ ys)) ≡ true
unfolding has_dot
has_dot-append [] ys = refl
has_dot-append (x ∷ xs) ys = ground (arith, has_dot-append xs ys)

-- `v`, the year, a dot, the month, and what follows in the same word.
abbrev pub version_word : (year month : ℕ) → Text → Text
version_word year month patch = b'v' ∷ (display year ++ (b'.' ∷ (display month ++ patch)))

-- What `swupdate --version` prints.
abbrev pub version_line : (year month : ℕ) (patch rest : Text) → Text
version_line year month patch rest = codes "SWUpdate " ++ (version_word year month patch ++ rest)

version_word-parts :
    (year month : ℕ) (patch : Text)
    → year < 2 ^ 32
    → month < 2 ^ 32
    → Ends is_dot patch
    → parse_part (some (version_word year month patch)) ≡ some (year, month)
unfolding parse_part
version_word-parts year month patch hy hm e =
    let (others, q) =
      split-Ends is_dot (display month) patch (digits-no_dot _ (display-IsDigit month)) e in
    rw
      (split-separator is_dot (display year) b'.' (display month ++ patch)
        (digits-no_dot _ (display-IsDigit year)) refl)
      (rw q (rw (parse_u32-display year hy) (rw (parse_u32-display month hm))))

version_word-no_space :
    (year month : ℕ) (patch : Text)
    → All (λ (c : ℕ). is_whitespace c ≡ false) patch
    → All (λ (c : ℕ). is_whitespace c ≡ false) (version_word year month patch)
unfolding is_whitespace
version_word-no_space year month patch h = (
  refl,
  All-append _ (display year) _ (digits-no_space _ (display-IsDigit year))
      (refl, All-append _ (display month) patch (digits-no_space _ (display-IsDigit month)) h),
)

version_word-IsVersionPart :
    (year month : ℕ) (patch : Text) → is_version_part (version_word year month patch) ≡ true
unfolding is_version_part
version_word-IsVersionPart year month patch =
    ground (arith, has_dot-append (display year) (display month ++ patch))

program_name :
    (rest : Text)
    → split is_whitespace (codes "SWUpdate " ++ rest) ≡ codes "SWUpdate" ∷ split is_whitespace rest
unfolding is_whitespace split
program_name rest = refl

parse_steps :
    (s : Text) → parse_swupdate_version s ≡ parse_part (find_version_part (split is_whitespace s))
unfolding parse_swupdate_version
parse_steps s = refl

find_word :
    (word : Text) (words : List Text)
    → is_version_part word ≡ true
    → find_version_part (codes "SWUpdate" ∷ (word ∷ words)) ≡ some word
unfolding find_version_part is_version_part
find_word word words h = rw h

-- A line `SWUpdate vYEAR.MONTH` of u32 numbers, with a patch level that holds no space or without,
-- at the end of the output or before a space, is parsed to its year and month.
pub parse_swupdate_version-version_line :
    (year month : ℕ) (patch rest : Text)
    → year < 2 ^ 32
    → month < 2 ^ 32
    → Ends is_dot patch
    → All (λ (c : ℕ). is_whitespace c ≡ false) patch
    → Ends is_whitespace rest
    → parse_swupdate_version (version_line year month patch rest) ≡ some (year, month)
parse_swupdate_version-version_line year month patch rest hy hm hp hs hr =
    let word : Text = version_word year month patch in
    let (words, q) =
      split-Ends is_whitespace word rest (version_word-no_space year month patch hs) hr in
    parse_steps (version_line year month patch rest)
    ∙ ap (λ ws. parse_part (find_version_part ws))
        (program_name (word ++ rest) ∙ ap (λ t. codes "SWUpdate" ∷ t) q)
    ∙ ap parse_part (find_word word words (version_word-IsVersionPart year month patch))
    ∙ version_word-parts year month patch hy hm hp

detected :
    (R : Runtime) (w w' : R.World) (stdout : Bytes)
    → R.version_output w ≡ (some stdout, w')
    → (detect_layout R w).0 ≡ layout_of (parse_swupdate_version (from_utf8_lossy stdout))
unfolding detect_layout
detected R w w' stdout e = rw e

layout_of_lem :
    (year month : ℕ) (v : Option (ℕ × ℕ))
    → v ≡ some (year, month)
    → (layout_of v ≡ packed) ↔ ((2025 < year) ⊎ ((year ≡ 2025) × (12 ≤ month)))
unfolding layout_of
layout_of_lem year month v e = rw e (ground arith)

-- Where `swupdate --version` prints a line with a version of u32 numbers, with a patch level or
-- without, at the end of the output or before a space, the layout is packed exactly from 2025.12
-- on.
pub detect_layout-version_line :
    (R : Runtime) (w w' : R.World) (year month : ℕ) (patch rest : Text)
    → year < 2 ^ 32
    → month < 2 ^ 32
    → Ends is_dot patch
    → All (λ (c : ℕ). is_whitespace c ≡ false) patch
    → Ends is_whitespace rest
    → All IsScalar (version_line year month patch rest)
    → R.version_output w ≡ (some (as_bytes (version_line year month patch rest)), w')
    → ((detect_layout R w).0 ≡ packed) ↔ ((2025 < year) ⊎ ((year ≡ 2025) × (12 ≤ month)))
detect_layout-version_line R w w' year month patch rest hy hm hp hs hr scalars out =
    rw (detected R w w' _ out) (
      layout_of_lem year month _ (
        ap parse_swupdate_version (from_utf8_lossy-as_bytes _ scalars)
        ∙ parse_swupdate_version-version_line year month patch rest hy hm hp hs hr))
