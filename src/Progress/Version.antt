-- ===== src/Progress/Version.antt =====
-- src/progress.rs: `parse_swupdate_version` and `detect_layout`.
pub mod Roundtrip
pub mod Words
pub mod Reads
use swupdate_rs.Common.{
  ℕ, ◌≤◌, Bool, true, false, ◌&&◌, ◌||◌, Option, none, some, List, [], ◌∷◌, Bytes, ltb, leb, ◌==◌,
  if◌then◌else◌,
}
use swupdate_rs.Text.{Text, from_utf8_lossy}
use swupdate_rs.Text.Format.{parse_u32}
use swupdate_rs.Wire.Constants.{ProgressLayout, packed, unpacked}
use swupdate_rs.Runtime.{Runtime}

-- `char::is_whitespace`
unfoldable pub is_whitespace : ℕ → Bool
is_whitespace c =
    (leb 9 c && leb c 13)
    || c == 0x20
    || c == 0x85
    || c == 0xa0
    || c == 0x1680
    || (leb 0x2000 c && leb c 0x200a)
    || c == 0x2028
    || c == 0x2029
    || c == 0x202f
    || c == 0x205f
    || c == 0x3000

abbrev pub onto_first : ℕ → List Text → List Text
onto_first c [] = (c ∷ []) ∷ []
onto_first c (word ∷ words) = (c ∷ word) ∷ words

-- `str::split` on the characters of a test: one piece more than there are separators.
unfoldable pub split : (ℕ → Bool) → Text → List Text
split is_separator [] = [] ∷ []
split is_separator (c ∷ s) =
    let rest = split is_separator s in if is_separator c then [] ∷ rest else onto_first c rest

-- `s.contains('.')`
unfoldable pub has_dot : Text → Bool
has_dot [] = false
has_dot (c ∷ s) = let rest = has_dot s in c == b'.' || rest

-- `s.starts_with('v') && s.contains('.')`
unfoldable pub is_version_part : Text → Bool
unfolding has_dot
is_version_part [] = false
is_version_part (c ∷ s) = c == b'v' && has_dot (c ∷ s)

-- `find` over the pieces of `split_whitespace`, which are those of `split` that are not empty; an
-- empty piece is no version part.
unfoldable pub find_version_part : List Text → Option Text
unfolding is_version_part
find_version_part [] = none
find_version_part (word ∷ words) =
    let rest = find_version_part words in if is_version_part word then some word else rest

-- `year` and `month`, each with its `?`
numbers : Option ℕ → Option ℕ → Option (ℕ × ℕ)
numbers none month = none
numbers (some year) none = none
numbers (some year) (some month) = some (year, month)

year_and_month : List Text → Option (ℕ × ℕ)
unfolding numbers
year_and_month [] = none
year_and_month (year ∷ []) = none
year_and_month (year ∷ month ∷ rest) = numbers (parse_u32 year) (parse_u32 month)

-- `strip_prefix('v')`, and the parts between the dots
parse_part : Option Text → Option (ℕ × ℕ)
unfolding year_and_month split
parse_part none = none
parse_part (some []) = none
parse_part (some (c ∷ without_v)) =
    if c == b'v' then year_and_month (split (λ d. d == b'.') without_v) else none

unfoldable pub parse_swupdate_version : Text → Option (ℕ × ℕ)
unfolding is_whitespace split find_version_part parse_part
parse_swupdate_version output = parse_part (find_version_part (split is_whitespace output))

-- `(year, month) >= (2025, 12)`
abbrev pub at_least_2025_12 : ℕ → ℕ → Bool
at_least_2025_12 year month = ltb 2025 year || (year == 2025 && leb 12 month)

unfoldable pub layout_of : Option (ℕ × ℕ) → ProgressLayout
layout_of none = packed
layout_of (some (year, month)) = if at_least_2025_12 year month then packed else unpacked

-- The output's text, or an empty one if the command could not be run.
unfoldable pub version_text : Option Bytes → Text
version_text none = []
version_text (some stdout) = from_utf8_lossy stdout

module _ (R : Runtime) where
  unfoldable pub detect_layout : R.World → ProgressLayout × R.World
  unfolding parse_swupdate_version layout_of version_text
  detect_layout w =
      let (output, w') = R.version_output w in
      (layout_of (parse_swupdate_version (version_text output)), w')
