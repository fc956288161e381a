-- ===== src/Progress/Version/Reads.antt =====
-- src/progress.rs: what `parse_swupdate_version` reads, against a description of the output.
use mathlib.Core.Path.{subst}
use swupdate_rs.Common.{
  ℕ, ◌≡◌, ◌↔◌, ◌<◌, ◌⊎◌, ◌≢◌, refl, sym, ap, ◌∙◌, true, Option, none, some, [], ◌∷◌, ◌++◌,
  Bool-cases, inl, inr, ◌==◌, arith, ==_iff, append-nil,
}
use swupdate_rs.Text.{Text}
use swupdate_rs.Text.Format.{parse_u32}
use swupdate_rs.Runtime.{Runtime}
use swupdate_rs.Wire.Constants.{unpacked}
use swupdate_rs.Progress.Version.{
  split, is_whitespace, find_version_part, parse_part, year_and_month, numbers,
  parse_swupdate_version, detect_layout, layout_of, version_text,
}
use swupdate_rs.Progress.Version.Roundtrip.{Ends, is_dot, split-separator, split-Ends}
use swupdate_rs.Progress.Version.Words.{
  Without, Pieces, whole, cut, pieces, FirstPart, find_version_part-FirstPart,
  FirstPart-find_version_part,
}

-- `v`, a year, a dot, a month, and perhaps a dot and more.
pub record Dated (word : Text) (year month : ℕ) : Type 0 where
  pub year_text : Text
  pub month_text : Text
  pub patch : Text
  pub word_is : word ≡ b'v' ∷ (year_text ++ (b'.' ∷ (month_text ++ patch)))
  pub year_whole : Without is_dot year_text
  pub month_whole : Without is_dot month_text
  pub patch_ends : Ends is_dot patch
  pub year_read : parse_u32 year_text ≡ some year
  pub month_read : parse_u32 month_text ≡ some month

-- The first word of the output that begins with `v` and has a dot is dated.
abbrev pub Reads : Text → ℕ → ℕ → Type 0
Reads text year month = (word : Text) × FirstPart text word × Dated word year month

both_read :
    (a b : Option ℕ) (year month : ℕ)
    → numbers a b ≡ some (year, month)
    → (a ≡ some year) × (b ≡ some month)
unfolding numbers
both_read none b year month e = cc
both_read (some a) none year month e = cc
both_read (some a) (some b) year month e = (cc, cc)

dotted : (c : ℕ) → is_dot c ≡ true → c ≡ b'.'
dotted c h = (==_iff c b'.').0 h

month-Pieces :
    (year_text rest : Text) (c year month : ℕ)
    → Without is_dot year_text
    → is_dot c ≡ true
    → Pieces is_dot rest
    → year_and_month (year_text ∷ split is_dot rest) ≡ some (year, month)
    → Dated (b'v' ∷ (year_text ++ (c ∷ rest))) year month
unfolding year_and_month
month-Pieces year_text rest c year month hy dot (whole h q) e =
    let (ry, rm) = both_read (parse_u32 year_text) (parse_u32 rest) year month (rw q at e) in
    record {
      year_text = year_text;
      month_text = rest;
      patch = [];
      word_is = rw (dotted c dot, append-nil) refl;
      year_whole = hy;
      month_whole = h;
      patch_ends = tt;
      year_read = ry;
      month_read = rm;
    }
month-Pieces year_text rest c year month hy dot (cut month_text d patch t h sep q) e =
    let (ry, rm) = both_read (parse_u32 year_text) (parse_u32 month_text) year month (rw q at e) in
    record {
      year_text = year_text;
      month_text = month_text;
      patch = d ∷ patch;
      word_is = rw (dotted c dot, t) refl;
      year_whole = hy;
      month_whole = h;
      patch_ends = sep;
      year_read = ry;
      month_read = rm;
    }

year-Pieces :
    (without_v : Text) (year month : ℕ)
    → Pieces is_dot without_v
    → year_and_month (split is_dot without_v) ≡ some (year, month)
    → Dated (b'v' ∷ without_v) year month
unfolding year_and_month
year-Pieces without_v year month (whole h q) e = cc (rw q at e)
year-Pieces without_v year month (cut year_text c rest t h sep q) e =
    subst (λ s. Dated (b'v' ∷ s) year month) (sym t)
      (month-Pieces year_text rest c year month h sep (pieces is_dot rest) (rw q at e))

parse_part-Dated :
    (word : Text) (year month : ℕ)
    → parse_part (some word) ≡ some (year, month)
    → Dated word year month
unfolding parse_part
parse_part-Dated [] year month e = cc
parse_part-Dated (c ∷ s) year month e = elim (Bool-cases (c == b'v')) [
  | inl v ↦
      subst (λ d. Dated (d ∷ s) year month) (sym ((==_iff c b'v').0 v))
        (year-Pieces s year month (pieces is_dot s) (rw v at e))
  | inr other ↦ cc (rw other at e)
]

Dated-parse_part :
    (word : Text) (year month : ℕ)
    → Dated word year month
    → parse_part (some word) ≡ some (year, month)
unfolding parse_part year_and_month numbers
Dated-parse_part word year month d =
    let (others, q) = split-Ends is_dot d.month_text d.patch d.month_whole d.patch_ends in
    ap (λ t. parse_part (some t)) d.word_is
    ∙ rw (split-separator is_dot d.year_text b'.' (d.month_text ++ d.patch) d.year_whole refl)
        (rw q (rw (d.year_read) (rw (d.month_read) refl)))

no_part : (year month : ℕ) → parse_part none ≢ some (year, month)
unfolding parse_part
no_part year month h = cc

part_found :
    (text : Text) (o : Option Text) (year month : ℕ)
    → find_version_part (split is_whitespace text) ≡ o
    → parse_part o ≡ some (year, month)
    → Reads text year month
part_found text none year month e h = absurd (no_part year month h)
part_found text (some word) year month e h = (
  word,
  find_version_part-FirstPart (split is_whitespace text) text word refl e,
  parse_part-Dated word year month h,
)

-- A version is read in an output exactly if its first word that begins with `v` and has a dot has
-- the year between the two and the month behind, up to a further dot or its end.
pub parse_swupdate_version_iff :
    (text : Text) (year month : ℕ)
    → (parse_swupdate_version text ≡ some (year, month)) ↔ Reads text year month
unfolding parse_swupdate_version
parse_swupdate_version_iff text year month = (
  λ h. part_found text (find_version_part (split is_whitespace text)) year month refl h,
  λ (word, first, dated).
      ap parse_part (FirstPart-find_version_part text word first)
      ∙ Dated-parse_part word year month dated,
)

abbrev pub Before : ℕ → ℕ → Type 0
Before year month = (year < 2025) ⊎ ((year ≡ 2025) × (month < 12))

unpacked_Before :
    (v : Option (ℕ × ℕ))
    → layout_of v ≡ unpacked
    → (year : ℕ) × (month : ℕ) × (v ≡ some (year, month)) × Before year month
unfolding layout_of
unpacked_Before none h = cc
unpacked_Before (some (year, month)) h = (year, month, refl, ground arith)

Before-unpacked : (year month : ℕ) → Before year month → layout_of (some (year, month)) ≡ unpacked
unfolding layout_of
Before-unpacked year month h = ground arith

-- The layout is unpacked exactly if the output of `swupdate --version` (an empty text if the command
-- could not be run) has a version that lies before 2025.12 in its first word that begins with `v`
-- and has a dot: every other output, and none, means the packed layout.
pub detect_layout_iff :
    (R : Runtime) (w : R.World)
    → ((detect_layout R w).0 ≡ unpacked) ↔ (
        (year : ℕ) × (month : ℕ) × Reads (version_text (R.version_output w).0) year month
        × Before year month)
unfolding detect_layout
detect_layout_iff R w =
    let text = version_text (R.version_output w).0 in
    (
      λ h.
          let (year, month, read, before) = unpacked_Before (parse_swupdate_version text) h in
          (year, month, (parse_swupdate_version_iff text year month).0 read, before),
      λ (year, month, reads, before).
          ap layout_of ((parse_swupdate_version_iff text year month).1 reads)
          ∙ Before-unpacked year month before,
    )
