-- ===== src/Progress/Version/Words.antt =====
-- src/progress.rs: the words of the version's output, and the first of them that is a version part.
use mathlib.Core.Path.{subst}
use swupdate_rs.Common.{
  ℕ, ◌≡◌, refl, sym, ap, ◌∙◌, Bool, true, false, Bool-cases, inl, inr, ◌⊎◌, ◌≢◌, some, List, [],
  ◌∷◌, ◌++◌, All, append-nil, append_assoc,
}
use swupdate_rs.Text.{Text}
use swupdate_rs.Progress.Version.{split, is_whitespace, is_version_part, find_version_part}
use swupdate_rs.Progress.Version.Roundtrip.{Ends, split-word, split-separator, split-Ends}

-- None of the characters is a separator.
abbrev pub Without : (ℕ → Bool) → Text → Type 0
Without p s = All (λ (c : ℕ). p c ≡ false) s

-- A text up to its first separator.
pub data Pieces (p : ℕ → Bool) (s : Text) : Type 0 where
  whole : Without p s → split p s ≡ s ∷ [] → Pieces p s
  cut :
      (word : Text) (c : ℕ) (rest : Text)
      → s ≡ word ++ (c ∷ rest)
      → Without p word
      → p c ≡ true
      → split p s ≡ word ∷ split p rest
      → Pieces p s

pub pieces : (p : ℕ → Bool) (s : Text) → Pieces p s
pieces p [] = whole tt (unfold split in refl)
pieces p (x ∷ s) = elim (Bool-cases (p x)) [
  | inl sep ↦ cut [] x s refl tt sep (unfold split in rw sep refl)
  | inr plain ↦ longer (pieces p s) plain
]
  where
    longer : Pieces p s → p x ≡ false → Pieces p (x ∷ s)
    longer (whole h e) plain = whole (plain, h) (split-word p (x ∷ s) (plain, h))
    longer (cut word c rest q h sep e) plain =
        cut (x ∷ word) c rest (ap (λ t. x ∷ t) q) (plain, h) sep
          (ap (λ t. split p (x ∷ t)) q ∙ split-separator p (x ∷ word) c rest (plain, h) sep)

-- Words that are no version parts, each with a whitespace behind it.
pub data Skipped : Text → Type 0 where
  nothing : Skipped []
  skip :
      {before : Text} (word : Text) (c : ℕ) (rest : Text)
      → before ≡ word ++ (c ∷ rest)
      → Without is_whitespace word
      → is_whitespace c ≡ true
      → is_version_part word ≡ false
      → Skipped rest
      → Skipped before

-- The word stands in the text behind words that are no version parts.
pub record FirstPart (text word : Text) : Type 0 where
  pub before : Text
  pub rest : Text
  pub text_is : text ≡ before ++ (word ++ rest)
  pub skipped : Skipped before
  pub one_word : Without is_whitespace word
  pub ends : Ends is_whitespace rest
  pub is_part : is_version_part word ≡ true

found_first :
    (text word : Text)
    → Without is_whitespace word
    → is_version_part word ≡ true
    → (rest : Text) → Ends is_whitespace rest
    → text ≡ word ++ rest
    → FirstPart text word
found_first text word one part rest ends e = record {
  before = [];
  rest = rest;
  text_is = e;
  skipped = nothing;
  one_word = one;
  ends = ends;
  is_part = part;
}

found_later :
    (text first : Text) (c : ℕ) (rest word : Text)
    → text ≡ first ++ (c ∷ rest)
    → Without is_whitespace first
    → is_whitespace c ≡ true
    → is_version_part first ≡ false
    → FirstPart rest word
    → FirstPart text word
found_later text first c rest word e h sep other f = record {
  before = first ++ (c ∷ f.before);
  rest = f.rest;
  text_is =
      e
      ∙ ap (λ t. first ++ (c ∷ t)) f.text_is
      ∙ sym (append_assoc first (c ∷ f.before) (word ++ f.rest));
  skipped = skip first c f.before refl h sep other f.skipped;
  one_word = f.one_word;
  ends = f.ends;
  is_part = f.is_part;
}

none_found : (word : Text) → find_version_part [] ≢ some word
unfolding find_version_part
none_found word h = cc

by-Pieces :
    (text word w : Text) (ws : List Text)
    → Pieces is_whitespace text
    → split is_whitespace text ≡ w ∷ ws
    → (is_version_part w ≡ true) ⊎ (is_version_part w ≡ false)
    → find_version_part (w ∷ ws) ≡ some word
    → ((rest : Text)
        → split is_whitespace rest ≡ ws
        → find_version_part ws ≡ some word
        → FirstPart rest word)
    → FirstPart text word
unfolding find_version_part
by-Pieces text word w ws (whole h q) e (inl part) found later =
    let here : w ≡ word = cc (rw part at found) in
    let all : text ≡ word = cc (e, q, here) in
    found_first text word (subst (Without is_whitespace) all h)
      (subst (λ t. is_version_part t ≡ true) here part) [] tt (all ∙ sym (append-nil word))
by-Pieces text word w ws (whole h q) e (inr other) found later =
    let nothing_left : ws ≡ [] = cc (e, q) in
    let found' : find_version_part ws ≡ some word = rw other at found in
    absurd (none_found word (subst (λ l. find_version_part l ≡ some word) nothing_left found'))
by-Pieces text word w ws (cut first c rest t h sep q) e (inl part) found later =
    let here : w ≡ word = cc (rw part at found) in
    let all : first ≡ word = cc (e, q, here) in
    found_first text word (subst (Without is_whitespace) all h)
      (subst (λ t. is_version_part t ≡ true) here part) (c ∷ rest) sep
      (t ∙ ap (λ f. f ++ (c ∷ rest)) all)
by-Pieces text word w ws (cut first c rest t h sep q) e (inr other) found later =
    let here : first ≡ w = cc (e, q) in
    found_later text first c rest word t h sep
      (subst (λ f. is_version_part f ≡ false) (sym here) other)
      (later rest (cc (e, q)) (rw other at found))

-- The part that is found among the words stands in the text.
pub find_version_part-FirstPart :
    (words : List Text) (text word : Text)
    → split is_whitespace text ≡ words
    → find_version_part words ≡ some word
    → FirstPart text word
find_version_part-FirstPart [] text word e h = absurd (none_found word h)
find_version_part-FirstPart (w ∷ ws) text word e h =
    by-Pieces text word w ws (pieces is_whitespace text) e (Bool-cases (is_version_part w)) h
      (λ rest q found. find_version_part-FirstPart ws rest word q found)

-- Words that are no version parts are passed over.
passed :
    (before tail : Text)
    → Skipped before
    → find_version_part (split is_whitespace (before ++ tail))
      ≡ find_version_part (split is_whitespace tail)
unfolding find_version_part
passed [] tail nothing = refl
passed before tail (skip word c rest e h sep other more) =
    ap (λ t. find_version_part (split is_whitespace (t ++ tail))) e
    ∙ ap (λ t. find_version_part (split is_whitespace t)) (append_assoc word (c ∷ rest) tail)
    ∙ ap find_version_part (split-separator is_whitespace word c (rest ++ tail) h sep)
    ∙ rw other (passed rest tail more)

pub FirstPart-find_version_part :
    (text word : Text)
    → FirstPart text word
    → find_version_part (split is_whitespace text) ≡ some word
unfolding find_version_part
FirstPart-find_version_part text word f =
    let (words, q) = split-Ends is_whitespace word f.rest f.one_word f.ends in
    ap (λ t. find_version_part (split is_whitespace t)) f.text_is
    ∙ passed f.before (word ++ f.rest) f.skipped
    ∙ ap find_version_part q
    ∙ rw (f.is_part) refl
