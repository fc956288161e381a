-- ===== src/Wire/Message/Texts.antt =====
-- A union variant filled with texts: where the fields lie apart, each of them is seen.
use swupdate_rs.Common.{
  ℕ, ◌+◌, ◌-◌, ◌≤◌, ◌<◌, ◌≡◌, refl, ap, ◌∙◌, List, [], ◌∷◌, ◌++◌, append_assoc, Bytes, All,
  replicate,
}
use swupdate_rs.Text.{Text, IsScalar}
use swupdate_rs.Text.Lossy.{fit}
use swupdate_rs.Wire.Layout.{Slot}
use swupdate_rs.Wire.Message.{read_cstr_at}
use swupdate_rs.Wire.Message.Edits.{Edit, cstr, perform_all, Clear, read_cstr_at-perform_all}

-- A Rust text without NUL.
abbrev pub IsName : Text → Type 0
IsName s = All IsScalar s × All (λ (c : ℕ). 0 < c) s

abbrev pub texts : List (Slot × Text) → List Edit
texts [] = []
texts ((s, text) ∷ fields) = cstr s text ∷ texts fields

-- Each field lies inside and apart from the others, those already written included.
abbrev pub Separate : ℕ → List (Slot × Text) → List (Slot × Text) → Type 0
Separate n before [] = Unit {0}
Separate n before ((s, text) ∷ fields) =
    (s.offset + s.size ≤ n)
    × (0 < s.size)
    × Clear n s (texts before)
    × Clear n s (texts fields)
    × Separate n (before ++ ((s, text) ∷ [])) fields

abbrev pub AllNames : List (Slot × Text) → Type 0
AllNames [] = Unit {0}
AllNames ((s, text) ∷ fields) = IsName text × AllNames fields

-- The reader finds each text, cut to its field.
abbrev pub AllSeen : Bytes → List (Slot × Text) → Type 0
AllSeen body [] = Unit {0}
AllSeen body ((s, text) ∷ fields) =
    (read_cstr_at s body ≡ fit (s.size - 1) text) × AllSeen body fields

texts-append : (xs ys : List (Slot × Text)) → texts (xs ++ ys) ≡ texts xs ++ texts ys
texts-append [] ys = refl
texts-append ((s, text) ∷ xs) ys = ap (λ t. cstr s text ∷ t) (texts-append xs ys)

texts-seen_from :
    (n : ℕ) (fields before : List (Slot × Text))
    → Separate n before fields
    → AllNames fields
    → AllSeen (perform_all (texts (before ++ fields)) (replicate n 0)) fields
texts-seen_from n [] before h names = tt
texts-seen_from n ((s, text) ∷ fields) before (inside, pos, hb, ha, h) (name, names) = (
  ap (λ es. read_cstr_at s (perform_all es (replicate n 0)))
        (texts-append before ((s, text) ∷ fields))
      ∙ read_cstr_at-perform_all n s (texts before) (texts fields) text inside pos hb ha name.0
          name.1,
  rw append_assoc at (texts-seen_from n fields (before ++ ((s, text) ∷ [])) h names),
)

-- Fields that lie apart in `n` zero bytes show the texts that were written to them.
pub texts-seen :
    (n : ℕ) (fields : List (Slot × Text))
    → Separate n [] fields
    → AllNames fields
    → AllSeen (perform_all (texts fields) (replicate n 0)) fields
texts-seen n fields h names = texts-seen_from n fields [] h names
