-- ===== src/Wire/Message/Edits.antt =====
-- A union variant filled field by field: each field reads back its own write, whatever fields that
-- lie apart are written before and after.
use swupdate_rs.Common.{
  ℕ, ◌+◌, ◌-◌, ◌^◌, ◌≤◌, ◌<◌, ◌≡◌, refl, ap, ◌∙◌, List, [], ◌∷◌, ◌++◌, Bytes, IsByte, All, length,
  replicate, length-replicate, from_ne_bytes,
}
use swupdate_rs.Text.{Text, IsScalar}
use swupdate_rs.Text.Lossy.{fit}
use swupdate_rs.Wire.Layout.{Slot}
use swupdate_rs.Wire.Message.{
  read_slot, read_int, write_int, read_cstr_at, write_cstr_at, cstr_from_bytes,
}
use swupdate_rs.Wire.Message.Fields.{
  Inside, Apart, length-write_int, length-write_cstr_at, read_slot-write_int_ne,
  read_slot-write_cstr_at_ne, read_int-write_int_self, read_slot-zeros,
  read_cstr_at-write_cstr_at_self, write_int-IsByte, write_cstr_at-IsByte,
}

pub data Edit : Type 0 where
  int : Slot → ℕ → Edit
  cstr : Slot → Text → Edit

abbrev pub slot_of : Edit → Slot
slot_of (int s v) = s
slot_of (cstr s text) = s

abbrev pub perform : Edit → Bytes → Bytes
perform (int s v) body = write_int s v body
perform (cstr s text) body = write_cstr_at s text body

-- The writes in order, the first one first.
abbrev pub perform_all : List Edit → Bytes → Bytes
perform_all [] body = body
perform_all (e ∷ es) body = perform_all es (perform e body)

-- Every write stays in `n` bytes and apart from the slot.
abbrev pub Clear : ℕ → Slot → List Edit → Type 0
Clear n s [] = Unit {0}
Clear n s (e ∷ es) =
    ((slot_of e).offset + (slot_of e).size ≤ n) × Apart s (slot_of e) × Clear n s es

-- The texts that are written are Rust texts.
abbrev pub IsEdit : Edit → Type 0
IsEdit (int s v) = Unit {0}
IsEdit (cstr s text) = All IsScalar text

length-perform : (e : Edit) (body : Bytes) → length (perform e body) ≡ length body
length-perform (int s v) body = length-write_int s v body
length-perform (cstr s text) body = length-write_cstr_at s text body

pub length-perform_all :
    (es : List Edit) (body : Bytes) → length (perform_all es body) ≡ length body
length-perform_all [] body = refl
length-perform_all (e ∷ es) body = length-perform_all es (perform e body) ∙ length-perform e body

perform-IsByte :
    (e : Edit) (body : Bytes) → IsEdit e → All IsByte body → All IsByte (perform e body)
perform-IsByte (int s v) body he hb = write_int-IsByte s v body hb
perform-IsByte (cstr s text) body he hb = write_cstr_at-IsByte s text body he hb

pub perform_all-IsByte :
    (es : List Edit) (body : Bytes)
    → All IsEdit es
    → All IsByte body
    → All IsByte (perform_all es body)
perform_all-IsByte [] body h hb = hb
perform_all-IsByte (e ∷ es) body (he, hes) hb =
    perform_all-IsByte es (perform e body) hes (perform-IsByte e body he hb)

read_slot-perform :
    (s : Slot) (e : Edit) (body : Bytes)
    → Inside (slot_of e) body
    → Apart s (slot_of e)
    → read_slot s (perform e body) ≡ read_slot s body
read_slot-perform s (int t v) body inside h = read_slot-write_int_ne s t v body h
read_slot-perform s (cstr t text) body inside h = read_slot-write_cstr_at_ne s t text body inside h

-- A field that the writes keep clear of is left as it was.
pub read_slot-perform_all :
    (s : Slot) (es : List Edit) (body : Bytes)
    → Clear (length body) s es
    → read_slot s (perform_all es body) ≡ read_slot s body
read_slot-perform_all s [] body h = refl
read_slot-perform_all s (e ∷ es) body (inside, apart, h) =
    read_slot-perform_all s es (perform e body) (rw (length-perform e body) h)
    ∙ read_slot-perform s e body inside apart

perform_all-append :
    (es fs : List Edit) (body : Bytes)
    → perform_all (es ++ fs) body ≡ perform_all fs (perform_all es body)
perform_all-append [] fs body = refl
perform_all-append (e ∷ es) fs body = perform_all-append es fs (perform e body)

-- Into `n` zero bytes, in any order of fields that lie apart.
module _ (n : ℕ) (s : Slot) (before after : List Edit) where
  abbrev zeros : Bytes
  zeros = replicate n 0

  cleared : Clear n s after → (body : Bytes) → length body ≡ n → Clear (length body) s after
  cleared h body e = rw e h

  sized : length (perform_all before zeros) ≡ n
  sized = length-perform_all before zeros ∙ length-replicate n 0

  pub read_int-perform_all :
      (v : ℕ)
      → s.offset + s.size ≤ n
      → v < 256 ^ s.size
      → Clear n s before
      → Clear n s after
      → read_int s (perform_all (before ++ (int s v ∷ after)) zeros) ≡ v
  unfolding read_int
  read_int-perform_all v inside h hb ha =
      ap (read_int s) (perform_all-append before (int s v ∷ after) zeros)
      ∙ ap from_ne_bytes
          (read_slot-perform_all s after _ (cleared ha _ (length-write_int s v _ ∙ sized)))
      ∙ read_int-write_int_self s v (perform_all before zeros) (rw sized inside) h

  pub read_cstr_at-perform_all :
      (text : Text)
      → s.offset + s.size ≤ n
      → 0 < s.size
      → Clear n s before
      → Clear n s after
      → All IsScalar text
      → All (λ (c : ℕ). 0 < c) text
      → read_cstr_at s (perform_all (before ++ (cstr s text ∷ after)) zeros) ≡ fit (s.size - 1) text
  unfolding read_cstr_at
  read_cstr_at-perform_all text inside pos hb ha hs nz =
      ap (read_cstr_at s) (perform_all-append before (cstr s text ∷ after) zeros)
      ∙ ap cstr_from_bytes
          (read_slot-perform_all s after _ (cleared ha _ (length-write_cstr_at s text _ ∙ sized)))
      ∙ read_cstr_at-write_cstr_at_self s text (perform_all before zeros) (rw sized inside)
          (read_slot-perform_all s before zeros (cleared_zeros hb) ∙ read_slot-zeros s n inside) pos
          hs nz
    where
      cleared_zeros : Clear n s before → Clear (length zeros) s before
      cleared_zeros h = rw (length-replicate {A = ℕ} n 0) h
