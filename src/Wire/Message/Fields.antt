-- ===== src/Wire/Message/Fields.antt =====
-- Reads and writes of the fields of a union variant: what was written is read back, and fields that
-- lie apart do not see one another's writes.
use swupdate_rs.Common.{
  ℕ, zero, suc, ◌+◌, ◌-◌, ◌^◌, ◌≤◌, ◌<◌, ◌≡◌, refl, sym, ap, ◌∙◌, ◌⊎◌, inl, inr, Bytes, IsByte, All,
  length, replicate, slice, splice, arith, to_ne_bytes, to_ne_bytes-IsByte, All-slice, length-slice,
  slice-splice_before, All-splice, ◌∷◌, from_ne_bytes, length-splice, slice-splice_self,
  length-to_ne_bytes, slice-splice_after, from_ne_bytes-to_ne_bytes, [], splice-slice,
}
use swupdate_rs.Text.{Text, IsScalar}
use swupdate_rs.Text.Lossy.{fit}
use swupdate_rs.Wire.Layout.{Slot}
use swupdate_rs.Wire.Cstring.{cstr_from_bytes, write_cstr}
use swupdate_rs.Wire.Cstring.Roundtrip.{
  length-write_cstr, write_cstr-IsByte, cstr_from_bytes-write_cstr, write_cstr-nil,
}
use swupdate_rs.Wire.Message.{
  read_slot, write_slot, read_int, write_int, read_cstr_at, write_cstr_at,
}

abbrev pub Inside : Slot → Bytes → Type 0
Inside s body = s.offset + s.size ≤ length body

abbrev pub Apart : Slot → Slot → Type 0
Apart s t = (s.offset + s.size ≤ t.offset) ⊎ (t.offset + t.size ≤ s.offset)

-- No write changes the size of the union.
pub length-write_slot :
    (s : Slot) (value body : Bytes) → length (write_slot s value body) ≡ length body
unfolding write_slot
length-write_slot s value body = length-splice s.offset value body

pub length-write_int : (s : Slot) (v : ℕ) (body : Bytes) → length (write_int s v body) ≡ length body
unfolding write_int
length-write_int s v body = length-write_slot s _ body

pub length-write_cstr_at :
    (s : Slot) (text : Text) (body : Bytes) → length (write_cstr_at s text body) ≡ length body
unfolding write_cstr_at
length-write_cstr_at s text body = length-write_slot s _ body

-- A write behind or before a field leaves it.
pub read_slot-write_slot_ne :
    (s t : Slot) (value body : Bytes)
    → length value ≡ t.size
    → Apart s t
    → read_slot s (write_slot t value body) ≡ read_slot s body
unfolding read_slot write_slot
read_slot-write_slot_ne s t value body h (inl before) =
    slice-splice_before s.offset s.size t.offset value body before
read_slot-write_slot_ne s t value body h (inr after) =
    slice-splice_after s.offset s.size t.offset value body (omega arith)

pub read_slot-write_int_ne :
    (s t : Slot) (v : ℕ) (body : Bytes)
    → Apart s t
    → read_slot s (write_int t v body) ≡ read_slot s body
unfolding write_int
read_slot-write_int_ne s t v body h =
    read_slot-write_slot_ne s t (to_ne_bytes t.size v) body (length-to_ne_bytes t.size v) h

length-read_slot : (s : Slot) (body : Bytes) → Inside s body → length (read_slot s body) ≡ s.size
unfolding read_slot
length-read_slot s body h = length-slice s.offset s.size body h

pub read_slot-write_cstr_at_ne :
    (s t : Slot) (text : Text) (body : Bytes)
    → Inside t body
    → Apart s t
    → read_slot s (write_cstr_at t text body) ≡ read_slot s body
unfolding write_cstr_at
read_slot-write_cstr_at_ne s t text body inside h =
    read_slot-write_slot_ne s t (write_cstr (read_slot t body) text) body
      (length-write_cstr (read_slot t body) text ∙ length-read_slot t body inside) h

-- A field reads back what was written to it.
pub read_slot-write_slot_self :
    (s : Slot) (value body : Bytes)
    → length value ≡ s.size
    → Inside s body
    → read_slot s (write_slot s value body) ≡ value
unfolding read_slot write_slot
read_slot-write_slot_self s value body h inside =
    ap (λ n. slice s.offset n (splice s.offset value body)) (sym h)
    ∙ slice-splice_self s.offset value body (omega arith)

pub read_int-write_int_self :
    (s : Slot) (v : ℕ) (body : Bytes)
    → Inside s body
    → v < 256 ^ s.size
    → read_int s (write_int s v body) ≡ v
unfolding read_int write_int
read_int-write_int_self s v body inside h =
    ap from_ne_bytes
      (read_slot-write_slot_self s (to_ne_bytes s.size v) body (length-to_ne_bytes s.size v) inside)
    ∙ from_ne_bytes-to_ne_bytes s.size v h

slice-replicate : (o n k : ℕ) → o + n ≤ k → slice {A = ℕ} o n (replicate k 0) ≡ replicate n 0
unfolding slice
slice-replicate zero zero k h = refl
slice-replicate zero (suc n) zero h = absurd (omega arith)
slice-replicate zero (suc n) (suc k) h = ap (λ t. 0 ∷ t) (slice-replicate zero n k (omega arith))
slice-replicate (suc o) n zero h = absurd (omega arith)
slice-replicate (suc o) n (suc k) h = slice-replicate o n k (omega arith)

-- Every field of a zeroed union is zero.
pub read_slot-zeros :
    (s : Slot) (k : ℕ) → s.offset + s.size ≤ k → read_slot s (replicate k 0) ≡ replicate s.size 0
unfolding read_slot
read_slot-zeros s k h = slice-replicate s.offset s.size k h

-- A text written into a zeroed field is read back, cut to the bytes before the terminator.
pub read_cstr_at-write_cstr_at_self :
    (s : Slot) (text : Text) (body : Bytes)
    → Inside s body
    → read_slot s body ≡ replicate s.size 0
    → 0 < s.size
    → All IsScalar text
    → All (λ (c : ℕ). 0 < c) text
    → read_cstr_at s (write_cstr_at s text body) ≡ fit (s.size - 1) text
unfolding read_cstr_at write_cstr_at
read_cstr_at-write_cstr_at_self s text body inside zeros pos hs nz =
    ap cstr_from_bytes (
      read_slot-write_slot_self s (write_cstr (read_slot s body) text) body
        (length-write_cstr (read_slot s body) text ∙ length-read_slot s body inside) inside
      ∙ ap (λ dst. write_cstr dst text) zeros)
    ∙ cstr_from_bytes-write_cstr s.size text pos hs nz

-- Writes keep the body a list of bytes.
pub write_slot-IsByte :
    (s : Slot) (value body : Bytes)
    → All IsByte value
    → All IsByte body
    → All IsByte (write_slot s value body)
unfolding write_slot
write_slot-IsByte s value body hv hb = All-splice IsByte s.offset value body hv hb

pub write_int-IsByte :
    (s : Slot) (v : ℕ) (body : Bytes) → All IsByte body → All IsByte (write_int s v body)
unfolding write_int
write_int-IsByte s v body h = write_slot-IsByte s _ body (to_ne_bytes-IsByte s.size v) h

pub write_cstr_at-IsByte :
    (s : Slot) (text : Text) (body : Bytes)
    → All IsScalar text
    → All IsByte body
    → All IsByte (write_cstr_at s text body)
unfolding write_cstr_at read_slot
write_cstr_at-IsByte s text body ht hb =
    write_slot-IsByte s _ body
      (write_cstr-IsByte _ text (All-slice IsByte s.offset s.size body hb) ht) hb

-- The empty text changes no field.
pub write_cstr_at-nil : (s : Slot) (body : Bytes) → write_cstr_at s [] body ≡ body
unfolding write_cstr_at write_slot read_slot
write_cstr_at-nil s body =
    ap (λ value. splice s.offset value body) (write_cstr-nil (slice s.offset s.size body))
    ∙ splice-slice s.offset s.size body
