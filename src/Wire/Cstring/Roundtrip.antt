-- ===== src/Wire/Cstring/Roundtrip.antt =====
-- src/wire.rs: what `cstr_from_bytes` reads of what `write_cstr` wrote into a zeroed array.
use swupdate_rs.Common.{
  sym, slice-splice_after, ℕ, zero, suc, ◌-◌, ◌<◌, ◌≡◌, refl, ap, ◌∙◌, some, [], ◌∷◌, ◌++◌, Bytes,
  length, take, replicate, overlay, splice, slice, length-splice, length-take, length-replicate,
  All, All-take, All-splice, IsByte, take-all, min, arith,
}
use native.Mathlib.Decide.{dec_le}
use swupdate_rs.Text.{Text, IsScalar, as_bytes, from_utf8_lossy}
use swupdate_rs.Text.Lossy.{
  fit, fit-all, from_utf8_lossy-take, from_utf8_lossy-IsScalar, as_bytes-NonZero, as_bytes-IsByte,
}
use swupdate_rs.Wire.Cstring.{position_nul, cstr_from_bytes, write_cstr}

abbrev NonZero : ℕ → Type 0
NonZero c = 0 < c

-- An array holds `xs` and then zeros, at least one of them.
overlay-replicate :
    (xs : Bytes) (n : ℕ)
    → length xs < n
    → overlay xs (replicate n 0) ≡ xs ++ replicate (n - length xs) 0
unfolding overlay
overlay-replicate [] n h = ap (λ k. replicate k 0) (omega arith)
overlay-replicate (x ∷ xs) zero h = absurd (omega arith)
overlay-replicate (x ∷ xs) (suc n) h =
    ap (λ t. x ∷ t)
      (overlay-replicate xs n (omega arith) ∙ ap (λ k. xs ++ replicate k 0) (omega arith))

position_nul-append :
    (xs ys : Bytes) → All NonZero xs → position_nul (xs ++ (0 ∷ ys)) ≡ some (length xs)
unfolding position_nul
position_nul-append [] ys h = refl
position_nul-append (x ∷ xs) ys (hx, hxs) = ground (arith, position_nul-append xs ys hxs)

take-length-prefix : (xs ys : Bytes) → take (length xs) (xs ++ ys) ≡ xs
take-length-prefix [] ys = refl
take-length-prefix (x ∷ xs) ys = ap (λ t. x ∷ t) (take-length-prefix xs ys)

cstr_from_bytes-append :
    (xs ys : Bytes) → All NonZero xs → cstr_from_bytes (xs ++ (0 ∷ ys)) ≡ from_utf8_lossy xs
unfolding cstr_from_bytes
cstr_from_bytes-append xs ys h =
    rw (position_nul-append xs ys h) (ap from_utf8_lossy (take-length-prefix xs (0 ∷ ys)))

cstr_from_bytes-zeros :
    (xs : Bytes) (k : ℕ)
    → All NonZero xs
    → 0 < k
    → cstr_from_bytes (xs ++ replicate k 0) ≡ from_utf8_lossy xs
cstr_from_bytes-zeros xs zero h pos = absurd (omega arith)
cstr_from_bytes-zeros xs (suc k) h pos = cstr_from_bytes-append xs (replicate k 0) h

take-min : (xs : Bytes) (k : ℕ) → take (min (length xs) k) xs ≡ take k xs
take-min xs k = elim (dec_le (length xs) k) [
  | yes h ↦
      ap (λ m. take m xs) (omega arith)
      ∙ take-all (length xs) xs (omega arith)
      ∙ sym (take-all k xs h)
  | no h ↦ ap (λ m. take m xs) (omega arith)
]

-- `write_cstr` takes as many bytes as fit before the terminator.
write_cstr_lem :
    (dst : Bytes) (s : Text) → write_cstr dst s ≡ overlay (take (length dst - 1) (as_bytes s)) dst
unfolding write_cstr splice
write_cstr_lem dst s = ap (λ t. overlay t dst) (take-min (as_bytes s) (length dst - 1))

write_cstr-zeros :
    (n : ℕ) (s : Text)
    → write_cstr (replicate n 0) s ≡ overlay (take (n - 1) (as_bytes s)) (replicate n 0)
write_cstr-zeros n s =
    write_cstr_lem (replicate n 0) s
    ∙ ap (λ m. overlay (take (m - 1) (as_bytes s)) (replicate n 0)) (length-replicate n 0)

-- The array keeps its length.
pub length-write_cstr : (dst : Bytes) (s : Text) → length (write_cstr dst s) ≡ length dst
unfolding write_cstr
length-write_cstr dst s = length-splice 0 _ dst

-- The array holds bytes as before.
pub write_cstr-IsByte :
    (dst : Bytes) (s : Text) → All IsByte dst → All IsScalar s → All IsByte (write_cstr dst s)
unfolding write_cstr
write_cstr-IsByte dst s hd hs =
    All-splice IsByte 0 _ dst (All-take IsByte _ (as_bytes s) (as_bytes-IsByte s hs)) hd

last_of_zeros :
    (xs : Bytes) (n : ℕ) → length xs < n → slice (n - 1) 1 (overlay xs (replicate n 0)) ≡ 0 ∷ []
unfolding slice splice
last_of_zeros xs zero h = absurd (omega arith)
last_of_zeros xs (suc n) h =
    slice-splice_after (suc n - 1) 1 0 xs (replicate (suc n) 0) (omega arith)
    ∙ ap (λ k. slice {A = ℕ} k 1 (replicate (suc n) 0)) (omega arith)
    ∙ last_zero n
  where
    last_zero : (n : ℕ) → slice {A = ℕ} n 1 (replicate (suc n) 0) ≡ 0 ∷ []
    last_zero zero = refl
    last_zero (suc n) = last_zero n

-- Whatever the text, a zeroed array of at least one byte keeps a NUL in its last byte.
pub write_cstr-terminated :
    (n : ℕ) (s : Text) → 0 < n → slice (n - 1) 1 (write_cstr (replicate n 0) s) ≡ 0 ∷ []
write_cstr-terminated n s pos =
    ap (slice (n - 1) 1) (write_cstr-zeros n s)
    ∙ last_of_zeros _ n (omega (arith, length-take (n - 1) (as_bytes s)))

-- A Rust text without NUL, written into a zeroed array of `n` bytes (at least one) and read back,
-- is the text cut to `n - 1` bytes: its characters that fit, and one U+FFFD if a character is cut.
pub cstr_from_bytes-write_cstr :
    (n : ℕ) (s : Text)
    → 0 < n
    → All IsScalar s
    → All (λ (c : ℕ). 0 < c) s
    → cstr_from_bytes (write_cstr (replicate n 0) s) ≡ fit (n - 1) s
cstr_from_bytes-write_cstr n s pos hs nz =
    ap cstr_from_bytes (
      write_cstr-zeros n s
      ∙ overlay-replicate _ n (omega (arith, length-take (n - 1) (as_bytes s))))
    ∙ cstr_from_bytes-zeros _ _ (All-take NonZero (n - 1) _ (as_bytes-NonZero s nz))
        (omega (arith, length-take (n - 1) (as_bytes s)))
    ∙ from_utf8_lossy-take (n - 1) s hs

-- A Rust text without NUL, of fewer bytes than a zeroed array has, is read back whole from that
-- array.
pub cstr_from_bytes-write_cstr_fits :
    (n : ℕ) (s : Text)
    → length (as_bytes s) < n
    → All IsScalar s
    → All (λ (c : ℕ). 0 < c) s
    → cstr_from_bytes (write_cstr (replicate n 0) s) ≡ s
cstr_from_bytes-write_cstr_fits n s h hs nz =
    cstr_from_bytes-write_cstr n s (omega arith) hs nz ∙ fit-all (n - 1) s (omega arith)

-- Whatever bytes a field holds, what is read of it is a text.
pub cstr_from_bytes-IsScalar : (bytes : Bytes) → All IsScalar (cstr_from_bytes bytes)
unfolding cstr_from_bytes
cstr_from_bytes-IsScalar bytes = from_utf8_lossy-IsScalar _

-- The empty text writes nothing.
pub write_cstr-nil : (dst : Bytes) → write_cstr dst [] ≡ dst
unfolding write_cstr splice overlay as_bytes
write_cstr-nil dst = ap (λ t. overlay t dst) (take-nil (min 0 (length dst - 1)))
  where
    take-nil : (n : ℕ) → take {A = ℕ} n [] ≡ []
    take-nil zero = refl
    take-nil (suc n) = refl
