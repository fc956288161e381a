-- ===== src/Common/Lists.antt =====
-- Lists measured and indexed by native numbers, under the library's names.
use Prim.Native.Nat.{ℕ, zero, suc, ◌+◌, ◌-◌, ◌≤◌, min}
use mathlib.Core.Path.{◌≡◌, refl, ap}
use mathlib.Core.List.{List, [], ◌∷◌, ◌++◌}
use native.Mathlib.Omega.{arith}

module _ {ℓ} {A : Type ℓ} where
  abbrev pub length : List A → ℕ
  length [] = 0
  length (x ∷ xs) = suc (length xs)

  abbrev pub All {κ} : (A → Type κ) → List A → Type κ
  All P [] = Unit {κ}
  All P (x ∷ xs) = P x × All P xs

  pub length-append : (xs ys : List A) → length (xs ++ ys) ≡ length xs + length ys
  length-append [] ys = omega arith
  length-append (x ∷ xs) ys = omega (arith, length-append xs ys)

module _ {ℓ} {A : Type ℓ} where
  pub All-append {κ} : (P : A → Type κ) (xs ys : List A) → All P xs → All P ys → All P (xs ++ ys)
  All-append P [] ys h k = k
  All-append P (x ∷ xs) ys (hx, hxs) k = (hx, All-append P xs ys hxs k)

  abbrev pub take : ℕ → List A → List A
  take zero xs = []
  take (suc n) [] = []
  take (suc n) (x ∷ xs) = x ∷ take n xs

  abbrev pub drop : ℕ → List A → List A
  drop zero xs = xs
  drop (suc n) [] = []
  drop (suc n) (x ∷ xs) = drop n xs

  abbrev pub replicate : ℕ → A → List A
  replicate zero a = []
  replicate (suc n) a = a ∷ replicate n a

  pub take-append-drop : (n : ℕ) (xs : List A) → take n xs ++ drop n xs ≡ xs
  take-append-drop zero xs = refl
  take-append-drop (suc n) [] = refl
  take-append-drop (suc n) (x ∷ xs) = ap (λ t. x ∷ t) (take-append-drop n xs)

  pub length-take : (n : ℕ) (xs : List A) → length (take n xs) ≡ min n (length xs)
  length-take zero xs = omega arith
  length-take (suc n) [] = omega arith
  length-take (suc n) (x ∷ xs) = omega (arith, length-take n xs)

  pub length-drop : (n : ℕ) (xs : List A) → length (drop n xs) ≡ length xs - n
  length-drop zero xs = omega arith
  length-drop (suc n) [] = omega arith
  length-drop (suc n) (x ∷ xs) = omega (arith, length-drop n xs)

  pub length-replicate : (n : ℕ) (a : A) → length (replicate n a) ≡ n
  length-replicate zero a = refl
  length-replicate (suc n) a = ap suc (length-replicate n a)

  pub take-all : (n : ℕ) (xs : List A) → length xs ≤ n → take n xs ≡ xs
  take-all zero [] h = refl
  take-all zero (x ∷ xs) h = elim h [ ]
  take-all (suc n) [] h = refl
  take-all (suc n) (x ∷ xs) h = ap (λ t. x ∷ t) (take-all n xs (omega arith))

  pub take-append_left : (n : ℕ) (xs ys : List A) → n ≤ length xs → take n (xs ++ ys) ≡ take n xs
  take-append_left zero xs ys h = refl
  take-append_left (suc n) [] ys h = elim h [ ]
  take-append_left (suc n) (x ∷ xs) ys h = ap (λ t. x ∷ t) (take-append_left n xs ys (omega arith))

  pub take-length-append : (xs ys : List A) → take (length xs) (xs ++ ys) ≡ xs
  take-length-append [] ys = refl
  take-length-append (x ∷ xs) ys = ap (λ t. x ∷ t) (take-length-append xs ys)

  pub drop-length-append : (xs ys : List A) → drop (length xs) (xs ++ ys) ≡ ys
  drop-length-append [] ys = refl
  drop-length-append (x ∷ xs) ys = drop-length-append xs ys

  pub All-take {κ} : (P : A → Type κ) (n : ℕ) (xs : List A) → All P xs → All P (take n xs)
  All-take P zero xs h = tt
  All-take P (suc n) [] h = tt
  All-take P (suc n) (x ∷ xs) (hx, hxs) = (hx, All-take P n xs hxs)

  pub All-drop {κ} : (P : A → Type κ) (n : ℕ) (xs : List A) → All P xs → All P (drop n xs)
  All-drop P zero xs h = h
  All-drop P (suc n) [] h = tt
  All-drop P (suc n) (x ∷ xs) (hx, hxs) = All-drop P n xs hxs

  pub All-replicate {κ} : (P : A → Type κ) (n : ℕ) (a : A) → P a → All P (replicate n a)
  All-replicate P zero a h = tt
  All-replicate P (suc n) a h = (h, All-replicate P n a h)

  -- Overwrites the front of a list; what does not fit is dropped.
  unfoldable pub overlay : List A → List A → List A
  overlay [] xs = xs
  overlay (n ∷ ns) [] = []
  overlay (n ∷ ns) (x ∷ xs) = n ∷ overlay ns xs

  -- Overwrites from an offset on: a write through a pointer into a buffer.
  unfoldable pub splice : ℕ → List A → List A → List A
  unfolding overlay
  splice zero ns xs = overlay ns xs
  splice (suc o) ns [] = []
  splice (suc o) ns (x ∷ xs) = x ∷ splice o ns xs

  -- `xs[o .. o + n]`
  unfoldable pub slice : ℕ → ℕ → List A → List A
  slice o n xs = take n (drop o xs)

  pub length-overlay : (ns xs : List A) → length (overlay ns xs) ≡ length xs
  unfolding overlay
  length-overlay [] xs = refl
  length-overlay (n ∷ ns) [] = refl
  length-overlay (n ∷ ns) (x ∷ xs) = ap suc (length-overlay ns xs)

  pub length-splice : (o : ℕ) (ns xs : List A) → length (splice o ns xs) ≡ length xs
  unfolding splice
  length-splice zero ns xs = length-overlay ns xs
  length-splice (suc o) ns [] = refl
  length-splice (suc o) ns (x ∷ xs) = ap suc (length-splice o ns xs)

  pub length-slice : (o n : ℕ) (xs : List A) → o + n ≤ length xs → length (slice o n xs) ≡ n
  unfolding slice
  length-slice o n xs h = omega (arith, length-take n (drop o xs), length-drop o xs)

  take-overlay : (ns xs : List A) → length ns ≤ length xs → take (length ns) (overlay ns xs) ≡ ns
  unfolding overlay
  take-overlay [] xs h = refl
  take-overlay (n ∷ ns) [] h = elim h [ ]
  take-overlay (n ∷ ns) (x ∷ xs) h = ap (λ t. n ∷ t) (take-overlay ns xs (omega arith))

  -- What was written is read back.
  pub slice-splice_self :
      (o : ℕ) (ns xs : List A)
      → o + length ns ≤ length xs
      → slice o (length ns) (splice o ns xs) ≡ ns
  unfolding slice splice
  slice-splice_self zero ns xs h = take-overlay ns xs (omega arith)
  slice-splice_self (suc o) ns [] h = absurd (omega arith)
  slice-splice_self (suc o) ns (x ∷ xs) h = slice-splice_self o ns xs (omega arith)

  drop-overlay : (o : ℕ) (ns xs : List A) → length ns ≤ o → drop o (overlay ns xs) ≡ drop o xs
  unfolding overlay
  drop-overlay o [] xs h = refl
  drop-overlay zero (n ∷ ns) xs h = elim h [ ]
  drop-overlay (suc o) (n ∷ ns) [] h = refl
  drop-overlay (suc o) (n ∷ ns) (x ∷ xs) h = drop-overlay o ns xs (omega arith)

  drop-splice : (p o : ℕ) (ns xs : List A) → o + length ns ≤ p → drop p (splice o ns xs) ≡ drop p xs
  unfolding splice
  drop-splice p zero ns xs h = drop-overlay p ns xs (omega arith)
  drop-splice zero (suc o) ns xs h = absurd (omega arith)
  drop-splice (suc p) (suc o) ns [] h = refl
  drop-splice (suc p) (suc o) ns (x ∷ xs) h = drop-splice p o ns xs (omega arith)

  -- A read behind the written range sees no change.
  pub slice-splice_after :
      (p n o : ℕ) (ns xs : List A) → o + length ns ≤ p → slice p n (splice o ns xs) ≡ slice p n xs
  unfolding slice
  slice-splice_after p n o ns xs h = ap (take n) (drop-splice p o ns xs h)

  take-splice : (n o : ℕ) (ns xs : List A) → n ≤ o → take n (splice o ns xs) ≡ take n xs
  unfolding splice
  take-splice zero o ns xs h = refl
  take-splice (suc n) zero ns xs h = elim h [ ]
  take-splice (suc n) (suc o) ns [] h = refl
  take-splice (suc n) (suc o) ns (x ∷ xs) h = ap (λ t. x ∷ t) (take-splice n o ns xs (omega arith))

  -- A read before the written range sees no change.
  pub slice-splice_before :
      (p n o : ℕ) (ns xs : List A) → p + n ≤ o → slice p n (splice o ns xs) ≡ slice p n xs
  unfolding slice splice
  slice-splice_before zero n o ns xs h = take-splice n o ns xs (omega arith)
  slice-splice_before (suc p) n zero ns xs h = absurd (omega arith)
  slice-splice_before (suc p) n (suc o) ns [] h = refl
  slice-splice_before (suc p) n (suc o) ns (x ∷ xs) h =
      slice-splice_before p n o ns xs (omega arith)

  pub All-slice {κ} : (P : A → Type κ) (o n : ℕ) (xs : List A) → All P xs → All P (slice o n xs)
  unfolding slice
  All-slice P o n xs h = All-take P n (drop o xs) (All-drop P o xs h)

  All-overlay {κ} : (P : A → Type κ) (ns xs : List A) → All P ns → All P xs → All P (overlay ns xs)
  unfolding overlay
  All-overlay P [] xs h k = k
  All-overlay P (n ∷ ns) [] h k = tt
  All-overlay P (n ∷ ns) (x ∷ xs) (hn, hns) (kx, kxs) = (hn, All-overlay P ns xs hns kxs)

  pub All-splice {κ} :
      (P : A → Type κ) (o : ℕ) (ns xs : List A) → All P ns → All P xs → All P (splice o ns xs)
  unfolding splice
  All-splice P zero ns xs h k = All-overlay P ns xs h k
  All-splice P (suc o) ns [] h k = tt
  All-splice P (suc o) ns (x ∷ xs) h (kx, kxs) = (kx, All-splice P o ns xs h kxs)

  overlay-take : (n : ℕ) (xs : List A) → overlay (take n xs) xs ≡ xs
  unfolding overlay
  overlay-take zero xs = refl
  overlay-take (suc n) [] = refl
  overlay-take (suc n) (x ∷ xs) = ap (λ t. x ∷ t) (overlay-take n xs)

  -- To write what stands there changes nothing.
  pub splice-slice : (o n : ℕ) (xs : List A) → splice o (slice o n xs) xs ≡ xs
  unfolding splice slice
  splice-slice zero n xs = overlay-take n xs
  splice-slice (suc o) n [] = refl
  splice-slice (suc o) n (x ∷ xs) = ap (λ t. x ∷ t) (splice-slice o n xs)

  slice-overlay :
      (o n : ℕ) (ns xs : List A)
      → o + n ≤ length ns
      → length ns ≤ length xs
      → slice o n (overlay ns xs) ≡ slice o n ns
  unfolding overlay slice
  slice-overlay zero zero ns xs h k = refl
  slice-overlay (suc o) n [] xs h k = absurd (omega arith)
  slice-overlay zero (suc n) [] xs h k = absurd (omega arith)
  slice-overlay o n (m ∷ ns) [] h k = absurd (omega arith)
  slice-overlay zero (suc n) (m ∷ ns) (x ∷ xs) h k =
      ap (λ t. m ∷ t) (slice-overlay zero n ns xs (omega arith) (omega arith))
  slice-overlay (suc o) n (m ∷ ns) (x ∷ xs) h k =
      slice-overlay o n ns xs (omega arith) (omega arith)
