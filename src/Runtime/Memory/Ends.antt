-- ===== src/Runtime/Memory/Ends.antt =====
-- The runtime in memory has inputs that end: the bytes of its input, and the answers given
-- beforehand.
use swupdate_rs.Common.{
  ℕ, zero, suc, ◌<◌, ◌≡◌, refl, ap, Bool, true, false, List, [], ◌∷◌, Bytes, length, take, drop,
  length-drop, arith, Bool-cases, inl, inr, ◌==◌,
}
use swupdate_rs.Error.{done}
use swupdate_rs.Text.{Text}
use swupdate_rs.Runtime.Finite.{Finite, Measure, NoMore, Spends, NoMore-refl}
use swupdate_rs.Runtime.Memory.{World, memory, answer, finish, to_bytes}

abbrev pub memory_left : Measure memory
memory_left = record { to_read = λ w. length w.input; to_receive = λ w. length w.answers }

pub answer-Spends :
    (n : ℕ) (answers : List Bytes) (w : World)
    → w.answers ≡ answers
    → NoMore memory_left (answer n answers w).1 w
answer-Spends n [] w e = NoMore-refl memory_left w
answer-Spends n (a ∷ rest) w e = elim (Bool-cases (length a == n)) [
  | inl fits ↦ rw fits less
  | inr short ↦ rw short less
]
  where
    less : NoMore memory_left (record w { answers = rest }) w
    less = record {
      reads_kept = omega arith;
      receipts_kept = omega (arith, ap (λ (xs : List Bytes). length xs) e);
    }

pub finish-Spends :
    {A : Type 0} (slow : Bool) (w : World) (r : A × World)
    → NoMore memory_left r.1 w
    → NoMore memory_left (finish slow w r).1 w
finish-Spends true w (a, w') h = NoMore-refl memory_left w
finish-Spends false w (a, w') h = h

pub open-Spends : (path : Text) → Spends memory_left (memory.open_file path)
open-Spends path w = elim (Bool-cases (w.present path)) [
  | inl there ↦ rw there (NoMore-refl memory_left w)
  | inr absent ↦ rw absent (NoMore-refl memory_left w)
]

taken :
    (n b : ℕ) (input bs : Bytes)
    → to_bytes (take n input) ≡ b ∷ bs
    → length (drop n input) < length input
taken zero b input bs e = cc
taken (suc n) b [] bs e = cc
taken (suc n) b (x ∷ input) bs e = omega (arith, length-drop n input)

pub read-Spends : (reader : Text) (n : ℕ) → Spends memory_left (memory.read reader n)
read-Spends reader n w = record {
  reads_kept = omega (arith, length-drop n w.input);
  receipts_kept = omega arith;
}

pub answer_uses :
    (n : ℕ) (answers : List Bytes) (w w' : World) (bs : Bytes)
    → w.answers ≡ answers
    → answer n answers w ≡ (done bs, w')
    → length w'.answers < length w.answers
answer_uses n [] w w' bs q e = cc
answer_uses n (a ∷ rest) w w' bs q e = elim (Bool-cases (length a == n)) [
  | inl fits ↦
      let same : rest ≡ w'.answers = ap (λ o. o.1.answers) (rw fits at e) in
      omega (arith, ap (λ (xs : List Bytes). length xs) q, ap (λ (xs : List Bytes). length xs) same)
  | inr short ↦ cc (rw short at e)
]

pub read_uses :
    (reader : Text) (n b : ℕ) (bs : Bytes) (w w' : World)
    → memory.read reader n w ≡ (done (b ∷ bs), w')
    → length w'.input < length w.input
read_uses reader n b bs w w' e =
    let input : drop n w.input ≡ w'.input = ap (λ o. o.1.input) e in
    omega (arith, taken n b w.input bs (cc e), ap (λ (xs : Bytes). length xs) input)

abbrev pub memory_finite : Finite memory
memory_finite = record {
  left = memory_left;
  connect-Spends = λ path w. NoMore-refl memory_left w;
  write_all-Spends = λ s bs w. record { reads_kept = omega arith; receipts_kept = omega arith };
  read_exact-Spends = λ s n w. answer-Spends n w.answers w refl;
  shutdown-Spends = λ s w. NoMore-refl memory_left w;
  within-Spends = λ A d m h w. finish-Spends w.slow w (m w) (h w);
  open_file-Spends = open-Spends;
  read-Spends = read-Spends;
  version_output-Spends = λ w. NoMore-refl memory_left w;
  read_uses = read_uses;
  read_exact_uses = λ s n bs w w' e. answer_uses n w.answers w w' bs refl e;
}
