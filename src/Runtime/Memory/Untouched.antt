-- ===== src/Runtime/Memory/Untouched.antt =====
-- The runtime in memory: what connecting, receiving and waiting leave alone.
use swupdate_rs.Common.{
  ℕ, ◌≡◌, refl, ◌∙◌, Bool, true, false, List, [], ◌∷◌, Bytes, length, ◌==◌, Bool-cases, inl, inr,
}
use swupdate_rs.Runtime.Passive.{Order, Passive}
use swupdate_rs.Runtime.Memory.{World, memory, answer, finish}

-- Nothing was sent and nothing was read.
abbrev pub Same : World → World → Type 0
Same w1 w = (w1.sent ≡ w.sent) × (w1.input ≡ w.input)

abbrev pub untouched : Order memory
untouched = record {
  Below = Same;
  below_refl = λ w. (refl, refl);
  below_trans = λ h k. (h.0 ∙ k.0, h.1 ∙ k.1);
}

answer-Same : (n : ℕ) (answers : List Bytes) (w : World) → Same (answer n answers w).1 w
answer-Same n [] w = (refl, refl)
answer-Same n (a ∷ rest) w = elim (Bool-cases (length a == n)) [
  | inl fits ↦ rw fits (refl, refl)
  | inr short ↦ rw short (refl, refl)
]

finish-Same :
    {A : Type 0} (slow : Bool) (w : World) (r : A × World) → Same r.1 w → Same (finish slow w r).1 w
finish-Same true w (a, w') h = (refl, refl)
finish-Same false w (a, w') h = h

pub memory_untouched : Passive memory untouched
memory_untouched = record {
  connect-Preserves = λ path w. (refl, refl);
  read_exact-Preserves = λ s n w. answer-Same n w.answers w;
  shutdown-Preserves = λ s w. (refl, refl);
  within-Preserves = λ A d m h w. finish-Same w.slow w (m w) (h w);
  version_output-Preserves = λ w. (refl, refl);
}

-- The same files are there.
abbrev pub same_files : Order memory
same_files = record {
  Below = λ w1 w. w1.present ≡ w.present;
  below_refl = λ w. refl;
  below_trans = λ h k. h ∙ k;
}

answer_files :
    (n : ℕ) (answers : List Bytes) (w : World) → (answer n answers w).1.present ≡ w.present
answer_files n [] w = refl
answer_files n (a ∷ rest) w = elim (Bool-cases (length a == n)) [
  | inl fits ↦ rw fits refl
  | inr short ↦ rw short refl
]

finish_files :
    {A : Type 0} (slow : Bool) (w : World) (r : A × World)
    → r.1.present ≡ w.present
    → (finish slow w r).1.present ≡ w.present
finish_files true w (a, w') h = refl
finish_files false w (a, w') h = h

pub memory_same_files : Passive memory same_files
memory_same_files = record {
  connect-Preserves = λ path w. refl;
  read_exact-Preserves = λ s n w. answer_files n w.answers w;
  shutdown-Preserves = λ s w. refl;
  within-Preserves = λ A d m h w. finish_files w.slow w (m w) (h w);
  version_output-Preserves = λ w. refl;
}
