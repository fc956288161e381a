-- ===== src/Runtime/Memory/Answers.antt =====
-- The runtime in memory: what is received depends on the answers alone.
use swupdate_rs.Common.{ℕ, ◌≡◌, refl, List, [], ◌∷◌, Bytes, length, ◌==◌, Bool-cases, inl, inr}
use swupdate_rs.Runtime.Memory.{World, answer}

-- The same result, and the same answers left.
abbrev pub Alike : {A : Type 0} → A × World → A × World → Type 0
Alike r q = (r.0 ≡ q.0) × (r.1.answers ≡ q.1.answers)

pub answer-Alike :
    (n : ℕ) (answers : List Bytes) (w v : World)
    → w.answers ≡ v.answers
    → Alike (answer n answers w) (answer n answers v)
answer-Alike n [] w v e = (refl, e)
answer-Alike n (a ∷ rest) w v e = elim (Bool-cases (length a == n)) [
  | inl fits ↦ rw fits (refl, refl)
  | inr short ↦ rw short (refl, refl)
]
