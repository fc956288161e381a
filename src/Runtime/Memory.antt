-- ===== src/Runtime/Memory.antt =====
-- A runtime in memory: one peer whose answers are given beforehand, one input to read, and a record
-- of all that was sent. It shows that the laws of a runtime can hold, and runs the tests.
pub mod Ends
pub mod Untouched
pub mod Answers
use swupdate_rs.Common.{
  ℕ, ◌%◌, ◌≤◌, ◌≡◌, refl, ap, ◌∙◌, Bool, true, false, Option, none, some, List, [], ◌∷◌, ◌++◌, map,
  Bytes, IsByte, All, length, take, drop, ◌==◌, ==_iff, Bool-cases, inl, inr, if◌then◌else◌, arith,
  suc, length-take, append-nil,
}
use swupdate_rs.Text.{Text, codes}
use swupdate_rs.Error.{IoResult, done, fault}
use swupdate_rs.Runtime.{Runtime, IsLawful}

pub record World : Type 0 where
  pub env : Text → Option Text
  pub present : Text → Bool
  -- The timer runs out first.
  pub slow : Bool
  pub sent : Bytes
  pub answers : List Bytes
  pub input : Bytes
  pub version : Option Bytes

-- Numbers above 255 are no bytes, and are cut to one.
abbrev pub to_bytes : Bytes → Bytes
to_bytes = map (λ b. b % 256)

abbrev pub answer : ℕ → List Bytes → World → IoResult Bytes × World
answer n [] w = (fault (codes "early eof"), w)
answer n (a ∷ rest) w =
    if length a == n
    then (done (to_bytes a), record w { answers = rest })
    else (fault (codes "early eof"), record w { answers = rest })

abbrev pub finish : {A : Type 0} → Bool → World → A × World → Option A × World
finish true w (a, w') = (none, w)
finish false w (a, w') = (some a, w')

abbrev pub memory : Runtime
memory = record {
  World = World;
  Stream = Text;
  Reader = Text;
  env_var = λ name w. w.env name;
  exists = λ path w. w.present path;
  connect = λ path w. (done path, w);
  write_all = λ s bs w. (done tt, record w { sent = w.sent ++ bs });
  read_exact = λ s n w. answer n w.answers w;
  shutdown = λ s w. (done tt, w);
  try_write = λ s bs w. (done (length bs), record w { sent = w.sent ++ bs });
  within = λ A d m w. finish w.slow w (m w);
  open_file = λ path w.
      if w.present path then (done path, w) else (fault (codes "No such file or directory"), w);
  stdin = codes "stdin";
  read = λ r n w. (done (to_bytes (take n w.input)), record w { input = drop n w.input });
  version_output = λ w. (w.version, w);
}

pub length-to_bytes : (bs : Bytes) → length (to_bytes bs) ≡ length bs
length-to_bytes [] = refl
length-to_bytes (b ∷ bs) = ap suc (length-to_bytes bs)

to_bytes-IsByte : (bs : Bytes) → All IsByte (to_bytes bs)
to_bytes-IsByte [] = tt
to_bytes-IsByte (b ∷ bs) = (omega arith, to_bytes-IsByte bs)

filled : (n : ℕ) (a bs : Bytes) → length a ≡ n → to_bytes a ≡ bs → (length bs ≡ n) × All IsByte bs
filled n a bs h q = rw (← q) (length-to_bytes a ∙ h, to_bytes-IsByte a)

bounded :
    (n : ℕ) (input bs : Bytes) → to_bytes (take n input) ≡ bs → (length bs ≤ n) × All IsByte bs
bounded n input bs q = rw (← q) (
  omega (arith, length-to_bytes (take n input), length-take n input),
  to_bytes-IsByte (take n input),
)

answer-fills :
    (n : ℕ) (answers : List Bytes) (w w' : World) (bs : Bytes)
    → answer n answers w ≡ (done bs, w')
    → (length bs ≡ n) × All IsByte bs
answer-fills n [] w w' bs e = cc
answer-fills n (a ∷ rest) w w' bs e = elim (Bool-cases (length a == n)) [
  | inl fits ↦ filled n a bs ((==_iff (length a) n).0 fits) (cc (rw fits at e))
  | inr short ↦ cc (rw short at e)
]

pub memory-IsLawful : IsLawful memory
memory-IsLawful = record {
  read_exact_fills = λ s n w w' bs e. answer-fills n w.answers w w' bs e;
  try_write_nothing = λ s w. ap (λ sent. record w { sent = sent }) (append-nil w.sent);
  read_bounded = λ r n w w' bs e. bounded n w.input bs (cc e);
}
