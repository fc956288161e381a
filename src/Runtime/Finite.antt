-- ===== src/Runtime/Finite.antt =====
-- A runtime whose inputs end: the bytes that its readers still give, and the receipts that its
-- streams still fill, are finite in number, and no operation makes them more.
use swupdate_rs.Common.{ℕ, ◌≤◌, ◌<◌, ◌≡◌, ◌∷◌, Bytes, arith}
use swupdate_rs.Error.{done, Duration}
use swupdate_rs.Runtime.{Runtime}
use swupdate_rs.Runtime.Passive.{Order, Preserves, Passive}
use swupdate_rs.Text.{Text}

pub record Measure (R : Runtime) : Type 0 where
  pub to_read : R.World → ℕ
  pub to_receive : R.World → ℕ

-- The first world has no more left than the second.
pub record NoMore {R : Runtime} (M : Measure R) (w' w : R.World) : Type 0 where
  pub reads_kept : M.to_read w' ≤ M.to_read w
  pub receipts_kept : M.to_receive w' ≤ M.to_receive w

module _ {R : Runtime} (M : Measure R) where
  pub NoMore-refl : (w : R.World) → NoMore M w w
  NoMore-refl w = record { reads_kept = omega arith; receipts_kept = omega arith }

  pub NoMore-trans : {w1 w2 w3 : R.World} → NoMore M w3 w2 → NoMore M w2 w1 → NoMore M w3 w1
  NoMore-trans h k = record {
    reads_kept = omega (arith, h.reads_kept, k.reads_kept);
    receipts_kept = omega (arith, h.receipts_kept, k.receipts_kept);
  }

abbrev pub by_measure : {R : Runtime} → Measure R → Order R
by_measure M = record { Below = NoMore M; below_refl = NoMore-refl M; below_trans = NoMore-trans M }

-- An action leaves no more than there was.
abbrev pub Spends : {R : Runtime} → Measure R → {A : Type 0} → (R.World → A × R.World) → Type 0
Spends M = Preserves (by_measure M)

pub record Finite (R : Runtime) : Type 1 where
  pub left : Measure R
  pub connect-Spends : (path : Text) → Spends left (R.connect path)
  pub write_all-Spends : (s : R.Stream) (bs : Bytes) → Spends left (R.write_all s bs)
  pub read_exact-Spends : (s : R.Stream) (n : ℕ) → Spends left (R.read_exact s n)
  pub shutdown-Spends : (s : R.Stream) → Spends left (R.shutdown s)
  pub within-Spends :
      (A : Type 0) (d : Duration) (m : R.World → A × R.World)
      → Spends left m
      → Spends left (R.within A d m)
  pub open_file-Spends : (path : Text) → Spends left (R.open_file path)
  pub read-Spends : (r : R.Reader) (n : ℕ) → Spends left (R.read r n)
  pub version_output-Spends : Spends left R.version_output
  -- A read that gives bytes, and a receipt that fills its buffer, leave less.
  pub read_uses :
      (r : R.Reader) (n b : ℕ) (bs : Bytes) (w w' : R.World)
      → R.read r n w ≡ (done (b ∷ bs), w')
      → left.to_read w' < left.to_read w
  pub read_exact_uses :
      (s : R.Stream) (n : ℕ) (bs : Bytes) (w w' : R.World)
      → R.read_exact s n w ≡ (done bs, w')
      → left.to_receive w' < left.to_receive w

abbrev pub passive : {R : Runtime} (F : Finite R) → Passive R (by_measure F.left)
passive F = record {
  connect-Preserves = F.connect-Spends;
  read_exact-Preserves = F.read_exact-Spends;
  shutdown-Preserves = F.shutdown-Spends;
  within-Preserves = F.within-Spends;
  version_output-Preserves = F.version_output-Spends;
}
