-- ===== src/Control/Install/Returns.antt =====
-- src/control.rs: `stream` and `stream_file` over a runtime whose inputs end.
use swupdate_rs.Common.{ℕ, zero, suc, ◌≡◌, ◌<◌, refl, some, [], ◌∷◌, Bytes, arith}
use swupdate_rs.Error.{Result, IoResult, done, fault}
use swupdate_rs.Text.{Text}
use swupdate_rs.Runtime.{Runtime}
use swupdate_rs.Runtime.Finite.{Finite, NoMore, NoMore-trans}
use swupdate_rs.Control.Install.{
  Installation, Streamed, chunk_size, chunk_read, chunk_written, stream_loop, stream, stream_file,
  opened,
}

module _ (R : Runtime) (F : Finite R) where
  -- It has not run out of fuel, and no more is left than there was.
  pub record Returned (o : Streamed R) (w : R.World) : Type 0 where
    pub outcome : Result ℕ × R.World
    pub returned : o ≡ some outcome
    pub spent : NoMore F.left outcome.1 w

  later : {o : Streamed R} {w1 w : R.World} → NoMore F.left w1 w → Returned o w1 → Returned o w
  later q h = record {
    outcome = h.outcome;
    returned = h.returned;
    spent = NoMore-trans F.left h.spent q;
  }

  abbrev Rest : (ℕ → R.World → Streamed R) → R.World → Type 0
  Rest more w =
      (total : ℕ) (w2 : R.World)
      → F.left.to_read w2 < F.left.to_read w
      → Returned (more total w2) w2

  chunk_written-Returned :
      (r : IoResult (Unit {0}) × R.World) (more : R.World → Streamed R) (w : R.World)
      → NoMore F.left r.1 w
      → Returned (more r.1) r.1
      → Returned (chunk_written R r more) w
  unfolding chunk_written
  chunk_written-Returned (done u, w2) more w q h = later q h
  chunk_written-Returned (fault x, w2) more w q h = record {
    outcome = _;
    returned = refl;
    spent = q;
  }

  chunk_read-Returned :
      (s : R.Stream) (reader : R.Reader) (total : ℕ) (w : R.World) (r : IoResult Bytes × R.World)
      (more : Bytes → R.World → Streamed R)
      → R.read reader chunk_size w ≡ r
      → NoMore F.left r.1 w
      → ((chunk : Bytes) (w2 : R.World)
          → F.left.to_read w2 < F.left.to_read w
          → Returned (more chunk w2) w2)
      → Returned (chunk_read R s total r more) w
  unfolding chunk_read
  chunk_read-Returned s reader total w (fault x, w1) more e q rest = record {
    outcome = _;
    returned = refl;
    spent = q;
  }
  chunk_read-Returned s reader total w (done [], w1) more e q rest = record {
    outcome = _;
    returned = refl;
    spent = q;
  }
  chunk_read-Returned s reader total w (done (b ∷ bs), w1) more e q rest =
      let k = F.write_all-Spends s (b ∷ bs) w1 in
      chunk_written-Returned (R.write_all s (b ∷ bs) w1) (more (b ∷ bs)) w (NoMore-trans F.left k q)
        (rest (b ∷ bs) (R.write_all s (b ∷ bs) w1).1
          (omega (arith, k.reads_kept, F.read_uses reader chunk_size b bs w w1 e)))

  loop-Returned :
      (fuel : ℕ) (s : R.Stream) (reader : R.Reader) (total : ℕ) (w : R.World)
      → F.left.to_read w < fuel
      → Returned (stream_loop R fuel s reader total w) w
  unfolding stream_loop
  loop-Returned zero s reader total w h = absurd (omega arith)
  loop-Returned (suc fuel) s reader total w h =
      chunk_read-Returned s reader total w (R.read reader chunk_size w) _ refl
        (F.read-Spends reader chunk_size w)
        (λ chunk w2 less. loop-Returned fuel s reader _ w2 (omega arith))

  pub stream-Returned :
      (fuel : ℕ) (i : Installation R) (reader : R.Reader) (w : R.World)
      → F.left.to_read w < fuel
      → Returned (stream R fuel i reader w) w
  unfolding stream
  stream-Returned fuel i reader w h = loop-Returned fuel i.client.stream reader 0 w h

  pub stream_file-Returned :
      (fuel : ℕ) (i : Installation R) (path : Text) (w : R.World)
      → F.left.to_read w < fuel
      → Returned (stream_file R fuel i path w) w
  unfolding stream_file
  stream_file-Returned fuel i path w h = by_file (R.open_file path w) (F.open_file-Spends path w)
    where
      by_file :
          (r : IoResult R.Reader × R.World)
          → NoMore F.left r.1 w
          → Returned (opened R fuel i path r) w
      by_file (done file, w1) q =
          unfold opened in later q (stream-Returned fuel i file w1 (omega (arith, q.reads_kept)))
      by_file (fault x, w1) q = unfold opened in record { outcome = _; returned = refl; spent = q }
