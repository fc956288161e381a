-- ===== src/Control/Install/Stream.antt =====
-- src/control.rs: the loop of `stream` against the relation that says what a transfer is.
use swupdate_rs.Common.{
  ℕ, zero, suc, ◌+◌, ◌%◌, ◌^◌, ◌<◌, ◌≡◌, refl, ap, ◌∙◌, some, List, [], ◌∷◌, Bytes, length, arith,
}
use mathlib.Core.Path.{subst, sym}
use swupdate_rs.Control.Install.{Streamed}
use swupdate_rs.Error.{connection, Result, ok, err, IoError, IoResult, done, fault}
use swupdate_rs.Runtime.{Runtime}
use swupdate_rs.Control.Install.{Installation, Streamed, chunk_size, stream_loop, stream}

abbrev pub size : List Bytes → ℕ
size [] = 0
size (chunk ∷ chunks) = length chunk + size chunks

module _ (R : Runtime) (s : R.Stream) (reader : R.Reader) where
  -- The chunks were read one after the other, each was written whole before the next was read, and
  -- then the input was at its end.
  pub data Transfer : List Bytes → R.World → R.World → Type 0 where
    finish : {w w' : R.World} → R.read reader chunk_size w ≡ (done [], w') → Transfer [] w w'
    chunk :
        {b : ℕ} {bs : Bytes} {chunks : List Bytes} {w w1 w2 w' : R.World}
        → R.read reader chunk_size w ≡ (done (b ∷ bs), w1)
        → R.write_all s (b ∷ bs) w1 ≡ (done tt, w2)
        → Transfer chunks w2 w'
        → Transfer ((b ∷ bs) ∷ chunks) w w'

  last_round :
      (fuel total : ℕ) {w w' : R.World}
      → R.read reader chunk_size w ≡ (done [], w')
      → stream_loop R (suc fuel) s reader total w ≡ some (ok total, w')
  unfolding stream_loop
  last_round fuel total e = rw e

  chunk_round :
      (fuel total : ℕ) {b : ℕ} {bs : Bytes} {w w1 w2 : R.World}
      → R.read reader chunk_size w ≡ (done (b ∷ bs), w1)
      → R.write_all s (b ∷ bs) w1 ≡ (done tt, w2)
      → stream_loop R (suc fuel) s reader total w
        ≡ stream_loop R fuel s reader ((total + length (b ∷ bs)) % 2 ^ 64) w2
  unfolding stream_loop
  chunk_round fuel total e f = rw e (rw f)

  carried :
      (chunks : List Bytes) (fuel total : ℕ) {w w' : R.World}
      → Transfer chunks w w'
      → length chunks < fuel
      → total < 2 ^ 64
      → stream_loop R fuel s reader total w ≡ some (ok ((total + size chunks) % 2 ^ 64), w')
  carried chunks zero total t h k = absurd (omega arith)
  carried [] (suc fuel) total {w'} (finish e) h k =
      last_round fuel total e ∙ ap (λ n. some (ok n, w')) (omega arith)
  carried (c ∷ chunks) (suc fuel) total {w'} (chunk e f t) h k =
      chunk_round fuel total e f
      ∙ carried chunks fuel ((total + length c) % 2 ^ 64) t (omega arith) (omega arith)
      ∙ ap (λ n. some (ok n, w')) (omega arith)

  -- Chunks were read and written whole one after the other, and then a read failed, or the write of
  -- one more chunk.
  pub data Stopped (x : IoError) : List Bytes → R.World → R.World → Type 0 where
    unread : {w w' : R.World} → R.read reader chunk_size w ≡ (fault x, w') → Stopped x [] w w'
    unwritten :
        {b : ℕ} {bs : Bytes} {w w1 w' : R.World}
        → R.read reader chunk_size w ≡ (done (b ∷ bs), w1)
        → R.write_all s (b ∷ bs) w1 ≡ (fault x, w')
        → Stopped x [] w w'
    behind :
        {b : ℕ} {bs : Bytes} {chunks : List Bytes} {w w1 w2 w' : R.World}
        → R.read reader chunk_size w ≡ (done (b ∷ bs), w1)
        → R.write_all s (b ∷ bs) w1 ≡ (done tt, w2)
        → Stopped x chunks w2 w'
        → Stopped x ((b ∷ bs) ∷ chunks) w w'

  -- What a run that returned was: a transfer if it gave a number of bytes, and otherwise one that
  -- the I/O error of a read or a write stopped.
  abbrev pub Explained : ℕ → R.World → Result ℕ × R.World → Type 0
  Explained total w (ok n, w') =
      (chunks : List Bytes) × Transfer chunks w w' × (n ≡ (total + size chunks) % 2 ^ 64)
  Explained total w (err e, w') =
      (x : IoError) × (chunks : List Bytes) × Stopped x chunks w w' × (e ≡ connection x)

  read_failed :
      (fuel total : ℕ) {w w1 : R.World} {x : IoError}
      → R.read reader chunk_size w ≡ (fault x, w1)
      → stream_loop R (suc fuel) s reader total w ≡ some (err (connection x), w1)
  unfolding stream_loop
  read_failed fuel total e = rw e

  write_failed :
      (fuel total : ℕ) {b : ℕ} {bs : Bytes} {w w1 w2 : R.World} {x : IoError}
      → R.read reader chunk_size w ≡ (done (b ∷ bs), w1)
      → R.write_all s (b ∷ bs) w1 ≡ (fault x, w2)
      → stream_loop R (suc fuel) s reader total w ≡ some (err (connection x), w2)
  unfolding stream_loop
  write_failed fuel total e f = rw e (rw f)

  halted :
      (x : IoError) (chunks : List Bytes) (fuel total : ℕ) {w w' : R.World}
      → Stopped x chunks w w'
      → length chunks < fuel
      → stream_loop R fuel s reader total w ≡ some (err (connection x), w')
  halted x chunks zero total t h = absurd (omega arith)
  halted x [] (suc fuel) total (unread e) h = read_failed fuel total e
  halted x [] (suc fuel) total (unwritten e f) h = write_failed fuel total e f
  halted x (c ∷ chunks) (suc fuel) total (behind e f t) h =
      chunk_round fuel total e f
      ∙ halted x chunks fuel ((total + length c) % 2 ^ 64) t (omega arith)

  extended :
      (total : ℕ) {b : ℕ} {bs : Bytes} {w w1 w2 : R.World} (r : Result ℕ × R.World)
      → R.read reader chunk_size w ≡ (done (b ∷ bs), w1)
      → R.write_all s (b ∷ bs) w1 ≡ (done tt, w2)
      → Explained ((total + length (b ∷ bs)) % 2 ^ 64) w2 r
      → Explained total w r
  extended total {b} {bs} (ok n, w') e f (chunks, t, q) =
      ((b ∷ bs) ∷ chunks, chunk e f t, omega arith)
  extended total {b} {bs} (err e', w') e f (x, chunks, t, q) =
      (x, (b ∷ bs) ∷ chunks, behind e f t, q)

  returned : {a b : Result ℕ × R.World} {o : Streamed R} → o ≡ some a → o ≡ some b → a ≡ b
  returned p q = cc

  explained :
      (fuel total : ℕ) (w : R.World) (r : Result ℕ × R.World)
      → stream_loop R fuel s reader total w ≡ some r
      → total < 2 ^ 64
      → Explained total w r
  explained zero total w r e k = unfold stream_loop in cc
  explained (suc fuel) total w r e k =
      read_result (R.read reader chunk_size w) refl (λ total w. explained fuel total w r)
    where
      Rest : Type 0
      Rest =
          (total : ℕ) (w : R.World)
          → stream_loop R fuel s reader total w ≡ some r
          → total < 2 ^ 64
          → Explained total w r

      write_result :
          (b : ℕ) (bs : Bytes) (w1 : R.World) (x : IoResult (Unit {0}) × R.World)
          → R.read reader chunk_size w ≡ (done (b ∷ bs), w1)
          → R.write_all s (b ∷ bs) w1 ≡ x
          → Rest
          → Explained total w r
      write_result b bs w1 (fault x, w2) q f rest =
          subst (Explained total w) (returned (write_failed fuel total q f) e)
            (x, [], unwritten q f, refl)
      write_result b bs w1 (done tt, w2) q f rest = extended total r q f (
          rest ((total + length (b ∷ bs)) % 2 ^ 64) w2 (sym (chunk_round fuel total q f) ∙ e)
            (omega arith))

      read_result :
          (x : IoResult Bytes × R.World)
          → R.read reader chunk_size w ≡ x
          → Rest
          → Explained total w r
      read_result (fault x, w1) q rest =
          subst (Explained total w) (returned (read_failed fuel total q) e) (x, [], unread q, refl)
      read_result (done [], w1) q rest =
          subst (Explained total w) (returned (last_round fuel total q) e)
            ([], finish q, omega arith)
      read_result (done (b ∷ bs), w1) q rest =
          write_result b bs w1 (R.write_all s (b ∷ bs) w1) q refl rest

-- A transfer of chunks is carried out by `stream`, given more fuel than there are chunks: it
-- returns the number of their bytes, modulo 2 ^ 64.
pub stream-Transfer :
    (R : Runtime) (i : Installation R) (reader : R.Reader) (chunks : List Bytes) (fuel : ℕ)
    (w w' : R.World)
    → Transfer R i.client.stream reader chunks w w'
    → length chunks < fuel
    → stream R fuel i reader w ≡ some (ok (size chunks % 2 ^ 64), w')
unfolding stream
stream-Transfer R i reader chunks fuel w w' t h =
    carried R i.client.stream reader chunks fuel 0 t h (omega arith)
    ∙ ap (λ n. some (ok n, w')) (omega arith)

-- A transfer that an I/O error stops is carried out up to the error, given more fuel than there are
-- chunks before it.
pub stream-Stopped :
    (R : Runtime) (i : Installation R) (reader : R.Reader) (x : IoError) (chunks : List Bytes)
    (fuel : ℕ) (w w' : R.World)
    → Stopped R i.client.stream reader x chunks w w'
    → length chunks < fuel
    → stream R fuel i reader w ≡ some (err (connection x), w')
unfolding stream
stream-Stopped R i reader x chunks fuel w w' t h =
    halted R i.client.stream reader x chunks fuel 0 t h

-- Whenever `stream` returns, whatever the fuel: it has carried out a transfer of chunks and gives
-- the number of their bytes modulo 2 ^ 64, or it has read and written some chunks whole, one after
-- the other, and gives the I/O error of the next read, or of the write of one more chunk.
pub stream-Explained :
    (R : Runtime) (i : Installation R) (reader : R.Reader) (fuel : ℕ) (w : R.World)
    (r : Result ℕ × R.World)
    → stream R fuel i reader w ≡ some r
    → Explained R i.client.stream reader 0 w r
unfolding stream
stream-Explained R i reader fuel w r e =
    explained R i.client.stream reader fuel 0 w r e (omega arith)
