-- ===== src/Control/Install/Bounds.antt =====
-- src/control.rs: the sizes of the chunks of a transfer, and the total against the `u64` that
-- counts it.
use swupdate_rs.Common.{
  ℕ, ◌*◌, ◌^◌, ◌<◌, ◌≤◌, ◌≡◌, ◌∙◌, ap, some, List, [], ◌∷◌, Bytes, All, length, arith,
}
use swupdate_rs.Error.{ok}
use swupdate_rs.Runtime.{Runtime, IsLawful}
use swupdate_rs.Control.Install.{Installation, stream, chunk_size}
use swupdate_rs.Control.Install.Stream.{Transfer, finish, chunk, size, stream-Transfer}

-- A chunk has at least one byte, and fits the buffer.
abbrev pub IsChunk : Bytes → Type 0
IsChunk c = (1 ≤ length c) × (length c ≤ 8_192)

Transfer-IsChunk :
    (R : Runtime) (s : R.Stream) (reader : R.Reader) (chunks : List Bytes) {w w' : R.World}
    → IsLawful R
    → Transfer R s reader chunks w w'
    → All IsChunk chunks
Transfer-IsChunk R s reader [] lawful (finish e) = tt
Transfer-IsChunk R s reader (c ∷ chunks) lawful (chunk e f t) = (
  (omega arith, (lawful.read_bounded reader chunk_size _ _ c e).0),
  Transfer-IsChunk R s reader chunks lawful t,
)

-- The total lies between the number of the chunks and that many full buffers.
size_bounds :
    (chunks : List Bytes)
    → All IsChunk chunks
    → (length chunks ≤ size chunks) × (size chunks ≤ 8_192 * length chunks)
size_bounds [] h = (omega arith, omega arith)
size_bounds (c ∷ chunks) ((lo, hi), hs) =
    let (l, u) = size_bounds chunks hs in (omega arith, omega arith)

-- Over a runtime that fills no more of a buffer than it has, and for fewer than 2 ^ 51 chunks:
-- each chunk of a transfer has 1 to 8192 bytes, and `stream`, given more fuel than there are
-- chunks, returns the exact number of their bytes, which lies between the number of the chunks and
-- 8192 times that; the 64-bit counter does not wrap around.
pub stream-exact :
    (R : Runtime) (i : Installation R) (reader : R.Reader) (chunks : List Bytes) (fuel : ℕ)
    (w w' : R.World)
    → IsLawful R
    → Transfer R i.client.stream reader chunks w w'
    → length chunks < fuel
    → length chunks < 2 ^ 51
    → (stream R fuel i reader w ≡ some (ok (size chunks), w'))
      × All IsChunk chunks
      × (length chunks ≤ size chunks)
      × (size chunks ≤ 8_192 * length chunks)
stream-exact R i reader chunks fuel w w' lawful t enough few =
    let sized = Transfer-IsChunk R i.client.stream reader chunks lawful t in
    let (lo, hi) = size_bounds chunks sized in
    (
      stream-Transfer R i reader chunks fuel w w' t enough
          ∙ ap (λ n. some (ok n, w')) (omega arith),
      sized,
      lo,
      hi,
    )
