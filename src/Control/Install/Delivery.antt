-- ===== src/Control/Install/Delivery.antt =====
-- src/control.rs: `stream` over the runtime in memory, from the input to what was sent.
use swupdate_rs.Runtime.Memory.{memory, World, to_bytes}
use swupdate_rs.Text.{Text}
use swupdate_rs.Common.{
  ℕ, zero, suc, refl, ◌≡◌, sym, ap, ◌∙◌, append_assoc, append-nil, Bytes, All, IsByte, ◌∷◌, [],
  ◌++◌, List, length, take, ◌<◌, ◌%◌, ◌≤◌, some, arith, ◌^◌, drop, length-drop, All-drop, All-take,
  take-append-drop, length-take,
}
use swupdate_rs.Control.Install.{stream, Installation, chunk_size}
use mathlib.Core.Path.{subst}
use swupdate_rs.Error.{done, ok}
use swupdate_rs.Control.Install.Stream.{chunk, finish, Transfer, size, stream-Transfer}

pub bytes_kept : (bs : Bytes) → All IsByte bs → to_bytes bs ≡ bs
bytes_kept [] h = refl
bytes_kept (b ∷ bs) (hb, hbs) = cc (byte b hb, bytes_kept bs hbs)
  where
    byte : (b : ℕ) → IsByte b → b % 256 ≡ b
    byte b h = omega arith

-- The world behind a delivery.
abbrev pub delivered : World → World
delivered w = record w { sent = w.sent ++ w.input; input = [] }

-- A transfer that delivers the whole input, in no more chunks than there are bytes.
abbrev Delivery : Text → Text → World → Type 0
Delivery s reader w =
    (chunks : List Bytes) × Transfer memory s reader chunks w (delivered w)
    × (size chunks ≡ length w.input)
    × (length chunks ≤ length w.input)

nothing_left :
    (s reader : Text) (w : World) → w.input ≡ [] → Transfer memory s reader [] w (delivered w)
nothing_left s reader w e = finish (rw e (cc (append-nil w.sent)))

-- The world behind the first round.
abbrev one_sent : World → World
one_sent w = record w { sent = w.sent ++ take chunk_size w.input; input = drop chunk_size w.input }

one_more :
    (s reader : Text) (w : World) (b : ℕ) (bs : Bytes)
    → w.input ≡ b ∷ bs
    → All IsByte w.input
    → Delivery s reader (one_sent w)
    → Delivery s reader w
one_more s reader w b bs e h (chunks, t, sized, few) =
    let first : take chunk_size w.input ≡ b ∷ take 8191 bs = ap (take chunk_size) e in
    (
      (b ∷ take 8191 bs) ∷ chunks,
      chunk (chunk_read w first h) (chunk_written s w first)
          (subst (Transfer memory s reader chunks (one_sent w)) (same_end w) t),
      omega (
        arith,
        sized,
        ap (λ (xs : Bytes). length xs) e,
        length-take 8191 bs,
        length-drop chunk_size w.input,
      ),
      omega (arith, few, ap (λ (xs : Bytes). length xs) e, length-drop chunk_size w.input),
    )
  where
    chunk_read :
        (w : World) {bytes : Bytes}
        → take chunk_size w.input ≡ bytes
        → All IsByte w.input
        → memory.read reader chunk_size w
          ≡ (done bytes, record w { input = drop chunk_size w.input })
    chunk_read w q h =
        ap (λ bytes. (done bytes, record w { input = drop chunk_size w.input }))
          (bytes_kept (take chunk_size w.input) (All-take IsByte chunk_size w.input h) ∙ q)

    chunk_written :
        (s : Text) (w : World) {bytes : Bytes}
        → take chunk_size w.input ≡ bytes
        → memory.write_all s bytes (record w { input = drop chunk_size w.input })
          ≡ (done tt, one_sent w)
    chunk_written s w q =
        ap
          (λ bytes. (done tt, record w { sent = w.sent ++ bytes; input = drop chunk_size w.input }))
          (sym q)

    same_end : (w : World) → delivered (one_sent w) ≡ delivered w
    same_end w =
        ap (λ sent. record w { sent = sent; input = [] })
          (append_assoc w.sent (take chunk_size w.input) (drop chunk_size w.input)
            ∙ ap (λ bytes. w.sent ++ bytes) (take-append-drop chunk_size w.input))

delivery :
    (k : ℕ) (s reader : Text) (w : World) (input : Bytes)
    → w.input ≡ input
    → length input ≤ k
    → All IsByte input
    → Delivery s reader w
delivery k s reader w [] e h b = ([], nothing_left s reader w e, rw e refl, omega arith)
delivery zero s reader w (x ∷ input) e h b = absurd (omega arith)
delivery (suc k) s reader w (x ∷ input) e h b = one_more s reader w x input e (rw e b) (
    delivery k s reader (one_sent w) (drop 8191 input) (rw e refl)
      (omega (arith, length-drop 8191 input)) (All-drop IsByte 8191 input b.1))

-- Over the runtime in memory, whatever bytes there are to read: `stream`, given more fuel than
-- there are bytes, returns their number modulo 2 ^ 64, has sent exactly these bytes in order behind
-- what was sent before, and has read all of them.
pub stream-delivered :
    (i : Installation memory) (reader : Text) (fuel : ℕ) (w : World)
    → All IsByte w.input
    → length w.input < fuel
    → stream memory fuel i reader w ≡ some (ok (length w.input % 2 ^ 64), delivered w)
stream-delivered i reader fuel w b h =
    let (chunks, t, sized, few) =
      delivery (length w.input) i.client.stream reader w w.input refl (omega arith) b in
    stream-Transfer memory i reader chunks fuel w (delivered w) t (omega arith)
    ∙ ap (λ n. some (ok (n % 2 ^ 64), delivered w)) sized
