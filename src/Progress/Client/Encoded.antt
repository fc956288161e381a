-- ===== src/Progress/Client/Encoded.antt =====
-- src/progress.rs: the receipt of a message that arrives in the client's layout.
use swupdate_rs.Common.{ℕ, ◌≡◌, ap, ◌∙◌, sym, Bytes, IsU32}
use swupdate_rs.Error.{ok, done}
use swupdate_rs.Runtime.{Runtime}
use swupdate_rs.Types.Event.{from_raw, from_raw_unpacked}
use swupdate_rs.Types.Event.Laws.{unpack, from_raw-from_raw_unpacked}
use swupdate_rs.Wire.Constants.{ProgressLayout, packed, unpacked, msg_size}
use swupdate_rs.Wire.ProgressMsg.{
  RawProgressMsg, join, packed_parts, packed_from_bytes, unpacked_parts, unpacked_from_bytes,
}
use swupdate_rs.Wire.ProgressMsg.Parts.{IsPacked, packed_from_bytes-join}
use swupdate_rs.Progress.Client.{ProgressClient, receive, receive_in}

-- The bytes of the message in a layout; the two paddings of the older one hold any values.
abbrev pub Encoded : ProgressLayout → RawProgressMsg → Bytes → Type 0
Encoded packed m bs = bs ≡ join (packed_parts m)
Encoded unpacked m bs =
    (align : ℕ) × (tail : ℕ) × IsU32 align
    × IsU32 tail
    × (bs ≡ join (unpacked_parts (unpack m align tail)))

module _ (R : Runtime) where
  received_in :
      (layout : ProgressLayout) (s : R.Stream) (m : RawProgressMsg) (bs : Bytes) (w w' : R.World)
      → IsPacked m
      → Encoded layout m bs
      → R.read_exact s (msg_size layout) w ≡ (done bs, w')
      → receive_in R layout s w ≡ (ok (from_raw m), w')
  unfolding receive_in
  received_in packed s m bs w w' h e r =
      rw r
        (ap (λ raw. (ok (from_raw raw), w')) (ap packed_from_bytes e ∙ packed_from_bytes-join m h))
  received_in unpacked s m bs w w' h (align, tail, ha, ht, e) r = rw r (
      ap (λ event. (ok event, w'))
        (ap (λ b. from_raw_unpacked (unpacked_from_bytes b)) e
          ∙ sym (from_raw-from_raw_unpacked m align tail h ha ht)
          ∙ ap from_raw (packed_from_bytes-join m h)))

  -- A message whose values fit its fields is received as its event.
  pub receive-Encoded :
      (c : ProgressClient R) (m : RawProgressMsg) (bs : Bytes) (w w' : R.World)
      → IsPacked m
      → Encoded c.layout m bs
      → R.read_exact c.stream (msg_size c.layout) w ≡ (done bs, w')
      → receive R c w ≡ (ok (from_raw m), w')
  unfolding receive
  receive-Encoded c m bs w w' h e r = received_in c.layout c.stream m bs w w' h e r
