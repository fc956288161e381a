-- ===== src/Progress/Client/Receive.antt =====
-- src/progress.rs: the receipt of events, and what a reconnection leaves in place.
use swupdate_rs.Common.{ℕ, ◌≡◌, refl, ◌⊎◌, inl, inr, Bytes, arith, IsU32}
use swupdate_rs.Error.{
  Error, connection, Result, ok, err, IoError, IoResult, done, fault, continue, from_io,
}
use swupdate_rs.Runtime.{Runtime}
use swupdate_rs.Wire.Constants.{packed, unpacked, msg_size, ProgressLayout}
use swupdate_rs.Wire.ProgressMsg.{
  RawProgressMsg, join, packed_parts, packed_from_bytes, unpacked_parts, unpacked_from_bytes,
}
use swupdate_rs.Wire.ProgressMsg.Parts.{IsPacked}
use swupdate_rs.Types.Event.{ProgressEvent, from_raw, from_raw_unpacked}
use swupdate_rs.Types.Event.Laws.{unpack}
use swupdate_rs.Progress.Client.Encoded.{receive-Encoded}
use swupdate_rs.Socket.{connect_progress}
use swupdate_rs.Error.{pure}
use swupdate_rs.Progress.Client.{
  receive_in, first_received, replaced, received, receive_again, ProgressClient, receive, reconnect,
  receive_or_reconnect,
}

-- The client's settings are those of before, and its stream is the old one or one that was opened
-- at the configured path.
abbrev pub Continues : (R : Runtime) → ProgressClient R → ProgressClient R → Type 0
Continues R c d =
    (d.config ≡ c.config)
    × (d.layout ≡ c.layout)
    × ((d.stream ≡ c.stream)
        ⊎ ((w w' : R.World) × (connect_progress R c.config w ≡ (ok d.stream, w'))))

module _ (R : Runtime) where
  -- Where the values of a message fit its fields, and its bytes in the packed layout arrive at a
  -- client of that layout and its bytes in the unpacked layout at a client of that one, both
  -- receive the message's event, whatever the two paddings hold.
  pub receive-message :
      (c d : ProgressClient R) (m : RawProgressMsg) (align tail : ℕ) (v v' w w' : R.World)
      → IsPacked m
      → IsU32 align
      → IsU32 tail
      → c.layout ≡ packed
      → d.layout ≡ unpacked
      → R.read_exact c.stream 2408 v ≡ (done (join (packed_parts m)), v')
      → R.read_exact d.stream 2416 w ≡ (done (join (unpacked_parts (unpack m align tail))), w')
      → (receive R c v ≡ (ok (from_raw m), v')) × (receive R d w ≡ (ok (from_raw m), w'))
  unfolding msg_size
  receive-message c d m align tail v v' w w' h ha ht lc ld rc rd = (
    receive-Encoded R c m (join (packed_parts m)) v v' h (rw lc refl) (rw lc rc),
    receive-Encoded R d m (join (unpacked_parts (unpack m align tail))) w w' h
        (rw ld (align, tail, ha, ht, refl)) (rw ld rd),
  )

  replaced-Continues :
      (c : ProgressClient R) (w : R.World) (r : Result R.Stream × R.World)
      → connect_progress R c.config w ≡ r
      → Continues R c (replaced R c r).1.0
  unfolding replaced
  replaced-Continues c w (ok s, w') e = (refl, refl, inr (w, w', e))
  replaced-Continues c w (err x, w') e = (refl, refl, inl refl)

  reconnect-Continues :
      (c : ProgressClient R) (w : R.World) → Continues R c (reconnect R (c, w)).1.0
  unfolding reconnect
  reconnect-Continues c w = replaced-Continues c (R.shutdown c.stream w).1 _ refl

  again-Continues :
      (c : ProgressClient R) (q : Result (Unit {0}) × (ProgressClient R × R.World))
      → Continues R c q.1.0
      → Continues R c (continue q (λ _. receive_again R)).1.0
  unfolding received
  again-Continues c (ok u, s) h = h
  again-Continues c (err e, s) h = h

  first_received-Continues :
      (c : ProgressClient R) (r : Result ProgressEvent × R.World)
      → Continues R c (first_received R c r).1.0
  unfolding first_received
  first_received-Continues c (ok event, w) = (refl, refl, inl refl)
  first_received-Continues c (err (connection e), w) =
      again-Continues c (reconnect R (c, w)) (reconnect-Continues c w)
  first_received-Continues c (err _, w) = (refl, refl, inl refl)

  -- Whatever happens in `receive_or_reconnect`, the client keeps its settings and layout, and it
  -- holds its old stream or one that was opened at the configured path.
  pub receive_or_reconnect-Continues :
      (c : ProgressClient R) (w : R.World) → Continues R c (receive_or_reconnect R (c, w)).1.0
  unfolding receive_or_reconnect
  receive_or_reconnect-Continues c w = first_received-Continues c (receive R c w)

  packed_error :
      (s : R.Stream) (w w' : R.World) (e : Error)
      → receive_in R packed s w ≡ (err e, w')
      → (x : IoError) × (e ≡ connection x)
  unfolding receive_in
  packed_error s w w' e h = read_result (R.read_exact s (msg_size packed) w) h
    where
      read_result :
          (r : IoResult Bytes × R.World)
          → continue
              (continue (from_io r.0, r.1) (λ bytes. pure (packed_from_bytes bytes)))
              (λ raw. pure (from_raw raw))
            ≡ (err e, w')
          → (x : IoError) × (e ≡ connection x)
      read_result (fault x, w1) h = (x, ground arith)
      read_result (done bs, w1) h = cc

  unpacked_error :
      (s : R.Stream) (w w' : R.World) (e : Error)
      → receive_in R unpacked s w ≡ (err e, w')
      → (x : IoError) × (e ≡ connection x)
  unfolding receive_in
  unpacked_error s w w' e h = read_result (R.read_exact s (msg_size unpacked) w) h
    where
      read_result :
          (r : IoResult Bytes × R.World)
          → continue
              (continue (from_io r.0, r.1) (λ bytes. pure (unpacked_from_bytes bytes)))
              (λ raw. pure (from_raw_unpacked raw))
            ≡ (err e, w')
          → (x : IoError) × (e ≡ connection x)
      read_result (fault x, w1) h = (x, ground arith)
      read_result (done bs, w1) h = cc

  -- A receipt that fails does so by an I/O error: every message of the right size is an event.
  pub receive-error :
      (c : ProgressClient R) (w w' : R.World) (e : Error)
      → receive R c w ≡ (err e, w')
      → (x : IoError) × (e ≡ connection x)
  unfolding receive
  receive-error c w w' e h = by_layout c.layout h
    where
      by_layout :
          (layout : ProgressLayout)
          → receive_in R layout c.stream w ≡ (err e, w')
          → (x : IoError) × (e ≡ connection x)
      by_layout packed h = packed_error c.stream w w' e h
      by_layout unpacked h = unpacked_error c.stream w w' e h

  fault_in :
      (c : ProgressClient R) (x : IoError) (layout : ProgressLayout) (w w' : R.World)
      → R.read_exact c.stream (msg_size layout) w ≡ (fault x, w')
      → receive_in R layout c.stream w ≡ (err (connection x), w')
  unfolding receive_in
  fault_in c x packed w w' e = rw e refl
  fault_in c x unpacked w w' e = rw e refl

  -- A read that fails is the error of the receipt.
  pub receive_fault :
      (c : ProgressClient R) (x : IoError) (w w' : R.World)
      → R.read_exact c.stream (msg_size c.layout) w ≡ (fault x, w')
      → receive R c w ≡ (err (connection x), w')
  unfolding receive
  receive_fault c x w w' e = fault_in c x c.layout w w' e
