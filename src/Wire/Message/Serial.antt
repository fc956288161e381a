-- ===== src/Wire/Message/Serial.antt =====
-- src/wire.rs: `ipc_message_to_bytes` against `ipc_message_from_bytes`.
use native.Mathlib.Decide.{ℕ_discrete}
use swupdate_rs.Common.{
  ℕ, ◌+◌, ◌≡◌, refl, ap, none, some, [], ◌∷◌, ◌++◌, Bytes, IsByte, All, length, ==_iff, slice, take,
  drop, to_ne_bytes, from_ne_bytes, arith, length-append, ◌↔◌, ◌∙◌, ◌≤◌, sym,
  from_ne_bytes-to_ne_bytes, length-to_ne_bytes, ◌≢◌, ◌<◌, length-drop, take-append-drop, All-drop,
  ◌^◌, length-slice, from_ne_bytes-lt, to_ne_bytes-from_ne_bytes, All-slice,
}
use swupdate_rs.Wire.Layout.Slots.{ipc_message_size}
use swupdate_rs.Wire.Message.{
  RawIpcMessage, IsMessage, ipc_message_to_bytes, ipc_message_from_bytes,
}

-- The serialised message has the size that the reader asks for.
pub length-ipc_message_to_bytes :
    (m : RawIpcMessage) → IsMessage m → length (ipc_message_to_bytes m) ≡ ipc_message_size
unfolding ipc_message_to_bytes to_ne_bytes
length-ipc_message_to_bytes m h = omega (
  arith,
  length-append (to_ne_bytes 4 m.magic) (to_ne_bytes 4 m.msg_type ++ m.body),
  length-append (to_ne_bytes 4 m.msg_type) m.body,
  length-to_ne_bytes 4 m.magic,
  length-to_ne_bytes 4 m.msg_type,
)

pub from_bytes_sized :
    (buf : Bytes)
    → length buf ≡ ipc_message_size
    → ipc_message_from_bytes buf
      ≡ some (record {
        magic = from_ne_bytes (slice 0 4 buf);
        msg_type = from_ne_bytes (slice 4 4 buf);
        body = drop 8 buf;
      })
unfolding ipc_message_from_bytes
from_bytes_sized buf h = rw ((==_iff (length buf) ipc_message_size).1 h)

-- The first field and the second of what was serialised.
first_int :
    (v w : ℕ) (rest : Bytes)
    → slice 0 4 (to_ne_bytes 4 v ++ (to_ne_bytes 4 w ++ rest)) ≡ to_ne_bytes 4 v
unfolding slice to_ne_bytes
first_int v w rest = refl

second_int :
    (v w : ℕ) (rest : Bytes)
    → slice 4 4 (to_ne_bytes 4 v ++ (to_ne_bytes 4 w ++ rest)) ≡ to_ne_bytes 4 w
unfolding slice to_ne_bytes
second_int v w rest = refl

third_part : (v w : ℕ) (rest : Bytes) → drop 8 (to_ne_bytes 4 v ++ (to_ne_bytes 4 w ++ rest)) ≡ rest
unfolding to_ne_bytes
third_part v w rest = refl

-- A well-formed message is read back from its own bytes.
pub ipc_message_from_bytes-to_bytes :
    (m : RawIpcMessage) → IsMessage m → ipc_message_from_bytes (ipc_message_to_bytes m) ≡ some m
ipc_message_from_bytes-to_bytes m h =
    from_bytes_sized (ipc_message_to_bytes m) (length-ipc_message_to_bytes m h)
    ∙ unfold ipc_message_to_bytes in
      cc (
        ap from_ne_bytes (first_int m.magic m.msg_type m.body),
        from_ne_bytes-to_ne_bytes 4 m.magic h.magic_fits,
        ap from_ne_bytes (second_int m.magic m.msg_type m.body),
        from_ne_bytes-to_ne_bytes 4 m.msg_type h.msg_type_fits,
        third_part m.magic m.msg_type m.body,
      )

-- Only a buffer of the size of a message is read.
pub ipc_message_from_bytes-none :
    (buf : Bytes) → (ipc_message_from_bytes buf ≡ none) ↔ (length buf ≢ ipc_message_size)
unfolding ipc_message_from_bytes
ipc_message_from_bytes-none buf = ground arith

int_back :
    (o : ℕ) (buf : Bytes)
    → o + 4 ≤ length buf
    → All IsByte buf
    → to_ne_bytes 4 (from_ne_bytes (slice o 4 buf)) ≡ slice o 4 buf
int_back o buf h b =
    ap (λ n. to_ne_bytes n (from_ne_bytes (slice o 4 buf))) (sym (length-slice o 4 buf h))
    ∙ to_ne_bytes-from_ne_bytes (slice o 4 buf) (All-slice IsByte o 4 buf b)

int_fits :
    (o : ℕ) (buf : Bytes)
    → o + 4 ≤ length buf
    → All IsByte buf
    → from_ne_bytes (slice o 4 buf) < 2 ^ 32
int_fits o buf h b =
    let below = from_ne_bytes-lt (slice o 4 buf) (All-slice IsByte o 4 buf b) in
    rw (length-slice o 4 buf h) at below

three_parts : (buf : Bytes) → slice 0 4 buf ++ (slice 4 4 buf ++ drop 8 buf) ≡ buf
unfolding slice
three_parts buf =
    ap (λ t. take 4 buf ++ t)
      (ap (λ t. take 4 (drop 4 buf) ++ t) (drop-drop buf) ∙ take-append-drop 4 (drop 4 buf))
    ∙ take-append-drop 4 buf
  where
    drop-drop : (buf : Bytes) → drop 8 buf ≡ drop 4 (drop 4 buf)
    drop-drop [] = refl
    drop-drop (a ∷ []) = refl
    drop-drop (a ∷ b ∷ []) = refl
    drop-drop (a ∷ b ∷ c ∷ []) = refl
    drop-drop (a ∷ b ∷ c ∷ d ∷ bs) = refl

-- A message that was read from bytes is well-formed, and its bytes are those that arrived.
pub ipc_message_to_bytes-from_bytes :
    (buf : Bytes) (m : RawIpcMessage)
    → All IsByte buf
    → ipc_message_from_bytes buf ≡ some m
    → (ipc_message_to_bytes m ≡ buf) × IsMessage m
ipc_message_to_bytes-from_bytes buf m b e = elim (ℕ_discrete (length buf) ipc_message_size) [
  | yes h ↦ same m (cc (from_bytes_sized buf h, e)) h
  | no h ↦ cc ((ipc_message_from_bytes-none buf).1 h, e)
]
  where
    same :
        (m : RawIpcMessage)
        → ◌≡◌ {A = RawIpcMessage}
            (record {
              magic = from_ne_bytes (slice 0 4 buf);
              msg_type = from_ne_bytes (slice 4 4 buf);
              body = drop 8 buf;
            })
            m
        → length buf ≡ ipc_message_size
        → (ipc_message_to_bytes m ≡ buf) × IsMessage m
    same m q h = rw (← q) (
      unfold ipc_message_to_bytes in
          (ap (λ t. t ++ (to_ne_bytes 4 (from_ne_bytes (slice 4 4 buf)) ++ drop 8 buf))
              (int_back 0 buf (omega arith) b)
            ∙ ap (λ t. slice 0 4 buf ++ (t ++ drop 8 buf)) (int_back 4 buf (omega arith) b)
            ∙ three_parts buf),
      record {
        magic_fits = int_fits 0 buf (omega arith) b;
        msg_type_fits = int_fits 4 buf (omega arith) b;
        body_size = omega (arith, length-drop 8 buf);
        body_bytes = All-drop IsByte 8 buf b;
      },
    )

-- Bytes are read as a message exactly if they are the bytes of it and it is well-formed: its two
-- integers have 32 bits, and its union is as many bytes as the layout gives it.
pub ipc_message_from_bytes_iff :
    (buf : Bytes) (m : RawIpcMessage)
    → All IsByte buf
    → (ipc_message_from_bytes buf ≡ some m) ↔ ((ipc_message_to_bytes m ≡ buf) × IsMessage m)
ipc_message_from_bytes_iff buf m b = (
  λ e. ipc_message_to_bytes-from_bytes buf m b e,
  λ (e, h). ap ipc_message_from_bytes (sym e) ∙ ipc_message_from_bytes-to_bytes m h,
)
