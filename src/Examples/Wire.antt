-- ===== src/Examples/Wire.antt =====
-- Texts, messages and layouts of the wire.
use swupdate_rs.Wire.Message.Serial.{ipc_message_from_bytes_iff}
use swupdate_rs.Text.Lossy.{fit}
use swupdate_rs.Wire.Cstring.Roundtrip.{write_cstr-terminated, cstr_from_bytes-write_cstr}
use swupdate_rs.Text.{Text, IsScalar, from_utf8_lossy, as_bytes}
use swupdate_rs.Wire.Cstring.{cstr_from_bytes, write_cstr}
use swupdate_rs.Wire.Message.{
  RawIpcMessage, ipc_message_from_bytes, IsMessage, ipc_message_to_bytes,
}
use swupdate_rs.Common.{
  ◌↔◌, refl, ◌≡◌, All, slice, Bytes, some, ◌∷◌, arith, replicate, [], All-replicate, IsByte, splice,
  from_ne_bytes,
}

-- A text of three characters in four bytes, the second of two bytes.
abbrev hej : Text
hej = b'h' ∷ 0xe9 ∷ b'j' ∷ []

hej-IsScalar : All IsScalar hej
hej-IsScalar = omega arith

-- Three bytes hold one character and the half of another.
cut : cstr_from_bytes (write_cstr (replicate 3 0) hej) ≡ b'h' ∷ 0xfffd ∷ []
unfolding cstr_from_bytes write_cstr from_utf8_lossy as_bytes splice
cut = refl

cstr_from_bytes-write_cstr_example : cstr_from_bytes (write_cstr (replicate 3 0) hej) ≡ fit 2 hej
cstr_from_bytes-write_cstr_example =
    cstr_from_bytes-write_cstr 3 hej (omega arith) hej-IsScalar (omega arith)

write_cstr-terminated_example : slice 2 1 (write_cstr (replicate 3 0) hej) ≡ 0 ∷ []
write_cstr-terminated_example = write_cstr-terminated 3 hej (omega arith)

-- 3120 bytes 1
abbrev ones : Bytes
ones = replicate 3120 1

abbrev message_of_ones : RawIpcMessage
message_of_ones = record { magic = 0x01010101; msg_type = 0x01010101; body = replicate 3112 1 }

ipc_message_from_bytes_iff_example :
    (ipc_message_from_bytes ones ≡ some message_of_ones)
    ↔ ((ipc_message_to_bytes message_of_ones ≡ ones) × IsMessage message_of_ones)
ipc_message_from_bytes_iff_example =
    ipc_message_from_bytes_iff ones message_of_ones (All-replicate IsByte 3120 1 (omega arith))

ones_read : ipc_message_from_bytes ones ≡ some message_of_ones
unfolding ipc_message_from_bytes from_ne_bytes slice
ones_read = refl
