-- ===== src/Wire/Message.antt =====
-- src/wire.rs: `RawIpcMessage`, with the union `RawMsgData` as its bytes, so that a variant is a
-- way to read and write them. Padding is zero, as `zeroed` leaves it.
pub mod Fields
pub mod Edits
pub mod Texts
pub mod Serial
use swupdate_rs.Common.{
  ℕ, ◌+◌, ◌≡◌, ◌==◌, Bool, Option, none, some, ◌++◌, Bytes, IsByte, IsU32, All, length, drop,
  replicate, slice, splice, to_ne_bytes, from_ne_bytes, if◌then◌else◌,
}
use swupdate_rs.Text.{Text}
use swupdate_rs.Wire.Constants.{ipc_magic}
use swupdate_rs.Wire.MsgType.{MsgType, from_i32, as_i32}
use swupdate_rs.Wire.Layout.{Slot}
use swupdate_rs.Wire.Layout.Slots.{msg_data_size, ipc_message_size}
use swupdate_rs.Wire.Cstring.{cstr_from_bytes, write_cstr}

-- `body` is the source's `data`.
pub record RawIpcMessage : Type 0 where
  pub magic : ℕ
  pub msg_type : ℕ
  pub body : Bytes

unfoldable pub zeroed : RawIpcMessage
zeroed = record { magic = 0; msg_type = 0; body = replicate msg_data_size 0 }

unfoldable pub new : MsgType → RawIpcMessage
unfolding zeroed as_i32
new t = record zeroed { magic = ipc_magic; msg_type = as_i32 t }

unfoldable pub is_valid : RawIpcMessage → Bool
is_valid m = m.magic == ipc_magic

unfoldable pub msg_type : RawIpcMessage → Option MsgType
msg_type m = from_i32 m.msg_type

-- The bytes of the three fields, with no padding between them.
unfoldable pub ipc_message_to_bytes : RawIpcMessage → Bytes
ipc_message_to_bytes m = to_ne_bytes 4 m.magic ++ (to_ne_bytes 4 m.msg_type ++ m.body)

unfoldable pub ipc_message_from_bytes : Bytes → Option RawIpcMessage
ipc_message_from_bytes buf =
    if length buf == ipc_message_size
    then some (record {
      magic = from_ne_bytes (slice 0 4 buf);
      msg_type = from_ne_bytes (slice 4 4 buf);
      body = drop 8 buf;
    })
    else none

-- A value of the Rust type: the two integers have 32 bits and the union has its size in bytes.
pub record IsMessage (m : RawIpcMessage) : Type 0 where
  pub magic_fits : IsU32 m.magic
  pub msg_type_fits : IsU32 m.msg_type
  pub body_size : length m.body ≡ msg_data_size
  pub body_bytes : All IsByte m.body

-- Reads and writes of a field of a variant.
unfoldable pub read_slot : Slot → Bytes → Bytes
read_slot s body = slice s.offset s.size body

unfoldable pub write_slot : Slot → Bytes → Bytes → Bytes
write_slot s value body = splice s.offset value body

-- An integer field.
unfoldable pub read_int : Slot → Bytes → ℕ
unfolding read_slot
read_int s body = from_ne_bytes (read_slot s body)

unfoldable pub write_int : Slot → ℕ → Bytes → Bytes
unfolding write_slot
write_int s v body = write_slot s (to_ne_bytes s.size v) body

-- `cstr_from_bytes(&field)` and `write_cstr(&mut field, text)`
unfoldable pub read_cstr_at : Slot → Bytes → Text
unfolding read_slot
read_cstr_at s body = cstr_from_bytes (read_slot s body)

unfoldable pub write_cstr_at : Slot → Text → Bytes → Bytes
unfolding read_slot write_slot
write_cstr_at s text body = write_slot s (write_cstr (read_slot s body) text) body
