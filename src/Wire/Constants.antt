-- ===== src/Wire/Constants.antt =====
-- src/wire.rs: constants and `ProgressLayout`. An i32 is kept as its bit pattern below 2 ^ 32.
use Prim.Native.Nat.{bit_and, bit_or}
use swupdate_rs.Common.{ℕ, ◌*◌, ◌^◌, Bytes, [], ◌∷◌}

abbrev pub ipc_magic : ℕ
ipc_magic = 0x14052001

abbrev pub swupdate_api_version : ℕ
swupdate_api_version = 1

abbrev pub progress_api_major : ℕ
progress_api_major = 2

abbrev pub progress_api_minor : ℕ
progress_api_minor = 0

abbrev pub progress_api_patch : ℕ
progress_api_patch = 0

-- The shifts by 16 and by 8, and the bitwise or of the three parts.
abbrev pub progress_api_version : ℕ
progress_api_version =
    bit_or
      (bit_or (bit_and progress_api_major 0xffff * 2 ^ 16)
        (bit_and progress_api_minor 0xff * 2 ^ 8))
      (bit_and progress_api_patch 0xff)

-- `b"ACK\0"`
abbrev pub progress_connect_ack_magic : Bytes
progress_connect_ack_magic = b'A' ∷ b'C' ∷ b'K' ∷ 0 ∷ []

abbrev pub prinfosize : ℕ
prinfosize = 2048

abbrev pub progress_msg_size_packed : ℕ
progress_msg_size_packed = 2408

abbrev pub progress_msg_size_unpacked : ℕ
progress_msg_size_unpacked = 2416

pub data ProgressLayout : Type 0 where
  packed unpacked : ProgressLayout

unfoldable pub msg_size : ProgressLayout → ℕ
msg_size packed = progress_msg_size_packed
msg_size unpacked = progress_msg_size_unpacked
