-- ===== src/Wire/Cstring.antt =====
-- src/wire.rs: `cstr_from_bytes` and `write_cstr`. The destination of a write is the value of its
-- array, and the write returns the new value.
pub mod Roundtrip
use swupdate_rs.Common.{
  ℕ, zero, suc, ◌-◌, Option, none, some, List, [], ◌∷◌, Bytes, length, take, splice, min, ◌==◌,
  if◌then◌else◌,
}
use mathlib.Core.Option
use mathlib.Core.Option.{get_or}
use swupdate_rs.Text.{Text, as_bytes, from_utf8_lossy}

-- `bytes.iter().position(|&b| b == 0)`
unfoldable pub position_nul : Bytes → Option ℕ
position_nul [] = none
position_nul (b ∷ bs) = let rest = position_nul bs in if b == 0 then some 0 else Option.map suc rest

unfoldable pub cstr_from_bytes : Bytes → Text
unfolding position_nul
cstr_from_bytes bytes =
    let end = get_or (position_nul bytes) (length bytes) in from_utf8_lossy (take end bytes)

-- `dst.len().saturating_sub(1)` is the subtraction of ℕ.
unfoldable pub write_cstr : Bytes → Text → Bytes
write_cstr dst src =
    let bytes = as_bytes src in
    let copy_len = min (length bytes) (length dst - 1) in splice 0 (take copy_len bytes) dst
