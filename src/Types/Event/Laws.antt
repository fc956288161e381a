-- ===== src/Types/Event/Laws.antt =====
-- src/types.rs: which events end an update, and events across the two layouts.
use swupdate_rs.Common.{ℕ, ◌<◌, ◌≡◌, ap, ◌∙◌, ◌↔◌, ◌⊎◌, true, arith, IsU32, sym}
use swupdate_rs.Wire.ProgressMsg.{
  RawProgressMsg, RawProgressMsgUnpacked, join, packed_parts, packed_from_bytes, unpacked_parts,
  unpacked_from_bytes,
}
use swupdate_rs.Wire.ProgressMsg.Parts.{
  IsPacked, IsUnpacked, packed_from_bytes-join, unpacked_from_bytes-join,
}
use swupdate_rs.Types.Event.{ProgressFields, from_fields, from_raw, from_raw_unpacked, is_terminal}

-- The codes that end an update: SUCCESS, FAILURE, DONE, and every number that is no code.
abbrev pub EndsUpdate : ℕ → Type 0
EndsUpdate status = (status ≡ 3) ⊎ (status ≡ 4) ⊎ (status ≡ 6) ⊎ (8 < status)

-- The event of a progress message is terminal exactly when the message's status is SUCCESS,
-- FAILURE, DONE, or a number above every code.
pub is_terminal-from_fields :
    (f : ProgressFields) → (is_terminal (from_fields f) ≡ true) ↔ EndsUpdate f.status
unfolding is_terminal from_fields
is_terminal-from_fields f = ground arith

-- The same message in the older layout, with any values in the two paddings.
abbrev pub unpack : RawProgressMsg → ℕ → ℕ → RawProgressMsgUnpacked
unpack m align tail = record {
  apiversion = m.apiversion;
  status = m.status;
  dwl_percent = m.dwl_percent;
  pad_align = align;
  dwl_bytes = m.dwl_bytes;
  nsteps = m.nsteps;
  cur_step = m.cur_step;
  cur_percent = m.cur_percent;
  cur_image = m.cur_image;
  hnd_name = m.hnd_name;
  source = m.source;
  infolen = m.infolen;
  info = m.info;
  pad_tail = tail;
}

unpack-IsUnpacked :
    (m : RawProgressMsg) (align tail : ℕ)
    → IsPacked m
    → IsU32 align
    → IsU32 tail
    → IsUnpacked (unpack m align tail)
unpack-IsUnpacked m align tail h ha ht = omega arith

-- A daemon of either version reports the same event: the bytes of a message whose values fit, in
-- the packed layout and in the unpacked one with any u32 in the two paddings, are read as the same
-- event.
pub from_raw-from_raw_unpacked :
    (m : RawProgressMsg) (align tail : ℕ)
    → IsPacked m
    → IsU32 align
    → IsU32 tail
    → from_raw (packed_from_bytes (join (packed_parts m)))
      ≡ from_raw_unpacked (unpacked_from_bytes (join (unpacked_parts (unpack m align tail))))
unfolding from_raw from_raw_unpacked
from_raw-from_raw_unpacked m align tail h ha ht =
    ap from_raw (packed_from_bytes-join m h)
    ∙ ap from_raw_unpacked (
        sym
          (unpacked_from_bytes-join (unpack m align tail) (unpack-IsUnpacked m align tail h ha ht)))
