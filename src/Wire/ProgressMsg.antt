-- ===== src/Wire/ProgressMsg.antt =====
-- src/wire.rs: `RawProgressMsg`, `RawProgressMsgUnpacked` and `RawProgressAck`, each as the list of
-- its fields' widths: the packed struct has no padding, and the other two name theirs as fields.
pub mod Parts
pub mod Layouts
use swupdate_rs.Common.{
  ℕ, zero, suc, List, [], ◌∷◌, ◌++◌, Bytes, take, drop, to_ne_bytes, from_ne_bytes,
}

-- A buffer cut into fields.
unfoldable pub fields : List ℕ → Bytes → List Bytes
fields [] bs = []
fields (w ∷ ws) bs = take w bs ∷ fields ws (drop w bs)

-- The field of an index; past the end there is none.
unfoldable pub field : ℕ → List Bytes → Bytes
field i [] = []
field zero (f ∷ fs) = f
field (suc i) (f ∷ fs) = field i fs

abbrev pub int_field : ℕ → List Bytes → ℕ
int_field i fs = from_ne_bytes (field i fs)

pub record RawProgressMsg : Type 0 where
  pub apiversion : ℕ
  pub status : ℕ
  pub dwl_percent : ℕ
  pub dwl_bytes : ℕ
  pub nsteps : ℕ
  pub cur_step : ℕ
  pub cur_percent : ℕ
  pub cur_image : Bytes
  pub hnd_name : Bytes
  pub source : ℕ
  pub infolen : ℕ
  pub info : Bytes

abbrev pub packed_widths : List ℕ
packed_widths = 4 ∷ 4 ∷ 4 ∷ 8 ∷ 4 ∷ 4 ∷ 4 ∷ 256 ∷ 64 ∷ 4 ∷ 4 ∷ 2048 ∷ []

packed_of : List Bytes → RawProgressMsg
unfolding field
packed_of fs = record {
  apiversion = int_field 0 fs;
  status = int_field 1 fs;
  dwl_percent = int_field 2 fs;
  dwl_bytes = int_field 3 fs;
  nsteps = int_field 4 fs;
  cur_step = int_field 5 fs;
  cur_percent = int_field 6 fs;
  cur_image = field 7 fs;
  hnd_name = field 8 fs;
  source = int_field 9 fs;
  infolen = int_field 10 fs;
  info = field 11 fs;
}

-- The struct whose bytes, `as_mut_bytes`, were filled with `bs`.
unfoldable pub packed_from_bytes : Bytes → RawProgressMsg
unfolding fields packed_of
packed_from_bytes bs = packed_of (fields packed_widths bs)

-- The parts of a struct, in order; `as_bytes` joins them.
unfoldable pub packed_parts : RawProgressMsg → List Bytes
packed_parts m =
    to_ne_bytes 4 m.apiversion
    ∷ to_ne_bytes 4 m.status
    ∷ to_ne_bytes 4 m.dwl_percent
    ∷ to_ne_bytes 8 m.dwl_bytes
    ∷ to_ne_bytes 4 m.nsteps
    ∷ to_ne_bytes 4 m.cur_step
    ∷ to_ne_bytes 4 m.cur_percent
    ∷ m.cur_image
    ∷ m.hnd_name
    ∷ to_ne_bytes 4 m.source
    ∷ to_ne_bytes 4 m.infolen
    ∷ m.info
    ∷ []

-- The unpacked struct: the fields of the packed one between its two paddings.
pub record RawProgressMsgUnpacked : Type 0 where
  pub apiversion : ℕ
  pub status : ℕ
  pub dwl_percent : ℕ
  pub pad_align : ℕ
  pub dwl_bytes : ℕ
  pub nsteps : ℕ
  pub cur_step : ℕ
  pub cur_percent : ℕ
  pub cur_image : Bytes
  pub hnd_name : Bytes
  pub source : ℕ
  pub infolen : ℕ
  pub info : Bytes
  pub pad_tail : ℕ

abbrev pub unpacked_widths : List ℕ
unpacked_widths = 4 ∷ 4 ∷ 4 ∷ 4 ∷ 8 ∷ 4 ∷ 4 ∷ 4 ∷ 256 ∷ 64 ∷ 4 ∷ 4 ∷ 2048 ∷ 4 ∷ []

unpacked_of : List Bytes → RawProgressMsgUnpacked
unfolding field
unpacked_of fs = record {
  apiversion = int_field 0 fs;
  status = int_field 1 fs;
  dwl_percent = int_field 2 fs;
  pad_align = int_field 3 fs;
  dwl_bytes = int_field 4 fs;
  nsteps = int_field 5 fs;
  cur_step = int_field 6 fs;
  cur_percent = int_field 7 fs;
  cur_image = field 8 fs;
  hnd_name = field 9 fs;
  source = int_field 10 fs;
  infolen = int_field 11 fs;
  info = field 12 fs;
  pad_tail = int_field 13 fs;
}

unfoldable pub unpacked_from_bytes : Bytes → RawProgressMsgUnpacked
unfolding fields unpacked_of
unpacked_from_bytes bs = unpacked_of (fields unpacked_widths bs)

unfoldable pub unpacked_parts : RawProgressMsgUnpacked → List Bytes
unpacked_parts m =
    to_ne_bytes 4 m.apiversion
    ∷ to_ne_bytes 4 m.status
    ∷ to_ne_bytes 4 m.dwl_percent
    ∷ to_ne_bytes 4 m.pad_align
    ∷ to_ne_bytes 8 m.dwl_bytes
    ∷ to_ne_bytes 4 m.nsteps
    ∷ to_ne_bytes 4 m.cur_step
    ∷ to_ne_bytes 4 m.cur_percent
    ∷ m.cur_image
    ∷ m.hnd_name
    ∷ to_ne_bytes 4 m.source
    ∷ to_ne_bytes 4 m.infolen
    ∷ m.info
    ∷ to_ne_bytes 4 m.pad_tail
    ∷ []

-- `as_bytes`
unfoldable pub join : List Bytes → Bytes
join [] = []
join (f ∷ fs) = f ++ join fs

pub record RawProgressAck : Type 0 where
  pub apiversion : ℕ
  pub magic : Bytes

abbrev pub ack_widths : List ℕ
ack_widths = 4 ∷ 4 ∷ []

unfoldable pub ack_from_bytes : Bytes → RawProgressAck
unfolding fields field
ack_from_bytes bs =
    let fs = fields ack_widths bs in record { apiversion = int_field 0 fs; magic = field 1 fs }
