-- ===== src/Wire/Layout.antt =====
-- src/wire.rs: the structs of the control messages, laid out as `#[repr(C)]` asks for: each field
-- at the next multiple of its alignment, and the size of a struct rounded up to its own. `usize`
-- has 8 bytes, as on the 64-bit targets.
pub mod Header
pub mod Union
pub mod Slots
use swupdate_rs.Common.{ℕ, ◌+◌, ◌-◌, ◌*◌, ◌/◌, List, [], ◌∷◌, map}
use Prim.Native.Nat.{max}

pub record Field : Type 0 where
  pub size : ℕ
  pub align : ℕ

-- A field's place in its struct.
pub record Slot : Type 0 where
  pub offset : ℕ
  pub size : ℕ

unfoldable pub align_up : ℕ → ℕ → ℕ
align_up at align = (at + align - 1) / align * align

unfoldable pub place : ℕ → List Field → List Slot
unfolding align_up
place at [] = []
place at (f ∷ fs) =
    let offset = align_up at f.align in
    record { offset = offset; size = f.size } ∷ place (offset + f.size) fs

-- Where the last field ends.
unfoldable pub extent : ℕ → List Field → ℕ
unfolding align_up
extent at [] = at
extent at (f ∷ fs) = extent (align_up at f.align + f.size) fs

unfoldable pub align_of : List Field → ℕ
align_of [] = 1
align_of (f ∷ fs) = max f.align (align_of fs)

unfoldable pub size_of : List Field → ℕ
unfolding align_up extent align_of
size_of fs = align_up (extent 0 fs) (align_of fs)

largest : List (List Field) → ℕ
unfolding size_of
largest [] = 0
largest (v ∷ vs) = max (size_of v) (largest vs)

strictest : List (List Field) → ℕ
unfolding align_of
strictest [] = 1
strictest (v ∷ vs) = max (align_of v) (strictest vs)

-- A union is as large as its largest variant.
unfoldable pub union_size_of : List (List Field) → ℕ
unfolding largest strictest align_up
union_size_of vs = align_up (largest vs) (strictest vs)

-- `u32`, `i32`, `usize`, and arrays of `u8`
abbrev pub int : Field
int = record { size = 4; align = 4 }

abbrev pub size_t : Field
size_t = record { size = 8; align = 8 }

abbrev pub bytes : ℕ → Field
bytes n = record { size = n; align = 1 }

abbrev pub struct : List Field → Field
unfolding size_of
struct fs = record { size = size_of fs; align = align_of fs }

abbrev pub raw_swupdate_request : List Field
raw_swupdate_request = int ∷ int ∷ int ∷ size_t ∷ bytes 512 ∷ bytes 256 ∷ bytes 256 ∷ bytes 1 ∷ []

abbrev pub raw_status_data : List Field
raw_status_data = int ∷ int ∷ int ∷ bytes 2048 ∷ []

abbrev pub raw_notify_data : List Field
raw_notify_data = int ∷ int ∷ int ∷ bytes 2048 ∷ []

abbrev pub raw_inst_msg_data : List Field
raw_inst_msg_data = struct raw_swupdate_request ∷ int ∷ bytes 2048 ∷ []

abbrev pub raw_proc_msg_data : List Field
raw_proc_msg_data = int ∷ int ∷ int ∷ int ∷ bytes 2048 ∷ []

abbrev pub raw_aes_key_data : List Field
raw_aes_key_data = bytes 65 ∷ bytes 33 ∷ []

abbrev pub raw_versions_data : List Field
raw_versions_data = bytes 256 ∷ bytes 256 ∷ bytes 256 ∷ bytes 256 ∷ []

abbrev pub raw_revisions_data : List Field
raw_revisions_data = bytes 256 ∷ bytes 256 ∷ []

abbrev pub raw_vars_data : List Field
raw_vars_data = bytes 256 ∷ bytes 256 ∷ bytes 256 ∷ []

abbrev pub raw_dwl_url_data : List Field
raw_dwl_url_data = bytes 256 ∷ bytes 1024 ∷ []

-- The variants of the union `RawMsgData`.
abbrev pub raw_msg_data : List (List Field)
raw_msg_data =
    (bytes 128 ∷ [])
    ∷ raw_status_data
    ∷ raw_notify_data
    ∷ raw_inst_msg_data
    ∷ raw_proc_msg_data
    ∷ raw_aes_key_data
    ∷ raw_versions_data
    ∷ raw_revisions_data
    ∷ raw_vars_data
    ∷ raw_dwl_url_data
    ∷ []
