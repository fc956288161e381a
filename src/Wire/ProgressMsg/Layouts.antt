-- ===== src/Wire/ProgressMsg/Layouts.antt =====
-- The widths of the three structs against the layout that `#[repr(C)]` and `packed` ask for.
use swupdate_rs.Common.{ℕ, ◌+◌, ◌≡◌, refl, List, [], ◌∷◌, map}
use swupdate_rs.Wire.Constants.{packed, unpacked, msg_size}
use swupdate_rs.Wire.Layout.{Field, Slot, place, size_of, int, size_t, bytes}
use swupdate_rs.Wire.ProgressMsg.{packed_widths, unpacked_widths}
use swupdate_rs.Wire.ProgressMsg.Parts.{total}

-- The fields of the C struct, with their natural alignments and no padding written out.
abbrev c_fields : List Field
c_fields =
    int ∷ int ∷ int ∷ size_t ∷ int ∷ int ∷ int ∷ bytes 256 ∷ bytes 64 ∷ int ∷ int ∷ bytes 2048 ∷ []

-- `__attribute__((__packed__))`
abbrev unaligned : Field → Field
unaligned f = record { size = f.size; align = 1 }

-- The slots that plain widths give.
abbrev run_on : ℕ → List ℕ → List Slot
run_on at [] = []
run_on at (w ∷ ws) = record { offset = at; size = w } ∷ run_on (at + w) ws

packed_layout : run_on 0 packed_widths ≡ place 0 (map unaligned c_fields)
unfolding place
packed_layout = refl

packed_size : total packed_widths ≡ msg_size packed
unfolding msg_size
packed_size = refl

unpacked_size : total unpacked_widths ≡ msg_size unpacked
unfolding msg_size
unpacked_size = refl

-- With `_pad_align` and `_pad_tail` as fields, the compiler adds no padding of its own.
abbrev padded_fields : List Field
padded_fields =
    int
    ∷ int
    ∷ int
    ∷ int
    ∷ size_t
    ∷ int
    ∷ int
    ∷ int
    ∷ bytes 256
    ∷ bytes 64
    ∷ int
    ∷ int
    ∷ bytes 2048
    ∷ int
    ∷ []

unpacked_layout : run_on 0 unpacked_widths ≡ place 0 padded_fields
unfolding place
unpacked_layout = refl

unpacked_c_size : size_of c_fields ≡ msg_size unpacked
unfolding size_of msg_size
unpacked_c_size = refl
