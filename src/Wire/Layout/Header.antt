-- ===== src/Wire/Layout/Header.antt =====
-- tests/c_compat/swupdate_headers/network_ipc.h: the structs of the control messages as
-- SWUpdate's header declares them, and where a C compiler puts their fields on the 64-bit targets
-- (LP64): each at the least place behind the one before that its alignment allows.
use swupdate_rs.Common.{ℕ, ◌+◌, ◌%◌, ◌≤◌, ◌<◌, ◌≡◌, List, [], ◌∷◌}
use swupdate_rs.Wire.Layout.{Slot}

-- The types of the fields. `sourcetype` and `enum run_type` are enumerations, and the struct and
-- the union are those below.
pub data CType : Type 0 where
  char : ℕ → CType
  int unsigned_int enumeration size_t bool : CType
  swupdate_request msgdata : CType

abbrev pub c_size : CType → ℕ
c_size (char n) = n
c_size int = 4
c_size unsigned_int = 4
c_size enumeration = 4
c_size size_t = 8
c_size bool = 1
c_size swupdate_request = 1056
c_size msgdata = 3112

abbrev pub c_align : CType → ℕ
c_align (char n) = 1
c_align int = 4
c_align unsigned_int = 4
c_align enumeration = 4
c_align size_t = 8
c_align bool = 1
c_align swupdate_request = 8
c_align msgdata = 8

-- The number `n` is the least one from `at` on that is a multiple of `align`.
abbrev pub Aligned : (at align n : ℕ) → Type 0
Aligned at align n = (at ≤ n) × (n < at + align) × (n % align ≡ 0)

-- The slots are where a C compiler puts the fields that lie from `at` on, and the last one ends
-- within `end`.
abbrev pub Laid : ℕ → List CType → List Slot → ℕ → Type 0
Laid at [] [] end = at ≤ end
Laid at [] (s ∷ ss) end = ⊥
Laid at (t ∷ ts) [] end = ⊥
Laid at (t ∷ ts) (s ∷ ss) end =
    Aligned at (c_align t) s.offset × (s.size ≡ c_size t) × Laid (s.offset + s.size) ts ss end

-- Each struct of a union.
abbrev pub AllLaid : List (List CType) → List (List Slot) → ℕ → Type 0
AllLaid [] [] end = Unit {0}
AllLaid [] (v ∷ vs) end = ⊥
AllLaid (ts ∷ tss) [] end = ⊥
AllLaid (ts ∷ tss) (v ∷ vs) end = Laid 0 ts v end × AllLaid tss vs end

-- `struct swupdate_request`
abbrev pub c_swupdate_request : List CType
c_swupdate_request =
    unsigned_int ∷ enumeration ∷ enumeration ∷ size_t ∷ char 512 ∷ char 256 ∷ char 256 ∷ bool ∷ []

-- `msgdata`
abbrev pub c_msgdata : List (List CType)
c_msgdata =
    (char 128 ∷ [])
    ∷ (int ∷ int ∷ int ∷ char 2048 ∷ [])
    ∷ (int ∷ int ∷ int ∷ char 2048 ∷ [])
    ∷ (swupdate_request ∷ unsigned_int ∷ char 2048 ∷ [])
    ∷ (enumeration ∷ int ∷ int ∷ unsigned_int ∷ char 2048 ∷ [])
    ∷ (char 65 ∷ char 33 ∷ [])
    ∷ (char 256 ∷ char 256 ∷ char 256 ∷ char 256 ∷ [])
    ∷ (char 256 ∷ char 256 ∷ [])
    ∷ (char 256 ∷ char 256 ∷ char 256 ∷ [])
    ∷ (char 256 ∷ char 1024 ∷ [])
    ∷ []

-- `ipc_message`
abbrev pub c_ipc_message : List CType
c_ipc_message = int ∷ int ∷ msgdata ∷ []
