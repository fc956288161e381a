-- ===== src/Wire/ProgressMsg/Parts.antt =====
-- src/wire.rs: the parts of a progress message in both layouts, and what is read of them.
use swupdate_rs.Common.{
  ℕ, ◌+◌, ◌^◌, ◌<◌, ◌≡◌, refl, ap, ◌∙◌, List, [], ◌∷◌, ◌++◌, Bytes, IsU32, length, take, drop, map,
  arith, ◌≤◌, take-length-append, drop-length-append, length-drop, take-append-drop,
  from_ne_bytes-to_ne_bytes, to_ne_bytes, sym,
}
use swupdate_rs.Wire.ProgressMsg.{
  packed_of, unpacked_of, unpacked_from_bytes, unpacked_parts, RawProgressMsgUnpacked,
  unpacked_widths, packed_from_bytes, packed_parts, packed_widths, fields, join, RawProgressMsg,
}

-- Cutting by the parts' own widths gives the parts back.
fields-join : (parts : List Bytes) → fields (map length parts) (join parts) ≡ parts
unfolding fields join
fields-join [] = refl
fields-join (p ∷ ps) =
    cc (take-length-append p (join ps), drop-length-append p (join ps), fields-join ps)

abbrev pub total : List ℕ → ℕ
total [] = 0
total (w ∷ ws) = w + total ws

-- Cutting loses nothing of a buffer that the widths cover.
pub join-fields : (ws : List ℕ) (bs : Bytes) → length bs ≤ total ws → join (fields ws bs) ≡ bs
unfolding fields join
join-fields [] [] h = refl
join-fields [] (b ∷ bs) h = absurd (omega arith)
join-fields (w ∷ ws) bs h =
    ap (λ t. take w bs ++ t) (join-fields ws (drop w bs) (omega (arith, length-drop w bs)))
    ∙ take-append-drop w bs

-- The values that a field of the struct can hold.
pub record IsPacked (m : RawProgressMsg) : Type 0 where
  pub apiversion_fits : IsU32 m.apiversion
  pub status_fits : IsU32 m.status
  pub dwl_percent_fits : IsU32 m.dwl_percent
  pub dwl_bytes_fits : m.dwl_bytes < 2 ^ 64
  pub nsteps_fits : IsU32 m.nsteps
  pub cur_step_fits : IsU32 m.cur_step
  pub cur_percent_fits : IsU32 m.cur_percent
  pub cur_image_size : length m.cur_image ≡ 256
  pub hnd_name_size : length m.hnd_name ≡ 64
  pub source_fits : IsU32 m.source
  pub infolen_fits : IsU32 m.infolen
  pub info_size : length m.info ≡ 2048

pub record IsUnpacked (m : RawProgressMsgUnpacked) : Type 0 where
  pub apiversion_fits : IsU32 m.apiversion
  pub status_fits : IsU32 m.status
  pub dwl_percent_fits : IsU32 m.dwl_percent
  pub pad_align_fits : IsU32 m.pad_align
  pub dwl_bytes_fits : m.dwl_bytes < 2 ^ 64
  pub nsteps_fits : IsU32 m.nsteps
  pub cur_step_fits : IsU32 m.cur_step
  pub cur_percent_fits : IsU32 m.cur_percent
  pub cur_image_size : length m.cur_image ≡ 256
  pub hnd_name_size : length m.hnd_name ≡ 64
  pub source_fits : IsU32 m.source
  pub infolen_fits : IsU32 m.infolen
  pub info_size : length m.info ≡ 2048
  pub pad_tail_fits : IsU32 m.pad_tail

packed_widths_lem : (m : RawProgressMsg) → IsPacked m → map length (packed_parts m) ≡ packed_widths
unfolding packed_parts to_ne_bytes
packed_widths_lem m h = cc (h.cur_image_size, h.hnd_name_size, h.info_size)

packed_of_lem : (m : RawProgressMsg) → IsPacked m → packed_of (packed_parts m) ≡ m
unfolding packed_of packed_parts
packed_of_lem m h = cc (
  from_ne_bytes-to_ne_bytes 4 m.apiversion h.apiversion_fits,
  from_ne_bytes-to_ne_bytes 4 m.status h.status_fits,
  from_ne_bytes-to_ne_bytes 4 m.dwl_percent h.dwl_percent_fits,
  from_ne_bytes-to_ne_bytes 8 m.dwl_bytes h.dwl_bytes_fits,
  from_ne_bytes-to_ne_bytes 4 m.nsteps h.nsteps_fits,
  from_ne_bytes-to_ne_bytes 4 m.cur_step h.cur_step_fits,
  from_ne_bytes-to_ne_bytes 4 m.cur_percent h.cur_percent_fits,
  from_ne_bytes-to_ne_bytes 4 m.source h.source_fits,
  from_ne_bytes-to_ne_bytes 4 m.infolen h.infolen_fits,
)

-- A packed progress message whose values fit its fields is read back from its bytes.
pub packed_from_bytes-join :
    (m : RawProgressMsg) → IsPacked m → packed_from_bytes (join (packed_parts m)) ≡ m
unfolding packed_from_bytes
packed_from_bytes-join m h =
    ap (λ ws. packed_of (fields ws (join (packed_parts m)))) (sym (packed_widths_lem m h))
    ∙ ap packed_of (fields-join (packed_parts m))
    ∙ packed_of_lem m h

unpacked_widths_lem :
    (m : RawProgressMsgUnpacked) → IsUnpacked m → map length (unpacked_parts m) ≡ unpacked_widths
unfolding unpacked_parts to_ne_bytes
unpacked_widths_lem m h = cc (h.cur_image_size, h.hnd_name_size, h.info_size)

unpacked_of_lem : (m : RawProgressMsgUnpacked) → IsUnpacked m → unpacked_of (unpacked_parts m) ≡ m
unfolding unpacked_of unpacked_parts
unpacked_of_lem m h = cc (
  from_ne_bytes-to_ne_bytes 4 m.apiversion h.apiversion_fits,
  from_ne_bytes-to_ne_bytes 4 m.status h.status_fits,
  from_ne_bytes-to_ne_bytes 4 m.dwl_percent h.dwl_percent_fits,
  from_ne_bytes-to_ne_bytes 4 m.pad_align h.pad_align_fits,
  from_ne_bytes-to_ne_bytes 8 m.dwl_bytes h.dwl_bytes_fits,
  from_ne_bytes-to_ne_bytes 4 m.nsteps h.nsteps_fits,
  from_ne_bytes-to_ne_bytes 4 m.cur_step h.cur_step_fits,
  from_ne_bytes-to_ne_bytes 4 m.cur_percent h.cur_percent_fits,
  from_ne_bytes-to_ne_bytes 4 m.source h.source_fits,
  from_ne_bytes-to_ne_bytes 4 m.infolen h.infolen_fits,
  from_ne_bytes-to_ne_bytes 4 m.pad_tail h.pad_tail_fits,
)

-- An unpacked progress message whose values fit its fields is read back from its bytes.
pub unpacked_from_bytes-join :
    (m : RawProgressMsgUnpacked) → IsUnpacked m → unpacked_from_bytes (join (unpacked_parts m)) ≡ m
unfolding unpacked_from_bytes
unpacked_from_bytes-join m h =
    ap (λ ws. unpacked_of (fields ws (join (unpacked_parts m)))) (sym (unpacked_widths_lem m h))
    ∙ ap unpacked_of (fields-join (unpacked_parts m))
    ∙ unpacked_of_lem m h
