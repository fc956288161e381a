-- ===== src/Types/Request/Fields.antt =====
-- What the daemon reads in the raw request.
use swupdate_rs.Common.{
  ℕ, ◌^◌, ◌<◌, ◌%◌, ◌≡◌, refl, ap, ◌∙◌, Bool, Option, none, some, List, [], ◌∷◌, All, length,
  if◌then◌else◌, arith, IsByte, Bytes, length-replicate, All-replicate, sym,
}
use mathlib.Core.Option.{get_or}
use swupdate_rs.Wire.Message.Texts.{IsName}
use swupdate_rs.Wire.Message.Fields.{write_cstr_at-nil}
use swupdate_rs.Common.{take, drop}
use swupdate_rs.Text.{Text, IsScalar}
use swupdate_rs.Text.Lossy.{fit}
use swupdate_rs.Wire.Layout.Slots.{
  req_apiversion, req_source, req_dry_run, req_len, req_info, req_software_set, req_running_mode,
  req_disable_store_swu,
}
use swupdate_rs.Wire.Constants.{swupdate_api_version}
use swupdate_rs.Wire.Message.{read_int, read_cstr_at}
use swupdate_rs.Wire.Message.Edits.{
  Edit, int, cstr, perform_all, perform_all-IsByte, length-perform_all, read_int-perform_all,
  read_cstr_at-perform_all,
}
use swupdate_rs.Types.Source.{to_wire as source_to_wire}
use swupdate_rs.Types.RunMode.{to_wire as mode_to_wire}
use swupdate_rs.Types.Request.{InstallRequest, to_raw, zeroed, write_optional, Slot, write_cstr_at}

-- The texts of a request are Rust texts without NUL.
pub record IsRequest (req : InstallRequest) : Type 0 where
  pub info_name : IsName req.info
  pub software_set_name : IsName (get_or req.software_set [])
  pub running_mode_name : IsName (get_or req.running_mode [])

-- The texts of a request are Rust texts, in which a NUL may stand.
abbrev pub HasTexts : InstallRequest → Type 0
HasTexts req =
    All IsScalar req.info
    × All IsScalar (get_or req.software_set [])
    × All IsScalar (get_or req.running_mode [])

-- The writes of `to_raw`. A text that is not given is as good as an empty one.
abbrev edits : InstallRequest → List Edit
edits req =
    int req_apiversion swupdate_api_version
    ∷ int req_source (source_to_wire req.source)
    ∷ int req_dry_run (mode_to_wire req.mode)
    ∷ int req_len (get_or req.len 0 % 2 ^ 64)
    ∷ cstr req_info req.info
    ∷ cstr req_software_set (get_or req.software_set [])
    ∷ cstr req_running_mode (get_or req.running_mode [])
    ∷ int req_disable_store_swu (if req.store_swu then 0 else 1)
    ∷ []

write_optional-get_or :
    (s : Slot) (text : Option Text) (raw : Bytes)
    → write_optional s text raw ≡ write_cstr_at s (get_or text []) raw
unfolding write_optional
write_optional-get_or s none raw = sym (write_cstr_at-nil s raw)
write_optional-get_or s (some text) raw = refl

to_raw-edits : (req : InstallRequest) → to_raw req ≡ perform_all (edits req) zeroed
unfolding to_raw
to_raw-edits req = simp write_optional-get_or

-- The raw request has the size of its struct, and is made of bytes.
pub length-to_raw : (req : InstallRequest) → length (to_raw req) ≡ 1056
unfolding zeroed
length-to_raw req =
    ap length (to_raw-edits req)
    ∙ length-perform_all (edits req) zeroed
    ∙ length-replicate {A = ℕ} 1056 0

pub to_raw-IsByte : (req : InstallRequest) → HasTexts req → All IsByte (to_raw req)
unfolding zeroed
to_raw-IsByte req (info, set, mode) = rw (to_raw-edits req) (
    perform_all-IsByte (edits req) zeroed (tt, (tt, (tt, (tt, (info, (set, (mode, (tt, tt))))))))
      (All-replicate IsByte 1056 0 (omega arith)))

source_fits : (req : InstallRequest) → source_to_wire req.source < 2 ^ 32
unfolding source_to_wire
source_fits req = ground arith

mode_fits : (req : InstallRequest) → mode_to_wire req.mode < 2 ^ 32
unfolding mode_to_wire
mode_fits req = ground arith

store_fits : (store : Bool) → (if store then 0 else 1) < 256
store_fits store = ground arith

-- The request as the daemon's `struct swupdate_request` shows it.
pub record SeenRequest : Type 0 where
  pub apiversion : ℕ
  pub source : ℕ
  pub dry_run : ℕ
  pub len : ℕ
  pub info : Text
  pub software_set : Text
  pub running_mode : Text
  pub disable_store_swu : ℕ

abbrev pub see : Bytes → SeenRequest
see raw = record {
  apiversion = read_int req_apiversion raw;
  source = read_int req_source raw;
  dry_run = read_int req_dry_run raw;
  len = read_int req_len raw;
  info = read_cstr_at req_info raw;
  software_set = read_cstr_at req_software_set raw;
  running_mode = read_cstr_at req_running_mode raw;
  disable_store_swu = read_int req_disable_store_swu raw;
}

-- Where the texts of a request are Rust texts without NUL, the daemon sees in its raw form what it
-- says: the API version, the codes of source and mode, the length modulo 2 ^ 64 (0 if none is
-- given), the texts cut to their fields (empty if not given), and the store flag inverted.
pub see-to_raw :
    (req : InstallRequest)
    → IsRequest req
    → see (to_raw req) ≡ record {
      apiversion = 1;
      source = source_to_wire req.source;
      dry_run = mode_to_wire req.mode;
      len = get_or req.len 0 % 2 ^ 64;
      info = fit 511 req.info;
      software_set = fit 255 (get_or req.software_set []);
      running_mode = fit 255 (get_or req.running_mode []);
      disable_store_swu = if req.store_swu then 0 else 1;
    }
unfolding zeroed
see-to_raw req h =
    let es = edits req in
    rw (to_raw-edits req) (
      cc (
        read_int-perform_all 1056 req_apiversion (take 0 es) (drop 1 es) swupdate_api_version
            (omega arith) (omega arith) (omega arith) (omega arith),
        read_int-perform_all 1056 req_source (take 1 es) (drop 2 es) (source_to_wire req.source)
            (omega arith) (source_fits req) (omega arith) (omega arith),
        read_int-perform_all 1056 req_dry_run (take 2 es) (drop 3 es) (mode_to_wire req.mode)
            (omega arith) (mode_fits req) (omega arith) (omega arith),
        read_int-perform_all 1056 req_len (take 3 es) (drop 4 es) (get_or req.len 0 % 2 ^ 64)
            (omega arith) (omega arith) (omega arith) (omega arith),
        read_cstr_at-perform_all 1056 req_info (take 4 es) (drop 5 es) req.info (omega arith)
            (omega arith) (omega arith) (omega arith) h.info_name.0 h.info_name.1,
        read_cstr_at-perform_all 1056 req_software_set (take 5 es) (drop 6 es)
            (get_or req.software_set []) (omega arith) (omega arith) (omega arith) (omega arith)
            h.software_set_name.0 h.software_set_name.1,
        read_cstr_at-perform_all 1056 req_running_mode (take 6 es) (drop 7 es)
            (get_or req.running_mode []) (omega arith) (omega arith) (omega arith) (omega arith)
            h.running_mode_name.0 h.running_mode_name.1,
        read_int-perform_all 1056 req_disable_store_swu (take 7 es) (drop 8 es)
            (if req.store_swu then 0 else 1) (omega arith) (store_fits req.store_swu) (omega arith)
            (omega arith),
      ))
