-- ===== src/Types/Request.antt =====
-- src/types.rs: `InstallRequest`, its builder methods and `to_raw`. The raw request is the bytes of
-- its struct.
pub mod Fields
use mathlib.Core.Option.{get_or}
use swupdate_rs.Common.{
  ℕ, ◌%◌, ◌^◌, Bool, true, Option, none, some, [], Bytes, replicate, if◌then◌else◌,
}
use swupdate_rs.Text.{Text}
use swupdate_rs.Types.Source.{Source, local, to_wire as source_to_wire}
use swupdate_rs.Types.RunMode.{RunMode, default, to_wire as mode_to_wire}
use swupdate_rs.Wire.Constants.{swupdate_api_version}
use swupdate_rs.Wire.Message.{write_int, write_cstr_at}
use swupdate_rs.Wire.Layout.Slots.{
  req_apiversion, req_source, req_dry_run, req_len, req_info, req_software_set, req_running_mode,
  req_disable_store_swu, instmsg_req,
}
use swupdate_rs.Wire.Layout.{Slot}

pub record InstallRequest : Type 0 where
  pub source : Source
  pub mode : RunMode
  pub info : Text
  pub software_set : Option Text
  pub running_mode : Option Text
  pub len : Option ℕ
  pub store_swu : Bool

-- `InstallRequest::new()`, which is `default()`
unfoldable pub new : InstallRequest
new = record {
  source = local;
  mode = default;
  info = [];
  software_set = none;
  running_mode = none;
  len = none;
  store_swu = true;
}

unfoldable pub with_source : Source → InstallRequest → InstallRequest
with_source source req = record req { source = source }

unfoldable pub with_mode : RunMode → InstallRequest → InstallRequest
with_mode mode req = record req { mode = mode }

unfoldable pub with_info : Text → InstallRequest → InstallRequest
with_info info req = record req { info = info }

unfoldable pub with_software_set : Text → InstallRequest → InstallRequest
with_software_set set req = record req { software_set = some set }

unfoldable pub with_running_mode : Text → InstallRequest → InstallRequest
with_running_mode mode req = record req { running_mode = some mode }

unfoldable pub with_len : ℕ → InstallRequest → InstallRequest
with_len len req = record req { len = some len }

unfoldable pub with_store_swu : Bool → InstallRequest → InstallRequest
with_store_swu store req = record req { store_swu = store }

-- `if let Some(ref text) = field { write_cstr(&mut req.slot, text) }`
unfoldable pub write_optional : Slot → Option Text → Bytes → Bytes
write_optional s none raw = raw
write_optional s (some text) raw = write_cstr_at s text raw

-- `RawSwupdateRequest::zeroed()`
unfoldable pub zeroed : Bytes
zeroed = replicate instmsg_req.size 0

unfoldable pub to_raw : InstallRequest → Bytes
unfolding write_optional zeroed
to_raw self =
    let versioned = write_int req_apiversion swupdate_api_version zeroed in
    let sourced = write_int req_source (source_to_wire self.source) versioned in
    let moded = write_int req_dry_run (mode_to_wire self.mode) sourced in
    let sized = write_int req_len (get_or self.len 0 % 2 ^ 64) moded in
    let described = write_cstr_at req_info self.info sized in
    let with_set = write_optional req_software_set self.software_set described in
    let with_mode = write_optional req_running_mode self.running_mode with_set in
    write_int req_disable_store_swu (if self.store_swu then 0 else 1) with_mode
