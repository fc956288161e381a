-- ===== src/Types/Event.antt =====
-- src/types.rs: `ProgressFields` and `ProgressEvent`.
pub mod Laws
use swupdate_rs.Common.{ℕ, Bool, true, false, Option, none, some, ◌++◌, min, take, Bytes}
use swupdate_rs.Text.{Text, codes}
use swupdate_rs.Text.Format.{display}
use swupdate_rs.Wire.Constants.{prinfosize}
use swupdate_rs.Wire.Cstring.{cstr_from_bytes}
use swupdate_rs.Wire.ProgressMsg.{RawProgressMsg, RawProgressMsgUnpacked}
use swupdate_rs.Wire.RecoveryStatus.{
  RecoveryStatus, from_u32, start, run, download, done, subprocess, progress, failure,
}

pub data ProgressEvent : Type 0 where
  started : ProgressEvent
  downloading : (percent bytes_total : ℕ) → ProgressEvent
  installing : (step total_steps percent : ℕ) (image handler : Text) → ProgressEvent
  success : ProgressEvent
  failed : Text → ProgressEvent
  idle : ProgressEvent

pub record ProgressFields : Type 0 where
  pub status : ℕ
  pub dwl_percent : ℕ
  pub dwl_bytes : ℕ
  pub nsteps : ℕ
  pub cur_step : ℕ
  pub cur_percent : ℕ
  pub cur_image : Text
  pub hnd_name : Text
  pub info : Text

-- `From<&RawProgressMsg>`
unfoldable pub fields_of_packed : RawProgressMsg → ProgressFields
fields_of_packed raw =
    let info_len = min raw.infolen prinfosize in
    record {
      status = raw.status;
      dwl_percent = raw.dwl_percent;
      dwl_bytes = raw.dwl_bytes;
      nsteps = raw.nsteps;
      cur_step = raw.cur_step;
      cur_percent = raw.cur_percent;
      cur_image = cstr_from_bytes raw.cur_image;
      hnd_name = cstr_from_bytes raw.hnd_name;
      info = cstr_from_bytes (take info_len raw.info);
    }

-- `From<&RawProgressMsgUnpacked>`
unfoldable pub fields_of_unpacked : RawProgressMsgUnpacked → ProgressFields
fields_of_unpacked raw =
    let info_len = min raw.infolen prinfosize in
    record {
      status = raw.status;
      dwl_percent = raw.dwl_percent;
      dwl_bytes = raw.dwl_bytes;
      nsteps = raw.nsteps;
      cur_step = raw.cur_step;
      cur_percent = raw.cur_percent;
      cur_image = cstr_from_bytes raw.cur_image;
      hnd_name = cstr_from_bytes raw.hnd_name;
      info = cstr_from_bytes (take info_len raw.info);
    }

unfoldable pub from_fields : ProgressFields → ProgressEvent
unfolding from_u32
from_fields f = elim (from_u32 f.status) [
  | some RecoveryStatus.idle ↦ ProgressEvent.idle
  | some start ↦ started
  | some download ↦ downloading f.dwl_percent f.dwl_bytes
  | some run ↦ installing f.cur_step f.nsteps f.cur_percent f.cur_image f.hnd_name
  | some progress ↦ installing f.cur_step f.nsteps f.cur_percent f.cur_image f.hnd_name
  | some RecoveryStatus.success ↦ ProgressEvent.success
  | some done ↦ ProgressEvent.success
  | some failure ↦ failed f.info
  | some subprocess ↦ installing f.cur_step f.nsteps f.cur_percent f.cur_image f.hnd_name
  | none ↦ failed (codes "unknown status: " ++ display f.status)
]

unfoldable pub from_raw : RawProgressMsg → ProgressEvent
unfolding fields_of_packed from_fields
from_raw raw = from_fields (fields_of_packed raw)

unfoldable pub from_raw_unpacked : RawProgressMsgUnpacked → ProgressEvent
unfolding fields_of_unpacked from_fields
from_raw_unpacked raw = from_fields (fields_of_unpacked raw)

unfoldable pub is_terminal : ProgressEvent → Bool
is_terminal success = true
is_terminal (failed message) = true
is_terminal _ = false
