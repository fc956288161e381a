-- ===== src/Types/UnitTests.antt =====
-- src/types.rs: the module `tests`. A test is the statement of its assertions.
use swupdate_rs.Wire.Cstring.{cstr_from_bytes, write_cstr}
use swupdate_rs.Common.{
  ◌≡◌, refl, true, false, some, ◌∷◌, [], All, splice, slice, from_ne_bytes, to_ne_bytes,
}
use swupdate_rs.Text.{codes, from_utf8_lossy, as_bytes}
use swupdate_rs.Wire.Constants.{swupdate_api_version}
use swupdate_rs.Wire.Layout.Slots.{req_apiversion, req_source, req_info, req_disable_store_swu}
use swupdate_rs.Wire.Message.{read_int, read_cstr_at, write_int, write_cstr_at}
use swupdate_rs.Types.Source.{Source}
use swupdate_rs.Types.Source as Source
use swupdate_rs.Types.RunMode as RunMode
use swupdate_rs.Types.UpdateState.{UpdateState}
use swupdate_rs.Types.UpdateState as UpdateState
use swupdate_rs.Types.Event.{is_terminal, success, failed, idle, started}
use swupdate_rs.Types.Request.{
  InstallRequest, new, with_source, with_mode, with_info, with_software_set, with_len,
  with_store_swu, to_raw,
}

abbrev InstallRequestDefaults : Type 0
InstallRequestDefaults =
    (new.source ≡ Source.local) × (new.mode ≡ RunMode.default) × (new.store_swu ≡ true)

install_request_defaults : InstallRequestDefaults
unfolding new
install_request_defaults = (refl, refl, refl)

abbrev suricata : InstallRequest
suricata = with_store_swu false (
    with_len 1024 (
      with_software_set (codes "main") (
        with_info (codes "test firmware v1.0")
          (with_mode RunMode.dry_run (with_source Source.suricatta new)))))

abbrev InstallRequestBuilder : Type 0
InstallRequestBuilder =
    (suricata.source ≡ Source.suricatta)
    × (suricata.mode ≡ RunMode.dry_run)
    × (suricata.info ≡ codes "test firmware v1.0")
    × (suricata.software_set ≡ some (codes "main"))
    × (suricata.len ≡ some 1024)
    × (suricata.store_swu ≡ false)

install_request_builder : InstallRequestBuilder
unfolding new with_source with_mode with_info with_software_set with_len with_store_swu
install_request_builder = (refl, refl, refl, refl, refl, refl)

abbrev InstallRequestToRawRoundtrip : Type 0
InstallRequestToRawRoundtrip =
    let raw = to_raw (with_info (codes "my firmware") (with_source Source.local new)) in
    (read_int req_apiversion raw ≡ swupdate_api_version)
    × (read_int req_source raw ≡ Source.to_wire Source.local)
    × (read_cstr_at req_info raw ≡ codes "my firmware")
    × (read_int req_disable_store_swu raw ≡ 0)

install_request_to_raw_roundtrip : InstallRequestToRawRoundtrip
unfolding new with_source with_info to_raw read_int read_cstr_at from_utf8_lossy as_bytes splice
    slice from_ne_bytes write_int write_cstr_at to_ne_bytes Source.to_wire cstr_from_bytes
    write_cstr
install_request_to_raw_roundtrip = (refl, refl, refl, refl)

abbrev ProgressEventTerminal : Type 0
ProgressEventTerminal =
    (is_terminal success ≡ true)
    × (is_terminal (failed (codes "oops")) ≡ true)
    × (is_terminal idle ≡ false)
    × (is_terminal started ≡ false)

progress_event_terminal : ProgressEventTerminal
unfolding is_terminal
progress_event_terminal = (refl, refl, refl, refl)

abbrev SourceRoundtrip : Type 0
SourceRoundtrip =
    All (λ src. Source.from_wire (Source.to_wire src) ≡ src)
      (Source.unknown ∷ Source.webserver ∷ Source.suricatta ∷ Source.downloader ∷ Source.local
        ∷ Source.chunks_downloader ∷ [])

source_roundtrip : SourceRoundtrip
unfolding Source.from_wire Source.to_wire
source_roundtrip = (refl, (refl, (refl, (refl, (refl, (refl, tt))))))

abbrev UpdateStateRoundtrip : Type 0
UpdateStateRoundtrip =
    All (λ state. UpdateState.from_wire (UpdateState.to_wire state) ≡ some state)
      (UpdateState.ok ∷ UpdateState.installed ∷ UpdateState.testing ∷ UpdateState.failed
        ∷ UpdateState.not_available ∷ UpdateState.error ∷ UpdateState.wait ∷ UpdateState.in_progress
        ∷ [])

update_state_roundtrip : UpdateStateRoundtrip
unfolding UpdateState.from_wire UpdateState.to_wire
update_state_roundtrip = (refl, (refl, (refl, (refl, (refl, (refl, (refl, (refl, tt))))))))
