-- ===== src/Cli/Output.antt =====
-- src/bin/swupdate-client.rs: what the command prints.
use swupdate_rs.Common.{List, [], ◌∷◌, ◌++◌}
use swupdate_rs.Text.{Text, codes}
use swupdate_rs.Text.Format.{display}
use swupdate_rs.Types.UpdateState.{UpdateState}
use swupdate_rs.Types.RecoveryStatus.{RecoveryStatus}
use swupdate_rs.Types.Event.{ProgressEvent, started, downloading, installing, success, failed, idle}

-- A line on the standard output, or of the log.
pub data Line : Type 0 where
  stdout info error : Text → Line

-- The derived `Debug` of the two enums.
unfoldable pub debug_recovery_status : RecoveryStatus → Text
debug_recovery_status RecoveryStatus.idle = codes "Idle"
debug_recovery_status RecoveryStatus.start = codes "Start"
debug_recovery_status RecoveryStatus.run = codes "Run"
debug_recovery_status RecoveryStatus.success = codes "Success"
debug_recovery_status RecoveryStatus.failure = codes "Failure"
debug_recovery_status RecoveryStatus.download = codes "Download"
debug_recovery_status RecoveryStatus.done = codes "Done"
debug_recovery_status RecoveryStatus.subprocess = codes "Subprocess"
debug_recovery_status RecoveryStatus.progress = codes "Progress"

unfoldable pub debug_update_state : UpdateState → Text
debug_update_state UpdateState.ok = codes "Ok"
debug_update_state UpdateState.installed = codes "Installed"
debug_update_state UpdateState.testing = codes "Testing"
debug_update_state UpdateState.failed = codes "Failed"
debug_update_state UpdateState.not_available = codes "NotAvailable"
debug_update_state UpdateState.error = codes "Error"
debug_update_state UpdateState.wait = codes "Wait"
debug_update_state UpdateState.in_progress = codes "InProgress"

-- `print_progress`: an idle event prints nothing.
unfoldable pub print_progress : ProgressEvent → List Line
print_progress started = info (codes "Started") ∷ []
print_progress (downloading percent bytes_total) =
    info (
      codes "Downloading: "
      ++ display percent
      ++ codes "% ("
      ++ display bytes_total
      ++ codes " bytes total)")
    ∷ []
print_progress (installing step total_steps percent image handler) =
    info (
      codes "Installing ["
      ++ handler
      ++ codes "] "
      ++ image
      ++ codes ": step "
      ++ display step
      ++ codes "/"
      ++ display total_steps
      ++ codes " ("
      ++ display percent
      ++ codes "%)")
    ∷ []
print_progress success = info (codes "Success") ∷ []
print_progress (failed message) = error (codes "Failed: " ++ message) ∷ []
print_progress idle = []
