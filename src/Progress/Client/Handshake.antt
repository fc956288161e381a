-- ===== src/Progress/Client/Handshake.antt =====
-- src/progress.rs: which acknowledgements the handshake accepts.
use swupdate_rs.Common.{◌≡◌, ◌≢◌, ◌↔◌, true, [], ◌∷◌, Bytes, arith}
use swupdate_rs.Error.{version_mismatch, ok, err}
use swupdate_rs.Wire.Constants.{progress_connect_ack_magic}
use swupdate_rs.Wire.ProgressMsg.{RawProgressAck}
use swupdate_rs.Progress.Client.{bytes_eq, major, check_ack}

bytes_eq_iff : (as' bs : Bytes) → (bytes_eq as' bs ≡ true) ↔ (as' ≡ bs)
unfolding bytes_eq
bytes_eq_iff [] [] = ground arith
bytes_eq_iff [] (b ∷ bs) = ground arith
bytes_eq_iff (a ∷ as') [] = ground arith
bytes_eq_iff (a ∷ as') (b ∷ bs) = ground (arith, bytes_eq_iff as' bs)

-- An acknowledgement is accepted exactly if it holds the magic `ACK\0` and an API version whose
-- major number is 2, whatever the minor and patch numbers are; with the magic right and another
-- major number the error is a version mismatch.
pub check_ack_iff :
    (ack : RawProgressAck)
    → ((check_ack ack ≡ ok tt)
        ↔ ((ack.magic ≡ progress_connect_ack_magic) × (major ack.apiversion ≡ 2)))
      × ((check_ack ack ≡ err (version_mismatch 0x20000 ack.apiversion))
          ↔ ((ack.magic ≡ progress_connect_ack_magic) × (major ack.apiversion ≢ 2)))
unfolding check_ack
check_ack_iff ack = ground (arith, bytes_eq_iff ack.magic progress_connect_ack_magic)
