-- ===== src/Examples/Commands.antt =====
-- Monitoring, and the join of a streaming with it.
use swupdate_rs.Text.{codes, Text}
use swupdate_rs.Cli.Monitor.{monitor}
use swupdate_rs.Runtime.Memory.{memory, World}
use swupdate_rs.Wire.Constants.{msg_size}
use swupdate_rs.Types.Event.{from_raw}
use swupdate_rs.Wire.ProgressMsg.{packed_from_bytes}
use swupdate_rs.Common.{from_ne_bytes, ℕ, refl, List, Bytes, [], ◌∷◌, replicate, none, true, false}
use swupdate_rs.Error.{ok}
use swupdate_rs.Progress.Client.{ProgressClient, receive}
use swupdate_rs.Types.Event.{started, success}
use swupdate_rs.Cli.Monitor.Events.{Ended, printed, monitor-Ended}
use swupdate_rs.Wire.Constants.{packed}

-- A message in the packed layout that holds its status alone.
abbrev pub message : ℕ → Bytes
message status = 0 ∷ 0 ∷ 2 ∷ 0 ∷ status ∷ replicate 2403 0

abbrev pub world : Bytes → List Bytes → Bytes → World
world sent answers input = record {
  env = λ (name : Text). none;
  present = λ (path : Text). true;
  slow = false;
  sent = sent;
  answers = answers;
  input = input;
  version = none;
}

abbrev pub client : ProgressClient memory
client = record {
  stream = codes "progress";
  config = record { ctrl_path = []; progress_path = []; connect_timeout = 5_000 };
  layout = packed;
}

-- START and then SUCCESS
abbrev update : World
update = world [] (message 1 ∷ message 3 ∷ []) []

monitor-Ended_example :
    Ended memory client [] update (ok tt, (world [] [] [], printed (started ∷ success ∷ [])))
unfolding monitor receive msg_size from_raw packed_from_bytes from_ne_bytes
monitor-Ended_example =
    monitor-Ended memory client 2 update []
      (ok tt, (world [] [] [], printed (started ∷ success ∷ []))) refl
