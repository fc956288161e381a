-- ===== src/Examples/Endings.antt =====
-- Runs that come to an end.
use swupdate_rs.Common.{refl, ◌≡◌, none, some, true, false, [], ◌∷◌, List, arith, All, ◌≤◌, ◌*◌}
use swupdate_rs.Error.{ok}
use swupdate_rs.Text.{Text, codes}
use swupdate_rs.Cli.Args.{Cli, Command, InstallArgs}
use swupdate_rs.Cli.Args as Args
use swupdate_rs.Cli.Join.{Side, streaming, watching}
use swupdate_rs.Cli.Main.{main, Exit}
use swupdate_rs.Cli.Main.Returns.{main-returns}
use swupdate_rs.Control.Install.{Installation, stream}
use swupdate_rs.Control.Install.Bounds.{stream-exact, IsChunk}
use swupdate_rs.Control.Install.Stream.{chunk, finish}
use swupdate_rs.Runtime.Memory.{memory, World, memory-IsLawful}
use swupdate_rs.Runtime.Memory.Ends.{memory_finite}

-- Two messages that no client can read, and three bytes to install.
abbrev waiting : World
waiting = record {
  env = λ (name : Text). none;
  present = λ (path : Text). true;
  slow = false;
  sent = [];
  answers = (1 ∷ []) ∷ (2 ∷ []) ∷ [];
  input = 1 ∷ 2 ∷ 3 ∷ [];
  version = none;
}

abbrev schedule : List Side
schedule =
    streaming ∷ watching ∷ streaming ∷ streaming ∷ watching ∷ streaming ∷ streaming ∷ streaming
    ∷ watching ∷ streaming ∷ streaming ∷ []

abbrev installing : Cli
installing = record {
  ctrl_socket = none;
  progress_socket = none;
  verbose = false;
  command =
      Command.install
        (record { file = none; progress = true; source = Args.local; dry_run = true; info = [] });
}

main-returns_example : (e : Exit memory) × (main memory 4 schedule installing waiting ≡ some e)
main-returns_example = main-returns memory memory_finite 4 schedule installing waiting (record {
  fuel_to_read = omega arith;
  fuel_to_receive = omega arith;
  turns_to_stream = omega arith;
  turns_to_watch = omega arith;
})

abbrev handle : Installation memory
handle = record {
  client = record {
    stream = codes "ctrl";
    config = record { ctrl_path = []; progress_path = []; connect_timeout = 5_000 };
  };
}

abbrev read_out : World
read_out = record waiting { input = [] }

abbrev sent_out : World
sent_out = record waiting { sent = 1 ∷ 2 ∷ 3 ∷ []; input = [] }

stream-exact_example :
    (stream memory 2 handle (codes "stdin") waiting ≡ some (ok 3, sent_out))
    × All IsChunk ((1 ∷ 2 ∷ 3 ∷ []) ∷ [])
    × (1 ≤ 3)
    × (3 ≤ 8_192 * 1)
stream-exact_example =
    stream-exact memory handle (codes "stdin") ((1 ∷ 2 ∷ 3 ∷ []) ∷ []) 2 waiting sent_out
      memory-IsLawful
      (chunk {w = waiting} {w1 = read_out} {w2 = sent_out} refl refl
        (finish {w = sent_out} {w' = sent_out} refl))
      (omega arith) (omega arith)
