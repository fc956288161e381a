-- ===== src/Examples/Joins.antt =====
-- The join of a streaming with a monitoring.
use swupdate_rs.Common.{refl, ◌≡◌, some, none, [], ◌∷◌, List, arith, from_ne_bytes}
use swupdate_rs.Error.{ok}
use swupdate_rs.Text.{codes}
use swupdate_rs.Text.Format.{display}
use swupdate_rs.Runtime.Memory.{memory, World}
use swupdate_rs.Wire.Constants.{msg_size}
use swupdate_rs.Wire.ProgressMsg.{packed_from_bytes}
use swupdate_rs.Types.Event.{started, success, from_raw, is_terminal}
use swupdate_rs.Progress.Client.{receive}
use swupdate_rs.Cli.Output.{Line, info, stdout}
use swupdate_rs.Cli.Monitor.Events.{Watched, last, next}
use swupdate_rs.Cli.Join.Steps.{Reach, State, state}
use swupdate_rs.Cli.Join.Reachable.{join_iff}
use swupdate_rs.Common.{◌↔◌}
use swupdate_rs.Cli.Join.{join, opening, receiving, streamed, seen_last, streaming, watching, Side}
use swupdate_rs.Cli.Join.Alone.{Both, join-Both}
use swupdate_rs.Text.{Text}
use swupdate_rs.Common.{false}
use swupdate_rs.Error.{Error, protocol, err}
use swupdate_rs.Cli.Join.Failures.{Fails, join-Fails_iff}
use swupdate_rs.Cli.Join.Completes.{join-completes}
use swupdate_rs.Examples.Commands.{client, message, world}

-- Three bytes of standard input are streamed while the daemon reports; its last message is not
-- read.
abbrev installing : World
installing = world [] (message 1 ∷ message 3 ∷ message 0 ∷ []) (1 ∷ 2 ∷ 3 ∷ [])

abbrev installed : World
installed = world (1 ∷ 2 ∷ 3 ∷ []) (message 0 ∷ []) []

abbrev order : List Side
order = streaming ∷ watching ∷ streaming ∷ streaming ∷ watching ∷ streaming ∷ []

abbrev report : List Line
report = info (codes "Started") ∷ info (codes "Success") ∷ stdout (codes "Streamed 3 bytes") ∷ []

join-Both_example : Both client installing installed [] report
unfolding join msg_size from_raw packed_from_bytes from_ne_bytes display
join-Both_example =
    join-Both (codes "ctrl") client order none installing installed [] report (omega arith) refl

-- Alone, the monitoring leaves the input.
abbrev unread : World
unread = world [] (message 0 ∷ []) (1 ∷ 2 ∷ 3 ∷ [])

alone : Watched memory client (started ∷ success ∷ []) installing unread
unfolding receive msg_size from_raw packed_from_bytes from_ne_bytes is_terminal
alone =
    next {w1 = world [] (message 3 ∷ message 0 ∷ []) (1 ∷ 2 ∷ 3 ∷ [])} refl refl (last refl refl)

-- Another order: the monitoring first, and then the streaming.
abbrev fair : List Side
fair =
    watching ∷ watching ∷ streaming ∷ streaming ∷ streaming ∷ streaming ∷ streaming ∷ streaming
    ∷ streaming ∷ streaming ∷ []

-- The theorem finds a run of this order.
fair_run :
    (w' : World) × (out' : List Line) × (join memory
        (codes "ctrl")
        client
        fair
        (opening none)
        receiving
        (installing, [])
      ≡ some (ok tt, (w', out')))
fair_run =
    let (w', out', e, both, same) =
      join-completes (codes "ctrl") client fair none (started ∷ success ∷ []) installing unread []
        (omega arith) tt alone (omega arith) (omega arith) in
    (w', out', e)

-- A machine without files.
abbrev bare : World
bare = record installing { present = λ (path : Text). false }

abbrev not_opened : Error
not_opened = protocol (codes "failed to open /tmp/image.swu: No such file or directory")

join-Fails_iff_example :
    ((schedule : List Side) × (join memory
          (codes "ctrl")
          client
          schedule
          (opening (some (codes "/tmp/image.swu")))
          receiving
          (bare, [])
        ≡ some (err not_opened, (bare, []))))
    ↔ ((b : State memory) × Reach memory
          (codes "ctrl")
          client
          (state memory (opening (some (codes "/tmp/image.swu"))) receiving bare [])
          b
        × Fails memory
            (codes "ctrl")
            client
            (some (codes "/tmp/image.swu"))
            b
            not_opened
            (bare, []))
join-Fails_iff_example =
    join-Fails_iff memory (codes "ctrl") client (some (codes "/tmp/image.swu")) bare [] not_opened
      (bare, [])

-- The order that opens the file first ends so.
opened_first :
    (schedule : List Side) × (join memory
        (codes "ctrl")
        client
        schedule
        (opening (some (codes "/tmp/image.swu")))
        receiving
        (bare, [])
      ≡ some (err not_opened, (bare, [])))
unfolding join
opened_first = (streaming ∷ [], refl)

join_iff_example :
    ((schedule : List Side) × (join memory
          (codes "ctrl")
          client
          schedule
          (opening none)
          receiving
          (installing, [])
        ≡ some (ok tt, (installed, report))))
    ↔ Reach memory
        (codes "ctrl")
        client
        (state memory (opening none) receiving installing [])
        (state memory streamed seen_last installed report)
join_iff_example = join_iff memory (codes "ctrl") client none installing installed [] report

reachable :
    Reach memory
      (codes "ctrl")
      client
      (state memory (opening none) receiving installing [])
      (state memory streamed seen_last installed report)
unfolding join msg_size from_raw packed_from_bytes from_ne_bytes display
reachable =
    (join_iff memory (codes "ctrl") client none installing installed [] report).0 (order, refl)
