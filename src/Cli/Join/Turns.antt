-- ===== src/Cli/Join/Turns.antt =====
-- src/bin/swupdate-client.rs: the turns of the streaming in a join over the runtime in memory, where
-- its file is there.
use swupdate_rs.Common.{
  ℕ, suc, ◌+◌, ◌*◌, ◌≡◌, ◌≤◌, refl, ap, none, some, true, Option, List, [], ◌∷◌, Bytes, length,
  take, drop, length-take, length-drop, arith,
}
use swupdate_rs.Text.{Text}
use swupdate_rs.Error.{Result, ok, err, done}
use swupdate_rs.Runtime.Memory.{memory, World, to_bytes, length-to_bytes}
use swupdate_rs.Runtime.Memory.Untouched.{Same}
use swupdate_rs.Control.Install.{chunk_size}
use swupdate_rs.Progress.Client.{ProgressClient}
use swupdate_rs.Cli.Output.{Line}
use swupdate_rs.Cli.Join.{
  StreamTask, opening, reading, writing, streamed, step_stream, file_opened, chunk_arrived,
  chunk_sent,
}

-- A file that was named is there.
abbrev pub IsThere : Option Text → World → Type 0
IsThere none w = Unit {0}
IsThere (some path) w = w.present path ≡ true

pub still-IsThere :
    (file : Option Text) (w1 w : World) → w1.present ≡ w.present → IsThere file w → IsThere file w1
still-IsThere none w1 w files h = tt
still-IsThere (some path) w1 w files h = rw files h

module _ (s : Text) (c : ProgressClient memory) where
  -- Before the file is opened, it is there; a byte costs a read and a write.
  abbrev pub Ready : StreamTask Text → World → ℕ → Type 0
  Ready (opening file) w turns = IsThere file w × (2 * length w.input + 2 ≤ turns)
  Ready (reading reader n) w turns = 2 * length w.input + 1 ≤ turns
  Ready (writing reader chunk n) w turns = 2 * length w.input + 2 ≤ turns
  Ready streamed w turns = Unit {0}

  -- Behind a turn of the streaming.
  abbrev pub Streams : ℕ → World → Result (StreamTask Text) × (World × List Line) → Type 0
  Streams turns w (ok task, (w1, out)) = Ready task w1 turns × (w1.answers ≡ w.answers)
  Streams turns w (err e, log) = ⊥

  read_turn :
      (turns : ℕ) (reader : Text) (n : ℕ) (w : World) (out : List Line) (bytes : Bytes)
      → to_bytes (take chunk_size w.input) ≡ bytes
      → 2 * length w.input + 1 ≤ suc turns
      → Streams turns w (
          chunk_arrived memory reader n out
            (done bytes, record w { input = drop chunk_size w.input }))
  unfolding chunk_arrived
  read_turn turns reader n w out [] e h = (tt, refl)
  read_turn turns reader n w out (x ∷ bytes) e h = (
    omega (
      arith,
      h,
      length-drop chunk_size w.input,
      length-take chunk_size w.input,
      length-to_bytes (take chunk_size w.input),
      ap (λ (xs : Bytes). length xs) e,
    ),
    refl,
  )

  pub stream_turn :
      (turns : ℕ) (task : StreamTask Text) (w : World) (out : List Line)
      → Ready task w (suc turns)
      → Streams turns w (step_stream memory s task (w, out))
  unfolding step_stream chunk_sent file_opened
  stream_turn turns (opening none) w out (there, h) = (omega arith, refl)
  stream_turn turns (opening (some path)) w out (there, h) = rw there (omega arith, refl)
  stream_turn turns (reading reader n) w out h =
      read_turn turns reader n w out (to_bytes (take chunk_size w.input)) refl h
  stream_turn turns (writing reader chunk n) w out h = (omega arith, refl)
  stream_turn turns streamed w out h = (tt, refl)

  -- A receipt leaves the input and the files alone.
  pub Ready-Same :
      (turns : ℕ) (task : StreamTask Text) (w1 w : World)
      → Same w1 w
      → w1.present ≡ w.present
      → Ready task w turns
      → Ready task w1 turns
  Ready-Same turns (opening file) w1 w (sent, input) files h =
      (still-IsThere file w1 w files h.0, rw input h.1)
  Ready-Same turns (reading reader n) w1 w (sent, input) files h = rw input h
  Ready-Same turns (writing reader chunk n) w1 w (sent, input) files h = rw input h
  Ready-Same turns streamed w1 w same files h = h
