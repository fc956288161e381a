-- ===== src/Cli/Join/Told.antt =====
-- src/bin/swupdate-client.rs: what the tasks of a join have printed once they are over.
use swupdate_rs.Cli.Join.{opening, reading, writing, streamed, receiving, seen_last}
use swupdate_rs.Types.Event.{failed, success, idle, started, downloading, installing}
use swupdate_rs.Cli.Output.{Line, print_progress}
use swupdate_rs.Types.Event.{is_terminal, ProgressEvent}
use swupdate_rs.Common.{[], ℕ, refl, inl, inr, ◌≡◌, List, ◌++◌, ◌∷◌, true, ◌⊎◌, []}
use swupdate_rs.Cli.Join.{WatchTask, StreamTask, streamed_line}

-- The line stands among the lines.
abbrev pub Has : Line → List Line → Type 0
Has line [] = ⊥
Has line (l ∷ lines) = (l ≡ line) ⊎ Has line lines

pub Has-append : (line : Line) (xs ys : List Line) → Has line xs → Has line (xs ++ ys)
Has-append line [] ys h = elim h [ ]
Has-append line (x ∷ xs) ys (inl h) = inl h
Has-append line (x ∷ xs) ys (inr h) = inr (Has-append line xs ys h)

pub Has-append_right : (line : Line) (xs ys : List Line) → Has line ys → Has line (xs ++ ys)
Has-append_right line [] ys h = h
Has-append_right line (x ∷ xs) ys h = inr (Has-append_right line xs ys h)

-- The streaming task, once over, has printed how many bytes it sent.
abbrev pub Told : {Reader : Type 0} → StreamTask Reader → List Line → Type 0
Told streamed out = (n : ℕ) × Has (streamed_line n) out
Told _ out = Unit {0}

-- The monitoring task, once over, has printed a terminal event.
abbrev pub Seen : WatchTask → List Line → Type 0
Seen seen_last out =
    (event : ProgressEvent) × (line : Line) × (is_terminal event ≡ true)
    × (print_progress event ≡ line ∷ [])
    × Has line out
Seen receiving out = Unit {0}

pub Told-append :
    {Reader : Type 0} (task : StreamTask Reader) (out lines : List Line)
    → Told task out
    → Told task (out ++ lines)
Told-append (opening file) out lines h = tt
Told-append (reading reader total) out lines h = tt
Told-append (writing reader chunk total) out lines h = tt
Told-append streamed out lines (n, h) = (n, Has-append (streamed_line n) out lines h)

pub Seen-append :
    (watch : WatchTask) (out lines : List Line) → Seen watch out → Seen watch (out ++ lines)
Seen-append receiving out lines h = tt
Seen-append seen_last out lines (event, line, t, p, h) =
    (event, line, t, p, Has-append line out lines h)

-- A terminal event prints one line.
pub terminal_line :
    (event : ProgressEvent)
    → is_terminal event ≡ true
    → (line : Line) × (print_progress event ≡ line ∷ [])
unfolding is_terminal print_progress
terminal_line success h = (_, refl)
terminal_line (failed message) h = (_, refl)
terminal_line idle h = cc
terminal_line started h = cc
terminal_line (downloading percent bytes_total) h = cc
terminal_line (installing step total_steps percent image handler) h = cc
