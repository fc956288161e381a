-- ===== src/Cli/Join/Course.antt =====
-- src/bin/swupdate-client.rs: what is still to happen in a join over the runtime in memory.
use swupdate_rs.Common.{
  ◌<◌, ℕ, ◌+◌, ◌%◌, ◌^◌, ◌≡◌, refl, ap, ◌∙◌, sym, List, [], ◌∷◌, ◌++◌, append_assoc, length,
}
use swupdate_rs.Text.{Text}
use swupdate_rs.Types.Event.{ProgressEvent}
use swupdate_rs.Runtime.Memory.{memory, World}
use swupdate_rs.Progress.Client.{ProgressClient}
use swupdate_rs.Cli.Output.{Line, print_progress}
use swupdate_rs.Cli.Monitor.Events.{Watched, printed}
use swupdate_rs.Cli.Monitor.Alone.{Watched-Alike}
use swupdate_rs.Cli.Join.{
  StreamTask, WatchTask, opening, reading, writing, streamed, receiving, seen_last, streamed_line,
}

-- The one line of the streaming stands somewhere among the lines of the monitoring.
abbrev pub Inserted : Line → List Line → List Line → Type 0
Inserted line others lines =
    (before : List Line) × (after : List Line) × (before ++ after ≡ others)
    × (lines ≡ before ++ (line ∷ after))

pub Inserted-append :
    (line : Line) (first others lines : List Line)
    → Inserted line others lines
    → Inserted line (first ++ others) (first ++ lines)
Inserted-append line first others lines (before, after, e, q) = (
  first ++ before,
  after,
  append_assoc first before after ∙ ap (λ l. first ++ l) e,
  ap (λ l. first ++ l) q ∙ sym (append_assoc first before (line ∷ after)),
)

module _ (c : ProgressClient memory) where
  -- The events still to be watched.
  abbrev pub Heard : WatchTask → List ProgressEvent → World → World → Type 0
  Heard receiving events w v = Watched memory c events w v
  Heard seen_last events w v = (events ≡ []) × (v.answers ≡ w.answers)

  pub Heard-Alike :
      (watch : WatchTask) (events : List ProgressEvent) (w1 v w : World)
      → Heard watch events w1 v
      → w.answers ≡ w1.answers
      → (v' : World) × Heard watch events w v' × (v'.answers ≡ v.answers)
  Heard-Alike receiving events w1 v w h same = Watched-Alike c w h same
  Heard-Alike seen_last events w1 v w (none_left, q) same = (w, (none_left, refl), same ∙ sym q)

module _ (s : Text) (c : ProgressClient memory) (total : ℕ) where
  -- The lines still to be printed, given those of the events.
  abbrev pub Lines : StreamTask Text → List Line → List Line → Type 0
  Lines (opening file) others lines = Inserted (streamed_line (total % 2 ^ 64)) others lines
  Lines (reading reader n) others lines = Inserted (streamed_line (total % 2 ^ 64)) others lines
  Lines (writing reader chunk n) others lines =
      Inserted (streamed_line (total % 2 ^ 64)) others lines
  Lines streamed others lines = lines ≡ others

  pub Lines-append :
      (task : StreamTask Text) (first others lines : List Line)
      → Lines task others lines
      → Lines task (first ++ others) (first ++ lines)
  Lines-append (opening file) first others lines h = Inserted-append _ first others lines h
  Lines-append (reading reader n) first others lines h = Inserted-append _ first others lines h
  Lines-append (writing reader chunk n) first others lines h =
      Inserted-append _ first others lines h
  Lines-append streamed first others lines h = ap (λ l. first ++ l) h

  -- What is still to happen.
  pub record Course (task : StreamTask Text) (watch : WatchTask) (w w' : World)
      (out out' : List Line) : Type 0 where
    pub events : List ProgressEvent
    pub lines : List Line
    pub behind : World
    pub heard : Heard c watch events w behind
    pub answers_left : w'.answers ≡ behind.answers
    pub told : Lines task (printed events) lines
    pub all_lines : out' ≡ out ++ lines

  -- The task's count is that of the bytes it has written.
  abbrev pub Counts : StreamTask Text → World → Type 0
  Counts (opening file) w = length w.input ≡ total
  Counts (reading reader n) w = (n < 2 ^ 64) × ((n + length w.input) % 2 ^ 64 ≡ total % 2 ^ 64)
  Counts (writing reader chunk n) w =
      (n < 2 ^ 64) × ((n + length chunk + length w.input) % 2 ^ 64 ≡ total % 2 ^ 64)
  Counts streamed w = Unit {0}

  -- A step of the streaming that prints nothing.
  pub silently :
      (task task1 : StreamTask Text) (watch : WatchTask) (w w1 w' : World) (out out' : List Line)
      → w.answers ≡ w1.answers
      → ((others lines : List Line) → Lines task1 others lines → Lines task others lines)
      → Course task1 watch w1 w' out out'
      → Course task watch w w' out out'
  silently task task1 watch w w1 w' out out' same lines_of k =
      let (v, heard, q) = Heard-Alike c watch k.events w1 k.behind w k.heard same in
      record {
        events = k.events;
        lines = k.lines;
        behind = v;
        heard = heard;
        answers_left = k.answers_left ∙ sym q;
        told = lines_of (printed k.events) k.lines k.told;
        all_lines = k.all_lines;
      }

  -- The streaming is over, and prints its line.
  pub counted :
      (reader : Text) (n : ℕ) (watch : WatchTask) (w w1 w' : World) (out out' : List Line)
      → w.answers ≡ w1.answers
      → streamed_line n ≡ streamed_line (total % 2 ^ 64)
      → Course streamed watch w1 w' (out ++ (streamed_line n ∷ [])) out'
      → Course (reading reader n) watch w w' out out'
  counted reader n watch w w1 w' out out' same line k =
      let (v, heard, q) = Heard-Alike c watch k.events w1 k.behind w k.heard same in
      record {
        events = k.events;
        lines = streamed_line n ∷ k.lines;
        behind = v;
        heard = heard;
        answers_left = k.answers_left ∙ sym q;
        told = ([], printed k.events, refl, cc (line, k.told));
        all_lines = k.all_lines ∙ append_assoc out (streamed_line n ∷ []) k.lines;
      }

  -- An event arrives, and prints its lines.
  pub watched :
      (task : StreamTask Text) (event : ProgressEvent) (watch : WatchTask) (w w1 w' : World)
      (out out' : List Line)
      → ((events : List ProgressEvent) (v : World)
          → Heard c watch events w1 v
          → (v' : World) × Watched memory c (event ∷ events) w v' × (v'.answers ≡ v.answers))
      → Course task watch w1 w' (out ++ print_progress event) out'
      → Course task receiving w w' out out'
  watched task event watch w w1 w' out out' hear k =
      let (v, heard, q) = hear k.events k.behind k.heard in
      record {
        events = event ∷ k.events;
        lines = print_progress event ++ k.lines;
        behind = v;
        heard = heard;
        answers_left = k.answers_left ∙ sym q;
        told = Lines-append task (print_progress event) (printed k.events) k.lines k.told;
        all_lines = k.all_lines ∙ append_assoc out (print_progress event) k.lines;
      }
