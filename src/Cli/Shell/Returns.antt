-- ===== src/Cli/Shell/Returns.antt =====
-- Actions of the command that come to an end over a runtime whose inputs end.
use mathlib.Core.Path.{subst, sym}
use swupdate_rs.Common.{◌≡◌, refl, Option, some, List, ◌++◌}
use swupdate_rs.Error.{Result, ok, err, Action}
use swupdate_rs.Runtime.{Runtime}
use swupdate_rs.Runtime.Finite.{Finite, NoMore, NoMore-refl, NoMore-trans, Spends}
use swupdate_rs.Cli.Output.{Line}
use swupdate_rs.Cli.Shell.{Shell, proceed, ◌>>=◌, ◌>>◌, call, write_lines}

module _ {R : Runtime} (F : Finite R) where
  -- There is an outcome, and no more is left than there was.
  pub record Ended {A : Type 0} (o : Option (Result A × (R.World × List Line))) (w : R.World)
      : Type 0 where
    pub outcome : Result A × (R.World × List Line)
    pub returned : o ≡ some outcome
    pub spent : NoMore F.left outcome.1.0 w

  pub ends :
      {A : Type 0} (r : Result A × (R.World × List Line)) (w : R.World)
      → NoMore F.left r.1.0 w
      → Ended (some r) w
  ends r w h = record { outcome = r; returned = refl; spent = h }

  pub ends_later :
      {A : Type 0} {o : Option (Result A × (R.World × List Line))} {w1 w : R.World}
      → NoMore F.left w1 w
      → Ended o w1
      → Ended o w
  ends_later q h = record {
    outcome = h.outcome;
    returned = h.returned;
    spent = NoMore-trans F.left h.spent q;
  }

  -- A condition on what is left, which still holds where less is left.
  pub record Budget : Type 1 where
    pub Enough : R.World → Type 0
    pub still : (w' w : R.World) → NoMore F.left w' w → Enough w → Enough w'

  module _ (B : Budget) where
    -- Wherever the condition holds, the action comes to an end.
    abbrev pub Ends : {A : Type 0} → Shell R.World A → Type 0
    Ends m = (w : R.World) (out : List Line) → B.Enough w → Ended (m (w, out)) w

    pub call-Ends : {A : Type 0} (m : Action R.World A) → Spends F.left m → Ends (call m)
    call-Ends m h w out k = ends _ w (h w)

    pub write_lines-Ends : (lines : List Line) → Ends (write_lines lines)
    write_lines-Ends lines w out k = ends _ w (NoMore-refl F.left w)

    pub then-Ends :
        {A C : Type 0} (m : Shell R.World A) (f : A → Shell R.World C)
        → Ends m
        → ((a : A) → Ends (f a))
        → Ends (m >>= f)
    then-Ends {A} {C} m f h k w out enough =
        let first = h w out enough in
        subst (λ o. Ended (proceed o f) w) (sym first.returned)
          (by_outcome first.outcome first.spent)
      where
        by_outcome :
            (r : Result A × (R.World × List Line))
            → NoMore F.left r.1.0 w
            → Ended (proceed (some r) f) w
        by_outcome (ok a, (w1, out1)) q = ends_later q (k a w1 out1 (B.still w1 w q enough))
        by_outcome (err e, (w1, out1)) q = ends _ w q

    pub print-Ends :
        {C : Type 0} (lines : List Line) (m : Shell R.World C)
        → Ends m
        → Ends (write_lines lines >> m)
    print-Ends lines m h w out k = h w (out ++ lines) k
