-- ===== src/Runtime/Passive.antt =====
-- Operations of a runtime that leave the world in some order with the world before: what is built
-- of them does so too.
use swupdate_rs.Common.{ℕ, Option, none, some}
use swupdate_rs.Error.{Result, ok, err, Action, continue, ◌>>=◌, Duration, ok_or, Error}
use swupdate_rs.Runtime.{Runtime}
use swupdate_rs.Text.{Text}

pub record Order (R : Runtime) : Type 1 where
  pub Below : R.World → R.World → Type 0
  pub below_refl : (w : R.World) → Below w w
  pub below_trans : {w1 w2 w3 : R.World} → Below w3 w2 → Below w2 w1 → Below w3 w1

-- The world behind an action is below the one before.
abbrev pub Preserves : {R : Runtime} → Order R → {A : Type 0} → (R.World → A × R.World) → Type 0
Preserves O m = (w : _) → O.Below (m w).1 w

-- Connecting, receiving, closing and waiting do so.
pub record Passive (R : Runtime) (O : Order R) : Type 1 where
  pub connect-Preserves : (path : Text) → Preserves O (R.connect path)
  pub read_exact-Preserves : (s : R.Stream) (n : ℕ) → Preserves O (R.read_exact s n)
  pub shutdown-Preserves : (s : R.Stream) → Preserves O (R.shutdown s)
  pub within-Preserves :
      (A : Type 0) (d : Duration) (m : R.World → A × R.World)
      → Preserves O m
      → Preserves O (R.within A d m)
  pub version_output-Preserves : Preserves O R.version_output

module _ {R : Runtime} (O : Order R) where
  -- A step, and the rest of a method behind it.
  pub then-Preserves :
      {A B : Type 0} (m : Action R.World A) (f : A → Action R.World B)
      → Preserves O m
      → ((a : A) → Preserves O (f a))
      → Preserves O (m >>= f)
  then-Preserves {A} {B} m f h k w = by_result (m w) (h w)
    where
      by_result : (r : Result A × R.World) → O.Below r.1 w → O.Below (continue r f).1 w
      by_result (ok a, w1) q = O.below_trans (k a w1) q
      by_result (err e, w1) q = q

  pub ok_or-Preserves : {A : Type 0} (o : Option A) (e : Error) → Preserves O (ok_or o e)
  ok_or-Preserves none e w = O.below_refl w
  ok_or-Preserves (some a) e w = O.below_refl w
