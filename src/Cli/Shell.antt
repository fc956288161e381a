-- ===== src/Cli/Shell.antt =====
-- The command's actions: they change the world, print lines, and may run out of fuel in a loop.
pub mod Returns
use swupdate_rs.Common.{Option, none, some, List, [], ◌∷◌, ◌++◌}
use swupdate_rs.Text.{Text}
use swupdate_rs.Error.{Result, ok, err, Action}
use swupdate_rs.Cli.Output.{Line, stdout}

-- `none` means that the fuel ran out, or the schedule of a join.
abbrev pub Shell : Type 0 → Type 0 → Type 0
Shell W A = W × List Line → Option (Result A × (W × List Line))

abbrev pub proceed :
    {W A B : Type 0}
    → Option (Result A × (W × List Line))
    → (A → Shell W B)
    → Option (Result B × (W × List Line))
proceed none f = none
proceed (some (ok a, s)) f = f a s
proceed (some (err e, s)) f = some (err e, s)

infixl 5 ◌>>=◌ ◌>>◌
abbrev pub ◌>>=◌ : {W A B : Type 0} → Shell W A → (A → Shell W B) → Shell W B
◌>>=◌ m f s = proceed (m s) f

abbrev pub ◌>>◌ : {W A B : Type 0} → Shell W A → Shell W B → Shell W B
m >> k = m >>= λ _. k

abbrev pub beside : {W A : Type 0} → List Line → Result A × W → Result A × (W × List Line)
beside out (r, w) = (r, (w, out))

-- A method of the library.
abbrev pub call : {W A : Type 0} → Action W A → Shell W A
call m (w, out) = some (beside out (m w))

abbrev pub write_lines : {W : Type 0} → List Line → Shell W (Unit {0})
write_lines lines (w, out) = some (ok tt, (w, out ++ lines))

-- `println!`
abbrev pub println : {W : Type 0} → Text → Shell W (Unit {0})
println text = write_lines (stdout text ∷ [])
