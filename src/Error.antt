-- ===== src/Error.antt =====
-- src/error.rs: `Error` and `Result`, and an async method as an action on a state that returns one.
pub mod Display
use swupdate_rs.Common.{ℕ, Option, none, some, Option}
use swupdate_rs.Text.{Text}

-- An `io::Error` is the text that it prints.
abbrev pub IoError : Type 0
IoError = Text

-- A duration in milliseconds.
abbrev pub Duration : Type 0
Duration = ℕ

pub data Error : Type 0 where
  connection : IoError → Error
  protocol : Text → Error
  rejected : Error
  version_mismatch : (expected actual : ℕ) → Error
  timeout : Duration → Error
  invalid_path : Text → Error

pub data Result {ℓ} (A : Type ℓ) : Type ℓ where
  ok : A → Result A
  err : Error → Result A

-- `io::Result`
pub data IoResult {ℓ} (A : Type ℓ) : Type ℓ where
  done : A → IoResult A
  fault : IoError → IoResult A

-- `#[from] io::Error`, which `?` applies.
abbrev pub from_io {ℓ} : {A : Type ℓ} → IoResult A → Result A
from_io (done a) = ok a
from_io (fault e) = err (connection e)

-- An async method: it changes a state on every path, also where it fails.
abbrev pub Action {ℓ} : Type 0 → Type ℓ → Type ℓ
Action S A = S → Result A × S

-- The rest of a method runs after a step that succeeded.
abbrev pub continue {ℓ κ} :
    {S : Type 0} {A : Type ℓ} {B : Type κ} → Result A × S → (A → Action S B) → Result B × S
continue (ok a, s) f = f a s
continue (err e, s) f = (err e, s)

infixl 5 ◌>>=◌ ◌>>◌
abbrev pub ◌>>=◌ {ℓ κ} :
    {S : Type 0} {A : Type ℓ} {B : Type κ} → Action S A → (A → Action S B) → Action S B
◌>>=◌ m f s = continue (m s) f

abbrev pub ◌>>◌ {ℓ κ} :
    {S : Type 0} {A : Type ℓ} {B : Type κ} → Action S A → Action S B → Action S B
m >> k = m >>= λ _. k

abbrev pub pure {ℓ} : {S : Type 0} {A : Type ℓ} → A → Action S A
pure a s = (ok a, s)

abbrev pub fail {ℓ} : {S : Type 0} {A : Type ℓ} → Error → Action S A
fail e s = (err e, s)

-- `option.ok_or_else(..)?`
abbrev pub ok_or {ℓ} : {S : Type 0} {A : Type ℓ} → Option A → Error → Action S A
ok_or (some a) e = pure a
ok_or none e = fail e

-- An operation of the runtime, with `?` behind it.
abbrev pub io {ℓ} : {S : Type 0} {A : Type ℓ} → (S → IoResult A × S) → Action S A
io m s = let (r, s') = m s in (from_io r, s')
