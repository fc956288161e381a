-- ===== src/Common/Memory.antt =====
-- Bytes, and the memory of a machine integer on a little-endian target, lowest byte first.
use Prim.Native.Nat.{ℕ, zero, suc, ◌+◌, ◌*◌, ◌/◌, ◌%◌, ◌^◌, ◌<◌}
use mathlib.Core.Path.{◌≡◌, refl, ap}
use mathlib.Core.List.{List, [], ◌∷◌}
use native.Mathlib.Nat.{pow-suc}
use native.Mathlib.Omega.{arith}
use swupdate_rs.Common.Lists.{length, All}

abbrev pub IsByte : ℕ → Type 0
IsByte b = b < 256

abbrev pub IsU32 : ℕ → Type 0
IsU32 v = v < 2 ^ 32

abbrev pub Bytes : Type 0
Bytes = List ℕ

-- `v.to_ne_bytes()` at a width of `n` bytes
unfoldable pub to_ne_bytes : ℕ → ℕ → Bytes
to_ne_bytes zero v = []
to_ne_bytes (suc n) v = (v % 256) ∷ to_ne_bytes n (v / 256)

unfoldable pub from_ne_bytes : Bytes → ℕ
from_ne_bytes [] = 0
from_ne_bytes (b ∷ bs) = b + 256 * from_ne_bytes bs

pub length-to_ne_bytes : (n v : ℕ) → length (to_ne_bytes n v) ≡ n
unfolding to_ne_bytes
length-to_ne_bytes zero v = refl
length-to_ne_bytes (suc n) v = ap suc (length-to_ne_bytes n (v / 256))

pub to_ne_bytes-IsByte : (n v : ℕ) → All IsByte (to_ne_bytes n v)
unfolding to_ne_bytes
to_ne_bytes-IsByte zero v = tt
to_ne_bytes-IsByte (suc n) v = (omega arith, to_ne_bytes-IsByte n (v / 256))

pub from_ne_bytes-to_ne_bytes : (n v : ℕ) → v < 256 ^ n → from_ne_bytes (to_ne_bytes n v) ≡ v
unfolding to_ne_bytes from_ne_bytes
from_ne_bytes-to_ne_bytes zero v h = omega arith
from_ne_bytes-to_ne_bytes (suc n) v h =
    omega (arith, from_ne_bytes-to_ne_bytes n (v / 256) (omega arith))

low_byte : (b x : ℕ) → b < 256 → (b + 256 * x) % 256 ≡ b
low_byte b x h = omega arith

high_bytes : (b x : ℕ) → b < 256 → (b + 256 * x) / 256 ≡ x
high_bytes b x h = omega arith

pub to_ne_bytes-from_ne_bytes :
    (bs : Bytes) → All IsByte bs → to_ne_bytes (length bs) (from_ne_bytes bs) ≡ bs
unfolding to_ne_bytes from_ne_bytes
to_ne_bytes-from_ne_bytes [] h = refl
to_ne_bytes-from_ne_bytes (b ∷ bs) (hb, hbs) = cc (
  low_byte b (from_ne_bytes bs) hb,
  high_bytes b (from_ne_bytes bs) hb,
  to_ne_bytes-from_ne_bytes bs hbs,
)

pub from_ne_bytes-lt : (bs : Bytes) → All IsByte bs → from_ne_bytes bs < 256 ^ length bs
unfolding from_ne_bytes
from_ne_bytes-lt [] h = omega arith
from_ne_bytes-lt (b ∷ bs) (hb, hbs) = rw pow-suc (omega (arith, from_ne_bytes-lt bs hbs))
