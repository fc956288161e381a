-- ===== src/Error/Display.antt =====
-- src/error.rs: the messages of `Error`.
use swupdate_rs.Common.{ℕ, zero, suc, [], if◌then◌else◌, ◌++◌, ltb, ◌==◌, ◌/◌, ◌∷◌, ◌+◌, ◌%◌, ◌-◌}
use swupdate_rs.Text.{Text, codes}
use swupdate_rs.Text.Format.{display}
use swupdate_rs.Error.{
  Error, connection, protocol, rejected, version_mismatch, timeout, invalid_path, Duration,
}

abbrev hex_digit : ℕ → ℕ
hex_digit d = if ltb d 10 then b'0' + d else b'a' + (d - 10)

-- The hexadecimal digits of a number below 16 ^ fuel.
hex_digits : ℕ → ℕ → Text
hex_digits zero n = []
hex_digits (suc f) n =
    let rest = hex_digits f (n / 16) in
    if ltb n 16 then hex_digit n ∷ [] else rest ++ hex_digit (n % 16) ∷ []

-- `format!("{n:#x}")` of a u32
unfoldable pub display_hex : ℕ → Text
unfolding hex_digits
display_hex n = codes "0x" ++ hex_digits 8 n

-- The fraction of a second, three digits with no zeros at the end.
fraction : ℕ → Text
unfolding display
fraction ms =
    if ms == 0
    then []
    else if ms % 100 == 0
    then b'.' ∷ (b'0' + ms / 100) ∷ []
    else if ms % 10 == 0
    then b'.' ∷ (b'0' + ms / 100) ∷ (b'0' + ms / 10 % 10) ∷ []
    else b'.' ∷ (b'0' + ms / 100) ∷ (b'0' + ms / 10 % 10) ∷ (b'0' + ms % 10) ∷ []

-- `format!("{d:?}")` of a duration in whole milliseconds
unfoldable pub debug_duration : Duration → Text
unfolding display fraction
debug_duration d =
    if d == 0
    then codes "0ns"
    else if ltb d 1000
    then display d ++ codes "ms"
    else display (d / 1000) ++ fraction (d % 1000) ++ codes "s"

unfoldable pub display_error : Error → Text
unfolding display_hex debug_duration
display_error (connection e) = codes "connection error: " ++ e
display_error (protocol what) = codes "protocol error: " ++ what
display_error rejected = codes "request rejected by swupdate"
display_error (version_mismatch expected actual) =
    codes "version mismatch: expected "
    ++ display_hex expected
    ++ codes ", got "
    ++ display_hex actual
display_error (timeout d) = codes "timeout after " ++ debug_duration d
display_error (invalid_path path) = codes "invalid socket path: " ++ path
