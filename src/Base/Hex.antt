-- ===== src/Base/Hex.antt =====
-- Lower-case hexadecimal print, as several parts of the source write it out.
use Prim.Native.Nat.{ℕ, ◌+◌, ◌-◌, ◌/◌, ◌%◌}
use mathlib.Core.List.{[], ◌∷◌}
use izan_wallet.Base.Tests.{ltb, if◌then◌else◌}
use izan_wallet.Base.Bytes.{Bytes}

-- The digits of "0123456789abcdef".
abbrev pub hex_digit : ℕ → ℕ
hex_digit n = if ltb n 10 then b'0' + n else b'a' + (n - 10)

unfoldable pub to_hex : Bytes → Bytes
to_hex [] = []
to_hex (b ∷ bs) = hex_digit (b / 16) ∷ hex_digit (b % 16) ∷ to_hex bs
