-- ===== src/Sol/Text/Rounds.antt =====
-- The filter ends.
use izan_wallet.Base.Bytes.{Bytes}
