-- ===== src/Assets.antt =====
-- domain/assets: the tokens that the wallet knows.
pub mod Tokens
mod Tests
