-- ===== src/Sol.antt =====
-- domain/sol/solana.cpp: what the wallet reads of Solana tokens and accounts.
pub mod Text
pub mod Meta
mod Tests
