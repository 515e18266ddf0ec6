-- ===== src/Wallet.antt =====
-- ui/wallet: what the UI keeps of the wallets, without keys: sidecars, presets, the import form and
-- the session with the signer.
pub mod Meta
pub mod Presets
pub mod Import
pub mod Session
pub mod Store
mod Tests
