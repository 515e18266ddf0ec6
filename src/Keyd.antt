-- ===== src/Keyd.antt =====
-- The signer process: keyd/ of the repository.
pub mod Protocol
pub mod Proposals
pub mod Presets
pub mod Envelope
pub mod Audit
pub mod Crypto
pub mod Signer
pub mod Child
pub mod Client
