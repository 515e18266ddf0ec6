-- ===== src/Vault.antt =====
-- core/secure/vault.hpp and vault.cpp: the encrypted vault file.
pub mod Payload
pub mod File
pub mod Disk
