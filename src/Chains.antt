-- ===== src/Chains.antt =====
-- domain/chains: the registry of chains, JSON-RPC messages, and the client over a list of endpoints.
pub mod Registry
pub mod JsonRpc
pub mod Client
pub mod Trust
mod Tests
