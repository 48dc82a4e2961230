-- ===== src/Chain.antt =====
-- The block tree, the canonical state and the chain manager of wasix_eth/wasix_eth_core
-- (src/engine/sidechain_tracker.rs, src/engine/canonicality_tracker.rs, src/chain_manager.rs,
-- src/engine/forkchoice_validator.rs, src/engine/reorg_manager.rs).
pub mod Storage
pub mod Tree
pub mod Canonical
pub mod Ancestor
pub mod Status
pub mod Forkchoice
pub mod Reorg
pub mod Revert
pub mod Mark
