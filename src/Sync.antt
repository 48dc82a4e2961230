-- ===== src/Sync.antt =====
-- wasix_eth/wasix_eth_core/src/sync: the targets of the synchronisation (registry.rs) and the choice
-- of the peer to synchronise with (downloader.rs `get_best_peer`).
pub mod Registry
pub mod BestPeer
