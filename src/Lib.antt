-- ===== src/Lib.antt =====
-- wasix_eth, an Ethereum client in Rust: a model of the parts that decide which blocks,
-- transactions and peers it accepts, with theorems on these decisions.
--
-- The parts and their files:
--   Hardfork    wasix_eth/wasix_eth_types/src/lib.rs, `Hardfork`: which fork is active at a block.
--   Consensus   wasix_eth/wasix_eth_core/src/consensus.rs, `EthConsensus`: the rules for headers and
--               bodies, a function for each numbered step of `validate_header`. It asks Hardfork.
--   Mempool     wasix_eth/wasix_eth_core/src/mempool/mempool.rs, `MempoolInner`: the pending and the
--               queued transactions (State, Evict, Removal, Ops for the rest of the operations), and
--               `MempoolSnapshot`, which selects transactions for a block (Snapshot).
--   Chain       of wasix_eth/wasix_eth_core/src: Tree is engine/sidechain_tracker.rs, Canonical is
--               engine/canonicality_tracker.rs, Ancestor and Status are chain_manager.rs,
--               Forkchoice is engine/forkchoice_validator.rs, Reorg, Revert and Mark are
--               engine/reorg_manager.rs (`resolve_reorg`, `revert_to_height`,
--               `mark_branch_canonical`). Storage is the interface of what they read from the database.
--   Engine      wasix_eth/wasix_eth_core/src/engine/engine.rs, `Engine::forkchoice_updated`: the
--               verdict on a head and the move of the chain to it, over Chain and Database (Update
--               is the whole call); Bodies is the requests of payload bodies; Descendants is
--               engine/payload_processor.rs, `invalidate_descendants`.
--   Database    wasix_eth/wasix_eth_storage/src/write.rs: the tables and `DatabaseWriteProvider`;
--               Batch is `BatchWriter`, the writes of a block; Overlay is what the batch shows.
--   Execution   wasix_eth/wasix_eth_execution/src/execution_provider.rs: how the writes of a block
--               and their change sets reach the database.
--   Peers       wasix_eth/wasix_eth_p2p/src/peer/peer_registry.rs, `PeerRegistry`: the sessions with
--               peers; Run has the tasks of sessions as steps in any order.
--   Sync        wasix_eth/wasix_eth_core/src/sync: Registry is registry.rs, BestPeer is
--               `get_best_peer` of downloader.rs.
--   Discovery   wasix_eth/wasix_eth_p2p/src/discovery/kbuckets.rs, `RoutingTable`.
--   Block       the headers, transactions and blocks of the alloy crates.
--   Vector      what the code uses of `im::Vector`. The binary search is an interface with its
--               documented promise. `insert_at` past the end appends, where the crate panics; the
--               positions that a search gives are within the vector.
--   Prelude     tests, lists, maps, tables by pairs, machine words, results.
--   Tests       concrete data on which the theorems are applied.
--
-- A lock is taken for granted: an operation is one step, and a sequence of operations is a list of
-- steps. Hashes and addresses are numbers, 0 for `B256::ZERO`. The release build does not check
-- overflow, so sums and products of u64 and u128 wrap, written out by `add64`, `mul64` and the
-- like. A map is an association list; where the code iterates over one, the model iterates in the
-- order of the list.
--
-- Bounds and fuel. `promote_loop` has as fuel the length of the queue and one, since each turn takes
-- a transaction from it; `evict_loop` has the number of transactions, `peek_loop` one more, and
-- `pop_loop` that of transactions and queues and one. `walk` has the 2048 turns of the code's own
-- loop, and `walk_back` the 1024 blocks of the code's own limit. The loop of `resolve_reorg` has no
-- bound in the code: its fuel is an argument, and a walk that the fuel does not end gives `none`;
-- a forkchoice update, which walks so, takes the same fuel. The loop of `peek_best_transactions` has
-- the number of senders and transactions and one; the loop of `revert_to_height` runs over the
-- heights above the target, and that of `invalidate_descendants` has the number of the children in
-- the tree and one.
--
-- A base fee is taken to fit a u128 in the mempool, where `base_fee.to::<u128>()` does not panic. A
-- revert is to a height below 2^64 - 1, where the sum with 1 does not wrap. The id under which a session
-- is registered and a node's own id are texts of two formats; the model keeps only their order.
--
-- The ids of sessions are told apart in runs of fewer than 2^64 - 1 steps, since the counter wraps.
--
-- Not modelled: Keccak, the roots of tries, the reads of tries, the RLP codec, `fake_exponential`,
-- the tip of a transaction at a base fee, random bytes and the clock, which are parameters; logs;
-- failures of the database outside the updates of the canonical state, which end a function; what
-- the interpreter of transactions writes, a parameter; the rest of the processing of payloads and
-- their building, the network sessions, the RPC interface and the application, which are
-- third-party code, input or output, or glue.
pub mod Prelude
pub mod Block
pub mod Engine
pub mod Execution
pub mod Hardfork
pub mod Consensus
pub mod Vector
pub mod Mempool
pub mod Chain
pub mod Sync
pub mod Database
pub mod Discovery
pub mod Peers
pub mod Tests
