-- ===== src/Chain/Mark.antt =====
-- wasix_eth/wasix_eth_core/src/engine/reorg_manager.rs: `ReorgHandler::mark_branch_canonical`, the
-- index of the canonical chain for the blocks of a branch, the newest first in the list.
pub mod Canonical
use wasm_based_evm.Prelude.{
  ℕ, suc, ◌+◌, Bool, true, false, Option, none, some, List, [], ◌∷◌, lookup, if◌then◌else◌, is_some,
  opt_eq,
}
use wasm_based_evm.Block.{Transaction, Header, Block}
use wasm_based_evm.Database.{
  Database, Payload, add256, insert_block, insert_header_td, insert_header_number,
  insert_block_hash, set_canonical, insert_transaction_lookup, find_payload,
  remove_payload_by_block_hash,
}

-- The lookups of the transactions, from the index `i` on.
unfoldable pub insert_lookups : ℕ → ℕ → List Transaction → Database → Database
insert_lookups hash i [] d = d
insert_lookups hash i (t ∷ l) d =
    insert_lookups hash (suc i) l (insert_transaction_lookup t.hash hash i d)

unfoldable pub put_td : ℕ → ℕ → Database → Database
put_td hash expected d =
    if opt_eq (lookup hash d.header_tds) (some expected)
    then d
    else insert_header_td hash expected d

-- The total difficulty of a block whose parent's is known.
unfoldable pub fix_td : ℕ → Block → Option ℕ → Database → Database
fix_td hash b none d = d
fix_td hash b (some parent_td) d = put_td hash (add256 parent_td b.header.difficulty) d

-- The hash of a header, a Keccak hash, is a parameter.
module _ (hash_slow : Header → ℕ) where
  unfoldable pub promote_payload : ℕ → Option Payload → Database → Database
  promote_payload hash none d = d
  promote_payload hash (some p) d =
      remove_payload_by_block_hash hash_slow hash
        (insert_block hash_slow p.block p.receipts p.metas d)

  -- A block without a body in the main storage is taken from the payloads.
  unfoldable pub ensure_body : ℕ → Database → Database
  ensure_body hash d =
      if is_some (lookup hash d.block_bodies)
      then d
      else promote_payload hash (find_payload hash_slow hash d.payloads) d

  unfoldable pub mark_block : Block → Database → Database
  mark_block b d =
      let hash = hash_slow b.header in
      let d1 = insert_block_hash hash b.header.number (
        insert_header_number hash b.header.number
          (set_canonical b.header.number hash (ensure_body hash d))) in
      insert_lookups hash 0 b.body.transactions
        (fix_td hash b (lookup b.header.parent_hash d1.header_tds) d1)

  -- The oldest block is marked first.
  unfoldable pub mark_branch_canonical : List Block → Database → Database
  mark_branch_canonical [] d = d
  mark_branch_canonical (b ∷ bs) d = mark_block b (mark_branch_canonical bs d)
