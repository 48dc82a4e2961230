-- ===== src/Execution.antt =====
-- wasix_eth/wasix_eth_execution/src/execution_provider.rs: how the execution of a block reaches the
-- database, `execute_block_with_state_root_and_building`. What the interpreter writes is a list of
-- writes, a parameter, since the interpreter is the evm crate's.
use wasm_based_evm.Prelude.{ℕ, Bool, true, false, Option, List}
use wasm_based_evm.Database.{
  Bytes, TrieAccount, Database, insert_account_change_set, insert_storage_change_set, insert_metas,
}
use wasm_based_evm.Database.Batch.{
  BatchWriter, Tries, Write, apply_all, commit, collect_account_changes, collect_storage_changes,
}
use wasm_based_evm.Database.Overlay.{start}

-- The change sets and the receipt metas of the block go into its batch.
unfoldable pub record_block : (TrieAccount → Bytes) → ℕ → ℕ → List ℕ → BatchWriter → BatchWriter
record_block encode number hash metas b = record b {
  tables = insert_metas hash 0 metas (
      insert_storage_change_set number (collect_storage_changes b)
        (insert_account_change_set number (collect_account_changes encode b) b.tables));
}

-- Without `to_commit` the batch is dropped.
unfoldable pub execute_block :
    Tries
    → (TrieAccount → Bytes)
    → Bool
    → Option ℕ
    → List Write
    → ℕ
    → ℕ
    → List ℕ
    → Database
    → Database
execute_block tries encode false root ws number hash metas d = d
execute_block tries encode true root ws number hash metas d =
    commit (record_block encode number hash metas (apply_all tries ws (start d root)))
