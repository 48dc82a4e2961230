-- ===== src/Database/Batch.antt =====
-- wasix_eth/wasix_eth_storage/src/write.rs, `BatchWriter`: one write transaction with the accounts and
-- slots that it touched and what they were before. Reads see the batch, then the state that it starts
-- from: that of a trie, if a root is given, or else the database's.
use wasm_based_evm.Prelude.{
  ℕ, ◌==◌, Option, none, some, List, [], ◌∷◌, Assoc, lookup, insert, remove, Table2, lookup2,
  insert2, if◌then◌else◌, unwrap_or, or_else, is_some, map,
}
use mathlib.Core.Option
use wasm_based_evm.Database.{Bytes, TrieAccount, Database, write_slot, contains, add_to_set}

-- `committed` is what the read provider sees, `tables` what the transaction sees.
pub record BatchWriter : Type 0 where
  pub committed : Database
  pub tables : Database
  pub base_state_root : Option ℕ
  pub touched_accounts : List ℕ
  pub touched_storages : Table2 ℕ
  pub resetted_storages : List ℕ
  pub original_accounts : Assoc (Option TrieAccount)
  pub original_storages : Table2 ℕ

unfoldable pub new : Database → BatchWriter
new d = record {
  committed = d;
  tables = d;
  base_state_root = none;
  touched_accounts = [];
  touched_storages = [];
  resetted_storages = [];
  original_accounts = [];
  original_storages = [];
}

unfoldable pub set_base_state_root : ℕ → BatchWriter → BatchWriter
set_base_state_root root b = record b { base_state_root = some root }

unfoldable pub commit : BatchWriter → Database
commit b = b.tables

unfoldable pub clear_tracking : BatchWriter → BatchWriter
clear_tracking b = record b {
  touched_accounts = [];
  touched_storages = [];
  resetted_storages = [];
  original_accounts = [];
  original_storages = [];
}

unfoldable pub mark_account_touched : ℕ → BatchWriter → BatchWriter
mark_account_touched address b = record b {
  touched_accounts = add_to_set address b.touched_accounts;
}

-- The trie of a root, read through Keccak and the RLP codec, is a parameter, with the hash of the
-- empty trie and that of empty code.
pub record Tries : Type 0 where
  pub empty_root_hash : ℕ
  pub keccak256_empty : ℕ
  pub account : ℕ → ℕ → Option TrieAccount
  pub slot : ℕ → ℕ → Option ℕ

-- A write of the execution of a block.
pub data Write : Type 0 where
  set_account : ℕ → TrieAccount → Write
  delete_account : ℕ → Write
  set_slot : ℕ → ℕ → ℕ → Write
  empty_storage : ℕ → Write

module _ (tries : Tries) where
  -- The account before the batch.
  unfoldable pub base_account : Option ℕ → ℕ → Database → Option TrieAccount
  base_account none address committed = lookup address committed.accounts
  base_account (some root) address committed =
      if root == tries.empty_root_hash then none else tries.account root address

  unfoldable pub account : ℕ → Option ℕ → BatchWriter → Option TrieAccount
  account address state_root b =
      if contains address b.touched_accounts
      then lookup address b.tables.accounts
      else base_account (or_else state_root b.base_state_root) address b.committed

  unfoldable pub transaction_count : ℕ → Option ℕ → BatchWriter → ℕ
  transaction_count address state_root b = elim (account address state_root b) [
    | none ↦ 0
    | some a ↦ a.nonce
  ]

  -- A slot in the trie of an account.
  unfoldable pub slot_of : ℕ → Option TrieAccount → ℕ
  slot_of slot none = 0
  slot_of slot (some a) =
      if a.storage_root == tries.empty_root_hash
      then 0
      else unwrap_or (tries.slot a.storage_root slot) 0

  unfoldable pub base_storage : Option ℕ → ℕ → ℕ → BatchWriter → ℕ
  base_storage none address slot b = unwrap_or (lookup2 (address, slot) b.committed.storages) 0
  base_storage (some root) address slot b =
      if root == tries.empty_root_hash then 0 else slot_of slot (account address (some root) b)

  -- What stands in for a slot that the batch has not written.
  unfoldable pub storage_beneath : ℕ → ℕ → Option ℕ → BatchWriter → ℕ
  storage_beneath address slot state_root b =
      if contains address b.resetted_storages
      then 0
      else base_storage (or_else state_root b.base_state_root) address slot b

  unfoldable pub storage : ℕ → ℕ → Option ℕ → BatchWriter → ℕ
  storage address slot state_root b =
      unwrap_or (lookup2 (address, slot) b.touched_storages)
        (storage_beneath address slot state_root b)

  -- The first write to an account keeps what it was.
  unfoldable pub keep_account : ℕ → BatchWriter → BatchWriter
  keep_account address b = if is_some (lookup address b.original_accounts) then b else record b {
    original_accounts = insert address (account address none b) b.original_accounts;
  }

  unfoldable pub put_account : ℕ → TrieAccount → BatchWriter → BatchWriter
  put_account address a b = record b {
    tables = record b.tables { accounts = insert address a b.tables.accounts };
    touched_accounts = add_to_set address b.touched_accounts;
  }

  unfoldable pub drop_account : ℕ → BatchWriter → BatchWriter
  drop_account address b = record b {
    tables = record b.tables { accounts = remove address b.tables.accounts };
    touched_accounts = add_to_set address b.touched_accounts;
  }

  unfoldable pub update_account : ℕ → TrieAccount → BatchWriter → BatchWriter
  update_account address a b = put_account address a (keep_account address b)

  unfoldable pub remove_account : ℕ → BatchWriter → BatchWriter
  remove_account address b = drop_account address (keep_account address b)

  unfoldable pub keep_slot : ℕ → ℕ → BatchWriter → BatchWriter
  keep_slot address slot b =
      if is_some (lookup2 (address, slot) b.original_storages) then b else record b {
        original_storages =
            insert2 (address, slot) (storage address slot none b) b.original_storages;
      }

  unfoldable pub put_slot : ℕ → ℕ → ℕ → BatchWriter → BatchWriter
  put_slot address slot value b = record b {
    tables = write_slot address slot value b.tables;
    touched_storages = insert2 (address, slot) value b.touched_storages;
  }

  abbrev pub default_account : TrieAccount
  default_account = record {
    nonce = 0;
    balance = 0;
    storage_root = tries.empty_root_hash;
    code_hash = tries.keccak256_empty;
  }

  -- An account whose slot is written counts as touched.
  unfoldable pub touch_owner : ℕ → BatchWriter → BatchWriter
  touch_owner address b =
      if contains address b.touched_accounts
      then b
      else update_account address (unwrap_or (account address none b) default_account) b

  unfoldable pub update_storage : ℕ → ℕ → ℕ → BatchWriter → BatchWriter
  update_storage address slot value b =
      touch_owner address (put_slot address slot value (keep_slot address slot b))

  unfoldable pub reset_storage : ℕ → BatchWriter → BatchWriter
  reset_storage address b = record b { resetted_storages = add_to_set address b.resetted_storages }

  unfoldable pub apply : Write → BatchWriter → BatchWriter
  apply (set_account address a) b = update_account address a b
  apply (delete_account address) b = remove_account address b
  apply (set_slot address slot value) b = update_storage address slot value b
  apply (empty_storage address) b = reset_storage address b

  unfoldable pub apply_all : List Write → BatchWriter → BatchWriter
  apply_all [] b = b
  apply_all (w ∷ ws) b = apply_all ws (apply w b)

-- The change sets of the batch; `encode` is the RLP encoding of an account.
unfoldable pub collect_account_changes :
    (TrieAccount → Bytes) → BatchWriter → List (ℕ × Option Bytes)
collect_account_changes encode b = map (λ e. (e.0, Option.map encode e.1)) b.original_accounts

unfoldable pub collect_storage_changes : BatchWriter → List ((ℕ × ℕ) × ℕ)
collect_storage_changes b = b.original_storages
