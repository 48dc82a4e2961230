-- ===== src/Chain/Revert.antt =====
-- wasix_eth/wasix_eth_core/src/engine/reorg_manager.rs: `ReorgHandler::revert_to_height`, the rollback
-- of the state and of the canonical chain by the change sets of the blocks.
pub mod Frame
pub mod Rounds
pub mod Undo
pub mod Cleared
use wasm_based_evm.Prelude.{
  ℕ, zero, suc, ◌+◌, ◌-◌, Bool, true, false, Option, none, some, List, [], ◌∷◌, lookup, unwrap_or,
  length,
}
use wasm_based_evm.Block.{Body}
use wasm_based_evm.Chain.Canonical.{CanonicalState, update_head}
use wasm_based_evm.Database.{
  Bytes, TrieAccount, Writer, update_account, remove_account, update_storage, update_plain_state,
  remove_plain_state, remove_change_set, remove_receipt_meta, remove_canonical, clear_tracking,
  on_db,
}

-- The errors: an account that is not decoded, a height without a block, a write that fails.
pub data RevertError : Type 0 where
  bad_account : ℕ → RevertError
  no_block_hash : ℕ → RevertError
  not_written : RevertError

-- What a function leaves, also when it ends with an error.
abbrev pub Step : Type 0
Step = Writer × Option RevertError

abbrev pub and_then : Step → (Writer → Step) → Step
and_then (w, none) f = f w
and_then (w, some e) f = (w, some e)

unfoldable pub restore_storages : List ((ℕ × ℕ) × ℕ) → Writer → Writer
restore_storages [] w = w
restore_storages (((address, slot), old_value) ∷ l) w =
    restore_storages l (update_storage address slot old_value w)

-- The receipt metas of a block with `n` transactions.
unfoldable pub remove_metas : ℕ → ℕ → Writer → Writer
remove_metas zero hash w = w
remove_metas (suc n) hash w = on_db (remove_receipt_meta hash n) (remove_metas n hash w)

-- The receipt metas of a body, and of the canonical block at a height.
unfoldable pub remove_metas_of : ℕ → Option Body → Writer → Writer
remove_metas_of hash none w = w
remove_metas_of hash (some body) w = remove_metas (length body.transactions) hash w

unfoldable pub clean_block : Option ℕ → Writer → Writer
clean_block none w = w
clean_block (some hash) w = remove_metas_of hash (lookup hash w.db.block_bodies) w

-- Below the accounts of a block: the storages, the change sets, the receipt metas and the canonical
-- entry.
unfoldable pub finish_block : ℕ → Writer → Writer
finish_block h w =
    let w' =
      on_db (remove_change_set h)
        (restore_storages (unwrap_or (lookup h w.db.storage_change_sets) []) w) in
    on_db (remove_canonical h) (clean_block (lookup h w'.db.canonical_heads) w')

-- `TrieAccount::decode`, the RLP decoding, is a parameter.
module _ (decode : Bytes → Option TrieAccount) where
  unfoldable pub restore_account : ℕ → Bytes → Option TrieAccount → Writer → Step
  restore_account address state none w = (w, some (bad_account address))
  restore_account address state (some account) w =
      (on_db (update_plain_state address state) (update_account address account w), none)

  unfoldable pub restore_accounts : List (ℕ × Option Bytes) → Writer → Step
  restore_accounts [] w = (w, none)
  restore_accounts ((address, none) ∷ l) w =
      restore_accounts l (on_db (remove_plain_state address) (remove_account address w))
  restore_accounts ((address, some state) ∷ l) w =
      and_then (restore_account address state (decode state) w) (restore_accounts l)

  -- The body of the loop.
  unfoldable pub revert_block : ℕ → Writer → Step
  revert_block h w =
      and_then (restore_accounts (unwrap_or (lookup h w.db.account_change_sets) []) w)
        (λ w'. (finish_block h w', none))

  -- The heights from `height + n` down to `height + 1`.
  unfoldable pub revert_loop : ℕ → ℕ → Writer → Step
  revert_loop zero height w = (w, none)
  revert_loop (suc n) height w = and_then (revert_block (height + suc n) w) (revert_loop n height)

  unfoldable pub after_head :
      Writer → CanonicalState × Bool → Writer × CanonicalState × Option RevertError
  after_head w (c, true) = (clear_tracking w, c, none)
  after_head w (c, false) = (w, c, some not_written)

  -- The head becomes the canonical block at the height, if there is one.
  unfoldable pub set_head :
      Bool → ℕ → Option ℕ → Writer → CanonicalState → Writer × CanonicalState × Option RevertError
  set_head writes height none w c = (w, c, some (no_block_hash height))
  set_head writes height (some hash) w c = after_head w (update_head writes hash height c)

  unfoldable pub end_revert :
      Bool → ℕ → Step → CanonicalState → Writer × CanonicalState × Option RevertError
  end_revert writes height (w, some e) c = (w, c, some e)
  end_revert writes height (w, none) c =
      set_head writes height (lookup height w.db.canonical_heads) w c

  -- `writes` is whether the write of the head succeeds.
  unfoldable pub revert_to_height :
      Bool → ℕ → Writer → CanonicalState → Writer × CanonicalState × Option RevertError
  revert_to_height writes height w c =
      end_revert writes height (revert_loop (c.number - height) height w) c
