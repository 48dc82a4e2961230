-- ===== src/Chain/Revert/Frame.antt =====
-- reorg_manager.rs, `revert_to_height`: the tables that each part of a round leaves as they are.
use wasm_based_evm.Prelude.{
  ℕ, zero, suc, ◌≡◌, refl, ap, ◌∙◌, Option, none, some, List, [], ◌∷◌, lookup, remove, unwrap_or,
  length,
}
use wasm_based_evm.Block.{Body}
use wasm_based_evm.Database.{
  Database, Writer, update_storage, write_slot, remove_change_set, remove_receipt_meta,
  remove_canonical, on_db, insert_metas, insert_receipt_meta,
}
use wasm_based_evm.Chain.Revert.{
  restore_storages, remove_metas, remove_metas_of, clean_block, finish_block,
}

-- The tables that a later step of the rollback reads, or that it must leave alone.
pub record IsFrame (d e : Database) : Type 0 where
  pub accounts : e.accounts ≡ d.accounts
  pub change_sets : e.account_change_sets ≡ d.account_change_sets
  pub heads : e.canonical_heads ≡ d.canonical_heads

pub insert_metas-IsFrame :
    (hash i : ℕ) (l : List ℕ) (d : Database) → IsFrame d (insert_metas hash i l d)
unfolding insert_metas insert_receipt_meta
insert_metas-IsFrame hash i [] d = record { accounts = refl; change_sets = refl; heads = refl }
insert_metas-IsFrame hash i (m ∷ l) d =
    let rest = insert_metas-IsFrame hash (suc i) l (insert_receipt_meta hash i m d) in
    record { accounts = rest.accounts; change_sets = rest.change_sets; heads = rest.heads }

restore_storages-IsFrame :
    (l : List ((ℕ × ℕ) × ℕ)) (w : Writer) → IsFrame w.db (restore_storages l w).db
unfolding restore_storages update_storage write_slot
restore_storages-IsFrame [] w = record { accounts = refl; change_sets = refl; heads = refl }
restore_storages-IsFrame (((a, s), v) ∷ l) w =
    let rest = restore_storages-IsFrame l (update_storage a s v w) in
    record { accounts = rest.accounts; change_sets = rest.change_sets; heads = rest.heads }

remove_metas-IsFrame : (n hash : ℕ) (w : Writer) → IsFrame w.db (remove_metas n hash w).db
unfolding remove_metas remove_receipt_meta
remove_metas-IsFrame zero hash w = record { accounts = refl; change_sets = refl; heads = refl }
remove_metas-IsFrame (suc n) hash w =
    let rest = remove_metas-IsFrame n hash w in
    record { accounts = rest.accounts; change_sets = rest.change_sets; heads = rest.heads }

remove_metas_of-IsFrame :
    (hash : ℕ) (o : Option Body) (w : Writer) → IsFrame w.db (remove_metas_of hash o w).db
unfolding remove_metas_of
remove_metas_of-IsFrame hash none w = record { accounts = refl; change_sets = refl; heads = refl }
remove_metas_of-IsFrame hash (some body) w = remove_metas-IsFrame (length body.transactions) hash w

clean_block-IsFrame : (o : Option ℕ) (w : Writer) → IsFrame w.db (clean_block o w).db
unfolding clean_block
clean_block-IsFrame none w = record { accounts = refl; change_sets = refl; heads = refl }
clean_block-IsFrame (some hash) w = remove_metas_of-IsFrame hash (lookup hash w.db.block_bodies) w

-- What the end of a round does to these tables.
pub record IsFinished (h : ℕ) (d e : Database) : Type 0 where
  pub accounts : e.accounts ≡ d.accounts
  pub change_sets : e.account_change_sets ≡ remove h d.account_change_sets
  pub heads : e.canonical_heads ≡ remove h d.canonical_heads

pub finish_block-IsFinished : (h : ℕ) (w : Writer) → IsFinished h w.db (finish_block h w).db
unfolding finish_block remove_change_set remove_canonical
finish_block-IsFinished h w =
    let slots = restore_storages-IsFrame (unwrap_or (lookup h w.db.storage_change_sets) []) w in
    let w' =
      on_db (remove_change_set h)
        (restore_storages (unwrap_or (lookup h w.db.storage_change_sets) []) w) in
    let clean = clean_block-IsFrame (lookup h w'.db.canonical_heads) w' in
    record {
      accounts = clean.accounts ∙ slots.accounts;
      change_sets = clean.change_sets ∙ ap (remove h) slots.change_sets;
      heads = ap (remove h) (clean.heads ∙ slots.heads);
    }
