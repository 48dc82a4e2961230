-- ===== src/Tests/State.antt =====
-- The theorems on the database, applied to an empty one, to one executed block and its revert, and to
-- a branch of two blocks.
use wasm_based_evm.Prelude.{
  ℕ, ◌*◌, ◌≡◌, refl, true, Option, none, some, List, [], ◌∷◌, All, lookup, remove, arith,
}
use wasm_based_evm.Block.{Header, Block}
use wasm_based_evm.Tests.{block_of}
use wasm_based_evm.Chain.Canonical.{CanonicalState, update_head, store}
use wasm_based_evm.Database.{
  Bytes, TrieAccount, Database, Writer, remove_change_set, remove_canonical,
}
use wasm_based_evm.Database.Batch.{
  Tries, Write, set_account, delete_account, set_slot, empty_storage, new, account, storage,
  base_account, apply_all, update_storage, reset_storage,
}
use wasm_based_evm.Database.Overlay.{start, spec_all, start_view, slot_in, batch_refines}
use wasm_based_evm.Database.Reset.{reset_keeps_written}
use wasm_based_evm.Execution.{execute_block}
use wasm_based_evm.Chain.Revert.{
  revert_to_height, end_revert, revert_loop, revert_block, restore_accounts, finish_block,
  restore_storages, clean_block, set_head, after_head,
}
use wasm_based_evm.Chain.Revert.Undo.{Executed, nothing, block, revert_undoes_execution}
use wasm_based_evm.Chain.Revert.Cleared.{IsReverted, revert_to_height-IsReverted}
use wasm_based_evm.Chain.Mark.{mark_branch_canonical}
use wasm_based_evm.Chain.Mark.Canonical.{IsIndexed, IsOff, mark_branch_canonical-IsIndexed}

abbrev rich : TrieAccount
rich = record { nonce = 1; balance = 500; storage_root = 0; code_hash = 0 }

abbrev poor : TrieAccount
poor = record { nonce = 2; balance = 3; storage_root = 0; code_hash = 0 }

abbrev empty_database : Database
empty_database = record {
  headers = [];
  header_numbers = [];
  header_tds = [];
  canonical_heads = [];
  block_bodies = [];
  transactions = [];
  transaction_lookups = [];
  receipts = [];
  receipts_meta = [];
  payloads = [];
  accounts = [];
  storages = [];
  bytecodes = [];
  plain_states = [];
  hashed_states = [];
  trie_nodes = [];
  account_change_sets = [];
  storage_change_sets = [];
}

-- The account 7 at the height 4, whose canonical block has the hash 40.
abbrev pub at_4 : Database
at_4 = record empty_database { accounts = (7, rich) ∷ []; canonical_heads = (4, 40) ∷ [] }

abbrev no_tries : Tries
no_tries = record {
  empty_root_hash = 0;
  keccak256_empty = 0;
  account = λ r a. none;
  slot = λ r s. none;
}

abbrev writes : List Write
writes = set_account 7 poor ∷ set_slot 8 1 9 ∷ delete_account 7 ∷ empty_storage 8 ∷ []

batch_refines_example :
    ((j : ℕ)
      → account no_tries j none (apply_all no_tries writes (start at_4 none))
        ≡ (spec_all no_tries writes (start_view no_tries at_4 none)).account j)
    × ((a s : ℕ)
        → storage no_tries a s none (apply_all no_tries writes (start at_4 none))
          ≡ slot_in no_tries at_4 none
              (spec_all no_tries writes (start_view no_tries at_4 none))
              a
              s)
batch_refines_example = batch_refines no_tries at_4 none writes

reset_keeps_written_example :
    storage no_tries 8 1 none (reset_storage no_tries 8 (update_storage no_tries 8 1 9 (new at_4)))
    ≡ 9
reset_keeps_written_example = reset_keeps_written no_tries (new at_4) 8 1 9

abbrev encode : TrieAccount → Bytes
encode a = a.nonce ∷ a.balance ∷ a.storage_root ∷ a.code_hash ∷ []

abbrev pub decode : Bytes → Option TrieAccount
decode (n ∷ b ∷ s ∷ c ∷ []) =
    some (record { nonce = n; balance = b; storage_root = s; code_hash = c })
decode _ = none

-- The block 5 is executed and becomes canonical with the hash 50.
abbrev executed : Database
executed = execute_block no_tries encode true none writes 5 50 [] at_4

abbrev at_5 : Database
at_5 = record executed { canonical_heads = (4, 40) ∷ (5, 50) ∷ [] }

abbrev writer : Writer
writer = record { db = at_5; touched_accounts = []; touched_storages = [] }

abbrev head_5 : CanonicalState
head_5 = record {
  state = record { head_block_hash = 50; safe_block_hash = 40; finalized_block_hash = 40 };
  number = 5;
  disk = record { head = some 50; safe = some 40; finalized = some 40 };
}

run_to_5 : Executed no_tries encode 4 1 at_4 at_5
unfolding base_account
run_to_5 =
    block none writes 50 [] (nothing (record { accounts = λ j. refl; change_sets = λ h l. refl }))
      (λ a. refl) (record { accounts = λ j. refl; change_sets = λ h l. refl })

revert_undoes_execution_example :
    lookup 7 (revert_to_height decode true 4 writer head_5).0.db.accounts ≡ some rich
unfolding lookup
revert_undoes_execution_example =
    revert_undoes_execution no_tries decode encode (λ x. refl) 4 1 at_4 at_5 true writer head_5
      run_to_5 (record { accounts = λ j. refl; change_sets = λ h l. refl }) refl 7

-- Nothing to undo, but the head to move.
abbrev plain : Writer
plain = record { db = at_4; touched_accounts = []; touched_storages = [] }

revert_to_height-IsReverted_example :
    IsReverted decode 4 plain head_5 (revert_to_height decode true 4 plain head_5)
unfolding revert_to_height end_revert revert_loop revert_block restore_accounts finish_block
    restore_storages clean_block lookup remove remove_change_set remove_canonical set_head
    after_head update_head store
revert_to_height-IsReverted_example = revert_to_height-IsReverted decode true 4 plain head_5 refl

-- The hash of a header is its number times ten.
abbrev tens : Header → ℕ
tens h = h.number * 10

abbrev branch : List Block
branch = block_of 50 6 [] ∷ block_of 40 5 [] ∷ []

mark_branch_canonical-IsIndexed_example :
    All (IsIndexed tens (mark_branch_canonical tens branch at_4)) branch
    × ((n : ℕ)
        → IsOff tens n branch
        → lookup n (mark_branch_canonical tens branch at_4).canonical_heads
          ≡ lookup n at_4.canonical_heads)
mark_branch_canonical-IsIndexed_example =
    mark_branch_canonical-IsIndexed tens branch at_4 (((ground arith, ground arith), tt), (tt, tt))
