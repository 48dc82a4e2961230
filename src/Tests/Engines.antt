-- ===== src/Tests/Engines.antt =====
-- The theorems on the forkchoice update, applied to attributes, to an update to a shorter branch and
-- to one that keeps the head.
use wasm_based_evm.Prelude.{
  false, ◌&&◌, List, ℕ, ◌+◌, ◌*◌, ◌<◌, ◌==◌, ◌≡◌, ◌↔◌, refl, ap, sym, true, Option, none, some, [],
  ◌∷◌, lookup, insert, remove, if◌then◌else◌, is_some, inl, inr, Bool-cases, ok, arith, leb,
}
use mathlib.Core.Option.{some-injective}
use wasm_based_evm.Block.{Header, Body, Block}
use wasm_based_evm.Hardfork.Genesis.{any_late}
use wasm_based_evm.Hardfork.{ChainConfig, forks, cancun, shanghai, at_least, get_active_fork}
use wasm_based_evm.Tests.{header_of, block_of}
use wasm_based_evm.Tests.Headers.{config}
use wasm_based_evm.Tests.State.{at_4, decode}
use wasm_based_evm.Database.{Database, clear_tracking, remove_change_set, remove_canonical}
use wasm_based_evm.Chain.Storage.{Storage}
use wasm_based_evm.Chain.Tree.{BlockTree, empty_tree, hard, get_invalidation_reason, get_block}
use wasm_based_evm.Chain.Canonical.{ForkchoiceState, update_state, store, update_head}
use wasm_based_evm.Chain.Reorg.{ReorgContext}
use wasm_based_evm.Chain.Revert.{
  revert_to_height, end_revert, revert_loop, revert_block, restore_accounts, finish_block,
  restore_storages, clean_block, remove_metas_of, set_head, after_head,
}
use wasm_based_evm.Chain.Reorg.Branch.{IsParent}
use wasm_based_evm.Tests.Chains.{falls_to}
use wasm_based_evm.Engine.{
  PayloadAttributes, Chain, after_revert, revert_first, reexecute_block, reexecute_all,
  mark_executed, mark_new, finish, follow, move, fork_validation,
}
use wasm_based_evm.Engine.Attributes.{fork_validation_iff}
use wasm_based_evm.Engine.Bodies.{
  BodyStorage, IsWindow, with_header, get_payload_bodies_by_range,
  get_payload_bodies_by_range-IsWindow,
}
use wasm_based_evm.Engine.Descendants.{invalidate_descendants}
use wasm_based_evm.Engine.Descendants.Complete.{Descends, invalidate_descendants_complete}
use wasm_based_evm.Engine.Tail.{move_leaves_tail}
use wasm_based_evm.Engine.Update.{Answer, IsHonest, forkchoice_updated, forkchoice_updated_answers}

abbrev attributes : PayloadAttributes
attributes = record { timestamp = 24; has_withdrawals = true; parent_beacon_block_root = some 3 }

-- Homestead begins at block 5, Shanghai and Cancun at the time 0.
abbrev late_config : ChainConfig
late_config = record config { homestead_block = some 5 }

fork_validation_iff_example :
    ((fork_validation 3 late_config attributes ≡ none) ↔ (
      (leb 3 3 ≡ at_least (get_active_fork late_config 0 24) cancun)
      × ((true ≡ at_least (get_active_fork late_config 0 24) shanghai)
          × (is_some attributes.parent_beacon_block_root
              ≡ at_least (get_active_fork late_config 0 24) cancun))))
    × ((any_late (forks late_config) && at_least (get_active_fork late_config 0 24) shanghai)
        ≡ false)
fork_validation_iff_example = fork_validation_iff 3 late_config attributes

-- The canonical chain has the blocks 40, 50, 60 and 70 at the heights 4 to 7.
abbrev linear : Storage
linear = record {
  header = λ hash. ok (if hash == 40 then some (header_of 30 4) else none);
  header_at = λ number. ok none;
  block_number = λ hash. ok (if hash == 40 then some 4 else none);
  block_hash = λ number. ok (if number == 4 then some 40 else none);
  block_by_hash = λ hash. ok none;
  payload = λ hash. none;
}

abbrev at_7 : Chain
at_7 = record {
  writer = record {
    db = record at_4 { canonical_heads = (4, 40) ∷ (5, 50) ∷ (6, 60) ∷ (7, 70) ∷ [] };
    touched_accounts = [];
    touched_storages = [];
  };
  canonical = record {
    state = record { head_block_hash = 70; safe_block_hash = 40; finalized_block_hash = 40 };
    number = 7;
    disk = record { head = some 70; safe = some 40; finalized = some 40 };
  };
}

-- The block 51 stands on 40.
abbrev hash_of : Header → ℕ
hash_of h = h.number * 10 + 1

abbrev to_51 : ReorgContext
to_51 = record {
  common_ancestor_hash = 40;
  new_canonical_blocks = block_of 40 5 [] ∷ [];
  is_reorg = true;
}

abbrev head_51 : ForkchoiceState
head_51 = record { head_block_hash = 51; safe_block_hash = 40; finalized_block_hash = 40 }

abbrev no_change : Block → Database → Option Database
no_change b d = some d

move_leaves_tail_example :
    lookup 7
      (move decode hash_of no_change linear true head_51 5
        (some (header_of 40 5))
        (ok to_51)
        at_7).0.writer.db.canonical_heads
    ≡ some 70
unfolding lookup insert remove move update_state store finish follow mark_new revert_first
    after_revert revert_to_height end_revert revert_loop revert_block restore_accounts finish_block
    restore_storages clean_block remove_metas_of set_head after_head update_head reexecute_all
    reexecute_block mark_executed remove_change_set remove_canonical clear_tracking
move_leaves_tail_example =
    move_leaves_tail decode hash_of no_change
      (λ b d e h. ap (λ x. x.canonical_heads) (sym (some-injective d e h))) linear true head_51 5 7
      (header_of 40 5) to_51 at_7 (ground arith) (ground arith) (tt, tt) (ground arith, tt) refl

-- The head stays at 40.
abbrev head_40 : ForkchoiceState
head_40 = record { head_block_hash = 40; safe_block_hash = 0; finalized_block_hash = 0 }

abbrev at_40 : Chain
at_40 = record at_7 {
  canonical = record {
    state = head_40;
    number = 4;
    disk = record { head = some 40; safe = some 0; finalized = some 0 };
  };
}

heights_fall : (c p : ℕ) → IsParent linear c p → p < c
heights_fall c p (inl (h, e, same)) = elim (Bool-cases (c == 40)) [
  | inl at_40 ↦
      falls_to (λ (h : Header). h.parent_hash) (rw at_40 at e) same (ground (arith, at_40))
  | inr other ↦ absurd (ground (arith, rw other at e))
]
heights_fall c p (inr (b, e, same)) = absurd (ground arith)

forkchoice_updated_answers_example :
    (a : Answer) × (forkchoice_updated decode hash_of no_change linear empty_tree
        (λ h. h == 40)
        config
        true
        41
        head_40
        none
        3
        at_40
      ≡ some a)
    × IsHonest head_40 at_40 a
forkchoice_updated_answers_example =
    forkchoice_updated_answers decode hash_of no_change linear empty_tree (λ h. h == 40) config true
      (λ hash. hash) 41 head_40 none 3 at_40 heights_fall (omega arith)

abbrev numbered : Storage
numbered = record linear { header_at = λ number. ok (some (header_of (number * 10) number)) }

abbrev empty_body : Body
empty_body = record { transactions = []; ommers = []; withdrawals = none }

abbrev bodies : BodyStorage
bodies = record {
  block_body = λ number. ok (some empty_body);
  block_body_by_hash = λ hash. ok none;
}

-- The head is 7.
get_payload_bodies_by_range-IsWindow_example :
    (l : List (Option Block)) × (get_payload_bodies_by_range numbered bodies at_7.canonical 5 10
      ≡ ok l)
    × IsWindow (λ k. with_header (numbered.header_at k) (some empty_body)) 5 3 l
get_payload_bodies_by_range-IsWindow_example =
    get_payload_bodies_by_range-IsWindow numbered bodies at_7.canonical 5 10 (λ k. some empty_body)
      (omega arith) (omega arith) (omega arith) (omega arith) (λ k low high. refl)

-- 51 stands on 41 and 61 on 51.
abbrev branch : BlockTree
branch = record empty_tree { children = (41, 51 ∷ []) ∷ (51, 61 ∷ []) ∷ [] }

invalidate_descendants_complete_example :
    (t' : BlockTree) × (invalidate_descendants 41 branch ≡ some t')
    × ((x : ℕ)
        → Descends branch 41 x
        → (get_invalidation_reason x t' ≡ some hard) × (get_block x t' ≡ none))
invalidate_descendants_complete_example = invalidate_descendants_complete 41 branch
