-- ===== src/Tests/Chains.antt =====
-- The theorems on the chain manager, applied to a chain of the canonical blocks 10 and 11, of
-- the numbers 0 and 1, a payload 21 above the block 11 and a payload 22 beside it.
use wasm_based_evm.Prelude.{
  ℕ, zero, suc, ◌≤◌, ◌<◌, ◌==◌, true, false, Option, none, some, List, [], ◌∷◌, if◌then◌else◌, ok,
  ◌≡◌, ◌≢◌, refl, ap, ◌∙◌, Bool-cases, arith, ◌⊎◌, inl, inr, is_some, lookup,
}
use mathlib.Core.Path.{subst}
use mathlib.Core.Option.{some-injective}
use wasm_based_evm.Block.{Header, Block}
use wasm_based_evm.Tests.{header_of, block_of}
use wasm_based_evm.Chain.Storage.{Storage, is_canonical}
use wasm_based_evm.Chain.Tree
use wasm_based_evm.Chain.Tree.{
  BlockTree, empty_tree, HasNoLoop, run-HasNoLoop, get_invalid_parent, get_invalidation_reason,
  get_block, hard,
}
use wasm_based_evm.Chain.Canonical
use wasm_based_evm.Chain.Canonical.{
  CanonicalState, ForkchoiceState, Forkchoice, load, restart_restores, update_head_retry, IsSaved,
  update_head, update_safe, store, update_forkchoice, get_head,
}
use wasm_based_evm.Chain.Ancestor.{
  is_ancestor, parent_info, walk_from, early_answer, number_of, walk, turn, answer_at, Reaches,
  here, up,
}
use wasm_based_evm.Chain.Ancestor.Sound.{IsConsistent, is_ancestor-Reaches}
use wasm_based_evm.Chain.Status.{
  determine_payload_status, get_latest_valid_ancestor, is_invalid, walk_back, visit, back_step,
  canonical_below, invalid_number, has_block, settle,
}
use wasm_based_evm.Chain.Status.Valid.{IsAcceptable, payload_status_valid_hash}
use wasm_based_evm.Chain.Forkchoice.{
  check_safe_block, check_finalized_block, known_header, target_number,
}
use wasm_based_evm.Chain.Forkchoice.Linked.{accepted_forkchoice_linked}
use wasm_based_evm.Chain.Reorg.{resolve_reorg, on_chain, walk_branch, branch_turn, branch_block}
use wasm_based_evm.Chain.Reorg.Branch.{resolve_reorg-Branch, resolve_reorg_total, Branch, IsParent}

abbrev genesis : ℕ
genesis = 10

abbrev number_at : ℕ → Option ℕ
number_at hash = if hash == 10 then some 0 else if hash == 11 then some 1 else none

abbrev hash_at : ℕ → Option ℕ
hash_at zero = some 10
hash_at (suc zero) = some 11
hash_at (suc (suc n)) = none

abbrev canonical_header : ℕ → Option Header
canonical_header hash =
    if hash == 10 then some (header_of 0 0) else if hash == 11 then some (header_of 10 1) else none

abbrev payload_at : ℕ → Option Block
payload_at hash =
    if hash == 21
    then some (block_of 11 2 [])
    else if hash == 22
    then some (block_of 10 1 [])
    else none

abbrev small_chain : Storage
small_chain = record {
  header = λ hash. ok (canonical_header hash);
  header_at = λ number. ok none;
  block_number = λ hash. ok (number_at hash);
  block_hash = λ number. ok (hash_at number);
  block_by_hash = λ hash. ok none;
  payload = payload_at;
}

ends_at :
    (a b c h : ℕ)
    → some a ≡ some c
    → some b ≡ some h
    → Reaches small_chain empty_tree a b
    → Reaches small_chain empty_tree c h
ends_at a b c h e e' r =
    subst (λ x. Reaches small_chain empty_tree x h) (some-injective a c e)
      (subst (λ x. Reaches small_chain empty_tree a x) (some-injective b h e') r)

small_chain_linked :
    (c n t h : ℕ)
    → hash_at n ≡ some c
    → t ≤ n
    → hash_at t ≡ some h
    → Reaches small_chain empty_tree c h
unfolding parent_info
small_chain_linked c zero zero h e le e' = ends_at 10 10 c h e e' here
small_chain_linked c zero (suc t) h e le e' = absurd (omega arith)
small_chain_linked c (suc zero) zero h e le e' = ends_at 11 10 c h e e' (up refl here)
small_chain_linked c (suc zero) (suc zero) h e le e' = ends_at 11 11 c h e e' here
small_chain_linked c (suc zero) (suc (suc t)) h e le e' = absurd (omega arith)
small_chain_linked c (suc (suc n)) t h e le e' = absurd (ground arith)

small_chain_numbers :
    (c p n m : ℕ)
    → parent_info small_chain empty_tree c ≡ some (p, n)
    → number_at p ≡ some m
    → n ≤ m
unfolding parent_info get_block lookup
small_chain_numbers c p n m e e' = elim (Bool-cases (c == 10)) [
  | inl at_10 ↦ ground (arith, rw at_10 at e, e')
  | inr not_10 ↦ elim (Bool-cases (c == 11)) [
    | inl at_11 ↦ ground (arith, rw (not_10, at_11) at e, e')
    | inr not_11 ↦ elim (Bool-cases (c == 21)) [
      | inl at_21 ↦ ground (arith, rw (not_10, not_11, at_21) at e, e')
      | inr not_21 ↦ elim (Bool-cases (c == 22)) [
        | inl at_22 ↦ ground (arith, rw (not_10, not_11, not_21, at_22) at e, e')
        | inr not_22 ↦ ground (arith, rw (not_10, not_11, not_21, not_22) at e, e', not_10)
      ]
    ]
  ]
]

small_chain-IsConsistent : IsConsistent small_chain empty_tree
small_chain-IsConsistent = record {
  canonical_reaches = λ c n t h _ back le at_t. small_chain_linked c n t h back le at_t;
  parent_number = small_chain_numbers;
}

is_ancestor-Reaches_example : (genesis ≡ 0) ⊎ Reaches small_chain empty_tree 21 genesis
unfolding is_ancestor walk_from early_answer number_of walk turn answer_at is_canonical parent_info
    get_block lookup
is_ancestor-Reaches_example =
    is_ancestor-Reaches small_chain empty_tree 21 10 small_chain-IsConsistent refl

-- Head 21, safe 11, finalized 10.
abbrev forkchoice : ForkchoiceState
forkchoice = record { head_block_hash = 21; safe_block_hash = 11; finalized_block_hash = 10 }

accepted_forkchoice_linked_example :
    Reaches small_chain empty_tree 21 11 × Reaches small_chain empty_tree 11 10
unfolding check_safe_block check_finalized_block known_header target_number is_ancestor walk_from
    early_answer number_of walk turn answer_at is_canonical parent_info get_block lookup
accepted_forkchoice_linked_example =
    accepted_forkchoice_linked small_chain empty_tree forkchoice (header_of 11 2)
      small_chain-IsConsistent (λ e. ground (arith, e)) (λ e. ground (arith, e)) refl refl

-- The block 22 is known to be invalid, with the block 10 as its parent.
abbrev bad_tree : BlockTree
bad_tree = record { blocks = []; children = []; invalid_blocks = (22, (10, hard)) ∷ [] }

abbrev at_11 : CanonicalState
at_11 = record {
  state = record { head_block_hash = 11; safe_block_hash = 10; finalized_block_hash = 10 };
  number = 1;
  disk = record { head = some 11; safe = some 10; finalized = some 10 };
}

payload_status_valid_hash_example : IsAcceptable small_chain bad_tree 10
unfolding determine_payload_status get_latest_valid_ancestor is_invalid get_invalidation_reason
    get_head walk_back visit back_step canonical_below invalid_number has_block settle is_ancestor
    walk_from early_answer number_of walk turn answer_at is_canonical parent_info get_block lookup
payload_status_valid_hash_example = payload_status_valid_hash small_chain bad_tree at_11 22 10 refl

resolve_reorg-Branch_example :
    Branch small_chain 22 (block_of 10 1 [] ∷ []) 10
    × ((on_chain small_chain 10 ≡ true) × ((genesis ≢ 11) × (genesis ≢ 22)))
unfolding resolve_reorg walk_branch branch_turn branch_block on_chain
resolve_reorg-Branch_example =
    resolve_reorg-Branch small_chain 5 11 22
      (record {
        common_ancestor_hash = 10;
        new_canonical_blocks = block_of 10 1 [] ∷ [];
        is_reorg = true;
      })
      refl refl

pub falls_to :
    {A : Type 0} {a b : A} (parent : A → ℕ) {p c : ℕ}
    → some a ≡ some b
    → parent b ≡ p
    → parent a < c
    → p < c
falls_to parent {c = c} e same lt = subst (λ x. x < c) (ap parent (some-injective _ _ e) ∙ same) lt

-- The numbers of the hashes fall towards the parents.
small_chain_falls : (c p : ℕ) → IsParent small_chain c p → p < c
small_chain_falls c p (inl (h, e, same)) = elim (Bool-cases (c == 10)) [
  | inl at_10 ↦
      falls_to (λ (h : Header). h.parent_hash) (rw at_10 at e) same (ground (arith, at_10))
  | inr not_10 ↦ elim (Bool-cases (c == 11)) [
    | inl at_11 ↦
        falls_to (λ (h : Header). h.parent_hash) (rw (not_10, at_11) at e) same
          (ground (arith, at_11))
    | inr not_11 ↦ absurd (ground (arith, rw (not_10, not_11) at e))
  ]
]
small_chain_falls c p (inr (b, e, same)) = elim (Bool-cases (c == 21)) [
  | inl at_21 ↦
      falls_to (λ (b : Block). b.header.parent_hash) (rw at_21 at e) same (ground (arith, at_21))
  | inr not_21 ↦ elim (Bool-cases (c == 22)) [
    | inl at_22 ↦
        falls_to (λ (b : Block). b.header.parent_hash) (rw (not_21, at_22) at e) same
          (ground (arith, at_22))
    | inr not_22 ↦ absurd (ground (arith, rw (not_21, not_22) at e))
  ]
]

resolve_reorg_total_example : is_some (resolve_reorg small_chain 23 11 22) ≡ true
resolve_reorg_total_example =
    resolve_reorg_total small_chain (λ hash. hash) 11 22 23 small_chain_falls (omega arith)

abbrev updates : List Canonical.Update
updates = Canonical.Update.head true 21 2 ∷ Canonical.Update.safe true 11 ∷ []

restart_restores_example :
    (load small_chain (record { head = some 21; safe = some 11; finalized = some 10 })).state
    ≡ forkchoice
unfolding load update_head update_safe store update_forkchoice
restart_restores_example =
    restart_restores small_chain at_11.disk updates
      (record {
        state = forkchoice;
        number = 2;
        disk = record { head = some 21; safe = some 11; finalized = some 10 };
      })
      refl

update_head_retry_example :
    (update_head true 21 2 (update_head false 21 2 at_11).0
      ≡ ((update_head false 21 2 at_11).0, true))
    × ((update_head false 21 2 at_11).0.disk ≡ at_11.disk)
update_head_retry_example = update_head_retry true 21 2 at_11

abbrev tree_steps : List Tree.Op
tree_steps =
    Tree.add 11 (block_of 11 2 [])
    ∷ Tree.invalidate 22 22 hard
    ∷ Tree.invalidate 21 22 hard
    ∷ Tree.revalidate 21
    ∷ []

run-HasNoLoop_example : HasNoLoop (Tree.run (λ h. h.number) tree_steps empty_tree)
unfolding get_invalid_parent lookup
run-HasNoLoop_example =
    run-HasNoLoop (λ h. h.number) tree_steps empty_tree (λ h real e. ground (arith, e))
