-- ===== src/Chain/Ancestor.antt =====
-- wasix_eth/wasix_eth_core/src/chain_manager.rs: `ChainManagerImpl::is_ancestor`, the walk from a
-- block back along the parents, at most 2048 blocks, with its short cuts for canonical blocks.
pub mod Sound
use wasm_based_evm.Prelude.{
  ℕ, zero, suc, ◌-◌, Bool, true, false, Option, none, some, ◌==◌, ◌&&◌, ltb, leb, if◌then◌else◌,
  or_else, opt_eq, ◌⊎◌, inl, inr, ◌≡◌,
}
use mathlib.Core.Option
use wasm_based_evm.Block.{Header, Block}
use wasm_based_evm.Chain.Storage.{Storage, present, is_canonical, is_true}
use wasm_based_evm.Chain.Tree.{BlockTree, get_block}

-- The parent and the number that the header gives it.
abbrev pub parent_of : Header → ℕ × ℕ
parent_of h = (h.parent_hash, h.number - 1)

-- The genesis block has the zero hash as its parent.
abbrev pub genesis_parent : Option ℕ → ℕ → Option (ℕ × ℕ)
genesis_parent genesis hash = if opt_eq (some hash) genesis then some (0, 0) else none

-- `target` is canonical and `head` is too: then the numbers decide.
abbrev pub both_canonical : Bool → Bool → ℕ → ℕ → Option Bool
both_canonical true true h t = some (leb t h)
both_canonical _ _ h t = none

abbrev pub at_target : ℕ → Option ℕ → Option Bool
at_target target none = none
at_target target (some hash) = some (hash == target)

-- What a turn of the loop does: it returns an answer, or goes on with the parent.
abbrev pub go_on : Option Bool → Option (ℕ × ℕ) → Bool ⊎ (ℕ × ℕ)
go_on (some answer) parent = inl answer
go_on none none = inl false
go_on none (some parent) = inr parent

module _ (s : Storage) (tree : BlockTree) where
  -- The number of a block, from the index, the tree or the payloads.
  unfoldable pub number_of : ℕ → Option ℕ
  number_of hash = or_else (present (s.block_number hash)) (
      or_else (Option.map (λ b. b.header.number) (get_block hash tree))
        (Option.map (λ b. b.header.number) (s.payload hash)))

  unfoldable pub parent_info : ℕ → Option (ℕ × ℕ)
  parent_info hash = or_else (Option.map parent_of (present (s.header hash))) (
      or_else (Option.map (λ b. parent_of b.header) (s.payload hash)) (
        or_else (Option.map (λ b. parent_of b.header) (get_block hash tree))
          (genesis_parent (present (s.block_hash 0)) hash)))

  -- The answer before the loop, where both numbers are known.
  unfoldable pub early_answer : ℕ → ℕ → Option ℕ → Option ℕ → Option Bool
  early_answer head target (some h) (some t) =
      if ltb h t
      then some false
      else both_canonical (is_true (is_canonical s target)) (is_true (is_canonical s head)) h t
  early_answer head target (some h) none = none
  early_answer head target none t = none

  -- The answer within the loop, where both numbers are known.
  unfoldable pub answer_at : ℕ → Option ℕ → ℕ → Option ℕ → Option Bool
  answer_at target (some t) current (some c) =
      if ltb c t
      then some false
      else if is_true (is_canonical s current)
      then at_target target (present (s.block_hash t))
      else none
  answer_at target (some t) current none = none
  answer_at target none current c = none

  unfoldable pub turn : ℕ → Option ℕ → ℕ → Option ℕ → Bool ⊎ (ℕ × ℕ)
  turn target t current c =
      if current == target
      then inl true
      else if current == 0
      then inl false
      else go_on (answer_at target t current c) (parent_info current)

  unfoldable pub walk : ℕ → ℕ → Option ℕ → ℕ → Option ℕ → Bool
  walk zero target t current c = false
  walk (suc left) target t current c = elim (turn target t current c) [
    | inl answer ↦ answer
    | inr (parent, number) ↦ walk left target t parent (some number)
  ]

  unfoldable pub walk_from : Option Bool → ℕ → ℕ → Bool
  walk_from (some answer) head target = answer
  walk_from none head target = walk 2048 target (number_of target) head (number_of head)

  unfoldable pub is_ancestor : ℕ → ℕ → Bool
  is_ancestor head target =
      if head == target
      then true
      else if target == 0
      then true
      else walk_from (early_answer head target (number_of head) (number_of target)) head target

  -- The target is found from the block along the parents that `parent_info` gives.
  pub data Reaches : ℕ → ℕ → Type 0 where
    here : {a : ℕ} → Reaches a a
    up : {a p n t : ℕ} → parent_info a ≡ some (p, n) → Reaches p t → Reaches a t
