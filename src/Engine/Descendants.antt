-- ===== src/Engine/Descendants.antt =====
-- wasix_eth/wasix_eth_core/src/engine/payload_processor.rs: `invalidate_descendants`, which marks
-- what stands on an invalid block in the tree of blocks.
pub mod Rounds
pub mod Complete
use wasm_based_evm.Prelude.{
  ℕ, zero, suc, Bool, Option, none, some, List, [], ◌∷◌, ◌++◌, length, Assoc, ◌+◌,
}
use mathlib.Core.Option
use wasm_based_evm.Chain.Tree.{BlockTree, hard, mark_invalid, remove_children, remove_block}

-- The children of one parent.
unfoldable pub invalidate_children : ℕ → List ℕ → BlockTree → BlockTree
invalidate_children parent [] t = t
invalidate_children parent (c ∷ cs) t = invalidate_children parent cs (mark_invalid c parent hard t)

-- The stack has its top, the end of the vector, in front.
unfoldable pub push_all : List ℕ → List ℕ → List ℕ
push_all [] stack = stack
push_all (c ∷ cs) stack = push_all cs (c ∷ stack)

-- The loop: the blocks to remove and the tree, or `none` at the end of the fuel.
unfoldable pub descend : ℕ → List ℕ → List ℕ → BlockTree → Option (List ℕ × BlockTree)
descend fuel [] to_remove t = some (to_remove, t)
descend zero (parent ∷ stack) to_remove t = none
descend (suc fuel) (parent ∷ stack) to_remove t =
    let (rest, children) = remove_children parent t in
    descend fuel (push_all children stack) (to_remove ++ children)
      (invalidate_children parent children rest)

unfoldable pub remove_blocks : List ℕ → BlockTree → BlockTree
remove_blocks [] t = t
remove_blocks (hash ∷ l) t = remove_blocks l (remove_block hash t).0

-- The number of children in the tree bounds the rounds after the first.
abbrev pub count_children : Assoc (List ℕ) → ℕ
count_children [] = 0
count_children ((parent, l) ∷ m) = length l + count_children m

unfoldable pub invalidate_descendants : ℕ → BlockTree → Option BlockTree
invalidate_descendants hash t =
    Option.map (λ r. remove_blocks r.0 r.1)
      (descend (1 + count_children t.children) (hash ∷ []) [] t)
