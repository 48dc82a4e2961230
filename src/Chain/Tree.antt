-- ===== src/Chain/Tree.antt =====
-- wasix_eth/wasix_eth_core/src/engine/sidechain_tracker.rs: `BlockTree`, the blocks that are not
-- canonical yet and the blocks known to be invalid. The hash of a header is a parameter.
use wasm_based_evm.Prelude.{
  ℕ, Bool, Option, some, List, [], ◌∷◌, ◌++◌, map, Assoc, lookup, insert, remove, ◌==◌,
  if◌then◌else◌, unwrap_or, is_some, ◌≢◌, arith, lookup-insert, lookup-remove, Bool-cases, inl, inr,
}
use mathlib.Core.Option
use wasm_based_evm.Block.{Header, Block}

pub data InvalidationReason : Type 0 where
  hard soft : InvalidationReason

pub record BlockTree : Type 0 where
  pub blocks : Assoc Block
  pub children : Assoc (List ℕ)
  pub invalid_blocks : Assoc (ℕ × InvalidationReason)

abbrev pub empty_tree : BlockTree
empty_tree = record { blocks = []; children = []; invalid_blocks = [] }

unfoldable pub get_children : ℕ → BlockTree → List ℕ
get_children parent t = unwrap_or (lookup parent t.children) []

unfoldable pub add_orphan : (Header → ℕ) → ℕ → Block → BlockTree → BlockTree
add_orphan hash_slow parent b t =
    let hash = hash_slow b.header in
    record t {
      blocks = insert hash b t.blocks;
      children = insert parent (get_children parent t ++ (hash ∷ [])) t.children;
    }

-- A block that names itself as its parent is stored below the zero hash.
unfoldable pub mark_invalid : ℕ → ℕ → InvalidationReason → BlockTree → BlockTree
mark_invalid hash parent reason t = record t {
  blocks = remove hash t.blocks;
  invalid_blocks = insert hash ((if hash == parent then 0 else parent), reason) t.invalid_blocks;
}

unfoldable pub remove_invalid : ℕ → BlockTree → BlockTree
remove_invalid hash t = record t { invalid_blocks = remove hash t.invalid_blocks }

unfoldable pub get_invalidation_reason : ℕ → BlockTree → Option InvalidationReason
get_invalidation_reason hash t = Option.map (λ x. x.1) (lookup hash t.invalid_blocks)

unfoldable pub get_invalid_parent : ℕ → BlockTree → Option ℕ
get_invalid_parent hash t = Option.map (λ x. x.0) (lookup hash t.invalid_blocks)

unfoldable pub remove_children : ℕ → BlockTree → BlockTree × List ℕ
remove_children parent t = (record t { children = remove parent t.children }, get_children parent t)

unfoldable pub get_block : ℕ → BlockTree → Option Block
get_block hash t = lookup hash t.blocks

unfoldable pub remove_block : ℕ → BlockTree → BlockTree × Option Block
remove_block hash t = (record t { blocks = remove hash t.blocks }, get_block hash t)

unfoldable pub contains_block : ℕ → BlockTree → Bool
contains_block hash t = is_some (get_block hash t)

unfoldable get_all_blocks : BlockTree → List Block
get_all_blocks t = map (λ e. e.1) t.blocks

-- The operations that change the tree.
pub data Op : Type 0 where
  add : ℕ → Block → Op
  invalidate : ℕ → ℕ → InvalidationReason → Op
  revalidate discard forget_children : ℕ → Op

abbrev pub apply : (Header → ℕ) → Op → BlockTree → BlockTree
apply hash_slow (add parent b) t = add_orphan hash_slow parent b t
apply hash_slow (invalidate hash parent reason) t = mark_invalid hash parent reason t
apply hash_slow (revalidate hash) t = remove_invalid hash t
apply hash_slow (discard hash) t = (remove_block hash t).0
apply hash_slow (forget_children parent) t = (remove_children parent t).0

abbrev pub run : (Header → ℕ) → List Op → BlockTree → BlockTree
run hash_slow [] t = t
run hash_slow (op ∷ ops) t = run hash_slow ops (apply hash_slow op t)

-- No block is recorded as its own invalid parent, but for the zero hash.
abbrev pub HasNoLoop : BlockTree → Type 0
HasNoLoop t = (hash : ℕ) → hash ≢ 0 → get_invalid_parent hash t ≢ some hash

HasNoLoop-mark_invalid :
    (hash parent : ℕ) (reason : InvalidationReason) (t : BlockTree)
    → HasNoLoop t
    → HasNoLoop (mark_invalid hash parent reason t)
unfolding mark_invalid get_invalid_parent
HasNoLoop-mark_invalid hash parent reason t v h real e = elim (Bool-cases (hash == h)) [
  | inr other ↦ v h real (rw (lookup-insert, other) at e)
  | inl same ↦ elim (Bool-cases (hash == parent)) [
    | inl self ↦ absurd (ground (arith, real, rw (lookup-insert, same, self) at e))
    | inr apart ↦ absurd (ground (arith, same, apart, rw (lookup-insert, same, apart) at e))
  ]
]

HasNoLoop-remove_invalid :
    (hash : ℕ) (t : BlockTree) → HasNoLoop t → HasNoLoop (remove_invalid hash t)
unfolding remove_invalid get_invalid_parent
HasNoLoop-remove_invalid hash t v h real e = elim (Bool-cases (hash == h)) [
  | inl same ↦ absurd (ground (arith, rw (lookup-remove, same) at e))
  | inr other ↦ v h real (rw (lookup-remove, other) at e)
]

-- From a tree in which no block but the zero hash is recorded as its own invalid parent, any
-- sequence of operations leads to such a tree.
pub run-HasNoLoop :
    (hash_slow : Header → ℕ) (ops : List Op) (t : BlockTree)
    → HasNoLoop t
    → HasNoLoop (run hash_slow ops t)
unfolding add_orphan remove_block remove_children
run-HasNoLoop hash_slow [] t v = v
run-HasNoLoop hash_slow (op ∷ ops) t v = run-HasNoLoop hash_slow ops (apply hash_slow op t) (one op)
  where
    one : (op : Op) → HasNoLoop (apply hash_slow op t)
    one (add parent b) = λ h real e. v h real (unfold get_invalid_parent in e)
    one (invalidate hash parent reason) = HasNoLoop-mark_invalid hash parent reason t v
    one (revalidate hash) = HasNoLoop-remove_invalid hash t v
    one (discard hash) = λ h real e. v h real (unfold get_invalid_parent in e)
    one (forget_children parent) = λ h real e. v h real (unfold get_invalid_parent in e)
