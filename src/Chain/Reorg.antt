-- ===== src/Chain/Reorg.antt =====
-- wasix_eth/wasix_eth_core/src/engine/reorg_manager.rs: `ReorgHandler::resolve_reorg`, the walk
-- from a new head back to the canonical chain. The loop of the code has no bound, so its turns are
-- counted by fuel; `none` is a walk that the fuel does not end.
pub mod Branch
use wasm_based_evm.Prelude.{
  ℕ, zero, suc, Bool, true, false, Option, none, some, List, [], ◌∷◌, ◌++◌, ◌==◌, if◌then◌else◌,
  or_else, opt_eq, Outcome, ok, err, panic,
}
use mathlib.Core.Option
use wasm_based_evm.Block.{Header, Block}
use wasm_based_evm.Chain.Storage.{Storage, present}

pub record ReorgContext : Type 0 where
  pub common_ancestor_hash : ℕ
  pub new_canonical_blocks : List Block
  pub is_reorg : Bool

-- What a turn of the walk does: it ends, with a common ancestor or without one, finds that the
-- data of the block is missing, or keeps the block and goes on with the parent.
pub data Turn : Type 0 where
  ends : Option ℕ → Turn
  lacks : Turn
  keeps : Block → ℕ → Turn

abbrev pub keep_block : Option Block → ℕ → Turn
keep_block none parent = lacks
keep_block (some b) parent = keeps b parent

abbrev pub keep_payload : Option Block → Turn
keep_payload none = ends none
keep_payload (some b) = keeps b b.header.parent_hash

-- The context of the result: moving backwards, on the tip, a reorg, or an unknown branch.
abbrev pub conclude : ℕ → ℕ → Option ℕ → List Block → ReorgContext
conclude old new none blocks = record {
  common_ancestor_hash = 0;
  new_canonical_blocks = blocks;
  is_reorg = false;
}
conclude old new (some a) blocks =
    if a == new
    then record { common_ancestor_hash = a; new_canonical_blocks = []; is_reorg = false }
    else if a == old
    then record { common_ancestor_hash = a; new_canonical_blocks = blocks; is_reorg = false }
    else record { common_ancestor_hash = a; new_canonical_blocks = blocks; is_reorg = true }

abbrev pub Walked : Type 0
Walked = Outcome (Unit {0}) (Option ℕ × List Block)

abbrev pub ended : Option ℕ → List Block → Option Walked
ended a blocks = some (ok (a, blocks))

abbrev pub conclude_all : ℕ → ℕ → Option Walked → Option (Outcome (Unit {0}) ReorgContext)
conclude_all old new none = none
conclude_all old new (some (ok (a, blocks))) = some (ok (conclude old new a blocks))
conclude_all old new (some (err e)) = some (err e)
conclude_all old new (some panic) = some panic

module _ (s : Storage) where
  -- The index holds the block at its own number.
  unfoldable pub on_chain : ℕ → Bool
  on_chain hash = elim (present (s.block_number hash)) [
    | none ↦ false
    | some number ↦ opt_eq (present (s.block_hash number)) (some hash)
  ]

  unfoldable pub branch_block : ℕ → Turn
  branch_block current = elim (present (s.header current)) [
    | some h ↦
        keep_block (or_else (present (s.block_by_hash current)) (s.payload current)) h.parent_hash
    | none ↦ keep_payload (s.payload current)
  ]

  unfoldable pub branch_turn : ℕ → ℕ → Turn
  branch_turn old current =
      if current == 0
      then ends none
      else if current == old
      then ends (some old)
      else if on_chain current
      then ends (some current)
      else branch_block current

  unfoldable pub walk_branch : ℕ → ℕ → ℕ → List Block → Option Walked
  walk_branch zero old current blocks = none
  walk_branch (suc fuel) old current blocks = elim (branch_turn old current) [
    | ends a ↦ ended a blocks
    | lacks ↦ some (err tt)
    | keeps b parent ↦ walk_branch fuel old parent (blocks ++ (b ∷ []))
  ]

  unfoldable pub resolve_reorg : ℕ → ℕ → ℕ → Option (Outcome (Unit {0}) ReorgContext)
  resolve_reorg fuel old new = conclude_all old new (walk_branch fuel old new [])
