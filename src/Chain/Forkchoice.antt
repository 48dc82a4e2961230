-- ===== src/Chain/Forkchoice.antt =====
-- wasix_eth/wasix_eth_core/src/engine/forkchoice_validator.rs: the checks of the safe and the
-- finalized block of a forkchoice against the head.
pub mod Linked
use wasm_based_evm.Prelude.{
  ℕ, Bool, true, false, not, ◌||◌, ◌&&◌, Option, none, some, ◌==◌, ltb, if◌then◌else◌, or_else,
  opt_eq, unwrap_or,
}
use mathlib.Core.Option
use wasm_based_evm.Block.{Header}
use wasm_based_evm.Chain.Storage.{Storage, present}
use wasm_based_evm.Chain.Tree.{BlockTree}
use wasm_based_evm.Chain.Canonical.{ForkchoiceState}
use wasm_based_evm.Chain.Ancestor.{is_ancestor}

-- The messages of `RpcError::InvalidForkchoiceState`.
pub data InvalidForkchoiceState : Type 0 where
  finalized_not_ancestor finalized_unknown safe_not_ancestor safe_unknown : InvalidForkchoiceState
  head_header_not_found finalized_not_ancestor_of_head : InvalidForkchoiceState

module _ (s : Storage) (tree : BlockTree) where
  abbrev pub is_genesis_hash : ℕ → Bool
  is_genesis_hash hash = opt_eq (present (s.block_hash 0)) (some hash)

  -- The header of a block, or of its payload, or of the genesis block.
  unfoldable pub known_header : ℕ → Option Header
  known_header hash = or_else (present (s.header hash)) (
      or_else (Option.map (λ b. b.header) (s.payload hash))
        (if is_genesis_hash hash then present (s.header_at 0) else none))

  -- The number of the block that the finalized block is checked against.
  unfoldable pub target_number : ForkchoiceState → Header → ℕ → ℕ
  target_number st head target =
      if target == st.head_block_hash
      then head.number
      else unwrap_or
          (or_else (Option.map (λ h. h.number) (present (s.header target))) (
            or_else (Option.map (λ b. b.header.number) (s.payload target))
              (if is_genesis_hash target then some 0 else none)))
          0

  abbrev pub finalized_target : ForkchoiceState → ℕ
  finalized_target st =
      if not (st.safe_block_hash == 0) then st.safe_block_hash else st.head_block_hash

  abbrev pub finalized_against :
      ForkchoiceState → Header → ℕ → Option Header → Option InvalidForkchoiceState
  finalized_against st head target none = some finalized_unknown
  finalized_against st head target (some fh) =
      if ltb (target_number st head target) fh.number
        || not (is_ancestor s tree target st.finalized_block_hash)
      then some finalized_not_ancestor
      else none

  unfoldable pub check_finalized_block : ForkchoiceState → Header → Option InvalidForkchoiceState
  check_finalized_block st head =
      if not (st.finalized_block_hash == 0)
      then finalized_against st head (finalized_target st) (known_header st.finalized_block_hash)
      else none

  abbrev pub safe_against : ForkchoiceState → Header → Option Header → Option InvalidForkchoiceState
  safe_against st head none = some safe_unknown
  safe_against st head (some sh) =
      if ltb head.number sh.number || not (is_ancestor s tree st.head_block_hash st.safe_block_hash)
      then some safe_not_ancestor
      else none

  unfoldable pub check_safe_block : ForkchoiceState → Header → Option InvalidForkchoiceState
  check_safe_block st head =
      if not (st.safe_block_hash == 0)
      then safe_against st head (known_header st.safe_block_hash)
      else none

  unfoldable pub check_header_without_headheader : ForkchoiceState → Option InvalidForkchoiceState
  check_header_without_headheader st =
      if not (opt_eq (some st.head_block_hash) (present (s.block_hash 0)))
      then some head_header_not_found
      else if not (st.safe_block_hash == 0) && not (st.safe_block_hash == st.head_block_hash)
      then some safe_not_ancestor
      else if not (st.finalized_block_hash == 0)
          && not (st.finalized_block_hash == st.head_block_hash)
      then some finalized_not_ancestor_of_head
      else none
