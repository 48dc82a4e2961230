-- ===== src/Chain/Forkchoice/Linked.antt =====
-- A forkchoice that passes both checks names blocks of one chain.
use wasm_based_evm.Prelude.{
  ℕ, true, false, Option, none, some, ◌==◌, ◌⊎◌, inl, inr, ◌≡◌, ◌≢◌, arith,
}
use wasm_based_evm.Block.{Header}
use wasm_based_evm.Chain.Storage.{Storage}
use wasm_based_evm.Chain.Tree.{BlockTree}
use wasm_based_evm.Chain.Canonical.{ForkchoiceState}
use wasm_based_evm.Chain.Ancestor.{is_ancestor, Reaches}
use wasm_based_evm.Chain.Ancestor.Sound.{IsConsistent, is_ancestor-Reaches}
use wasm_based_evm.Chain.Forkchoice.{
  check_finalized_block, check_safe_block, safe_against, finalized_against,
}

module _ (s : Storage) (tree : BlockTree) where
  safe_is_ancestor :
      (st : ForkchoiceState) (head : Header) (o : Option Header)
      → safe_against s tree st head o ≡ none
      → is_ancestor s tree st.head_block_hash st.safe_block_hash ≡ true
  safe_is_ancestor st head none e = absurd (ground arith)
  safe_is_ancestor st head (some sh) e = ground arith

  finalized_is_ancestor :
      (st : ForkchoiceState) (head : Header) (target : ℕ) (o : Option Header)
      → finalized_against s tree st head target o ≡ none
      → is_ancestor s tree target st.finalized_block_hash ≡ true
  finalized_is_ancestor st head target none e = absurd (ground arith)
  finalized_is_ancestor st head target (some fh) e = ground arith

-- If the database is consistent and a forkchoice with a safe and a finalized block passes both
-- checks, then the parent links lead from the head to the safe block and from the safe block to the
-- finalized block.
pub accepted_forkchoice_linked :
    (s : Storage) (tree : BlockTree) (st : ForkchoiceState) (head : Header)
    → IsConsistent s tree
    → st.safe_block_hash ≢ 0
    → st.finalized_block_hash ≢ 0
    → check_safe_block s tree st head ≡ none
    → check_finalized_block s tree st head ≡ none
    → Reaches s tree st.head_block_hash st.safe_block_hash
      × Reaches s tree st.safe_block_hash st.finalized_block_hash
unfolding check_safe_block check_finalized_block
accepted_forkchoice_linked s tree st head v safe final safe_ok final_ok =
    let has_safe : (st.safe_block_hash == 0) ≡ false = ground arith in
    let has_final : (st.finalized_block_hash == 0) ≡ false = ground arith in
    let a = safe_is_ancestor s tree st head _ (rw has_safe at safe_ok) in
    let b = finalized_is_ancestor s tree st head _ _ (rw (has_final, has_safe) at final_ok) in
    (
      reached safe (is_ancestor-Reaches s tree _ _ v a),
      reached final (is_ancestor-Reaches s tree _ _ v b),
    )
  where
    reached : {a t : ℕ} → t ≢ 0 → (t ≡ 0) ⊎ Reaches s tree a t → Reaches s tree a t
    reached real (inl zero) = absurd (real zero)
    reached real (inr r) = r
