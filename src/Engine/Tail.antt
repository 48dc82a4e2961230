-- ===== src/Engine/Tail.antt =====
-- engine.rs, `forkchoice_updated` to a shorter branch: the state is updated to the new head before the
-- revert reads the height of the old one.
use wasm_based_evm.Prelude.{
  ℕ, ◌<◌, ◌≤◌, ◌≡◌, refl, sym, ap, ◌∙◌, Bool, true, false, Option, none, some, List, [], ◌∷◌,
  lookup, unwrap_or, inl, inr, Bool-cases, Option-cases, is_some, arith, ok,
}
use mathlib.Core.Option
use mathlib.Core.Option.{some-injective}
use wasm_based_evm.Block.{Header, Block}
use wasm_based_evm.Database.{Bytes, TrieAccount, Database, Writer}
use wasm_based_evm.Chain.Storage.{Storage, present}
use wasm_based_evm.Chain.Canonical.{ForkchoiceState, CanonicalState}
use wasm_based_evm.Chain.Reorg.{ReorgContext}
use wasm_based_evm.Chain.Revert.{RevertError, revert_to_height}
use wasm_based_evm.Chain.Revert.Cleared.{revert_to_height-IsReverted}
use wasm_based_evm.Chain.Mark.Canonical.{IsBranch, IsOff, mark_branch_canonical-IsIndexed}
use wasm_based_evm.Engine.Adopted.{update_state_adopts}
use wasm_based_evm.Engine.{
  Chain, Moved, adopt, after_revert, revert_first, reexecute_block, reexecute_all, mark_executed,
  mark_new, finish, follow, move,
}

module _ (decode : Bytes → Option TrieAccount) (hash_slow : Header → ℕ)
    (reexecute : Block → Database → Option Database)
    (keeps : (b : Block) (d e : Database)
      → reexecute b d ≡ some e
      → e.canonical_heads ≡ d.canonical_heads) where
  reexecute_block-heads :
      (b : Block) (d e : Database)
      → reexecute_block decode hash_slow reexecute b d ≡ some e
      → e.canonical_heads ≡ d.canonical_heads
  unfolding reexecute_block
  reexecute_block-heads b d e h =
      elim (Bool-cases (is_some (lookup (hash_slow b.header) d.block_bodies))) [
        | inl here ↦ ap (λ x. x.canonical_heads) (sym (some-injective d e (rw here at h)))
        | inr gone ↦ keeps b d e (rw gone at h)
      ]

  reexecute_all-heads :
      (bs : List Block) (d : Database)
      → (reexecute_all decode hash_slow reexecute bs d).0.canonical_heads ≡ d.canonical_heads
  unfolding reexecute_all
  reexecute_all-heads [] d = refl
  reexecute_all-heads (b ∷ bs) d =
      elim (Option-cases (reexecute_block decode hash_slow reexecute b d)) [
        | inl failed ↦ rw (failed, reexecute_all) refl
        | inr (f, done) ↦
            rw (done, reexecute_all) (reexecute_all-heads bs f ∙ reexecute_block-heads b d f done)
      ]

  -- The entries of heights that no block of the branch has.
  module _ (k : ℕ) (blocks : List Block) (branch : IsBranch hash_slow blocks)
      (off : IsOff hash_slow k blocks) where
    mark_executed-tail :
        (o : Database × Bool) (ch : Chain)
        → o.0.canonical_heads ≡ ch.writer.db.canonical_heads
        → (mark_executed decode hash_slow reexecute blocks o ch).1 ≡ none
        → lookup k
            (mark_executed decode hash_slow reexecute blocks o ch).0.writer.db.canonical_heads
          ≡ lookup k ch.writer.db.canonical_heads
    unfolding mark_executed
    mark_executed-tail (d, false) ch h e = absurd (ground arith)
    mark_executed-tail (d, true) ch h e =
        (mark_branch_canonical-IsIndexed hash_slow blocks d branch).1 k off ∙ ap (λ m. lookup k m) h

    mark_new-tail :
        (m : Moved)
        → (mark_new decode hash_slow reexecute blocks m).1 ≡ none
        → (m.1 ≡ none)
          × (lookup k (mark_new decode hash_slow reexecute blocks m).0.writer.db.canonical_heads
              ≡ lookup k m.0.writer.db.canonical_heads)
    unfolding mark_new
    mark_new-tail (ch, none) e =
        (refl, mark_executed-tail _ ch (reexecute_all-heads blocks ch.writer.db) e)
    mark_new-tail (ch, some x) e = absurd (ground arith)

  after_revert-tail :
      (writes : Bool) (old : ForkchoiceState) (old_number k : ℕ) (ch : Chain)
      (r : Writer × CanonicalState × Option RevertError)
      → (r.2 ≡ none → lookup k r.0.db.canonical_heads ≡ lookup k ch.writer.db.canonical_heads)
      → (after_revert decode hash_slow reexecute writes old old_number r).1 ≡ none
      → lookup k
          (after_revert decode hash_slow reexecute writes old old_number
            r).0.writer.db.canonical_heads
        ≡ lookup k ch.writer.db.canonical_heads
  unfolding after_revert
  after_revert-tail writes old old_number k ch (w, c, none) h e = h refl
  after_revert-tail writes old old_number k ch (w, c, some x) h e = absurd (ground arith)

  -- The revert starts at the number that the state has.
  revert_first-tail :
      (writes : Bool) (old : ForkchoiceState) (old_number height k : ℕ) (is_reorg : Bool)
      (ch : Chain)
      → height ≤ ch.canonical.number
      → ch.canonical.number < k
      → (revert_first decode hash_slow reexecute writes old old_number is_reorg height ch).1 ≡ none
      → lookup k
          (revert_first decode hash_slow reexecute writes old old_number is_reorg height
            ch).0.writer.db.canonical_heads
        ≡ lookup k ch.writer.db.canonical_heads
  unfolding revert_first
  revert_first-tail writes old old_number height k false ch le lt e = refl
  revert_first-tail writes old old_number height k true ch le lt e =
      after_revert-tail writes old old_number k ch
        (revert_to_height decode writes height ch.writer ch.canonical)
        (λ ok.
          let r = revert_to_height-IsReverted decode writes height ch.writer ch.canonical ok in
          r.chain.beyond k (omega (arith, le, lt)))
        e

  finish-tail :
      (writes : Bool) (st : ForkchoiceState) (header : Header) (m : Moved)
      → (finish decode hash_slow reexecute writes st header m).1 ≡ none
      → (m.1 ≡ none)
        × ((finish decode hash_slow reexecute writes st header m).0.writer.db.canonical_heads
            ≡ m.0.writer.db.canonical_heads)
  unfolding finish
  finish-tail writes st header (ch, none) e = (refl, refl)
  finish-tail writes st header (ch, some x) e = absurd (ground arith)

-- A move to a new head, whose number the canonical state takes before the chain is reverted, leaves
-- every canonical entry above that number as it was, also those of the old branch, if the common
-- ancestor and the blocks of the new branch, which differ in their numbers and hashes, are not
-- above it, the move ends without an error, and execution leaves the canonical entries alone.
pub move_leaves_tail :
    (decode : Bytes → Option TrieAccount) (hash_slow : Header → ℕ)
    (reexecute : Block → Database → Option Database)
    (keeps : (b : Block) (d e : Database)
      → reexecute b d ≡ some e
      → e.canonical_heads ≡ d.canonical_heads)
    (s : Storage) (writes : Bool) (st : ForkchoiceState) (number k : ℕ) (header : Header)
    (context : ReorgContext) (ch : Chain)
    → unwrap_or (Option.map (λ h. h.number) (present (s.header context.common_ancestor_hash))) 0
      ≤ number
    → number < k
    → IsBranch hash_slow context.new_canonical_blocks
    → IsOff hash_slow k context.new_canonical_blocks
    → (move decode hash_slow reexecute s writes st number (some header) (ok context) ch).1 ≡ none
    → lookup k
        (move decode hash_slow reexecute s writes st number
          (some header)
          (ok context)
          ch).0.writer.db.canonical_heads
      ≡ lookup k ch.writer.db.canonical_heads
unfolding move follow
move_leaves_tail decode hash_slow reexecute keeps s writes st number k header context ch le lt
      branch off e =
    let (followed, last) = finish-tail decode hash_slow reexecute keeps writes st header _ e in
    let (reverted, marked) =
      mark_new-tail decode hash_slow reexecute keeps k context.new_canonical_blocks branch off _
        followed in
    let adopted = (update_state_adopts writes st number ch.canonical).1 in
    ap (λ m. lookup k m) last
    ∙ marked
    ∙ revert_first-tail decode hash_slow reexecute keeps writes ch.canonical.state
        ch.canonical.number _ k context.is_reorg (adopt writes st number ch)
        (omega (arith, le, adopted)) (omega (arith, lt, adopted)) reverted
