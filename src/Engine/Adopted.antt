-- ===== src/Engine/Adopted.antt =====
-- engine.rs, `forkchoice_updated`: the state that a head which is followed leaves.
use wasm_based_evm.Prelude.{
  ℕ, ◌==◌, ◌&&◌, ◌≡◌, refl, ap, ◌∙◌, Bool, true, false, Option, none, some, inl, inr, Bool-cases,
  arith, Outcome,
}
use wasm_based_evm.Block.{Header, Block}
use wasm_based_evm.Database.{Bytes, TrieAccount, Database}
use wasm_based_evm.Chain.Storage.{Storage}
use wasm_based_evm.Chain.Canonical.{
  ForkchoiceState, CanonicalState, same_state, update_state, store,
}
use wasm_based_evm.Chain.Reorg.{ReorgContext}
use wasm_based_evm.Engine.{Chain, Moved, finish, move}

state_of :
    (a b : ForkchoiceState)
    → a.head_block_hash ≡ b.head_block_hash
    → a.safe_block_hash ≡ b.safe_block_hash
    → a.finalized_block_hash ≡ b.finalized_block_hash
    → a ≡ b
state_of a b p q r =
    ap (λ h. record a { head_block_hash = h }) p
    ∙ ap
        (λ h. record {
          head_block_hash = b.head_block_hash;
          safe_block_hash = h;
          finalized_block_hash = a.finalized_block_hash;
        })
        q
    ∙ ap (λ h. record b { finalized_block_hash = h }) r

store-adopts :
    (writes : Bool) (st : ForkchoiceState) (number : ℕ) (c : CanonicalState)
    → ((store writes st number c).0.state ≡ st) × ((store writes st number c).0.number ≡ number)
unfolding store
store-adopts true st number c = (refl, refl)
store-adopts false st number c = (refl, refl)

-- The memory has the state and the number after an update, written or not.
pub update_state_adopts :
    (writes : Bool) (st : ForkchoiceState) (number : ℕ) (c : CanonicalState)
    → ((update_state writes st number c).0.state ≡ st)
      × ((update_state writes st number c).0.number ≡ number)
unfolding update_state
update_state_adopts writes st number c =
    elim (Bool-cases (same_state c.state st && (c.number == number))) [
      | inl same ↦ rw same (
        state_of c.state st (ground (arith, same)) (ground (arith, same)) (ground (arith, same)),
        ground (arith, same),
      )
      | inr other ↦ rw other (store-adopts writes st number c)
    ]

module _ (decode : Bytes → Option TrieAccount) (hash_slow : Header → ℕ)
    (reexecute : Block → Database → Option Database) where
  finish-adopts :
      (writes : Bool) (st : ForkchoiceState) (header : Header) (m : Moved)
      → (finish decode hash_slow reexecute writes st header m).1 ≡ none
      → (finish decode hash_slow reexecute writes st header m).0.canonical.state ≡ st
  unfolding finish
  finish-adopts writes st header (ch, none) e =
      (update_state_adopts writes st header.number ch.canonical).0
  finish-adopts writes st header (ch, some x) e = absurd (ground arith)

-- A move to a head that ends without an error leaves the state of the call as the canonical state,
-- whether it reverts, executes and marks blocks or not.
pub move_adopts :
    (decode : Bytes → Option TrieAccount) (hash_slow : Header → ℕ)
    (reexecute : Block → Database → Option Database) (s : Storage) (writes : Bool)
    (st : ForkchoiceState) (number : ℕ) (header : Option Header)
    (context : Outcome (Unit {0}) ReorgContext) (ch : Chain)
    → (move decode hash_slow reexecute s writes st number header context ch).1 ≡ none
    → (move decode hash_slow reexecute s writes st number header context ch).0.canonical.state ≡ st
unfolding move
move_adopts decode hash_slow reexecute s writes st number none context ch e =
    (update_state_adopts writes st number ch.canonical).0
move_adopts decode hash_slow reexecute s writes st number (some header) context ch e =
    finish-adopts decode hash_slow reexecute writes st header _ e
