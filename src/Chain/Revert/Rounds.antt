-- ===== src/Chain/Revert/Rounds.antt =====
-- reorg_manager.rs, `revert_to_height`: a round restores the accounts that its change set names.
use wasm_based_evm.Prelude.{
  ℕ, ◌==◌, ◌≡◌, refl, ap, ◌∙◌, false, Option, none, some, List, [], ◌∷◌, All, lookup, insert,
  remove, lookup-insert, lookup-remove, inl, inr, Bool-cases, Option-cases, ==_iff, arith,
}
use mathlib.Core.Path.{subst}
use mathlib.Core.Option
use mathlib.Core.Option.{some-injective}
use wasm_based_evm.Database.{
  Bytes, TrieAccount, Database, Writer, update_account, remove_account, update_plain_state,
  remove_plain_state, on_db,
}
use wasm_based_evm.Chain.Revert.Frame.{finish_block-IsFinished}
use wasm_based_evm.Chain.Revert.{finish_block, restore_account, restore_accounts, revert_block}

-- The entries restore the accounts of `d`.
abbrev pub IsOriginal : (TrieAccount → Bytes) → Database → List (ℕ × Option Bytes) → Type 0
IsOriginal encode d l = All (λ e. e.1 ≡ Option.map encode (lookup e.0 d.accounts)) l

-- Outside of the entries the accounts are those of `d`.
abbrev pub IsSameOutside : List (ℕ × Option Bytes) → Database → Database → Type 0
IsSameOutside l d e = (j : ℕ) → lookup j l ≡ none → lookup j e.accounts ≡ lookup j d.accounts

module _ (decode : Bytes → Option TrieAccount) (encode : TrieAccount → Bytes)
    (decode_encode : (x : TrieAccount) → decode (encode x) ≡ some x) where
  -- The entry of the account `a`, first in the list.
  outside-tail :
      (a : ℕ) (o : Option Bytes) (l : List (ℕ × Option Bytes)) (d e e' : Database)
      → IsSameOutside ((a, o) ∷ l) d e
      → lookup a e'.accounts ≡ lookup a d.accounts
      → ((j : ℕ) → (a == j) ≡ false → lookup j e'.accounts ≡ lookup j e.accounts)
      → IsSameOutside l d e'
  unfolding lookup
  outside-tail a o l d e e' h own others j n = elim (Bool-cases (a == j)) [
    | inl same ↦ subst (λ i. lookup i e'.accounts ≡ lookup i d.accounts) ((==_iff a j).0 same) own
    | inr other ↦ others j other ∙ h j (rw other n)
  ]

  -- The account is gone again, or has its old value.
  gone :
      (a : ℕ) (d : Database) (w : Writer)
      → none ≡ Option.map encode (lookup a d.accounts)
      → lookup a (remove a w.db.accounts) ≡ lookup a d.accounts
  gone a d w o = elim (Option-cases (lookup a d.accounts)) [
    | inl e ↦ ground (arith, lookup-remove a a w.db.accounts, ==_iff a a, e)
    | inr (x, e) ↦ absurd (ground (arith, o, e))
  ]

  back :
      (a : ℕ) (x : TrieAccount) (d : Database) (w : Writer)
      → lookup a d.accounts ≡ some x
      → lookup a (insert a x w.db.accounts) ≡ lookup a d.accounts
  back a x d w e = ground (arith, lookup-insert a a x w.db.accounts, ==_iff a a, e)

  decoded :
      (a : ℕ) (state : Bytes) (x : TrieAccount) (d : Database)
      → some state ≡ Option.map encode (lookup a d.accounts)
      → lookup a d.accounts ≡ some x
      → decode state ≡ some x
  decoded a state x d o e =
      ap decode (some-injective state (encode x) (rw e at o)) ∙ decode_encode x

  restore_accounts-lem :
      (l : List (ℕ × Option Bytes)) (d : Database) (w : Writer)
      → IsOriginal encode d l
      → IsSameOutside l d w.db
      → (w' : Writer) × (restore_accounts decode l w ≡ (w', none))
        × ((j : ℕ) → lookup j w'.db.accounts ≡ lookup j d.accounts)
        × (w'.db.account_change_sets ≡ w.db.account_change_sets)
        × (w'.db.canonical_heads ≡ w.db.canonical_heads)
  unfolding restore_accounts restore_account update_account remove_account update_plain_state
      remove_plain_state lookup
  restore_accounts-lem [] d w o h = (w, refl, λ j. h j refl, refl, refl)
  restore_accounts-lem ((a, none) ∷ l) d w o h =
      let w' = on_db (remove_plain_state a) (remove_account a w) in
      restore_accounts-lem l d w' o.1 (
        outside-tail a none l d w.db w'.db h (gone a d w o.0)
          (λ j n. ground (arith, lookup-remove a j w.db.accounts, n)))
  restore_accounts-lem ((a, some state) ∷ l) d w o h = elim (Option-cases (lookup a d.accounts)) [
    | inl e ↦ absurd (ground (arith, o.0, e))
    | inr (x, e) ↦
        let w' = on_db (update_plain_state a state) (update_account a x w) in
        let (end, run, accounts, sets, heads) = restore_accounts-lem l d w' o.1 (
          outside-tail a (some state) l d w.db w'.db h (back a x d w e)
            (λ j n. ground (arith, lookup-insert a j x w.db.accounts, n))) in
        (end, rw (decoded a state x d o.0 e, restore_account) run, accounts, sets, heads)
  ]

  -- A round from a database with the change set of the block.
  pub revert_block-lem :
      (h : ℕ) (l : List (ℕ × Option Bytes)) (d : Database) (w : Writer)
      → lookup h w.db.account_change_sets ≡ some l
      → IsOriginal encode d l
      → IsSameOutside l d w.db
      → (w' : Writer) × (revert_block decode h w ≡ (w', none))
        × ((j : ℕ) → lookup j w'.db.accounts ≡ lookup j d.accounts)
        × (w'.db.account_change_sets ≡ remove h w.db.account_change_sets)
        × (w'.db.canonical_heads ≡ remove h w.db.canonical_heads)
  unfolding revert_block
  revert_block-lem h l d w has o same =
      let (w', run, accounts, sets, heads) = restore_accounts-lem l d w o same in
      let f = finish_block-IsFinished h w' in
      (
        finish_block h w',
        rw (has, run) refl,
        (λ j. ap (λ m. lookup j m) f.accounts ∙ accounts j),
        f.change_sets ∙ ap (remove h) sets,
        f.heads ∙ ap (remove h) heads,
      )
