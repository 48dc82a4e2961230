-- ===== src/Chain/Revert/Undo.antt =====
-- reorg_manager.rs, `revert_to_height`, after the execution of blocks: the accounts are again what
-- they were.
use wasm_based_evm.Prelude.{
  ℕ, zero, suc, ◌+◌, ◌-◌, ◌≤◌, ◌==◌, ◌≡◌, refl, ap, ◌∙◌, Bool, true, false, Option, none, some,
  List, [], ◌∷◌, All, Assoc, lookup, insert, lookup-insert, lookup-remove, map, inl, inr,
  Bool-cases, ==_iff, arith,
}
use mathlib.Core.Option
use mathlib.Core.Option.{some-injective}
use wasm_based_evm.Chain.Canonical.{CanonicalState, update_head}
use wasm_based_evm.Database.{
  Bytes, TrieAccount, Database, Writer, insert_account_change_set, insert_storage_change_set,
  clear_tracking,
}
use wasm_based_evm.Database.Batch.{Tries, Write, apply_all, commit, collect_account_changes}
use wasm_based_evm.Database.Overlay.{start}
use wasm_based_evm.Database.Originals.{IsCurrent, batch-IsTracked}
use wasm_based_evm.Execution.{record_block, execute_block}
use wasm_based_evm.Chain.Revert.Frame.{insert_metas-IsFrame}
use wasm_based_evm.Chain.Revert.{
  revert_block, revert_loop, after_head, set_head, end_revert, revert_to_height,
}
use wasm_based_evm.Chain.Revert.Rounds.{IsOriginal, revert_block-lem}

-- The change sets of a batch.
changes-IsOriginal :
    (encode : TrieAccount → Bytes) (d : Database) (m : Assoc (Option TrieAccount))
    → All (λ e. e.1 ≡ lookup e.0 d.accounts) m
    → IsOriginal encode d (map (λ e. (e.0, Option.map encode e.1)) m)
changes-IsOriginal encode d [] a = tt
changes-IsOriginal encode d (e ∷ m) a =
    (ap (Option.map encode) a.0, changes-IsOriginal encode d m a.1)

lookup-changes :
    (encode : TrieAccount → Bytes) (j : ℕ) (m : Assoc (Option TrieAccount))
    → lookup j (map (λ e. (e.0, Option.map encode e.1)) m) ≡ none
    → lookup j m ≡ none
unfolding lookup
lookup-changes encode j [] h = refl
lookup-changes encode j (e ∷ m) h = elim (Bool-cases (e.0 == j)) [
  | inl same ↦ absurd (ground (arith, rw same at h))
  | inr other ↦ rw other (lookup-changes encode j m (rw other at h))
]

-- Two databases with the same accounts and the same change sets up to a height.
pub record IsLike (top : ℕ) (d e : Database) : Type 0 where
  pub accounts : (j : ℕ) → lookup j e.accounts ≡ lookup j d.accounts
  pub change_sets :
      (h : ℕ) → h ≤ top → lookup h e.account_change_sets ≡ lookup h d.account_change_sets

-- `e` comes from `d` by the execution of `n` blocks above the height, each committed, each from a
-- state whose trie has the accounts of the table. In between the other tables may change.
pub data Executed (tries : Tries) (encode : TrieAccount → Bytes) (height : ℕ)
    : ℕ → Database → Database → Type 0 where
  nothing : {d e : Database} → IsLike height d e → Executed tries encode height 0 d e
  block :
      {n : ℕ} {d e f : Database} (root : Option ℕ) (ws : List Write) (hash : ℕ) (metas : List ℕ)
      → Executed tries encode height n d e
      → IsCurrent tries root e
      → IsLike
          (height + suc n)
          (execute_block tries encode true root ws (height + suc n) hash metas e)
          f
      → Executed tries encode height (suc n) d f

-- What the execution of a block leaves.
executed-lem :
    (tries : Tries) (encode : TrieAccount → Bytes) (root : Option ℕ) (ws : List Write)
    (number hash : ℕ) (metas : List ℕ) (d : Database)
    → IsCurrent tries root d
    → let b = apply_all tries ws (start d root) in
      let e = execute_block tries encode true root ws number hash metas d in
      (e.accounts ≡ b.tables.accounts)
      × (e.account_change_sets
          ≡ insert number (collect_account_changes encode b) d.account_change_sets)
unfolding execute_block record_block commit insert_account_change_set insert_storage_change_set
executed-lem tries encode root ws number hash metas d current =
    let t = batch-IsTracked tries d root ws current in
    let frame = insert_metas-IsFrame hash 0 metas _ in
    (frame.accounts, frame.change_sets ∙ ap (insert number _) t.change_sets)

module _ (tries : Tries) (decode : Bytes → Option TrieAccount) (encode : TrieAccount → Bytes)
    (decode_encode : (x : TrieAccount) → decode (encode x) ≡ some x) (height : ℕ) where
  -- The round that undoes the last block.
  undo_block :
      (n : ℕ) (e f : Database) (w : Writer) (root : Option ℕ) (ws : List Write) (hash : ℕ)
      (metas : List ℕ)
      → IsCurrent tries root e
      → IsLike
          (height + suc n)
          (execute_block tries encode true root ws (height + suc n) hash metas e)
          f
      → IsLike (height + suc n) f w.db
      → (w' : Writer) × (revert_block decode (height + suc n) w ≡ (w', none))
        × IsLike (height + n) e w'.db
  unfolding collect_account_changes
  undo_block n e f w root ws hash metas current like now =
      let b = apply_all tries ws (start e root) in
      let top = height + suc n in
      let changes = collect_account_changes encode b in
      let t = batch-IsTracked tries e root ws current in
      let (accounts, sets) = executed-lem tries encode root ws top hash metas e current in
      let has : lookup top w.db.account_change_sets ≡ some changes =
        now.change_sets top (omega arith)
        ∙ like.change_sets top (omega arith)
        ∙ ap (lookup top) sets
        ∙ ground (arith, lookup-insert top top changes e.account_change_sets, ==_iff top top) in
      let (w', run, same, removed, _) =
        revert_block-lem decode encode decode_encode top changes e w has
          (changes-IsOriginal encode e b.original_accounts t.originals)
          (λ j h.
            now.accounts j
            ∙ like.accounts j
            ∙ ap (λ m. lookup j m) accounts
            ∙ t.same j (lookup-changes encode j b.original_accounts h)) in
      (
        w',
        run,
        record {
          accounts = same;
          change_sets = λ h le.
              ap (λ m. lookup h m) removed
              ∙ ground (arith, le, lookup-remove top h w.db.account_change_sets, ==_iff top h)
              ∙ now.change_sets h (omega (arith, le))
              ∙ like.change_sets h (omega (arith, le))
              ∙ ap (λ m. lookup h m) sets
              ∙ ground (arith, le, lookup-insert top h changes e.account_change_sets, ==_iff top h);
        },
      )

  undo_all :
      (n : ℕ) (d e : Database) (w : Writer)
      → Executed tries encode height n d e
      → IsLike (height + n) e w.db
      → (w' : Writer) × (revert_loop decode n height w ≡ (w', none))
        × ((j : ℕ) → lookup j w'.db.accounts ≡ lookup j d.accounts)
  unfolding revert_loop
  undo_all zero d e w (nothing like) now = (w, refl, λ j. now.accounts j ∙ like.accounts j)
  undo_all (suc n) d f w (block {e = e} root ws hash metas before current like) now =
      let (w1, run, now1) = undo_block n e f w root ws hash metas current like now in
      let (w', rest, same) = undo_all n d e w1 before now1 in (w', rw run rest, same)

  -- The end changes nothing in the database.
  after_head-db : (w : Writer) (r : CanonicalState × Bool) → ((after_head decode w r).0 ≡ w)
  unfolding after_head clear_tracking
  after_head-db w (c, true) = refl
  after_head-db w (c, false) = refl

  set_head-db :
      (writes : Bool) (o : Option ℕ) (w : Writer) (c : CanonicalState)
      → ((set_head decode writes height o w c).0 ≡ w)
  unfolding set_head
  set_head-db writes none w c = refl
  set_head-db writes (some hash) w c = after_head-db w (update_head writes hash height c)

-- If `n` blocks are executed and committed above a height, each on a state whose trie agrees with
-- the table of accounts, and the head is the last one, then a revert to the height leaves in the
-- table of accounts just the accounts from before the first of them, whether or not the head can be
-- updated, for every encoding of accounts that can be decoded.
pub revert_undoes_execution :
    (tries : Tries) (decode : Bytes → Option TrieAccount) (encode : TrieAccount → Bytes)
    (decode_encode : (x : TrieAccount) → decode (encode x) ≡ some x) (height n : ℕ) (d e : Database)
    (writes : Bool) (w : Writer) (c : CanonicalState)
    → Executed tries encode height n d e
    → IsLike (height + n) e w.db
    → c.number ≡ height + n
    → (address : ℕ)
    → lookup address (revert_to_height decode writes height w c).0.db.accounts
      ≡ lookup address d.accounts
unfolding revert_to_height end_revert
revert_undoes_execution tries decode encode decode_encode height n d e writes w c executed like
      number address =
    let (w', run, same) = undo_all tries decode encode decode_encode height n d e w executed like in
    let count : c.number - height ≡ n = omega (arith, number) in
    let reached : revert_loop decode (c.number - height) height w ≡ (w', none) =
      ap (λ k. revert_loop decode k height w) count ∙ run in
    ap (λ r. lookup address (end_revert decode writes height r c).0.db.accounts) reached
    ∙ ap (λ v. lookup address v.db.accounts)
        (set_head-db tries decode encode decode_encode height writes
          (lookup height w'.db.canonical_heads) w' c)
    ∙ same address
