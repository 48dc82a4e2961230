-- ===== src/Database/Overlay.antt =====
-- write.rs, `BatchWriter`: what the reads of a batch give, against the state of the chain as functions
-- that each write changes at one place.
use wasm_based_evm.Prelude.{
  ℕ, ◌==◌, ◌≡◌, refl, sym, ap, ◌∙◌, Bool, true, false, ◌||◌, Option, none, some, List, [], ◌∷◌,
  lookup, lookup-insert, lookup-remove, lookup2, lookup2-insert2, same_key, if◌then◌else◌,
  unwrap_or, is_some, inl, inr, Bool-cases, ==_iff, arith,
}
use mathlib.Core.Path.{subst}
use wasm_based_evm.Database.{TrieAccount, Database, contains, add_to_set, write_slot}
use wasm_based_evm.Database.Batch.{
  BatchWriter, Tries, Write, new, set_account, delete_account, set_slot, empty_storage, new,
  set_base_state_root, base_account, account, slot_of, base_storage, storage_beneath, storage,
  keep_account, put_account, drop_account, update_account, remove_account, keep_slot, put_slot,
  touch_owner, update_storage, reset_storage, default_account, apply, apply_all,
}

pub contains-add_to_set :
    (j a : ℕ) (l : List ℕ) → contains j (add_to_set a l) ≡ ((j == a) || contains j l)
contains-add_to_set j a l = elim (Bool-cases (contains a l)) [
  | inl e ↦ elim (Bool-cases (j == a)) [
    | inl same ↦ rw (e, same) (subst (λ i. contains i l ≡ true) (sym ((==_iff j a).0 same)) e)
    | inr other ↦ rw (e, other) refl
  ]
  | inr n ↦ rw n refl
]

-- The accounts as the batch sees them, which of them it touched, the slots it wrote, and the
-- accounts whose other slots it emptied.
pub record View : Type 0 where
  pub account : ℕ → Option TrieAccount
  pub touched : ℕ → Bool
  pub written : ℕ × ℕ → Option ℕ
  pub emptied : ℕ → Bool

module _ (tries : Tries) where
  unfoldable pub touch : ℕ → TrieAccount → View → View
  touch a x v = record v {
    account = λ j. if j == a then some x else v.account j;
    touched = λ j. (j == a) || v.touched j;
  }

  -- What a write does to the state. A slot that is written touches its account, and creates it if
  -- the batch has not touched it and it is not there.
  unfoldable pub spec : Write → View → View
  spec (set_account a x) v = touch a x v
  spec (delete_account a) v = record v {
    account = λ j. if j == a then none else v.account j;
    touched = λ j. (j == a) || v.touched j;
  }
  spec (set_slot a s value) v =
      let w = record v { written = λ k. if same_key (a, s) k then some value else v.written k } in
      if v.touched a then w else touch a (unwrap_or (v.account a) (default_account tries)) w
  spec (empty_storage a) v = record v { emptied = λ j. (j == a) || v.emptied j }

  unfoldable pub spec_all : List Write → View → View
  spec_all [] v = v
  spec_all (w ∷ ws) v = spec_all ws (spec w v)

module _ (tries : Tries) (d : Database) (root : Option ℕ) where
  -- The batch is in the state: its reads of accounts give it, and its tracking is in step.
  pub record IsIn (b : BatchWriter) (v : View) : Type 0 where
    pub committed : b.committed ≡ d
    pub base : b.base_state_root ≡ root
    pub accounts : (j : ℕ) → account tries j none b ≡ v.account j
    pub touches : (j : ℕ) → contains j b.touched_accounts ≡ v.touched j
    pub writes : (k : ℕ × ℕ) → lookup2 k b.touched_storages ≡ v.written k
    pub resets : (j : ℕ) → contains j b.resetted_storages ≡ v.emptied j

  -- The original values do not matter to a read.
  keep_account-IsIn :
      (a : ℕ) (b : BatchWriter) (v : View) → IsIn b v → IsIn (keep_account tries a b) v
  unfolding keep_account account base_account
  keep_account-IsIn a b v i = elim (Bool-cases (is_some (lookup a b.original_accounts))) [
    | inl e ↦ rw (keep_account, e) i
    | inr e ↦
        rw (keep_account, e)
          (record {
            committed = i.committed;
            base = i.base;
            accounts = i.accounts;
            touches = i.touches;
            writes = i.writes;
            resets = i.resets;
          })
  ]

  keep_slot-IsIn :
      (a s : ℕ) (b : BatchWriter) (v : View) → IsIn b v → IsIn (keep_slot tries a s b) v
  unfolding keep_slot account base_account
  keep_slot-IsIn a s b v i = elim (Bool-cases (is_some (lookup2 (a, s) b.original_storages))) [
    | inl e ↦ rw (keep_slot, e) i
    | inr e ↦
        rw (keep_slot, e)
          (record {
            committed = i.committed;
            base = i.base;
            accounts = i.accounts;
            touches = i.touches;
            writes = i.writes;
            resets = i.resets;
          })
  ]

  put_account-IsIn :
      (a : ℕ) (x : TrieAccount) (b : BatchWriter) (v : View)
      → IsIn b v
      → IsIn (put_account tries a x b) (touch tries a x v)
  unfolding put_account touch account
  put_account-IsIn a x b v i = record {
    committed = i.committed;
    base = i.base;
    accounts = λ j. ground (
      arith,
      i.accounts j,
      contains-add_to_set j a b.touched_accounts,
      lookup-insert a j x b.tables.accounts,
      ==_iff a j,
      ==_iff j a,
    );
    touches = λ j. ground (arith, contains-add_to_set j a b.touched_accounts, i.touches j);
    writes = i.writes;
    resets = i.resets;
  }

  drop_account-IsIn :
      (a : ℕ) (b : BatchWriter) (v : View)
      → IsIn b v
      → IsIn (drop_account tries a b) (spec tries (delete_account a) v)
  unfolding drop_account spec account
  drop_account-IsIn a b v i = record {
    committed = i.committed;
    base = i.base;
    accounts = λ j. ground (
      arith,
      i.accounts j,
      contains-add_to_set j a b.touched_accounts,
      lookup-remove a j b.tables.accounts,
      ==_iff a j,
      ==_iff j a,
    );
    touches = λ j. ground (arith, contains-add_to_set j a b.touched_accounts, i.touches j);
    writes = i.writes;
    resets = i.resets;
  }

  put_slot-IsIn :
      (a s value : ℕ) (b : BatchWriter) (v : View)
      → IsIn b v
      → IsIn
          (put_slot tries a s value b)
          (record v { written = λ k. if same_key (a, s) k then some value else v.written k })
  unfolding put_slot account base_account write_slot
  put_slot-IsIn a s value b v i = record {
    committed = i.committed;
    base = i.base;
    accounts = i.accounts;
    touches = i.touches;
    writes = λ k. ground (arith, lookup2-insert2 (a, s) k value b.touched_storages, i.writes k);
    resets = i.resets;
  }

  touch_owner-IsIn :
      (a : ℕ) (b : BatchWriter) (v : View)
      → IsIn b v
      → IsIn (touch_owner tries a b) (
          if v.touched a
          then v
          else touch tries a (unwrap_or (v.account a) (default_account tries)) v)
  unfolding touch_owner update_account
  touch_owner-IsIn a b v i = elim (Bool-cases (v.touched a)) [
    | inl e ↦ rw (touch_owner, i.touches a, e) i
    | inr e ↦
        rw (touch_owner, i.touches a, e, i.accounts a)
          (put_account-IsIn a (unwrap_or (v.account a) (default_account tries)) _ v
            (keep_account-IsIn a b v i))
  ]

  apply-IsIn :
      (w : Write) (b : BatchWriter) (v : View) → IsIn b v → IsIn (apply tries w b) (spec tries w v)
  unfolding apply update_account remove_account update_storage reset_storage account base_account
      spec
  apply-IsIn (set_account a x) b v i = put_account-IsIn a x _ v (keep_account-IsIn a b v i)
  apply-IsIn (delete_account a) b v i = drop_account-IsIn a _ v (keep_account-IsIn a b v i)
  apply-IsIn (set_slot a s value) b v i =
      touch_owner-IsIn a _ _ (put_slot-IsIn a s value _ v (keep_slot-IsIn a s b v i))
  apply-IsIn (empty_storage a) b v i = record {
    committed = i.committed;
    base = i.base;
    accounts = i.accounts;
    touches = i.touches;
    writes = i.writes;
    resets = λ j. ground (arith, contains-add_to_set j a b.resetted_storages, i.resets j);
  }

  apply_all-IsIn :
      (ws : List Write) (b : BatchWriter) (v : View)
      → IsIn b v
      → IsIn (apply_all tries ws b) (spec_all tries ws v)
  unfolding apply_all spec_all
  apply_all-IsIn [] b v i = i
  apply_all-IsIn (w ∷ ws) b v i =
      apply_all-IsIn ws (apply tries w b) (spec tries w v) (apply-IsIn w b v i)

-- A batch on the database `d`, from the state root `root` if one is given.
unfoldable pub start : Database → Option ℕ → BatchWriter
start d none = new d
start d (some root) = set_base_state_root root (new d)

module _ (tries : Tries) where
  unfoldable pub start_view : Database → Option ℕ → View
  start_view d root = record {
    account = λ j. base_account tries root j d;
    touched = λ j. false;
    written = λ k. none;
    emptied = λ j. false;
  }

  -- The slots of the state: those written, none of an emptied account, or those beneath.
  unfoldable pub slot_beneath : Database → Option ℕ → View → ℕ → ℕ → ℕ
  slot_beneath d none v a s = unwrap_or (lookup2 (a, s) d.storages) 0
  slot_beneath d (some root) v a s =
      if root == tries.empty_root_hash then 0 else slot_of tries s (v.account a)

  unfoldable pub slot_in : Database → Option ℕ → View → ℕ → ℕ → ℕ
  slot_in d root v a s =
      unwrap_or (v.written (a, s)) (if v.emptied a then 0 else slot_beneath d root v a s)

  start-IsIn :
      (d : Database) (root : Option ℕ) → IsIn tries d root (start d root) (start_view d root)
  unfolding start start_view new set_base_state_root account lookup2
  start-IsIn d none = record {
    committed = refl;
    base = refl;
    accounts = λ j. refl;
    touches = λ j. refl;
    writes = λ k. refl;
    resets = λ j. refl;
  }
  start-IsIn d (some root) = record {
    committed = refl;
    base = refl;
    accounts = λ j. refl;
    touches = λ j. refl;
    writes = λ k. refl;
    resets = λ j. refl;
  }

  account-base :
      (b : BatchWriter) (root a : ℕ)
      → b.base_state_root ≡ some root
      → account tries a (some root) b ≡ account tries a none b
  unfolding account
  account-base b root a e = rw e refl

  base_storage-slot_beneath :
      (d : Database) (root r : Option ℕ) (b : BatchWriter) (v : View) (a s : ℕ)
      → IsIn tries d root b v
      → b.base_state_root ≡ r
      → base_storage tries r a s b ≡ slot_beneath d r v a s
  unfolding base_storage slot_beneath
  base_storage-slot_beneath d root none b v a s i e =
      ap (λ x. unwrap_or (lookup2 (a, s) x.storages) 0) i.committed
  base_storage-slot_beneath d root (some r) b v a s i e =
      ap (λ x. if r == tries.empty_root_hash then 0 else slot_of tries s x)
        (account-base b r a e ∙ i.accounts a)

  storage-slot_in :
      (d : Database) (root : Option ℕ) (b : BatchWriter) (v : View) (a s : ℕ)
      → IsIn tries d root b v
      → storage tries a s none b ≡ slot_in d root v a s
  unfolding storage storage_beneath slot_in
  storage-slot_in d root b v a s i =
      rw (i.writes (a, s), i.resets a)
        (ap (λ x. unwrap_or (v.written (a, s)) (if v.emptied a then 0 else x))
          (base_storage-slot_beneath d root b.base_state_root b v a s i refl
            ∙ ap (λ r. slot_beneath d r v a s) i.base))

-- The reads of a batch refine the plain state: after any writes, an account is what the last write
-- to it left, or what it was before the batch, and a slot is what was last written to it, else 0 in
-- an account whose storage was reset, else what is beneath it in the trie of the account or in the
-- database.
pub batch_refines :
    (tries : Tries) (d : Database) (root : Option ℕ) (ws : List Write)
    → let b = apply_all tries ws (start d root) in
      let v = spec_all tries ws (start_view tries d root) in
      ((j : ℕ) → account tries j none b ≡ v.account j)
      × ((a s : ℕ) → storage tries a s none b ≡ slot_in tries d root v a s)
batch_refines tries d root ws =
    let i =
      apply_all-IsIn tries d root ws (start d root) (start_view tries d root)
        (start-IsIn tries d root) in
    (i.accounts, λ a s. storage-slot_in tries d root _ _ a s i)
