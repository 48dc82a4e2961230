-- ===== src/Database/Originals.antt =====
-- write.rs, `BatchWriter`: the original accounts that a batch keeps are those before it.
use wasm_based_evm.Prelude.{
  ℕ, ◌==◌, ◌≡◌, refl, ap, ◌∙◌, true, false, Option, none, some, List, [], ◌∷◌, All, All-insert,
  lookup, insert, lookup-insert, lookup-remove, is_some, lookup2, inl, inr, Bool-cases,
  Option-cases, ==_iff, arith,
}
use wasm_based_evm.Database.{TrieAccount, Database, contains, write_slot}
use wasm_based_evm.Database.Batch.{
  BatchWriter, Tries, Write, set_account, delete_account, set_slot, empty_storage, new,
  set_base_state_root, base_account, account, keep_account, put_account, drop_account,
  update_account, remove_account, keep_slot, put_slot, touch_owner, update_storage, reset_storage,
  apply, apply_all,
}
use wasm_based_evm.Database.Overlay.{start, contains-add_to_set}

-- The trie of the root has the accounts of the table.
abbrev pub IsCurrent : Tries → Option ℕ → Database → Type 0
IsCurrent tries root d = (a : ℕ) → base_account tries root a d ≡ lookup a d.accounts

-- The originals are the accounts of `d`, and an account without one is as in `d` and not touched.
pub record IsTracked (d : Database) (root : Option ℕ) (b : BatchWriter) : Type 0 where
  pub committed : b.committed ≡ d
  pub base : b.base_state_root ≡ root
  pub originals : All (λ e. e.1 ≡ lookup e.0 d.accounts) b.original_accounts
  pub same :
      (a : ℕ)
      → lookup a b.original_accounts ≡ none
      → lookup a b.tables.accounts ≡ lookup a d.accounts
  pub untouched :
      (a : ℕ) → lookup a b.original_accounts ≡ none → contains a b.touched_accounts ≡ false
  pub change_sets : b.tables.account_change_sets ≡ d.account_change_sets

module _ (tries : Tries) (d : Database) (root : Option ℕ) (current : IsCurrent tries root d) where
  account-IsTracked :
      (a : ℕ) (b : BatchWriter)
      → IsTracked d root b
      → lookup a b.original_accounts ≡ none
      → account tries a none b ≡ lookup a d.accounts
  unfolding account
  account-IsTracked a b t e = rw (t.untouched a e) (
      ap (λ r. base_account tries r a b.committed) t.base
      ∙ ap (λ x. base_account tries root a x) t.committed
      ∙ current a)

  keep_account-IsTracked :
      (a : ℕ) (b : BatchWriter)
      → IsTracked d root b
      → IsTracked d root (keep_account tries a b)
        × (is_some (lookup a (keep_account tries a b).original_accounts) ≡ true)
  unfolding keep_account
  keep_account-IsTracked a b t = elim (Option-cases (lookup a b.original_accounts)) [
    | inr (o, e) ↦ rw (keep_account, e) (t, rw e refl)
    | inl e ↦
        rw (keep_account, e)
          (
            record {
              committed = t.committed;
              base = t.base;
              originals =
                  All-insert (λ e. e.1 ≡ lookup e.0 d.accounts) a (account tries a none b)
                    b.original_accounts (account-IsTracked a b t e) t.originals;
              same = λ j h. t.same j (gone j h);
              untouched = λ j h. t.untouched j (gone j h);
              change_sets = t.change_sets;
            },
            ground
                (arith, lookup-insert a a (account tries a none b) b.original_accounts, ==_iff a a),
          )
  ]
    where
      gone :
          (j : ℕ)
          → lookup j (insert a (account tries a none b) b.original_accounts) ≡ none
          → lookup j b.original_accounts ≡ none
      gone j h = ground (arith, lookup-insert a j (account tries a none b) b.original_accounts, h)

  -- A change of the account `a` whose original is kept.
  module _ (a : ℕ) (b : BatchWriter) (t : IsTracked d root b)
      (kept : is_some (lookup a b.original_accounts) ≡ true) where
    other : (j : ℕ) → lookup j b.original_accounts ≡ none → (a == j) ≡ false
    other j e = elim (Bool-cases (a == j)) [
      | inl same ↦ absurd (ground (arith, kept, ==_iff a j, e))
      | inr n ↦ n
    ]

    put_account-IsTracked : (x : TrieAccount) → IsTracked d root (put_account tries a x b)
    unfolding put_account
    put_account-IsTracked x = record {
      committed = t.committed;
      base = t.base;
      originals = t.originals;
      same = λ j e. ground (arith, t.same j e, lookup-insert a j x b.tables.accounts, other j e);
      untouched = λ j e. ground (
        arith,
        t.untouched j e,
        contains-add_to_set j a b.touched_accounts,
        other j e,
        ==_iff a j,
        ==_iff j a,
      );
      change_sets = t.change_sets;
    }

    drop_account-IsTracked : IsTracked d root (drop_account tries a b)
    unfolding drop_account
    drop_account-IsTracked = record {
      committed = t.committed;
      base = t.base;
      originals = t.originals;
      same = λ j e. ground (arith, t.same j e, lookup-remove a j b.tables.accounts, other j e);
      untouched = λ j e. ground (
        arith,
        t.untouched j e,
        contains-add_to_set j a b.touched_accounts,
        other j e,
        ==_iff a j,
        ==_iff j a,
      );
      change_sets = t.change_sets;
    }

  update_account-IsTracked :
      (a : ℕ) (x : TrieAccount) (b : BatchWriter)
      → IsTracked d root b
      → IsTracked d root (update_account tries a x b)
  unfolding update_account
  update_account-IsTracked a x b t =
      let (t', kept) = keep_account-IsTracked a b t in
      put_account-IsTracked a (keep_account tries a b) t' kept x

  touch_owner-IsTracked :
      (a : ℕ) (b : BatchWriter) → IsTracked d root b → IsTracked d root (touch_owner tries a b)
  unfolding touch_owner
  touch_owner-IsTracked a b t = elim (Bool-cases (contains a b.touched_accounts)) [
    | inl e ↦ rw (touch_owner, e) t
    | inr e ↦ rw (touch_owner, e) (update_account-IsTracked a _ b t)
  ]

  keep_slot-IsTracked :
      (a s : ℕ) (b : BatchWriter) → IsTracked d root b → IsTracked d root (keep_slot tries a s b)
  unfolding keep_slot
  keep_slot-IsTracked a s b t = elim (Bool-cases (is_some (lookup2 (a, s) b.original_storages))) [
    | inl e ↦ rw (keep_slot, e) t
    | inr e ↦
        rw (keep_slot, e)
          (record {
            committed = t.committed;
            base = t.base;
            originals = t.originals;
            same = t.same;
            untouched = t.untouched;
            change_sets = t.change_sets;
          })
  ]

  put_slot-IsTracked :
      (a s value : ℕ) (b : BatchWriter)
      → IsTracked d root b
      → IsTracked d root (put_slot tries a s value b)
  unfolding put_slot write_slot
  put_slot-IsTracked a s value b t = record {
    committed = t.committed;
    base = t.base;
    originals = t.originals;
    same = t.same;
    untouched = t.untouched;
    change_sets = t.change_sets;
  }

  apply-IsTracked :
      (w : Write) (b : BatchWriter) → IsTracked d root b → IsTracked d root (apply tries w b)
  unfolding apply remove_account update_storage reset_storage
  apply-IsTracked (set_account a x) b t = update_account-IsTracked a x b t
  apply-IsTracked (delete_account a) b t =
      let (t', kept) = keep_account-IsTracked a b t in
      drop_account-IsTracked a (keep_account tries a b) t' kept
  apply-IsTracked (set_slot a s value) b t =
      touch_owner-IsTracked a _ (put_slot-IsTracked a s value _ (keep_slot-IsTracked a s b t))
  apply-IsTracked (empty_storage a) b t = record {
    committed = t.committed;
    base = t.base;
    originals = t.originals;
    same = t.same;
    untouched = t.untouched;
    change_sets = t.change_sets;
  }

  apply_all-IsTracked :
      (ws : List Write) (b : BatchWriter)
      → IsTracked d root b
      → IsTracked d root (apply_all tries ws b)
  unfolding apply_all
  apply_all-IsTracked [] b t = t
  apply_all-IsTracked (w ∷ ws) b t =
      apply_all-IsTracked ws (apply tries w b) (apply-IsTracked w b t)

start-IsTracked : (d : Database) (root : Option ℕ) → IsTracked d root (start d root)
unfolding start new set_base_state_root lookup
start-IsTracked d none = record {
  committed = refl;
  base = refl;
  originals = tt;
  same = λ a e. refl;
  untouched = λ a e. refl;
  change_sets = refl;
}
start-IsTracked d (some root) = record {
  committed = refl;
  base = refl;
  originals = tt;
  same = λ a e. refl;
  untouched = λ a e. refl;
  change_sets = refl;
}

pub batch-IsTracked :
    (tries : Tries) (d : Database) (root : Option ℕ) (ws : List Write)
    → IsCurrent tries root d
    → IsTracked d root (apply_all tries ws (start d root))
batch-IsTracked tries d root ws current =
    apply_all-IsTracked tries d root current ws (start d root) (start-IsTracked d root)
