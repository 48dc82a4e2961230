-- ===== src/Chain/Revert/Cleared.antt =====
-- reorg_manager.rs, `revert_to_height`: the canonical chain and the head after it.
use wasm_based_evm.Prelude.{
  ℕ, zero, suc, ◌+◌, ◌-◌, ◌<◌, ◌≤◌, ◌==◌, ◌&&◌, ◌≡◌, refl, sym, ap, ◌∙◌, Bool, true, false, Option,
  none, some, List, [], ◌∷◌, Assoc, lookup, remove, lookup-remove, unwrap_or, inl, inr, Bool-cases,
  Option-cases, ==_iff, arith,
}
use wasm_based_evm.Chain.Canonical.{CanonicalState, update_head, get_head, store}
use wasm_based_evm.Database.{
  Bytes, TrieAccount, Writer, update_account, remove_account, update_plain_state,
  remove_plain_state, on_db, clear_tracking,
}
use wasm_based_evm.Chain.Revert.Frame.{finish_block-IsFinished}
use wasm_based_evm.Chain.Revert.{
  RevertError, Step, and_then, finish_block, restore_account, restore_accounts, revert_block,
  revert_loop, after_head, set_head, end_revert, revert_to_height,
}

-- A head that is updated is the head.
update_head-get_head :
    (writes : Bool) (hash number : ℕ) (c : CanonicalState)
    → (update_head writes hash number c).1 ≡ true
    → get_head (update_head writes hash number c).0 ≡ (hash, number)
unfolding update_head get_head store
update_head-get_head writes hash number c e =
    elim (Bool-cases ((c.state.head_block_hash == hash) && (c.number == number))) [
      | inl same ↦ rw same (ap2 (ground (arith, same)) (ground (arith, same)))
      | inr other ↦ rw other (stored writes (rw other at e))
    ]
  where
    ap2 : {a b x y : ℕ} → a ≡ b → x ≡ y → ◌≡◌ {A = ℕ × ℕ} (a, x) (b, y)
    ap2 p q = cc

    stored :
        (w : Bool)
        → (store w (record c.state { head_block_hash = hash }) number c).1 ≡ true
        → get_head (store w (record c.state { head_block_hash = hash }) number c).0 ≡ (hash, number)
    stored true h = refl
    stored false h = absurd (ground arith)

module _ (decode : Bytes → Option TrieAccount) where
  restore_accounts-heads :
      (l : List (ℕ × Option Bytes)) (w : Writer)
      → (restore_accounts decode l w).0.db.canonical_heads ≡ w.db.canonical_heads
  unfolding restore_accounts restore_account update_account remove_account update_plain_state
      remove_plain_state
  restore_accounts-heads [] w = refl
  restore_accounts-heads ((a, none) ∷ l) w =
      restore_accounts-heads l (on_db (remove_plain_state a) (remove_account a w))
  restore_accounts-heads ((a, some state) ∷ l) w = elim (Option-cases (decode state)) [
    | inl e ↦ rw (e, restore_account) refl
    | inr (x, e) ↦
        rw (e, restore_account)
          (restore_accounts-heads l (on_db (update_plain_state a state) (update_account a x w)))
  ]

  finished-heads :
      (h : ℕ) (s : Step) (w' : Writer)
      → and_then s (λ v. (finish_block h v, none)) ≡ (w', none)
      → w'.db.canonical_heads ≡ remove h s.0.db.canonical_heads
  finished-heads h (v, none) w' e =
      sym (ap (λ r. r.0.db.canonical_heads) e) ∙ (finish_block-IsFinished h v).heads
  finished-heads h (v, some x) w' e = absurd (ground (arith, ap (λ r. r.1) e))

  revert_block-heads :
      (h : ℕ) (w w' : Writer)
      → revert_block decode h w ≡ (w', none)
      → w'.db.canonical_heads ≡ remove h w.db.canonical_heads
  unfolding revert_block
  revert_block-heads h w w' e =
      let changes = unwrap_or (lookup h w.db.account_change_sets) [] in
      finished-heads h (restore_accounts decode changes w) w' e
      ∙ ap (remove h) (restore_accounts-heads changes w)

  -- The canonical entries of the heights above `height`, up to `height + n`, are gone.
  pub record IsCut (height n : ℕ) (before after : Assoc ℕ) : Type 0 where
    pub below : (h : ℕ) → h ≤ height → lookup h after ≡ lookup h before
    pub cut : (h : ℕ) → height < h → h ≤ height + n → lookup h after ≡ none
    pub beyond : (h : ℕ) → height + n < h → lookup h after ≡ lookup h before

  -- A round takes away one more height.
  IsCut-more :
      (height n : ℕ) (m before after : Assoc ℕ)
      → before ≡ remove (height + suc n) m
      → IsCut height n before after
      → IsCut height (suc n) m after
  IsCut-more height n m before after e c = record {
    below = λ h l.
        c.below h l
        ∙ ap (λ x. lookup h x) e
        ∙ ground (arith, l, lookup-remove (height + suc n) h m, ==_iff (height + suc n) h);
    cut = λ h l g. elim (Bool-cases ((height + suc n) == h)) [
      | inl last ↦
          c.beyond h (ground (arith, last))
          ∙ ap (λ x. lookup h x) e
          ∙ ground (arith, last, lookup-remove (height + suc n) h m)
      | inr other ↦ c.cut h l (ground (arith, g, other))
    ];
    beyond = λ h l.
        c.beyond h (omega (arith, l))
        ∙ ap (λ x. lookup h x) e
        ∙ ground (arith, l, lookup-remove (height + suc n) h m, ==_iff (height + suc n) h);
  }

  IsCut-step :
      (n height : ℕ) (w w' : Writer) (s : Step)
      → ((v : Writer)
          → revert_loop decode n height v ≡ (w', none)
          → IsCut height n v.db.canonical_heads w'.db.canonical_heads)
      → revert_block decode (height + suc n) w ≡ s
      → and_then s (revert_loop decode n height) ≡ (w', none)
      → IsCut height (suc n) w.db.canonical_heads w'.db.canonical_heads
  IsCut-step n height w w' (v, some x) rest eq f = absurd (ground (arith, ap (λ r. r.1) f))
  IsCut-step n height w w' (v, none) rest eq f =
      IsCut-more height n w.db.canonical_heads v.db.canonical_heads w'.db.canonical_heads
        (revert_block-heads (height + suc n) w v eq) (rest v f)

  revert_loop-IsCut :
      (n height : ℕ) (w w' : Writer)
      → revert_loop decode n height w ≡ (w', none)
      → IsCut height n w.db.canonical_heads w'.db.canonical_heads
  unfolding revert_loop
  revert_loop-IsCut zero height w w' e =
      let same = ap (λ r. r.0.db.canonical_heads) e in
      record {
        below = λ h l. ap (λ m. lookup h m) (sym same);
        cut = λ h l g. absurd (omega (arith, l, g));
        beyond = λ h l. ap (λ m. lookup h m) (sym same);
      }
  revert_loop-IsCut (suc n) height w w' e =
      IsCut-step n height w w' (revert_block decode (height + suc n) w)
        (λ v f. revert_loop-IsCut n height v w' f) refl e

  -- What a revert without an error gives.
  pub record IsReverted (height : ℕ) (w : Writer) (c : CanonicalState)
      (r : Writer × CanonicalState × Option RevertError) : Type 0 where
    pub hash : ℕ
    pub known : lookup height w.db.canonical_heads ≡ some hash
    pub head : get_head r.1 ≡ (hash, height)
    pub chain : IsCut height (c.number - height) w.db.canonical_heads r.0.db.canonical_heads

  after_head-IsReverted :
      (height hash : ℕ) (w v : Writer) (c : CanonicalState) (r : CanonicalState × Bool)
      → lookup height w.db.canonical_heads ≡ some hash
      → IsCut height (c.number - height) w.db.canonical_heads v.db.canonical_heads
      → (r.1 ≡ true → get_head r.0 ≡ (hash, height))
      → (after_head decode v r).2 ≡ none
      → IsReverted height w c (after_head decode v r)
  unfolding after_head clear_tracking
  after_head-IsReverted height hash w v c (d, true) k cut h e = record {
    hash = hash;
    known = k;
    head = h refl;
    chain = cut;
  }
  after_head-IsReverted height hash w v c (d, false) k cut h e = absurd (ground arith)

  set_head-IsReverted :
      (writes : Bool) (height : ℕ) (w v : Writer) (c : CanonicalState) (o : Option ℕ)
      → lookup height w.db.canonical_heads ≡ o
      → IsCut height (c.number - height) w.db.canonical_heads v.db.canonical_heads
      → (set_head decode writes height o v c).2 ≡ none
      → IsReverted height w c (set_head decode writes height o v c)
  unfolding set_head
  set_head-IsReverted writes height w v c none k cut e = absurd (ground arith)
  set_head-IsReverted writes height w v c (some hash) k cut e =
      after_head-IsReverted height hash w v c (update_head writes hash height c) k cut
        (update_head-get_head writes hash height c) e

  ended-IsReverted :
      (writes : Bool) (height : ℕ) (w : Writer) (c : CanonicalState) (s : Step)
      → revert_loop decode (c.number - height) height w ≡ s
      → (end_revert decode writes height s c).2 ≡ none
      → IsReverted height w c (end_revert decode writes height s c)
  unfolding end_revert
  ended-IsReverted writes height w c (v, some x) eq e = absurd (ground arith)
  ended-IsReverted writes height w c (v, none) eq e =
      let cut = revert_loop-IsCut (c.number - height) height w v eq in
      set_head-IsReverted writes height w v c (lookup height v.db.canonical_heads)
        (sym (cut.below height (omega arith))) cut e

-- A revert that ends without an error found a canonical block at its height. That block is the head,
-- the canonical entries above it up to the old head are gone, and the others are as before. So a
-- height without a canonical block is an error.
pub revert_to_height-IsReverted :
    (decode : Bytes → Option TrieAccount) (writes : Bool) (height : ℕ) (w : Writer)
    (c : CanonicalState)
    → (revert_to_height decode writes height w c).2 ≡ none
    → IsReverted decode height w c (revert_to_height decode writes height w c)
unfolding revert_to_height
revert_to_height-IsReverted decode writes height w c e =
    ended-IsReverted decode writes height w c _ refl e
