-- ===== src/Engine/Descendants/Complete.antt =====
-- payload_processor.rs, `invalidate_descendants`: every block on the invalid one is marked.
use wasm_based_evm.Prelude.{
  ℕ, zero, suc, ◌+◌, ◌≤◌, ◌==◌, ◌||◌, ◌≡◌, refl, sym, ap, ◌∙◌, Bool, true, false, none, some, List,
  [], ◌∷◌, ◌++◌, length, ◌⊎◌, inl, inr, Bool-cases, arith,
}
use mathlib.Core.Path.{subst}
use mathlib.Core.Option
use wasm_based_evm.Chain.Tree.{
  BlockTree, hard, get_children, remove_children, get_block, get_invalidation_reason,
}
use wasm_based_evm.Chain.Status.{member}
use wasm_based_evm.Engine.Descendants.{
  invalidate_children, push_all, descend, remove_blocks, count_children, invalidate_descendants,
}
use wasm_based_evm.Engine.Descendants.Rounds.{
  member-append, member-push_all, invalidate_children-hard, get_children-round, round_smaller,
  get_invalidation_reason-remove_children, get_block-remove_blocks,
  get_invalidation_reason-remove_blocks,
}

-- A block that stands on another in the tree, at any distance.
pub data Descends (t : BlockTree) (h : ℕ) : ℕ → Type 0 where
  child : {x : ℕ} → member x (get_children h t) ≡ true → Descends t h x
  further : (p : ℕ) {x : ℕ} → Descends t h p → member x (get_children p t) ≡ true → Descends t h x

-- The state of the loop over the tree `t0` from the block `h`: a block met is on the stack or its
-- children are met, no child is lost, and what is met is hard invalid.
record IsUnderWay (t0 : BlockTree) (h : ℕ) (stack met : List ℕ) (t : BlockTree) : Type 0 where
  open_or_done :
      (p : ℕ)
      → (p ≡ h) ⊎ (member p met ≡ true)
      → (member p stack ≡ true)
        ⊎ ((c : ℕ) → member c (get_children p t0) ≡ true → member c met ≡ true)
  kept :
      (p c : ℕ)
      → member c (get_children p t0) ≡ true
      → (member c (get_children p t) ≡ true) ⊎ (member c met ≡ true)
  marked : (x : ℕ) → member x met ≡ true → get_invalidation_reason x t ≡ some hard

either : (a b : Bool) → (a || b) ≡ true → (a ≡ true) ⊎ (b ≡ true)
either true b e = inl refl
either false b e = inr e

left : (a b : Bool) → a ≡ true → (a || b) ≡ true
left a b e = rw e refl

right : (a b : Bool) → b ≡ true → (a || b) ≡ true
right true b e = refl
right false b e = e

module _ (t0 : BlockTree) (h : ℕ) where
  round-IsUnderWay :
      (p : ℕ) (stack met : List ℕ) (t : BlockTree)
      → IsUnderWay t0 h (p ∷ stack) met t
      → IsUnderWay t0 h
          (push_all (get_children p t) stack)
          (met ++ get_children p t)
          (invalidate_children p (get_children p t) (remove_children p t).0)
  round-IsUnderWay p stack met t w = record {
    open_or_done = λ q seen. elim seen [
      | inl is_h ↦ after q (w.open_or_done q (inl is_h))
      | inr in_met ↦
          elim (either (member q met) (member q cs) (sym (member-append q met cs) ∙ in_met)) [
            | inl old ↦ after q (w.open_or_done q (inr old))
            | inr new ↦ inl (member-push_all q cs stack ∙ left (member q cs) (member q stack) new)
          ]
    ];
    kept = λ q c e. elim (w.kept q c e) [
      | inr old ↦ inr (still c old)
      | inl here ↦ elim (Bool-cases (p == q)) [
        | inl same ↦ inr (
            added c
              (subst (λ k. member c (get_children k t) ≡ true) (sym (ground (arith, same))) here))
        | inr other ↦ inl (rw (get_children-round p q t, other) here)
      ]
    ];
    marked = λ x e.
        invalidate_children-hard p cs (remove_children p t).0 x
          (elim (either (member x met) (member x cs) (sym (member-append x met cs) ∙ e)) [
            | inl old ↦ inr (get_invalidation_reason-remove_children p x t ∙ w.marked x old)
            | inr new ↦ inl new
          ]);
  }
    where
      cs : List ℕ
      cs = get_children p t

      still : (c : ℕ) → member c met ≡ true → member c (met ++ cs) ≡ true
      still c e = member-append c met cs ∙ left (member c met) (member c cs) e

      added : (c : ℕ) → member c cs ≡ true → member c (met ++ cs) ≡ true
      added c e = member-append c met cs ∙ right (member c met) (member c cs) e

      -- The parent's children are met now.
      after :
          (q : ℕ)
          → (member q (p ∷ stack) ≡ true)
            ⊎ ((c : ℕ) → member c (get_children q t0) ≡ true → member c met ≡ true)
          → (member q (push_all cs stack) ≡ true)
            ⊎ ((c : ℕ) → member c (get_children q t0) ≡ true → member c (met ++ cs) ≡ true)
      after q (inr done) = inr (λ c e. still c (done c e))
      after q (inl on) = elim (Bool-cases (p == q)) [
        | inl same ↦ inr (λ c e. elim (w.kept q c e) [
          | inr old ↦ still c old
          | inl here ↦
              added c
                (subst (λ k. member c (get_children k t) ≡ true) (sym (ground (arith, same))) here)
        ])
        | inr other ↦
            inl (member-push_all q cs stack ∙ right (member q cs) (member q stack) (rw other at on))
      ]

  descend_ends :
      (fuel : ℕ) (stack met : List ℕ) (t : BlockTree)
      → IsUnderWay t0 h stack met t
      → length stack + count_children t.children ≤ fuel
      → (r : List ℕ × BlockTree) × (descend fuel stack met t ≡ some r) × IsUnderWay t0 h [] r.0 r.1
  unfolding descend remove_children get_children
  descend_ends fuel [] met t w enough = ((met, t), refl, w)
  descend_ends zero (p ∷ stack) met t w enough = absurd (omega (arith, enough))
  descend_ends (suc fuel) (p ∷ stack) met t w enough =
      descend_ends fuel _ _ _ (round-IsUnderWay p stack met t w)
        (omega (arith, enough, round_smaller p stack t))

  -- All that descends from the block is met when the stack is empty.
  met_all :
      (met : List ℕ) (t : BlockTree)
      → IsUnderWay t0 h [] met t
      → (x : ℕ) → Descends t0 h x
      → member x met ≡ true
  met_all met t w x (child e) = elim (w.open_or_done h (inl refl)) [
    | inl on ↦ absurd (ground (arith, on))
    | inr done ↦ done x e
  ]
  met_all met t w x (further p d e) = elim (w.open_or_done p (inr (met_all met t w p d))) [
    | inl on ↦ absurd (ground (arith, on))
    | inr done ↦ done x e
  ]

start-IsUnderWay : (h : ℕ) (t : BlockTree) → IsUnderWay t h (h ∷ []) [] t
start-IsUnderWay h t = record {
  open_or_done = λ p seen. elim seen [
    | inl is_h ↦ inl (ground (arith, is_h))
    | inr e ↦ absurd (ground (arith, e))
  ];
  kept = λ p c e. inl e;
  marked = λ x e. absurd (ground (arith, e));
}

-- The descent from an invalid block ends, also in a tree with cycles, and leaves every block that
-- descends from it, through any number of children, hard invalid and removed from the tree.
pub invalidate_descendants_complete :
    (hash : ℕ) (t : BlockTree)
    → (t' : BlockTree) × (invalidate_descendants hash t ≡ some t')
      × ((x : ℕ)
          → Descends t hash x
          → (get_invalidation_reason x t' ≡ some hard) × (get_block x t' ≡ none))
unfolding invalidate_descendants
invalidate_descendants_complete hash t =
    let (r, found, w) =
      descend_ends t hash (1 + count_children t.children) (hash ∷ []) [] t (start-IsUnderWay hash t)
        (omega arith) in
    (
      remove_blocks r.0 r.1,
      ap (Option.map (λ r. remove_blocks r.0 r.1)) found,
      λ x d.
          let met = met_all t hash r.0 r.1 w x d in
          (
            get_invalidation_reason-remove_blocks r.0 r.1 x ∙ w.marked x met,
            get_block-remove_blocks r.0 r.1 x (inl met),
          ),
    )
