-- ===== src/Engine/Descendants/Rounds.antt =====
-- payload_processor.rs, `invalidate_descendants`: what one round and the removals change.
use wasm_based_evm.Prelude.{
  ℕ, ◌+◌, ◌≤◌, ◌==◌, ◌||◌, ◌≡◌, refl, ap, ◌∙◌, true, false, none, some, List, [], ◌∷◌, ◌++◌, length,
  Assoc, lookup, remove, lookup-insert, lookup-remove, unwrap_or, if◌then◌else◌, ◌⊎◌, inl, inr,
  Bool-cases, arith,
}
use wasm_based_evm.Chain.Tree.{
  BlockTree, hard, get_children, mark_invalid, remove_children, remove_block, get_block,
  get_invalidation_reason,
}
use wasm_based_evm.Chain.Status.{member}
use wasm_based_evm.Engine.Descendants.{invalidate_children, push_all, remove_blocks, count_children}

pub member-append : (x : ℕ) (xs ys : List ℕ) → member x (xs ++ ys) ≡ member x xs || member x ys
member-append x [] ys = refl
member-append x (y ∷ xs) ys = ground (arith, member-append x xs ys)

pub member-push_all :
    (x : ℕ) (cs stack : List ℕ) → member x (push_all cs stack) ≡ member x cs || member x stack
unfolding push_all
member-push_all x [] stack = refl
member-push_all x (c ∷ cs) stack = ground (arith, member-push_all x cs (c ∷ stack))

length-push_all : (cs stack : List ℕ) → length (push_all cs stack) ≡ length cs + length stack
unfolding push_all
length-push_all [] stack = omega arith
length-push_all (c ∷ cs) stack = omega (arith, length-push_all cs (c ∷ stack))

count_children-remove :
    (p : ℕ) (m : Assoc (List ℕ))
    → length (unwrap_or (lookup p m) []) + count_children (remove p m) ≤ count_children m
unfolding lookup remove
count_children-remove p [] = omega arith
count_children-remove p ((q, l) ∷ m) = elim (Bool-cases (q == p)) [
  | inl same ↦ rw same (omega (arith, count_children-remove p m))
  | inr other ↦ rw other (omega (arith, count_children-remove p m))
]

children-invalidate_children :
    (p : ℕ) (cs : List ℕ) (t : BlockTree) → (invalidate_children p cs t).children ≡ t.children
unfolding invalidate_children mark_invalid
children-invalidate_children p [] t = refl
children-invalidate_children p (c ∷ cs) t =
    children-invalidate_children p cs (mark_invalid c p hard t)

get_invalidation_reason-mark_invalid :
    (x c p : ℕ) (t : BlockTree)
    → get_invalidation_reason x (mark_invalid c p hard t)
      ≡ (if c == x then some hard else get_invalidation_reason x t)
unfolding get_invalidation_reason mark_invalid
get_invalidation_reason-mark_invalid x c p t = elim (Bool-cases (c == x)) [
  | inl same ↦ rw (lookup-insert, same) refl
  | inr other ↦ rw (lookup-insert, other) refl
]

-- The children are hard invalid, and what was hard invalid stays so.
pub invalidate_children-hard :
    (p : ℕ) (cs : List ℕ) (t : BlockTree) (x : ℕ)
    → (member x cs ≡ true) ⊎ (get_invalidation_reason x t ≡ some hard)
    → get_invalidation_reason x (invalidate_children p cs t) ≡ some hard
unfolding invalidate_children
invalidate_children-hard p [] t x (inl e) = absurd (ground arith)
invalidate_children-hard p [] t x (inr e) = e
invalidate_children-hard p (c ∷ cs) t x h =
    invalidate_children-hard p cs (mark_invalid c p hard t) x (next h)
  where
    next :
        (member x (c ∷ cs) ≡ true) ⊎ (get_invalidation_reason x t ≡ some hard)
        → (member x cs ≡ true) ⊎ (get_invalidation_reason x (mark_invalid c p hard t) ≡ some hard)
    next h = elim (Bool-cases (c == x)) [
      | inl same ↦ inr (rw (get_invalidation_reason-mark_invalid x c p t, same) refl)
      | inr other ↦ rest other h
    ]
      where
        rest :
            (c == x) ≡ false
            → (member x (c ∷ cs) ≡ true) ⊎ (get_invalidation_reason x t ≡ some hard)
            → (member x cs ≡ true)
              ⊎ (get_invalidation_reason x (mark_invalid c p hard t) ≡ some hard)
        rest other (inl e) = inl (rw other at e)
        rest other (inr e) = inr (rw (get_invalidation_reason-mark_invalid x c p t, other) e)

-- The children after a round: those of the parent are gone.
pub get_children-round :
    (p q : ℕ) (t : BlockTree)
    → get_children q (invalidate_children p (get_children p t) (remove_children p t).0)
      ≡ (if p == q then [] else get_children q t)
unfolding get_children remove_children
get_children-round p q t =
    ap (λ m. unwrap_or (lookup q m) [])
      (children-invalidate_children p (get_children p t) (remove_children p t).0)
    ∙ go
  where
    go :
        unwrap_or (lookup q (remove p t.children)) []
        ≡ (if p == q then [] else unwrap_or (lookup q t.children) [])
    go = elim (Bool-cases (p == q)) [
      | inl same ↦ rw (lookup-remove, same) refl
      | inr other ↦ rw (lookup-remove, other) refl
    ]

-- A round takes one off the measure.
pub round_smaller :
    (p : ℕ) (stack : List ℕ) (t : BlockTree)
    → length (push_all (get_children p t) stack)
        + count_children (invalidate_children p (get_children p t) (remove_children p t).0).children
      ≤ length stack + count_children t.children
unfolding get_children remove_children
round_smaller p stack t =
    let cs = unwrap_or (lookup p t.children) [] in
    let left = ap count_children (children-invalidate_children p cs (remove_children p t).0) in
    omega (arith, left, length-push_all cs stack, count_children-remove p t.children)

get_block-remove_block :
    (y x : ℕ) (t : BlockTree)
    → get_block x (remove_block y t).0 ≡ (if y == x then none else get_block x t)
unfolding get_block remove_block
get_block-remove_block y x t = lookup-remove y x t.blocks

pub get_invalidation_reason-remove_children :
    (p x : ℕ) (t : BlockTree)
    → get_invalidation_reason x (remove_children p t).0 ≡ get_invalidation_reason x t
unfolding get_invalidation_reason remove_children
get_invalidation_reason-remove_children p x t = refl

pub get_block-remove_blocks :
    (l : List ℕ) (t : BlockTree) (x : ℕ)
    → (member x l ≡ true) ⊎ (get_block x t ≡ none)
    → get_block x (remove_blocks l t) ≡ none
unfolding remove_blocks
get_block-remove_blocks [] t x (inl e) = absurd (ground arith)
get_block-remove_blocks [] t x (inr e) = e
get_block-remove_blocks (y ∷ l) t x h =
    get_block-remove_blocks l (remove_block y t).0 x (elim (Bool-cases (y == x)) [
      | inl same ↦ inr (get_block-remove_block y x t ∙ rw same refl)
      | inr other ↦ elim h [
        | inl e ↦ inl (rw other at e)
        | inr gone ↦ inr (get_block-remove_block y x t ∙ rw other gone)
      ]
    ])

pub get_invalidation_reason-remove_blocks :
    (l : List ℕ) (t : BlockTree) (x : ℕ)
    → get_invalidation_reason x (remove_blocks l t) ≡ get_invalidation_reason x t
unfolding remove_blocks get_invalidation_reason remove_block
get_invalidation_reason-remove_blocks [] t x = refl
get_invalidation_reason-remove_blocks (y ∷ l) t x =
    get_invalidation_reason-remove_blocks l (remove_block y t).0 x
