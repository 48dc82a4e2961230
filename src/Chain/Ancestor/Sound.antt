-- ===== src/Chain/Ancestor/Sound.antt =====
-- `is_ancestor` answers true only for blocks that the parent links reach.
use wasm_based_evm.Prelude.{
  ℕ, zero, suc, ◌≤◌, Bool, true, false, Option, none, some, ◌==◌, ltb, ◌⊎◌, inl, inr, ◌≡◌, refl,
  sym, ap, ◌∙◌, arith, Bool-cases, Option-cases, ==_iff, ok, err, panic, ◌>>=◌,
}
use mathlib.Core.Option.{some-injective}
use wasm_based_evm.Chain.Storage.{Storage, Read, present, is_canonical, canonical_at, is_true}
use wasm_based_evm.Chain.Tree.{BlockTree}
use wasm_based_evm.Chain.Ancestor.{
  number_of, parent_info, early_answer, answer_at, turn, walk, walk_from, is_ancestor, go_on,
  both_canonical, Reaches, here, up,
}

-- A canonical block has a number at which the index holds it.
pub canonical-read :
    (s : Storage) (c : ℕ)
    → is_true (is_canonical s c) ≡ true
    → (n : ℕ) × (present (s.block_number c) ≡ some n) × (present (s.block_hash n) ≡ some c)
unfolding is_canonical
canonical-read s c e = number (s.block_number c) e
  where
    hash :
        (r : Read ℕ)
        → is_true (r >>= λ found. elim found [ none ↦ ok false | some h ↦ ok (h == c) ]) ≡ true
        → present r ≡ some c
    hash (ok (some h)) e = ground (arith, ==_iff h c)
    hash (ok none) e = cc
    hash (err x) e = cc
    hash panic e = cc

    number :
        (r : Read ℕ)
        → is_true (r >>= canonical_at s c) ≡ true
        → (n : ℕ) × (present r ≡ some n) × (present (s.block_hash n) ≡ some c)
    number (ok (some n)) e = (n, refl, hash (s.block_hash n) e)
    number (ok none) e = cc
    number (err x) e = cc
    number panic e = cc

module _ (s : Storage) (tree : BlockTree) where
  -- What the database keeps: the blocks of the canonical index are linked by their parents, and a
  -- header's number is one above the number that the index has for its parent.
  pub record IsConsistent : Type 0 where
    pub canonical_reaches :
        (c n t h : ℕ)
        → present (s.block_number c) ≡ some n
        → present (s.block_hash n) ≡ some c
        → t ≤ n
        → present (s.block_hash t) ≡ some h
        → Reaches s tree c h
    pub parent_number :
        (c p n m : ℕ)
        → parent_info s tree c ≡ some (p, n)
        → present (s.block_number p) ≡ some m
        → n ≤ m

  -- The number at hand is not above the index's.
  abbrev IsLow : ℕ → Option ℕ → Type 0
  IsLow current c = (m k : ℕ) → present (s.block_number current) ≡ some m → c ≡ some k → k ≤ m

  answer_at-Reaches :
      IsConsistent
      → (target current : ℕ) (t c : Option ℕ) → IsLow current c
      → answer_at s tree target t current c ≡ some true
      → Reaches s tree current target
  unfolding answer_at
  answer_at-Reaches v target current (some t) (some c) low e = elim (Bool-cases (ltb c t)) [
    | inl below ↦ absurd (ground (arith, rw below at e))
    | inr above ↦ elim (Bool-cases (is_true (is_canonical s current))) [
      | inr side ↦ absurd (ground (arith, rw (above, side) at e))
      | inl main ↦ elim (Option-cases (present (s.block_hash t))) [
        | inl lost ↦ absurd (ground (arith, rw (above, main, lost) at e))
        | inr (h, at_t) ↦
            let (n, at_n, back) = canonical-read s current main in
            let same : h ≡ target =
              (==_iff h target).0 (some-injective _ _ (rw (above, main, at_t) at e)) in
            let small : t ≤ n = ground (arith, low n c at_n refl) in
            v.canonical_reaches current n t target at_n back small (rw at_t (rw same))
      ]
    ]
  ]
  answer_at-Reaches v target current (some t) none low e = absurd (ground arith)
  answer_at-Reaches v target current none c low e = absurd (ground arith)

  -- The two ways in which a turn leads to the target.
  turn-Reaches :
      IsConsistent
      → (target current : ℕ) (t c : Option ℕ) → IsLow current c
      → turn s tree target t current c ≡ inl true
      → Reaches s tree current target
  unfolding turn
  turn-Reaches v target current t c low e = elim (Bool-cases (current == target)) [
    | inl same ↦ rw (sym ((==_iff current target).0 same)) here
    | inr other ↦ elim (Bool-cases (current == 0)) [
      | inl end ↦ absurd (ground (arith, rw (other, end) at e))
      | inr more ↦ answer_at-Reaches v target current t c low (answered _ _ (rw (other, more) at e))
    ]
  ]
    where
      answered : (a : Option Bool) (p : Option (ℕ × ℕ)) → go_on a p ≡ inl true → a ≡ some true
      answered (some b) p e = cc
      answered none none e = absurd (ground arith)
      answered none (some p) e = absurd (ground arith)

  turn-parent :
      (target current : ℕ) (t c : Option ℕ) (p : ℕ × ℕ)
      → turn s tree target t current c ≡ inr p
      → parent_info s tree current ≡ some p
  unfolding turn
  turn-parent target current t c p e = elim (Bool-cases (current == target)) [
    | inl same ↦ absurd (ground (arith, rw same at e))
    | inr other ↦ elim (Bool-cases (current == 0)) [
      | inl end ↦ absurd (ground (arith, rw (other, end) at e))
      | inr more ↦ went_on _ _ (rw (other, more) at e)
    ]
  ]
    where
      went_on : (a : Option Bool) (q : Option (ℕ × ℕ)) → go_on a q ≡ inr p → q ≡ some p
      went_on (some b) q e = absurd (ground arith)
      went_on none none e = absurd (ground arith)
      went_on none (some q) e = cc

  walk-Reaches :
      IsConsistent
      → (left target : ℕ) (t : Option ℕ) (current : ℕ) (c : Option ℕ) → IsLow current c
      → walk s tree left target t current c ≡ true
      → Reaches s tree current target
  unfolding walk
  walk-Reaches v zero target t current c low e = absurd (ground arith)
  walk-Reaches v (suc left) target t current c low e =
      go
        (λ p n linked. walk-Reaches v left target t p (some n) (λ m k at_m same.
          rw (sym (some-injective n k same)) (v.parent_number current p n m linked at_m)))
        (turn s tree target t current c) refl e
    where
      go :
          ((p n : ℕ)
            → parent_info s tree current ≡ some (p, n)
            → walk s tree left target t p (some n) ≡ true
            → Reaches s tree p target)
          → (r : Bool ⊎ (ℕ × ℕ)) → turn s tree target t current c ≡ r
          → (elim r [
            | inl answer ↦ answer
            | inr (parent, number) ↦ walk s tree left target t parent (some number)
          ])
            ≡ true
          → Reaches s tree current target
      go rest (inl b) turned e = turn-Reaches v target current t c low (turned ∙ ap inl e)
      go rest (inr (p, n)) turned e =
          let linked = turn-parent target current t c (p, n) turned in up linked (rest p n linked e)

  -- The number at hand is the index's, where that has one.
  abbrev IsExact : ℕ → Option ℕ → Type 0
  IsExact current c = (m k : ℕ) → present (s.block_number current) ≡ some m → c ≡ some k → m ≡ k

  number_of-IsExact : (head : ℕ) → IsExact head (number_of s tree head)
  unfolding number_of
  number_of-IsExact head m k at_m same = some-injective m k (rw at_m at same)

  early-Reaches :
      IsConsistent
      → (head target : ℕ) (h t : Option ℕ) → IsExact head h
      → IsExact target t
      → early_answer s tree head target h t ≡ some true
      → Reaches s tree head target
  unfolding early_answer
  early-Reaches v head target (some h) (some t) low exact e = elim (Bool-cases (ltb h t)) [
    | inl above ↦ absurd (ground (arith, rw above at e))
    | inr below ↦
        both (is_true (is_canonical s target)) (is_true (is_canonical s head)) refl refl
          (rw below at e)
  ]
    where
      both :
          (a b : Bool)
          → is_true (is_canonical s target) ≡ a
          → is_true (is_canonical s head) ≡ b
          → both_canonical a b h t ≡ some true
          → Reaches s tree head target
      both true true main_t main_h e =
          let (n, at_n, back) = canonical-read s head main_h in
          let (k, at_k, back_k) = canonical-read s target main_t in
          let same : k ≡ t = exact k t at_k refl in
          let small : t ≤ n = ground (arith, low n h at_n refl) in
          v.canonical_reaches head n t target at_n back small (rw same at back_k)
      both true false main_t main_h e = absurd (ground arith)
      both false b main_t main_h e = absurd (ground arith)
  early-Reaches v head target (some h) none low exact e = absurd (ground arith)
  early-Reaches v head target none t low exact e = absurd (ground arith)

-- If the canonical blocks are linked by their parents and the numbers of headers agree with the
-- index, then `is_ancestor` answers true only if the target is the zero hash or the parent links
-- (of headers, payloads, and blocks of the tree) lead from the head to it.
pub is_ancestor-Reaches :
    (s : Storage) (tree : BlockTree) (head target : ℕ)
    → IsConsistent s tree
    → is_ancestor s tree head target ≡ true
    → (target ≡ 0) ⊎ Reaches s tree head target
unfolding is_ancestor walk_from
is_ancestor-Reaches s tree head target v e = elim (Bool-cases (head == target)) [
  | inl same ↦ inr (rw (sym ((==_iff head target).0 same)) here)
  | inr other ↦ elim (Bool-cases (target == 0)) [
    | inl nowhere ↦ inl ((==_iff target 0).0 nowhere)
    | inr real ↦ inr (
        go (early_answer s tree head target (number_of s tree head) (number_of s tree target)) refl
          (rw (other, real) at e))
  ]
]
  where
    go :
        (a : Option Bool)
        → early_answer s tree head target (number_of s tree head) (number_of s tree target) ≡ a
        → walk_from s tree a head target ≡ true
        → Reaches s tree head target
    go none early e =
        walk-Reaches s tree v 2048 target _ head _
          (λ m k at_m same. ground (arith, number_of-IsExact s tree head m k at_m same)) e
    go (some b) early e =
        early-Reaches s tree v head target _ _ (number_of-IsExact s tree head)
          (number_of-IsExact s tree target) (early ∙ ap some e)
