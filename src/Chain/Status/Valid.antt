-- ===== src/Chain/Status/Valid.antt =====
-- The latest valid ancestor that the chain manager reports is a valid block, and its walk ends
-- within its limit.
use wasm_based_evm.Prelude.{
  ℕ, zero, suc, ◌+◌, ◌-◌, ◌≤◌, ◌<◌, Bool, true, false, not, ◌||◌, ◌&&◌, Option, none, some, List,
  [], ◌∷◌, length, ◌==◌, ◌⊎◌, inl, inr, ◌≡◌, ◌≢◌, refl, ap, ◌∙◌, arith, Bool-cases, Option-cases,
  opt_eq-some, if◌then◌else◌, leb,
}
use mathlib.Core.Option.{some-injective}
use mathlib.Core.Path.{subst}
use wasm_based_evm.Chain.Storage.{Storage, present, is_canonical, is_true}
use wasm_based_evm.Chain.Tree.{BlockTree}
use wasm_based_evm.Chain.Canonical.{CanonicalState, get_head}
use wasm_based_evm.Chain.Ancestor.{is_ancestor}
use wasm_based_evm.Chain.Ancestor.Sound.{canonical-read}
use wasm_based_evm.Chain.Status.{
  is_invalid, has_block, is_genesis, is_stored, canonical_below, below, invalid_number, to_parent,
  back_step, within_limit, visit, member, settle, walk_back, get_latest_valid_ancestor,
  determine_payload_status, answer_or,
}

module _ (s : Storage) (tree : BlockTree) where
  -- A block that may be reported: none (the zero hash), one of the canonical index, or a block that
  -- is not known to be invalid.
  abbrev pub IsAcceptable : ℕ → Type 0
  IsAcceptable a =
      (a ≡ 0) ⊎ (((n : ℕ) × (present (s.block_hash n) ≡ some a)) ⊎ (is_invalid tree a ≡ false))

  canonical-IsAcceptable : (a : ℕ) → is_true (is_canonical s a) ≡ true → IsAcceptable a
  canonical-IsAcceptable a e = let (n, at_n, back) = canonical-read s a e in inr (inl (n, back))

  below-IsAcceptable :
      (current a : ℕ) (n : Option ℕ) → below s tree current n ≡ some a → IsAcceptable a
  below-IsAcceptable current a none e = cc
  below-IsAcceptable current a (some n) e = elim (Option-cases (present (s.block_hash (n - 1)))) [
    | inl lost ↦ absurd (ground (arith, rw lost at e))
    | inr (h, at_n) ↦ elim (Bool-cases (is_ancestor s tree current h)) [
      | inr apart ↦ absurd (ground (arith, rw (at_n, apart) at e))
      | inl linked ↦ inr (inl (n - 1, at_n ∙ ap some (some-injective h a (rw (at_n, linked) at e))))
    ]
  ]

  to_parent-IsAcceptable :
      (current a : ℕ) (p : Option ℕ) → to_parent s tree current p ≡ inl (some a) → IsAcceptable a
  to_parent-IsAcceptable current a none e = absurd (ground arith)
  to_parent-IsAcceptable current a (some p) e = elim (Bool-cases (p == current)) [
    | inl loop ↦ absurd (ground (arith, rw loop at e))
    | inr other ↦ elim (Bool-cases (is_true (is_canonical s p))) [
      | inr side ↦ absurd (ground (arith, rw (other, side) at e))
      | inl main ↦
          let same : p ≡ a = ground (arith, rw (other, main) at e) in
          canonical-IsAcceptable a (rw same at main)
    ]
  ]

  back_step-IsAcceptable :
      (current a : ℕ) → back_step s tree current ≡ inl (some a) → IsAcceptable a
  unfolding back_step canonical_below
  back_step-IsAcceptable current a e =
      elim (Option-cases (below s tree current (invalid_number s tree current))) [
        | inl none_below ↦
            to_parent-IsAcceptable current a _ (rw (none_below, back_step, canonical_below) at e)
        | inr (h, one_below) ↦
            let same : h ≡ a = ground (arith, rw (one_below, back_step, canonical_below) at e) in
            below-IsAcceptable current a _ (one_below ∙ ap some same)
      ]

  visit-IsAcceptable :
      (visited : List ℕ) (current a : ℕ)
      → visit s tree visited current ≡ inl (some a)
      → IsAcceptable a
  unfolding visit
  visit-IsAcceptable visited current a e = elim (Bool-cases (member current visited)) [
    | inl again ↦ absurd (ground (arith, rw again at e))
    | inr first ↦ back_step-IsAcceptable current a (limited _ (rw first at e))
  ]
    where
      room : (b : Bool) (p : ℕ) → (if b then inl none else inr p) ≢ inl (some a)
      room true p e = absurd (ground arith)
      room false p e = absurd (ground arith)

      limited :
          (r : Option ℕ ⊎ ℕ)
          → within_limit s tree (current ∷ visited) r ≡ inl (some a)
          → r ≡ inl (some a)
      limited (inl o) e = e
      limited (inr p) e = absurd (room (leb 1024 (length (current ∷ visited))) p e)

  settle-IsAcceptable :
      (current a : ℕ)
      → is_invalid tree current ≡ false
      → settle s tree current ≡ some a
      → IsAcceptable a
  unfolding settle
  settle-IsAcceptable current a sound e = elim (Bool-cases (has_block s tree current)) [
    | inl known ↦ inr (inr (ground (arith, sound, rw known at e)))
    | inr unknown ↦ elim (Bool-cases (is_genesis s tree current)) [
      | inl first ↦ inr (
          inl (
            0,
            opt_eq-some _ a (
                subst (λ x. is_genesis s tree x ≡ true) (ground (arith, rw (unknown, first) at e))
                  first),
          ))
      | inr later ↦ inl (ground (arith, rw (unknown, later) at e))
    ]
  ]

  walk_back-IsAcceptable :
      (left : ℕ) (visited : List ℕ) (current a : ℕ)
      → walk_back s tree left visited current ≡ some a
      → IsAcceptable a
  unfolding walk_back
  walk_back-IsAcceptable zero visited current a e = absurd (ground arith)
  walk_back-IsAcceptable (suc left) visited current a e =
      elim (Bool-cases (is_invalid tree current)) [
        | inr sound ↦ settle-IsAcceptable current a sound (rw (sound, walk_back) at e)
        | inl bad ↦
            go (visit s tree visited current) refl
              (λ p h. walk_back-IsAcceptable left (current ∷ visited) p a h)
              (rw (bad, walk_back) at e)
      ]
    where
      go :
          (r : Option ℕ ⊎ ℕ)
          → visit s tree visited current ≡ r
          → ((p : ℕ) → walk_back s tree left (current ∷ visited) p ≡ some a → IsAcceptable a)
          → answer_or r (walk_back s tree left (current ∷ visited)) ≡ some a
          → IsAcceptable a
      go (inl o) visited_to rest e = visit-IsAcceptable visited current a (visited_to ∙ ap inl e)
      go (inr p) visited_to rest e = rest p e

  latest_valid-IsAcceptable :
      (c : CanonicalState) (hash a : ℕ)
      → get_latest_valid_ancestor s tree c hash ≡ some a
      → IsAcceptable a
  unfolding get_latest_valid_ancestor
  latest_valid-IsAcceptable c hash a e = elim (Bool-cases (hash == 0)) [
    | inl nowhere ↦ inl (ground (arith, rw nowhere at e))
    | inr real ↦ elim (Bool-cases (is_true (is_canonical s hash))) [
      | inl main ↦
          let same : hash ≡ a = ground (arith, rw (real, main) at e) in
          canonical-IsAcceptable a (rw same at main)
      | inr side ↦
          sorted_out (hash == (get_head c).0) (is_invalid tree hash)
            (has_block s tree hash || is_genesis s tree hash) refl (rw (real, side) at e)
    ]
  ]
    where
      sorted_out :
          (x i b : Bool)
          → is_invalid tree hash ≡ i
          → (if x && not i
              then some hash
              else if not i && b
              then some hash
              else walk_back s tree 1024 [] hash)
            ≡ some a
          → IsAcceptable a
      sorted_out true false b sound e =
          inr (inr (subst (λ h. is_invalid tree h ≡ false) (some-injective hash a e) sound))
      sorted_out false false true sound e =
          inr (inr (subst (λ h. is_invalid tree h ≡ false) (some-injective hash a e) sound))
      sorted_out false false false sound e = walk_back-IsAcceptable 1024 [] hash a e
      sorted_out true true b bad e = walk_back-IsAcceptable 1024 [] hash a e
      sorted_out false true b bad e = walk_back-IsAcceptable 1024 [] hash a e

-- The latest valid hash of a payload's status is the zero hash, a block of the canonical index or a
-- block that is not known to be invalid.
pub payload_status_valid_hash :
    (s : Storage) (tree : BlockTree) (c : CanonicalState) (hash a : ℕ)
    → (determine_payload_status s tree c hash).latest_valid_hash ≡ some a
    → IsAcceptable s tree a
unfolding determine_payload_status
payload_status_valid_hash s tree c hash a e = elim (Bool-cases (is_invalid tree hash)) [
  | inl bad ↦ latest_valid-IsAcceptable s tree c hash a (rw bad at e)
  | inr sound ↦ elim (Bool-cases (is_stored s tree hash)) [
    | inl known ↦
        let same : hash ≡ a = ground (arith, rw (sound, known) at e) in inr (inr (rw same at sound))
    | inr unknown ↦ absurd (ground (arith, rw (sound, unknown) at e))
  ]
]

goes_on :
    (b : Bool) (q p : ℕ)
    → ◌≡◌ {A = Option ℕ ⊎ ℕ} (if b then inl none else inr q) (inr p)
    → b ≡ false
goes_on true q p e = absurd (ground arith)
goes_on false q p e = refl

-- The walk back through the invalid blocks ends within its limit: with fuel for 1024 blocks, less
-- those visited, the answer does not depend on the fuel.
walk_back_limited :
    (s : Storage) (tree : BlockTree) (f g : ℕ) (visited : List ℕ) (current : ℕ)
    → length visited < 1024
    → 1024 ≤ f + length visited
    → 1024 ≤ g + length visited
    → walk_back s tree f visited current ≡ walk_back s tree g visited current
unfolding walk_back visit
walk_back_limited s tree zero g visited current few ef eg = absurd (omega (arith, few, ef))
walk_back_limited s tree (suc f) zero visited current few ef eg = absurd (omega (arith, few, eg))
walk_back_limited s tree (suc f) (suc g) visited current few ef eg =
    elim (Bool-cases (is_invalid tree current)) [
      | inr sound ↦ rw (sound, walk_back) refl
      | inl bad ↦
          rw (bad, walk_back)
            (go (visit s tree visited current) refl (λ p small.
              walk_back_limited s tree f g (current ∷ visited) p small (omega (arith, ef))
                (omega (arith, eg))))
    ]
  where
    small_after : (p : ℕ) → visit s tree visited current ≡ inr p → length (current ∷ visited) < 1024
    small_after p e = elim (Bool-cases (member current visited)) [
      | inl again ↦ absurd (ground (arith, rw (again, visit) at e))
      | inr first ↦ limited (back_step s tree current) (rw (first, visit) at e)
    ]
      where
        limited :
            (r : Option ℕ ⊎ ℕ)
            → within_limit s tree (current ∷ visited) r ≡ inr p
            → length (current ∷ visited) < 1024
        limited (inl o) e = absurd (ground arith)
        limited (inr q) e =
            let low = goes_on (leb 1024 (length (current ∷ visited))) q p e in ground (arith, low)

    go :
        (r : Option ℕ ⊎ ℕ)
        → visit s tree visited current ≡ r
        → ((p : ℕ)
            → length (current ∷ visited) < 1024
            → walk_back s tree f (current ∷ visited) p ≡ walk_back s tree g (current ∷ visited) p)
        → answer_or r (walk_back s tree f (current ∷ visited))
          ≡ answer_or r (walk_back s tree g (current ∷ visited))
    go (inl o) e rest = refl
    go (inr p) e rest = rest p (small_after p e)
