-- ===== src/Vector/Sorted.antt =====
-- The operations keep a queue sorted by its keys, and keep what holds of all elements.
use mathlib.Core.Path.{subst}
use mathlib.Core.Option.{some-injective}
use wasm_based_evm.Prelude.{
  ℕ, zero, suc, ◌<◌, ◌≡◌, refl, ap, some, List, [], ◌∷◌, map, arith, All, get_elem?, set,
}
use wasm_based_evm.Vector.{insert_at, remove_at, pop_front, pop_back, IsSorted, Splits}

-- What holds of all elements, under each operation.
module _ {ℓ} {A : Type ℓ} (P : A → Type 0) where
  pub All-insert_at : (p : ℕ) (v : A) (xs : List A) → P v → All P xs → All P (insert_at p v xs)
  unfolding insert_at
  All-insert_at zero v xs h a = (h, a)
  All-insert_at (suc p) v [] h a = (h, tt)
  All-insert_at (suc p) v (x ∷ xs) h a = (a.0, All-insert_at p v xs h a.1)

  pub All-set : (p : ℕ) (v : A) (xs : List A) → P v → All P xs → All P (set xs p v)
  All-set p v [] h a = tt
  All-set zero v (x ∷ xs) h a = (h, a.1)
  All-set (suc p) v (x ∷ xs) h a = (a.0, All-set p v xs h a.1)

  pub All-remove_at : (p : ℕ) (xs : List A) → All P xs → All P (remove_at p xs)
  unfolding remove_at
  All-remove_at p [] a = tt
  All-remove_at zero (x ∷ xs) a = a.1
  All-remove_at (suc p) (x ∷ xs) a = (a.0, All-remove_at p xs a.1)

  pub All-pop_back : (xs : List A) → All P xs → All P (pop_back xs)
  unfolding pop_back
  All-pop_back [] a = tt
  All-pop_back (x ∷ []) a = tt
  All-pop_back (x ∷ y ∷ xs) a = (a.0, All-pop_back (y ∷ xs) a.1)

  pub All-pop_front : (xs : List A) → All P xs → All P (pop_front xs)
  unfolding pop_front
  All-pop_front [] a = tt
  All-pop_front (x ∷ xs) a = a.1

  pub All-get_elem? : (p : ℕ) (v : A) (xs : List A) → All P xs → get_elem? xs p ≡ some v → P v
  All-get_elem? p v [] a e = absurd (ground arith)
  All-get_elem? zero v (x ∷ xs) a e = subst P (some-injective x v e) a.0
  All-get_elem? (suc p) v (x ∷ xs) a e = All-get_elem? p v xs a.1 e

module _ {ℓ} {A : Type ℓ} (key : A → ℕ) where
  abbrev pub keys : List A → List ℕ
  keys xs = map key xs

  All-keys : (P : ℕ → Type 0) (xs : List A) → All P (keys xs) → All (λ x. P (key x)) xs
  All-keys P [] a = tt
  All-keys P (x ∷ xs) a = (a.0, All-keys P xs a.1)

  keys-All : (P : ℕ → Type 0) (xs : List A) → All (λ x. P (key x)) xs → All P (keys xs)
  keys-All P [] a = tt
  keys-All P (x ∷ xs) a = (a.0, keys-All P xs a.1)

  -- A new key goes where the search says.
  pub insert_at-IsSorted :
      (p : ℕ) (v : A) (xs : List A)
      → IsSorted (keys xs)
      → Splits (key v) (keys xs) p
      → IsSorted (keys (insert_at p v xs))
  unfolding insert_at
  insert_at-IsSorted zero v [] s h = (tt, tt)
  insert_at-IsSorted zero v (x ∷ xs) s h = (h, s)
  insert_at-IsSorted (suc p) v [] s h = absurd h
  insert_at-IsSorted (suc p) v (x ∷ xs) s h = (
    keys-All (λ j. key x < j) (insert_at p v xs)
        (All-insert_at (λ y. key x < key y) p v xs h.0 (All-keys (λ j. key x < j) xs s.0)),
    insert_at-IsSorted p v xs s.1 h.1,
  )

  -- Writing an element with the same key.
  pub keys-set :
      (p : ℕ) (v old : A) (xs : List A)
      → get_elem? xs p ≡ some old
      → key v ≡ key old
      → keys (set xs p v) ≡ keys xs
  keys-set p v old [] e k = refl
  keys-set zero v old (x ∷ xs) e k = ground arith
  keys-set (suc p) v old (x ∷ xs) e k = ap (◌∷◌ (key x)) (keys-set p v old xs e k)

  pub remove_at-IsSorted :
      (p : ℕ) (xs : List A) → IsSorted (keys xs) → IsSorted (keys (remove_at p xs))
  unfolding remove_at
  remove_at-IsSorted p [] s = tt
  remove_at-IsSorted zero (x ∷ xs) s = s.1
  remove_at-IsSorted (suc p) (x ∷ xs) s = (
    keys-All (λ j. key x < j) (remove_at p xs)
        (All-remove_at (λ y. key x < key y) p xs (All-keys (λ j. key x < j) xs s.0)),
    remove_at-IsSorted p xs s.1,
  )

  pub pop_back-IsSorted : (xs : List A) → IsSorted (keys xs) → IsSorted (keys (pop_back xs))
  unfolding pop_back
  pop_back-IsSorted [] s = tt
  pop_back-IsSorted (x ∷ []) s = tt
  pop_back-IsSorted (x ∷ y ∷ xs) s = (
    keys-All (λ j. key x < j) (pop_back (y ∷ xs))
        (All-pop_back (λ z. key x < key z) (y ∷ xs) (All-keys (λ j. key x < j) (y ∷ xs) s.0)),
    pop_back-IsSorted (y ∷ xs) s.1,
  )

  pub pop_front-IsSorted : (xs : List A) → IsSorted (keys xs) → IsSorted (keys (pop_front xs))
  unfolding pop_front
  pop_front-IsSorted [] s = tt
  pop_front-IsSorted (x ∷ xs) s = s.1
