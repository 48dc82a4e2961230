-- ===== src/Vector.antt =====
-- The operations of `im::Vector` that the mempool calls, on lists, and the interface of its binary
-- search. A queue is sorted if its nonces rise strictly.
pub mod Sorted
use wasm_based_evm.Prelude.{
  ℕ, zero, suc, ◌<◌, ◌≤◌, ◌≡◌, refl, ◌⊎◌, inl, inr, Option, none, some, List, [], ◌∷◌, All,
  get_elem?,
}

module _ {ℓ} {A : Type ℓ} where
  -- `insert(i, v)`.
  unfoldable pub insert_at : ℕ → A → List A → List A
  insert_at zero v xs = v ∷ xs
  insert_at (suc i) v [] = v ∷ []
  insert_at (suc i) v (x ∷ xs) = x ∷ insert_at i v xs

  -- `remove(i)`, the vector that stays.
  unfoldable pub remove_at : ℕ → List A → List A
  remove_at i [] = []
  remove_at zero (x ∷ xs) = xs
  remove_at (suc i) (x ∷ xs) = x ∷ remove_at i xs

  -- `front()` and `pop_front()`.
  unfoldable pub front : List A → Option A
  front [] = none
  front (x ∷ xs) = some x

  unfoldable pub pop_front : List A → List A
  pop_front [] = []
  pop_front (x ∷ xs) = xs

  -- `back()` and `pop_back()`.
  unfoldable pub back : List A → Option A
  back [] = none
  back (x ∷ []) = some x
  back (x ∷ y ∷ xs) = back (y ∷ xs)

  unfoldable pub pop_back : List A → List A
  pop_back [] = []
  pop_back (x ∷ []) = []
  pop_back (x ∷ y ∷ xs) = x ∷ pop_back (y ∷ xs)

-- `Ok(i)` and `Err(i)` of a binary search.
pub data SearchResult : Type 0 where
  found missing : ℕ → SearchResult

-- The position in either case, `unwrap_or_else(|e| e)`.
abbrev pub position : SearchResult → ℕ
position (found p) = p
position (missing p) = p

-- The keys rise strictly.
abbrev pub IsSorted : List ℕ → Type 0
IsSorted [] = Unit
IsSorted (k ∷ ks) = All (λ j. k < j) ks × IsSorted ks

-- The keys before a position are below `k`, and those from it on are above.
abbrev pub Splits : ℕ → List ℕ → ℕ → Type 0
Splits k [] zero = Unit
Splits k [] (suc p) = ⊥
Splits k (j ∷ js) zero = All (λ i. k < i) (j ∷ js)
Splits k (j ∷ js) (suc p) = (j < k) × Splits k js p

-- What the documentation of `binary_search_by_key` promises, on the keys of the vector.
pub record BinarySearch : Type 0 where
  pub search : List ℕ → ℕ → SearchResult
  pub at_found : (ks : List ℕ) (k p : ℕ) → search ks k ≡ found p → get_elem? ks p ≡ some k
  pub at_missing : (ks : List ℕ) (k p : ℕ) → IsSorted ks → search ks k ≡ missing p → Splits k ks p

pub search_cases :
    (bs : BinarySearch) (ks : List ℕ) (k : ℕ)
    → ((p : ℕ) × (bs.search ks k ≡ found p)) ⊎ ((p : ℕ) × (bs.search ks k ≡ missing p))
search_cases bs ks k = go (bs.search ks k) refl
  where
    go :
        (r : SearchResult)
        → bs.search ks k ≡ r
        → ((p : ℕ) × (bs.search ks k ≡ found p)) ⊎ ((p : ℕ) × (bs.search ks k ≡ missing p))
    go (found p) e = inl (p, e)
    go (missing p) e = inr (p, e)
