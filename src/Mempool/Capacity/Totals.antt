-- ===== src/Mempool/Capacity/Totals.antt =====
-- The number of transactions of a pool, as entries are written, removed and shrunk.
use wasm_based_evm.Prelude.{
  ℕ, ◌+◌, ◌≡◌, refl, true, false, inl, inr, none, some, List, [], ◌∷◌, arith, All-lookup, Distinct,
  Assoc, lookup, insert, remove, length, is_empty, unwrap_or, Bool-cases, ◌==◌,
}
use wasm_based_evm.Block.{Transaction}
use wasm_based_evm.Vector.{pop_back}
use wasm_based_evm.Mempool.{total, shrink}
use wasm_based_evm.Mempool.Invariant.{IsQueue, IsPool}

total-insert :
    (k : ℕ) (q : List Transaction) (m : Assoc (List Transaction))
    → total (insert k q m) + length (unwrap_or (lookup k m) []) ≡ total m + length q
unfolding total insert lookup
total-insert k q [] = omega arith
total-insert k q ((j, r) ∷ m) = ground (arith, total-insert k q m)

total-remove_absent :
    (k : ℕ) (m : Assoc (List Transaction)) → lookup k m ≡ none → total (remove k m) ≡ total m
unfolding total remove lookup
total-remove_absent k [] e = refl
total-remove_absent k ((j, r) ∷ m) e = ground (arith, total-remove_absent k m)

total-remove :
    (k : ℕ) (m : Assoc (List Transaction))
    → Distinct m
    → total (remove k m) + length (unwrap_or (lookup k m) []) ≡ total m
unfolding total remove lookup
total-remove k [] d = omega arith
total-remove k ((j, r) ∷ m) d = elim (Bool-cases (j == k)) [
  | inl e ↦
      let same : j ≡ k = ground arith in
      rw e (omega (arith, total-remove_absent k m (ground arith)))
  | inr e ↦ rw e (omega (arith, total-remove k m d.1))
]

length-pop_back : (q : List Transaction) → is_empty q ≡ false → length (pop_back q) + 1 ≡ length q
unfolding pop_back
length-pop_back [] h = cc
length-pop_back (t ∷ []) h = omega arith
length-pop_back (t ∷ u ∷ q) h = omega (arith, length-pop_back (u ∷ q) refl)

empty-length : (q : List Transaction) → is_empty q ≡ true → length q ≡ 0
empty-length [] h = refl
empty-length (t ∷ q) h = cc

-- An eviction takes one transaction.
pub total-shrink :
    (a : ℕ) (q : List Transaction) (m : Assoc (List Transaction))
    → IsPool m
    → lookup a m ≡ some q
    → total (shrink a m) + 1 ≡ total m
unfolding shrink
total-shrink a q m v e =
    let full = (All-lookup IsQueue a q m v.queues e).nonempty in
    elim (Bool-cases (is_empty (pop_back q))) [
      | inl last ↦
          rw (e, last, shrink)
            (ground (
              arith,
              total-remove a m v.distinct,
              length-pop_back q full,
              empty-length (pop_back q) last,
            ))
      | inr more ↦
          rw (e, more, shrink)
            (ground (arith, total-insert a (pop_back q) m, length-pop_back q full))
    ]

pub total_of_empty : (m : Assoc (List Transaction)) → is_empty m ≡ true → total m ≡ 0
unfolding total
total_of_empty [] e = refl
total_of_empty (x ∷ m) e = cc
