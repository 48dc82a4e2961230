-- ===== src/Mempool/Capacity.antt =====
-- `enforce_capacity` brings the mempool to its limit exactly, and the loop does not run out of fuel.
pub mod Totals
pub mod Candidate
use mathlib.Core.Path.{subst, ◌∙◌}
use wasm_based_evm.Prelude.{
  ℕ, zero, suc, ◌+◌, ◌-◌, ◌<◌, ◌≤◌, min, ◌≡◌, ◌≢◌, refl, sym, ap, Bool, true, false, not, ◌||◌, ◌⊎◌,
  inl, inr, Option, none, some, List, [], ◌∷◌, arith, All, All-lookup, All-insert, All-remove,
  Distinct, Assoc, lookup, insert, remove, length, is_empty, is_some, unwrap_or, Bool-cases,
  Option-cases, ltb, leb, ◌==◌, ltb→lt, ltb→le, leb→le, leb→lt, ==_iff, lt→ltb, if◌then◌else◌,
}
use wasm_based_evm.Block.{Transaction}
use wasm_based_evm.Vector.{back, pop_back}
use wasm_based_evm.Vector.Sorted.{All-pop_back}
use wasm_based_evm.Mempool.{
  Mempool, Worst, max_tip, consider_worst, total, len, calculate_effective_tip, scan_worst,
  find_worst, shrink, evict, evict_loop, enforce_capacity, pool,
}
use wasm_based_evm.Mempool.Invariant.{Entry, IsQueue, IsPool, IsSound}
use wasm_based_evm.Mempool.Invariant.Eviction.{evict-IsSound}
use wasm_based_evm.Mempool.Capacity.Totals.{total-shrink}
use wasm_based_evm.Mempool.Capacity.Candidate.{
  Exists, find_worst-Exists, IsPriced, shrink-IsPriced, find_worst-finds, ArePriced,
}

evict-total :
    (m : Mempool) (s : ℕ × Bool) → IsSound m → Exists m (some s) → len (evict s m) + 1 ≡ len m
unfolding evict len
evict-total m (a, true) v h = elim (Option-cases (lookup a m.pending_transactions)) [
  | inl e ↦ absurd (ground arith)
  | inr (q, e) ↦ omega (arith, total-shrink a q m.pending_transactions v.pending e)
]
evict-total m (a, false) v h = elim (Option-cases (lookup a m.queued_transactions)) [
  | inl e ↦ absurd (ground arith)
  | inr (q, e) ↦ omega (arith, total-shrink a q m.queued_transactions v.queued e)
]

evict-ArePriced :
    (fee : ℕ) (s : ℕ × Bool) (m : Mempool) → ArePriced fee m → ArePriced fee (evict s m)
unfolding evict
evict-ArePriced fee (a, true) m h = record {
  pending = shrink-IsPriced fee a m.pending_transactions h.pending;
  queued = h.queued;
}
evict-ArePriced fee (a, false) m h = record {
  pending = h.pending;
  queued = shrink-IsPriced fee a m.queued_transactions h.queued;
}

evict_loop-len :
    (fuel fee max_size : ℕ) (m : Mempool)
    → IsSound m
    → ArePriced fee m
    → len m ≤ fuel
    → len (evict_loop fuel fee max_size m) ≡ min (len m) max_size
unfolding evict_loop
evict_loop-len zero fee max_size m v h enough = omega arith
evict_loop-len (suc fuel) fee max_size m v h enough = elim (Bool-cases (ltb max_size (len m))) [
  | inr e ↦ rw (e, evict_loop) (omega (arith, ltb→le max_size (len m) e))
  | inl e ↦
      let above = ltb→lt max_size (len m) e in
      elim (Option-cases ((find_worst m fee).sender)) [
        | inl e' ↦ absurd (ground (arith, find_worst-finds fee m v h (omega arith)))
        | inr (s, e') ↦
            let one_less = evict-total m s v (subst (Exists m) e' (find_worst-Exists m fee)) in
            rw (e, e', evict_loop)
              (omega (
                arith,
                evict_loop-len fuel fee max_size (evict s m) (evict-IsSound s m v)
                    (evict-ArePriced fee s m h) (omega arith),
              ))
      ]
]

len-size : (n : ℕ) (m : Mempool) → len (record m { mempool_size = n }) ≡ len m
unfolding len
len-size n m = refl

-- In a well formed mempool whose effective tips are below `u128::MAX`, enforcing the capacity leaves
-- exactly the limit of transactions, or all where there are fewer, and the loop that does it ends.
pub len-enforce_capacity :
    (max_size : ℕ) (m : Mempool)
    → IsSound m
    → IsPriced m.base_fee m.pending_transactions
    → IsPriced m.base_fee m.queued_transactions
    → len (enforce_capacity max_size m) ≡ min (len m) max_size
unfolding enforce_capacity
len-enforce_capacity max_size m v hp hq = elim (Bool-cases (leb (len m) max_size)) [
  | inl e ↦ rw e (omega (arith, leb→le (len m) max_size e))
  | inr e ↦
      rw (e, len-size)
        (evict_loop-len (len m) m.base_fee max_size m v (record { pending = hp; queued = hq })
          (omega arith))
]
