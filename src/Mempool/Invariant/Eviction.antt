-- ===== src/Mempool/Invariant/Eviction.antt =====
-- The eviction keeps the pools well formed.
use wasm_based_evm.Prelude.{
  ℕ, zero, suc, ◌≡◌, Bool, true, false, inl, inr, List, All-lookup, Assoc, lookup, is_empty,
  Bool-cases, Option-cases, leb, ltb,
}
use wasm_based_evm.Block.{Transaction}
use wasm_based_evm.Vector.{pop_back}
use wasm_based_evm.Vector.Sorted.{All-pop_back, pop_back-IsSorted}
use wasm_based_evm.Mempool.{
  Mempool, sender, len, shrink, evict, evict_loop, find_worst, enforce_capacity,
}
use wasm_based_evm.Mempool.Invariant.{IsQueue, IsPool, IsSound, insert-IsPool, remove-IsPool}

pub shrink-IsPool : (a : ℕ) (m : Assoc (List Transaction)) → IsPool m → IsPool (shrink a m)
unfolding shrink
shrink-IsPool a m v = elim (Option-cases (lookup a m)) [
  | inl e ↦ rw (e, shrink) v
  | inr (q, e) ↦ elim (Bool-cases (is_empty (pop_back q))) [
    | inl empty ↦ rw (e, empty, shrink) (remove-IsPool a m v)
    | inr more ↦
        let h = All-lookup IsQueue a q m v.queues e in
        rw (e, more, shrink)
          (insert-IsPool a _ m
            (record {
              sorted = pop_back-IsSorted (λ (x : Transaction). x.nonce) q h.sorted;
              senders = All-pop_back (λ x. sender x ≡ a) q h.senders;
              nonempty = more;
            })
            v)
  ]
]

pub evict-IsSound : (s : ℕ × Bool) (m : Mempool) → IsSound m → IsSound (evict s m)
unfolding evict
evict-IsSound (a, true) m v = record { pending = shrink-IsPool a _ v.pending; queued = v.queued }
evict-IsSound (a, false) m v = record { pending = v.pending; queued = shrink-IsPool a _ v.queued }

evict_loop-IsSound :
    (fuel base_fee max_size : ℕ) (m : Mempool)
    → IsSound m
    → IsSound (evict_loop fuel base_fee max_size m)
unfolding evict_loop
evict_loop-IsSound zero base_fee max_size m v = v
evict_loop-IsSound (suc fuel) base_fee max_size m v = elim (Bool-cases (ltb max_size (len m))) [
  | inr e ↦ rw (e, evict_loop) v
  | inl e ↦ elim (Option-cases ((find_worst m base_fee).sender)) [
    | inl e' ↦ rw (e, e', evict_loop) v
    | inr (s, e') ↦
        rw (e, e', evict_loop)
          (evict_loop-IsSound fuel base_fee max_size (evict s m) (evict-IsSound s m v))
  ]
]

pub enforce_capacity-IsSound :
    (max_size : ℕ) (m : Mempool) → IsSound m → IsSound (enforce_capacity max_size m)
unfolding enforce_capacity
enforce_capacity-IsSound max_size m v = elim (Bool-cases (leb (len m) max_size)) [
  | inl e ↦ rw e v
  | inr e ↦
      let w = evict_loop-IsSound (len m) m.base_fee max_size m v in
      rw e (record { pending = w.pending; queued = w.queued })
]
