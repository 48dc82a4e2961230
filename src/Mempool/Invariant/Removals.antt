-- ===== src/Mempool/Invariant/Removals.antt =====
-- The removal of included transactions and the popping of the best keep the pools well formed.
use wasm_based_evm.Prelude.{
  ℕ, zero, suc, ◌+◌, ◌<◌, ◌≡◌, refl, inl, inr, none, List, [], ◌∷◌, arith, All, Assoc, lookup,
  is_empty, length, Bool-cases, Option-cases, ltb,
}
use wasm_based_evm.Block.{Transaction}
use wasm_based_evm.Vector.{IsSorted}
use wasm_based_evm.Mempool.{
  Mempool, Best, len, sender, nonces, clean_up, contains, keep_txs, keep_pool, remove_transactions,
  scan_best, pop_sender, pop_loop, pop_transactions,
}
use wasm_based_evm.Mempool.Invariant.{IsPool, IsSound, read, insert-IsPool, remove-IsPool}

All-keep_txs :
    (P : Transaction → Type 0) (hashes : List ℕ) (q : List Transaction)
    → All P q
    → All P (keep_txs hashes q)
unfolding keep_txs
All-keep_txs P hashes [] a = tt
All-keep_txs P hashes (t ∷ q) a = elim (Bool-cases (contains hashes t.hash)) [
  | inl e ↦ rw e (All-keep_txs P hashes q a.1)
  | inr e ↦ rw e (a.0, All-keep_txs P hashes q a.1)
]

above-keep_txs :
    (k : ℕ) (hashes : List ℕ) (q : List Transaction)
    → All (λ j. k < j) (nonces q)
    → All (λ j. k < j) (nonces (keep_txs hashes q))
unfolding keep_txs
above-keep_txs k hashes [] a = tt
above-keep_txs k hashes (t ∷ q) a = elim (Bool-cases (contains hashes t.hash)) [
  | inl e ↦ rw e (above-keep_txs k hashes q a.1)
  | inr e ↦ rw e (a.0, above-keep_txs k hashes q a.1)
]

keep_txs-IsSorted :
    (hashes : List ℕ) (q : List Transaction)
    → IsSorted (nonces q)
    → IsSorted (nonces (keep_txs hashes q))
unfolding keep_txs
keep_txs-IsSorted hashes [] s = tt
keep_txs-IsSorted hashes (t ∷ q) s = elim (Bool-cases (contains hashes t.hash)) [
  | inl e ↦ rw e (keep_txs-IsSorted hashes q s.1)
  | inr e ↦ rw e (above-keep_txs t.nonce hashes q s.0, keep_txs-IsSorted hashes q s.1)
]

lookup-keep_pool :
    (hashes : List ℕ) (a : ℕ) (m : Assoc (List Transaction))
    → lookup a m ≡ none
    → lookup a (keep_pool hashes m) ≡ none
unfolding keep_pool lookup
lookup-keep_pool hashes a [] e = refl
lookup-keep_pool hashes a ((j, q) ∷ m) e = ground (arith, lookup-keep_pool hashes a m)

keep_pool-IsPool :
    (hashes : List ℕ) (m : Assoc (List Transaction)) → IsPool m → IsPool (keep_pool hashes m)
unfolding keep_pool
keep_pool-IsPool hashes [] v = record { queues = tt; distinct = tt }
keep_pool-IsPool hashes ((a, q) ∷ m) v =
    let r = keep_pool-IsPool hashes m (record { queues = v.queues.1; distinct = v.distinct.1 }) in
    elim (Bool-cases (is_empty (keep_txs hashes q))) [
      | inl e ↦ rw e r
      | inr e ↦ rw e (record {
        queues = (
          record {
            sorted = keep_txs-IsSorted hashes q v.queues.0.sorted;
            senders = All-keep_txs (λ t. sender t ≡ a) hashes q v.queues.0.senders;
            nonempty = e;
          },
          r.queues,
        );
        distinct = (lookup-keep_pool hashes a m v.distinct.0, r.distinct);
      })
    ]

pub remove_transactions-IsSound :
    (hashes : List ℕ) (m : Mempool) → IsSound m → IsSound (remove_transactions hashes m)
unfolding remove_transactions
remove_transactions-IsSound hashes m v = record {
  pending = keep_pool-IsPool hashes m.pending_transactions v.pending;
  queued = keep_pool-IsPool hashes m.queued_transactions v.queued;
}

pop_sender-IsSound :
    (a : ℕ) (q : List Transaction) (m : Mempool)
    → IsSound m
    → IsSorted (nonces q)
    → All (λ t. sender t ≡ a) q
    → IsSound (pop_sender a q m).1
unfolding pop_sender clean_up
pop_sender-IsSound a [] m v s h = record {
  pending = remove-IsPool a _ v.pending;
  queued = v.queued;
}
pop_sender-IsSound a (t ∷ rest) m v s h = elim (Bool-cases (is_empty rest)) [
  | inl e ↦ rw e (record { pending = remove-IsPool a _ v.pending; queued = v.queued })
  | inr e ↦ rw e (record {
    pending =
        insert-IsPool a rest _ (record { sorted = s.1; senders = h.1; nonempty = e }) v.pending;
    queued = v.queued;
  })
]

pop_loop-IsSound :
    (fuel base_fee n : ℕ) (result : List Transaction) (m : Mempool)
    → IsSound m
    → IsSound (pop_loop fuel base_fee n result m).1
unfolding pop_loop
pop_loop-IsSound zero base_fee n result m v = v
pop_loop-IsSound (suc fuel) base_fee n result m v = elim (Bool-cases (ltb (length result) n)) [
  | inr e ↦ rw (e, pop_loop) v
  | inl e ↦ elim (Option-cases ((scan_best base_fee m.pending_transactions none_best).sender)) [
    | inl e' ↦ rw (e, e', pop_loop) v
    | inr (a, e') ↦
        let r = read a m.pending_transactions v.pending in
        rw (e, e', pop_loop)
          (pop_loop-IsSound fuel base_fee n _ _ (pop_sender-IsSound a _ m v r.sorted r.senders))
  ]
]
  where
    none_best : Best
    none_best = record { sender = none; tip = 0 }

pub pop_transactions-IsSound : (n : ℕ) (m : Mempool) → IsSound m → IsSound (pop_transactions n m).1
unfolding pop_transactions
pop_transactions-IsSound n m v =
    let fuel = len m + length m.pending_transactions + 1 in
    let w = pop_loop-IsSound fuel m.base_fee n [] m v in
    elim (Bool-cases (is_empty (pop_loop fuel m.base_fee n [] m).0)) [
      | inl e ↦ rw e w
      | inr e ↦ rw e (record { pending = w.pending; queued = w.queued })
    ]
