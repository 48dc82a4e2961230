-- ===== src/Mempool/Ops.antt =====
-- mempool.rs: `peek_transactions`, and the operations as one type: what a node can do to its mempool
-- in any order.
use wasm_based_evm.Prelude.{
  ℕ, zero, suc, ◌+◌, Bool, true, false, Option, none, some, List, [], ◌∷◌, ◌++◌, Assoc, lookup,
  insert, remove, ltb, unwrap_or, length, is_empty, if◌then◌else◌, add64, inl, inr, Option-cases,
  Bool-cases, ◌%◌, ◌==◌,
}
use wasm_based_evm.Block.{Transaction}
use wasm_based_evm.Vector.{BinarySearch, front, back, pop_front}
use wasm_based_evm.Mempool.{
  Mempool, new, price, total, queue_of, to_list, promote_queued, insert_into_queue, add_transaction,
  count_result, remove_transactions, pop_transactions, enforce_capacity, clear,
}
use wasm_based_evm.Mempool.Invariant.{IsSound, new-IsSound}
use wasm_based_evm.Mempool.Invariant.Promotion.{promote_queued-IsSound}
use wasm_based_evm.Mempool.Invariant.Inserting.{insert_sorted-IsSound}
use wasm_based_evm.Mempool.Invariant.Eviction.{enforce_capacity-IsSound}
use wasm_based_evm.Mempool.Invariant.Removals.{
  remove_transactions-IsSound, pop_transactions-IsSound,
}

unfoldable pub senders : Assoc (List Transaction) → List ℕ
senders [] = []
senders ((a, q) ∷ m) = a ∷ senders m

-- The best price and its sender so far, in the copy of the pending queues.
unfoldable pub scan_price : Assoc (List Transaction) → Option ℕ × ℕ → Option ℕ × ℕ
scan_price [] b = b
scan_price ((a, q) ∷ m) b =
    scan_price m
      (elim (front q) [ none ↦ b | some t ↦ if ltb b.1 (price t) then (some a, price t) else b ])

-- The copy of the queues after a pop from the queue of `a`.
unfoldable pub drop_front : ℕ → Assoc (List Transaction) → Assoc (List Transaction)
drop_front a m =
    let rest = pop_front (unwrap_or (lookup a m) []) in
    if is_empty rest then remove a m else insert a rest m

unfoldable pub peek_loop : ℕ → ℕ → List Transaction → Assoc (List Transaction) → List Transaction
peek_loop zero n result m = result
peek_loop (suc fuel) n result m = elim (ltb (length result) n) [
  | false ↦ result
  | true ↦ elim ((scan_price m (none, 0)).0) [
    | none ↦ result
    | some a ↦
        peek_loop fuel n (result ++ to_list (front (unwrap_or (lookup a m) []))) (drop_front a m)
  ]
]

-- The operations, with the arguments of the calls and the random byte of an insertion.
pub data Op : Type 0 where
  add : ℕ → Transaction → ℕ → Op
  promote : ℕ → ℕ → Op
  included : List ℕ → Op
  popped : ℕ → Op
  peeked : ℕ → Op
  limited : ℕ → Op
  cleared : Op

module _ (bs : BinarySearch) where
  -- The senders of queued transactions are promoted from their last pending nonce on.
  unfoldable pub promote_sender : ℕ → Mempool → Mempool
  promote_sender a m = elim (back (queue_of true a m)) [
    | none ↦ m
    | some t ↦ promote_queued bs a (add64 t.nonce 1) m
  ]

  unfoldable pub promote_senders : List ℕ → Mempool → Mempool
  promote_senders [] m = m
  promote_senders (a ∷ l) m = promote_senders l (promote_sender a m)

  unfoldable pub peek_transactions : ℕ → Mempool → List Transaction × Mempool
  peek_transactions n m =
      let m' = promote_senders (senders m.queued_transactions) m in
      (peek_loop (total m'.pending_transactions + 1) n [] m'.pending_transactions, m')

  unfoldable pub apply : Op → Mempool → Mempool
  apply (add roll t current) m = (add_transaction bs roll t current m).0
  apply (promote a next) m = promote_queued bs a next m
  apply (included hashes) m = remove_transactions hashes m
  apply (popped n) m = (pop_transactions n m).1
  apply (peeked n) m = (peek_transactions n m).1
  apply (limited n) m = enforce_capacity n m
  apply cleared m = clear m

  unfoldable pub run : List Op → Mempool → Mempool
  run [] m = m
  run (o ∷ os) m = run os (apply o m)

  promote_senders-IsSound : (l : List ℕ) (m : Mempool) → IsSound m → IsSound (promote_senders l m)
  unfolding promote_senders promote_sender
  promote_senders-IsSound [] m v = v
  promote_senders-IsSound (a ∷ l) m v = elim (Option-cases (back (queue_of true a m))) [
    | inl e ↦ rw (e, promote_sender) (promote_senders-IsSound l m v)
    | inr (t, e) ↦
        rw (e, promote_sender) (promote_senders-IsSound l _ (promote_queued-IsSound bs a _ m v))
  ]

  insert_into_queue-IsSound :
      (roll : ℕ) (p : Bool) (t : Transaction) (m : Mempool)
      → IsSound m
      → IsSound (insert_into_queue bs roll p t m).0
  unfolding insert_into_queue
  insert_into_queue-IsSound roll p t m v = elim (Bool-cases (roll % 16 == 0)) [
    | inl e ↦ rw e (insert_sorted-IsSound bs p t _ (enforce_capacity-IsSound _ m v))
    | inr e ↦ rw e (insert_sorted-IsSound bs p t m v)
  ]

  count_result-IsSound : (r : Mempool × Bool) → IsSound r.0 → IsSound (count_result bs r).0
  unfolding count_result
  count_result-IsSound (m, true) v = record { pending = v.pending; queued = v.queued }
  count_result-IsSound (m, false) v = record { pending = v.pending; queued = v.queued }

  add_transaction-IsSound :
      (roll : ℕ) (t : Transaction) (current : ℕ) (m : Mempool)
      → IsSound m
      → IsSound (add_transaction bs roll t current m).0
  unfolding add_transaction
  add_transaction-IsSound roll t current m v = elim (Bool-cases (ltb t.nonce current)) [
    | inl e ↦ rw e (record { pending = v.pending; queued = v.queued })
    | inr e ↦ rw e (count_result-IsSound _ (insert_into_queue-IsSound roll _ t m v))
  ]

  apply-IsSound : (o : Op) (m : Mempool) → IsSound m → IsSound (apply o m)
  unfolding apply peek_transactions clear
  apply-IsSound (add roll t current) m v = add_transaction-IsSound roll t current m v
  apply-IsSound (promote a next) m v = promote_queued-IsSound bs a next m v
  apply-IsSound (included hashes) m v = remove_transactions-IsSound hashes m v
  apply-IsSound (popped n) m v = pop_transactions-IsSound n m v
  apply-IsSound (peeked n) m v = promote_senders-IsSound (senders m.queued_transactions) m v
  apply-IsSound (limited n) m v = enforce_capacity-IsSound n m v
  apply-IsSound cleared m v = record {
    pending = record { queues = tt; distinct = tt };
    queued = record { queues = tt; distinct = tt };
  }

  run-IsSound : (os : List Op) (m : Mempool) → IsSound m → IsSound (run os m)
  unfolding run
  run-IsSound [] m v = v
  run-IsSound (o ∷ os) m v = run-IsSound os (apply o m) (apply-IsSound o m v)

-- Whatever is done to a new mempool, in any order, with any arguments and random bytes, its pools
-- stay well formed: one queue for each sender, never empty, with only the sender's transactions and
-- with nonces that rise strictly.
pub run-new-IsSound :
    (bs : BinarySearch) (base_fee : ℕ) (os : List Op) → IsSound (run bs os (new base_fee))
run-new-IsSound bs base_fee os = run-IsSound bs os (new base_fee) (new-IsSound base_fee)
