-- ===== src/Tests/Pool.antt =====
-- The theorems on the mempool, applied to transactions of the sender 7.
use wasm_based_evm.Prelude.{
  ◌<◌, ℕ, ◌+◌, ◌≤◌, Option, take, Bool, true, false, none, some, List, [], ◌∷◌, ◌≡◌, refl, arith,
  min, ◌⊎◌, lookup, insert, ltb, ◌-◌, if◌then◌else◌,
}
use wasm_based_evm.Tests.{tx, from_front}
use wasm_based_evm.Mempool.{
  Mempool, new, len, price, total, blob_hashes, enforce_capacity, insert_sorted, put_queue,
  clean_up, queue_of, add_transaction, calculate_effective_tip,
}
use wasm_based_evm.Mempool.Invariant.{IsSound}
use wasm_based_evm.Mempool.Ops
use wasm_based_evm.Mempool.Ops.{run-new-IsSound, apply}
use wasm_based_evm.Mempool.Capacity.{len-enforce_capacity}
use wasm_based_evm.Mempool.Replacement.{IsReplaced, insert_sorted_taken, dynamic_fee_replaces}
use wasm_based_evm.Block.{Transaction}
use wasm_based_evm.Mempool.Snapshot.{
  snapshot, peek_best_transactions, start, fill, open_cursors, pick, take_turn, consider,
  is_eligible, check_blobs, choose, push, open_cursor, pop_best, better, above, count_blobs,
}
use wasm_based_evm.Mempool.Snapshot.Order.{from, queue}
use wasm_based_evm.Mempool.Snapshot.Complete.{peek_best_transactions_in_order}
use wasm_based_evm.Mempool.Snapshot.Budget.{peek_best_transactions_within, total_gas, total_blobs}
use wasm_based_evm.Mempool.Insertion.{add_transaction_answers, In}

-- The sender's nonces 0 and 1 are pending, 3 is queued.
abbrev used : Mempool
used = record (new 5) {
  pending_transactions = (7, tx 100 0 (some 50) ∷ tx 101 1 (some 9) ∷ []) ∷ [];
  queued_transactions = (7, tx 103 3 none ∷ []) ∷ [];
}

used-IsSound : IsSound used
unfolding lookup
used-IsSound = record {
  pending = record {
    queues = (
      record {
        sorted = ((omega arith, tt), (tt, tt));
        senders = (refl, (refl, tt));
        nonempty = refl;
      },
      tt,
    );
    distinct = (refl, tt);
  };
  queued = record {
    queues = (record { sorted = (tt, tt); senders = (refl, tt); nonempty = refl }, tt);
    distinct = (refl, tt);
  };
}

abbrev steps : List Ops.Op
steps =
    Ops.add 1 (tx 101 1 (some 60)) 0
    ∷ Ops.add 2 (tx 100 0 (some 50)) 0
    ∷ Ops.limited 1
    ∷ Ops.popped 1
    ∷ []

run-new-IsSound_example : IsSound (Ops.run from_front steps (new 5))
run-new-IsSound_example = run-new-IsSound from_front 5 steps

len-enforce_capacity_example : len (enforce_capacity 2 used) ≡ min (len used) 2
unfolding calculate_effective_tip new
len-enforce_capacity_example =
    len-enforce_capacity 2 used used-IsSound ((ground arith, (ground arith, tt)), tt)
      ((ground arith, tt), tt)

-- The price 50 asks for 55.
insert_sorted_taken_example :
    let r = insert_sorted from_front true (tx 102 0 (some 55)) used in
    ((55 ≤ 55)
      × (r.1 ≡ true)
      × IsReplaced true (tx 102 0 (some 55)) (tx 100 0 (some 50)) 0 used r.0)
    ⊎ ((55 < 55) × (r ≡ (used, false)))
unfolding lookup
insert_sorted_taken_example =
    insert_sorted_taken from_front true (tx 102 0 (some 55)) (tx 100 0 (some 50)) 0 used
      used-IsSound refl refl

dynamic_fee_replaces_example :
    insert_sorted from_front false (tx 104 3 none) used
    ≡ (put_queue false 7 (tx 104 3 none ∷ []) (clean_up (tx 103 3 none) used), true)
unfolding lookup
dynamic_fee_replaces_example =
    dynamic_fee_replaces from_front false (tx 104 3 none) (tx 103 3 none) 0 used used-IsSound refl
      refl refl refl

abbrev added : Mempool × Bool
added = add_transaction from_front 1 (tx 102 2 (some 50)) 0 used

add_transaction_answers_example :
    ((added.1 ≡ true)
      × (In (tx 102 2 (some 50)) (queue_of true 7 added.0)
          ⊎ In (tx 102 2 (some 50)) (queue_of false 7 added.0)))
    ⊎ ((added.1 ≡ false) × (added.0 ≡ record used { rejected = used.rejected + 1 }))
add_transaction_answers_example =
    add_transaction_answers from_front 1 (tx 102 2 (some 50)) 0 used (λ e. ground (arith, e))

-- The tip is the price above the base fee.
abbrev tip_of : Transaction → ℕ → Option ℕ
tip_of t base_fee = if ltb (price t) base_fee then none else some (price t - base_fee)

peek_best_transactions_in_order_example :
    (chosen : List Transaction) × (peek_best_transactions tip_of 5 (snapshot used) 30000 none
      ≡ some chosen)
    × ((a : ℕ) → (n : ℕ) × (from a chosen ≡ take n (queue a used.pending_transactions)))
peek_best_transactions_in_order_example =
    peek_best_transactions_in_order tip_of 5 used 30000 none (omega arith) used-IsSound

-- A second transaction does not fit 30000 gas.
peek_best_transactions_within_example :
    (total_gas (tx 100 0 (some 50) ∷ []) ≤ 30000) × (total_blobs (tx 100 0 (some 50) ∷ []) ≤ 6)
unfolding peek_best_transactions snapshot start fill open_cursors pick take_turn consider
    is_eligible check_blobs choose push open_cursor pop_best better above total lookup insert
    blob_hashes count_blobs
peek_best_transactions_within_example =
    peek_best_transactions_within tip_of 5 (snapshot used) 30000 none (tx 100 0 (some 50) ∷ [])
      (((ground arith, ground arith), ((ground arith, ground arith), tt)), tt) refl
