-- ===== src/Mempool.antt =====
-- wasix_eth/wasix_eth_core/src/mempool/mempool.rs: `MempoolInner` with the insertion of transactions,
-- the replacement by fee, the promotion of queued transactions. The state is in Mempool/State, the
-- eviction and the popping in Mempool/Evict, the removal of included transactions in
-- Mempool/Removal; their names are passed on.
mod State
mod Evict
mod Removal
pub mod Invariant
pub mod Replacement
pub mod Promotion
pub mod Insertion
pub mod Capacity
pub mod Ops
pub mod Snapshot
pub use State.{Mempool}
pub use Evict.{Worst, Best}
unfoldable pub use Removal.{
  contains, keep_txs, drop_txs, keep_pool, drop_pool, clean_up_all, remove_transactions, all_of,
  get_all_transactions,
}
unfoldable pub use State.{
  new, max_mempool_size, sender, price, total, len, is_empty_pool, calculate_effective_tip,
  remove_all, blob_hashes, clean_up, clear,
}
unfoldable pub use Evict.{
  max_tip, consider_worst, scan_worst, find_worst, shrink, evict, evict_loop, enforce_capacity,
  to_list, scan_best, pop_sender, pop_loop, pop_transactions,
}
use wasm_based_evm.Prelude.{
  ℕ, zero, suc, ◌+◌, ◌/◌, ◌%◌, max, Bool, true, false, not, Option, none, some, List, [], ◌∷◌, ◌++◌,
  map, Assoc, lookup, insert, remove, ltb, leb, ◌==◌, ◌||◌, if◌then◌else◌, unwrap_or, length,
  is_empty, get_elem?, set, add64, add128,
}
use wasm_based_evm.Block.{Transaction}
use wasm_based_evm.Vector.{
  BinarySearch, SearchResult, found, missing, position, insert_at, remove_at, back,
}

abbrev pub nonces : List Transaction → List ℕ
nonces q = map (λ t. t.nonce) q

-- One of the two pools, and the pool written back.
abbrev pub pool : Bool → Mempool → Assoc (List Transaction)
pool true m = m.pending_transactions
pool false m = m.queued_transactions

unfoldable pub put_queue : Bool → ℕ → List Transaction → Mempool → Mempool
put_queue true a q m = record m { pending_transactions = insert a q m.pending_transactions }
put_queue false a q m = record m { queued_transactions = insert a q m.queued_transactions }

-- `entry(a).or_insert_with(Vector::new)`.
abbrev pub queue_of : Bool → ℕ → Mempool → List Transaction
queue_of p a m = unwrap_or (lookup a (pool p m)) []

-- The price that a replacement has to offer.
unfoldable pub min_replacement_price : Transaction → ℕ
min_replacement_price old = add128 (price old) (price old / 10)

module _ (bs : BinarySearch) where
  -- A promoted transaction goes into the pending queue, unless its nonce is there.
  unfoldable pub insert_promoted : ℕ → Transaction → Mempool → Mempool
  insert_promoted a t m =
      let q = queue_of true a m in
      elim (bs.search (nonces q) t.nonce) [
        | found p ↦ m
        | missing p ↦ put_queue true a (insert_at p t q) m
      ]

  -- The `loop` of `promote_queued`. A round that goes on removes a transaction of the queue.
  unfoldable pub promote_loop : ℕ → ℕ → ℕ → Mempool → Mempool
  promote_loop zero a next m = m
  promote_loop (suc fuel) a next m = elim (lookup a m.queued_transactions) [
    | none ↦ m
    | some q ↦ elim (bs.search (nonces q) next) [
      | missing p ↦ m
      | found p ↦ elim (get_elem? q p) [
        | none ↦ m
        | some t ↦
            promote_loop fuel a (add64 next 1)
              (insert_promoted a t (put_queue false a (remove_at p q) m))
      ]
    ]
  ]

  -- `remove_if(&address, |_, q| q.is_empty())`.
  unfoldable pub drop_if_empty : ℕ → Mempool → Mempool
  drop_if_empty a m = elim (lookup a m.queued_transactions) [
    | none ↦ m
    | some q ↦
        if is_empty q then record m { queued_transactions = remove a m.queued_transactions } else m
  ]

  unfoldable pub promote_queued : ℕ → ℕ → Mempool → Mempool
  promote_queued a next m =
      drop_if_empty a (promote_loop (length (queue_of false a m) + 1) a next m)

  -- The replacement of the transaction `old` at position `p` of the queue `q`.
  unfoldable pub replace :
      Bool → Transaction → Transaction → ℕ → List Transaction → Mempool → Mempool × Bool
  replace is_pending t old p q m =
      if leb (min_replacement_price old) (price t)
      then (put_queue is_pending (sender t) (set q p t) (clean_up old m), true)
      else (m, false)

  -- The insertion at a free position.
  unfoldable pub insert_new : Bool → Transaction → ℕ → List Transaction → Mempool → Mempool × Bool
  insert_new is_pending t p q m =
      let m' = put_queue is_pending (sender t) (insert_at p t q) m in
      (if is_pending then promote_queued (sender t) (add64 t.nonce 1) m' else m', true)

  -- What the position holds decides between a replacement and an insertion.
  unfoldable pub insert_where :
      Bool → Transaction → ℕ → List Transaction → Option Transaction → Mempool → Mempool × Bool
  insert_where is_pending t p q none m = insert_new is_pending t p q m
  insert_where is_pending t p q (some old) m =
      if old.nonce == t.nonce then replace is_pending t old p q m else insert_new is_pending t p q m

  -- `insert_into_queue` below the call that enforces the capacity.
  unfoldable pub insert_sorted : Bool → Transaction → Mempool → Mempool × Bool
  insert_sorted is_pending t m =
      let q = queue_of is_pending (sender t) m in
      let p = position (bs.search (nonces q) t.nonce) in
      insert_where is_pending t p q (get_elem? q p) m

  -- `roll` is the random byte that decides whether the capacity is enforced.
  unfoldable pub insert_into_queue : ℕ → Bool → Transaction → Mempool → Mempool × Bool
  insert_into_queue roll is_pending t m =
      insert_sorted is_pending t (if roll % 16 == 0 then enforce_capacity max_mempool_size m else m)

  -- The nonce that follows the last pending one, and at least the account's.
  unfoldable pub next_pending_nonce : ℕ → ℕ → Mempool → ℕ
  next_pending_nonce a current m =
      max (elim (back (queue_of true a m)) [ none ↦ current | some t ↦ add64 t.nonce 1 ]) current

  -- The metrics after an insertion.
  unfoldable pub count_result : Mempool × Bool → Mempool × Bool
  count_result (m, true) = (record m { mempool_size = len m }, true)
  count_result (m, false) = (record m { rejected = m.rejected + 1 }, false)

  unfoldable pub add_transaction : ℕ → Transaction → ℕ → Mempool → Mempool × Bool
  add_transaction roll t current m =
      if ltb t.nonce current
      then (record m { rejected = m.rejected + 1 }, false)
      else count_result
          (insert_into_queue roll (leb t.nonce (next_pending_nonce (sender t) current m)) t m)

  -- Without the account's nonce, 0 stands for it.
  unfoldable pub add_transaction_no_nonce_sync : ℕ → Transaction → Mempool → Mempool × Bool
  add_transaction_no_nonce_sync roll t m = add_transaction roll t 0 m

-- `next_expected_nonce`: the first nonce from the account's on that is not pending, where the queue
-- is sorted; the loop stops at the first gap.
unfoldable pub expected_from : ℕ → List Transaction → ℕ
expected_from expected [] = expected
expected_from expected (t ∷ q) =
    if ltb expected t.nonce
    then expected
    else expected_from (if t.nonce == expected then add64 expected 1 else expected) q

unfoldable pub next_expected_nonce : ℕ → ℕ → Mempool → ℕ
next_expected_nonce a state_nonce m = elim (lookup a m.pending_transactions) [
  | none ↦ state_nonce
  | some q ↦ expected_from state_nonce q
]
