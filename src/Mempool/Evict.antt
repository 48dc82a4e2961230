-- ===== src/Mempool/Evict.antt =====
-- mempool.rs: `enforce_capacity`, which evicts the last transaction of a queue with the lowest
-- effective tip, and `pop_transactions`, which takes the first of a queue with the highest.
use wasm_based_evm.Prelude.{
  ℕ, zero, suc, ◌+◌, Bool, true, false, ◌&&◌, ◌||◌, not, Option, none, some, List, [], ◌∷◌, ◌++◌,
  Assoc, insert, remove, lookup, ltb, leb, ◌==◌, if◌then◌else◌, is_some, unwrap_or, length,
  is_empty,
}
use wasm_based_evm.Block.{Transaction}
use wasm_based_evm.Vector.{front, back, pop_back}
use wasm_based_evm.Mempool.State.{Mempool, len, calculate_effective_tip, clean_up}

-- `u128::MAX`.
abbrev pub max_tip : ℕ
max_tip = 340282366920938463463374607431768211455

-- The candidate so far: its address and pool, if there is one, and its tip.
pub record Worst : Type 0 where
  pub sender : Option (ℕ × Bool)
  pub tip : ℕ

-- The last transaction of a queue against the candidate.
unfoldable pub consider_worst : ℕ → Bool → ℕ → Option Transaction → Worst → Worst
consider_worst base_fee is_pending a none w = w
consider_worst base_fee is_pending a (some t) w =
    if ltb (calculate_effective_tip t base_fee) w.tip
    then record { sender = some (a, is_pending); tip = calculate_effective_tip t base_fee }
    else w

-- One scan over the queues of a pool.
unfoldable pub scan_worst : ℕ → Bool → Assoc (List Transaction) → Worst → Worst
scan_worst base_fee is_pending [] w = w
scan_worst base_fee is_pending ((a, q) ∷ m) w =
    scan_worst base_fee is_pending m (consider_worst base_fee is_pending a (back q) w)

-- The pending queues are looked at if the queued ones gave nothing.
unfoldable pub find_worst : Mempool → ℕ → Worst
find_worst m base_fee =
    let w =
      scan_worst base_fee false m.queued_transactions (record { sender = none; tip = max_tip }) in
    if not (is_some w.sender) || is_empty m.queued_transactions
    then scan_worst base_fee true m.pending_transactions w
    else w

-- Drops the last transaction of a queue, and the queue if that empties it.
unfoldable pub shrink : ℕ → Assoc (List Transaction) → Assoc (List Transaction)
shrink a m = elim (lookup a m) [
  | none ↦ m
  | some q ↦ if is_empty (pop_back q) then remove a m else insert a (pop_back q) m
]

unfoldable pub evict : ℕ × Bool → Mempool → Mempool
evict (a, true) m = record m { pending_transactions = shrink a m.pending_transactions }
evict (a, false) m = record m { queued_transactions = shrink a m.queued_transactions }

-- `while self.len() > max_size`.
unfoldable pub evict_loop : ℕ → ℕ → ℕ → Mempool → Mempool
evict_loop zero base_fee max_size m = m
evict_loop (suc fuel) base_fee max_size m = elim (ltb max_size (len m)) [
  | false ↦ m
  | true ↦ elim ((find_worst m base_fee).sender) [
    | none ↦ m
    | some s ↦ evict_loop fuel base_fee max_size (evict s m)
  ]
]

-- A round evicts one transaction, so that their number is enough fuel.
unfoldable pub enforce_capacity : ℕ → Mempool → Mempool
enforce_capacity max_size m =
    if leb (len m) max_size
    then m
    else let m' = evict_loop (len m) m.base_fee max_size m in record m' { mempool_size = len m' }

pub record Best : Type 0 where
  pub sender : Option ℕ
  pub tip : ℕ

unfoldable pub scan_best : ℕ → Assoc (List Transaction) → Best → Best
scan_best base_fee [] b = b
scan_best base_fee ((a, q) ∷ m) b = scan_best base_fee m (elim (front q) [
  | none ↦ b
  | some t ↦
      let tip = calculate_effective_tip t base_fee in
      if ltb b.tip tip || (tip == b.tip && not (is_some b.sender))
      then record { sender = some a; tip = tip }
      else b
])

-- Takes the first transaction of a sender's queue, and the queue if that empties it.
unfoldable pub pop_sender : ℕ → List Transaction → Mempool → Option Transaction × Mempool
pop_sender a q m = elim q [
  | [] ↦ (none, record m { pending_transactions = remove a m.pending_transactions })
  | t ∷ rest ↦ (
    some t,
    record (clean_up t m) {
      pending_transactions =
          if is_empty rest
          then remove a m.pending_transactions
          else insert a rest m.pending_transactions;
    },
  )
]

abbrev pub to_list : Option Transaction → List Transaction
to_list none = []
to_list (some t) = t ∷ []

-- `while result.len() < n`: every round looks at the queues anew.
unfoldable pub pop_loop : ℕ → ℕ → ℕ → List Transaction → Mempool → List Transaction × Mempool
pop_loop zero base_fee n result m = (result, m)
pop_loop (suc fuel) base_fee n result m = elim (ltb (length result) n) [
  | false ↦ (result, m)
  | true ↦
      elim ((scan_best base_fee m.pending_transactions
        (record { sender = none; tip = 0 })).sender) [
          | none ↦ (result, m)
          | some a ↦
              let popped = pop_sender a (unwrap_or (lookup a m.pending_transactions) []) m in
              pop_loop fuel base_fee n (result ++ to_list popped.0) popped.1
        ]
]

-- A round that goes on takes a transaction or removes an empty queue.
unfoldable pub pop_transactions : ℕ → Mempool → List Transaction × Mempool
pop_transactions n m =
    let (result, m') = pop_loop (len m + length m.pending_transactions + 1) m.base_fee n [] m in
    (result, if is_empty result then m' else record m' { mempool_size = len m' })
