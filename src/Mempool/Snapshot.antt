-- ===== src/Mempool/Snapshot.antt =====
-- wasix_eth/wasix_eth_core/src/mempool/mempool.rs: `MempoolSnapshot`, the copy of the pending
-- transactions from which a block is built, and its selection by tip, `peek_best_transactions`.
pub mod Heap
pub mod Order
pub mod Selection
pub mod Complete
pub mod Budget
use wasm_based_evm.Prelude.{
  ℕ, zero, suc, ◌+◌, ◌%◌, ◌==◌, Bool, true, false, ◌&&◌, ◌||◌, Option, none, some, List, [], ◌∷◌,
  ◌++◌, Assoc, lookup, insert, ltb, if◌then◌else◌, unwrap_or, length, get_elem?, is_some, add64,
  u64_mod,
}
use wasm_based_evm.Block.{Transaction, eip4844}
use wasm_based_evm.Mempool.State.{Mempool, total, blob_hashes}

pub record Snapshot : Type 0 where
  pub pending : Assoc (List Transaction)
  pub blobs : Assoc ℕ

unfoldable pub snapshot : Mempool → Snapshot
snapshot m = record { pending = m.pending_transactions; blobs = m.blobs }

abbrev pub u32_mod : ℕ
u32_mod = 4294967296

abbrev pub add32 : ℕ → ℕ → ℕ
add32 a b = (a + b) % u32_mod

-- The locals of the loop. An entry of the heap is a tip and the address of a sender.
pub record Pick : Type 0 where
  pub heap : List (ℕ × ℕ)
  pub cursors : Assoc ℕ
  pub gas : ℕ
  pub blob_count : ℕ
  pub chosen : List Transaction

-- The order of the pairs in the heap.
unfoldable pub above : ℕ × ℕ → ℕ × ℕ → Bool
above e f = ltb f.0 e.0 || ((e.0 == f.0) && ltb f.1 e.1)

-- The greatest entry of the heap, and the others.
unfoldable pub better :
    ℕ × ℕ → List (ℕ × ℕ) → Option ((ℕ × ℕ) × List (ℕ × ℕ)) → (ℕ × ℕ) × List (ℕ × ℕ)
better e h none = (e, h)
better e h (some (f, rest)) = if above e f then (e, h) else (f, e ∷ rest)

unfoldable pub pop_best : List (ℕ × ℕ) → Option ((ℕ × ℕ) × List (ℕ × ℕ))
pop_best [] = none
pop_best (e ∷ h) = some (better e h (pop_best h))

unfoldable pub all_present : Assoc ℕ → List ℕ → Bool
all_present blobs [] = true
all_present blobs (h ∷ hs) = is_some (lookup h blobs) && all_present blobs hs

-- `h.len() as u32` of a blob transaction, 0 for another kind.
unfoldable pub count_blobs : Transaction → ℕ
count_blobs t = length (blob_hashes t) % u32_mod

-- The checks of a blob transaction against the limit, and that its blobs are here.
unfoldable pub check_blobs : Assoc ℕ → ℕ → ℕ → Transaction → Bool
check_blobs blobs max_blobs current t = elim t.kind [
  | eip4844 ↦
      if ltb max_blobs (add32 current (count_blobs t))
      then false
      else all_present blobs (blob_hashes t)
  | _ ↦ true
]

-- The checks of the best transaction against the limits of the block.
unfoldable pub is_eligible : Assoc ℕ → ℕ → ℕ → Pick → Transaction → Bool
is_eligible blobs target max_blobs p t =
    if ltb target (add64 p.gas t.gas_limit)
    then false
    else check_blobs blobs max_blobs p.blob_count t

-- `effective_tip_per_gas` of a transaction at a base fee is alloy's.
module _ (effective_tip : Transaction → ℕ → Option ℕ) (base_fee : ℕ) where
  -- The entry of a sender's next transaction is pushed when its tip is not none.
  unfoldable pub push : ℕ → Option Transaction → List (ℕ × ℕ) → List (ℕ × ℕ)
  push a none h = h
  push a (some t) h = elim (effective_tip t base_fee) [ none ↦ h | some tip ↦ (tip, a) ∷ h ]

  -- A sender whose first transaction has a tip gets a cursor.
  unfoldable pub open_cursor : ℕ → Option Transaction → Assoc ℕ → Assoc ℕ
  open_cursor a none cursors = cursors
  open_cursor a (some t) cursors = elim (effective_tip t base_fee) [
    | none ↦ cursors
    | some tip ↦ insert a 0 cursors
  ]

  -- The loop that fills the heap; the order of the map's entries does not matter to a heap.
  unfoldable pub fill : Assoc (List Transaction) → List (ℕ × ℕ)
  fill [] = []
  fill ((a, q) ∷ m) = push a (get_elem? q 0) (fill m)

  unfoldable pub open_cursors : Assoc (List Transaction) → Assoc ℕ
  open_cursors [] = []
  open_cursors ((a, q) ∷ m) = open_cursor a (get_elem? q 0) (open_cursors m)

  unfoldable pub start : Snapshot → Pick
  start s = record {
    heap = fill s.pending;
    cursors = open_cursors s.pending;
    gas = 0;
    blob_count = 0;
    chosen = [];
  }

  -- The transaction `t` at the cursor `c` of the queue `q` is chosen.
  unfoldable pub choose : ℕ → List Transaction → ℕ → Transaction → Pick → Pick
  choose a q c t p = record {
    heap = push a (get_elem? q (suc c)) p.heap;
    cursors = insert a (suc c) p.cursors;
    gas = add64 p.gas t.gas_limit;
    blob_count = add32 p.blob_count (count_blobs t);
    chosen = p.chosen ++ (t ∷ []);
  }

  module _ (s : Snapshot) (target max_blobs : ℕ) where
    unfoldable pub consider : ℕ → List Transaction → ℕ → Transaction → Pick → Pick
    consider a q c t p = if is_eligible s.blobs target max_blobs p t then choose a q c t p else p

    -- The body of the loop after the pop. `none` is the panic of an `unwrap`.
    unfoldable pub take_turn : ℕ → Pick → Option Pick
    take_turn a p = elim (lookup a s.pending) [
      | none ↦ none
      | some q ↦ elim (lookup a p.cursors) [
        | none ↦ none
        | some c ↦ elim (get_elem? q c) [ none ↦ none | some t ↦ some (consider a q c t p) ]
      ]
    ]

    -- The loop. Each round takes an entry off the heap; `none` is a panic or the end of the fuel.
    unfoldable pub pick : ℕ → Pick → Option (List Transaction)
    pick zero p = none
    pick (suc fuel) p = elim (ltb p.gas target) [
      | false ↦ some p.chosen
      | true ↦ elim (pop_best p.heap) [
        | none ↦ some p.chosen
        | some (e, rest) ↦ elim (take_turn e.1 (record p { heap = rest })) [
          | none ↦ none
          | some p' ↦ pick fuel p'
        ]
      ]
    ]

  -- The fuel is one round for each sender and each transaction. `base_fee.to::<u64>()` panics above
  -- a u64.
  unfoldable pub peek_best_transactions : Snapshot → ℕ → Option ℕ → Option (List Transaction)
  peek_best_transactions s target max_blobs_per_block = elim (ltb base_fee u64_mod) [
    | false ↦ none
    | true ↦
        pick s target (unwrap_or max_blobs_per_block 6) (length s.pending + total s.pending + 1)
          (start s)
  ]
