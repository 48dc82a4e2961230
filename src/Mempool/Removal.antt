-- ===== src/Mempool/Removal.antt =====
-- mempool.rs: `remove_transactions`, which takes the transactions of a block out of both pools, and
-- `get_all_transactions`.
use wasm_based_evm.Prelude.{
  ℕ, Bool, false, List, [], ◌∷◌, ◌++◌, Assoc, ◌==◌, ◌||◌, if◌then◌else◌, is_empty,
}
use wasm_based_evm.Block.{Transaction}
use wasm_based_evm.Mempool.State.{Mempool, len, clean_up}

unfoldable pub contains : List ℕ → ℕ → Bool
contains [] h = false
contains (x ∷ xs) h = x == h || contains xs h

-- `retain`, with the transactions that go.
unfoldable pub keep_txs : List ℕ → List Transaction → List Transaction
unfolding contains
keep_txs hashes [] = []
keep_txs hashes (t ∷ q) =
    let rest = keep_txs hashes q in if contains hashes t.hash then rest else t ∷ rest

unfoldable pub drop_txs : List ℕ → List Transaction → List Transaction
unfolding contains
drop_txs hashes [] = []
drop_txs hashes (t ∷ q) =
    let rest = drop_txs hashes q in if contains hashes t.hash then t ∷ rest else rest

-- Over the queues of a pool, the empty ones dropped.
unfoldable pub keep_pool : List ℕ → Assoc (List Transaction) → Assoc (List Transaction)
unfolding keep_txs
keep_pool hashes [] = []
keep_pool hashes ((a, q) ∷ m) =
    let rest = keep_pool hashes m in
    if is_empty (keep_txs hashes q) then rest else (a, keep_txs hashes q) ∷ rest

unfoldable pub drop_pool : List ℕ → Assoc (List Transaction) → List Transaction
unfolding drop_txs
drop_pool hashes [] = []
drop_pool hashes ((a, q) ∷ m) = drop_txs hashes q ++ drop_pool hashes m

unfoldable pub clean_up_all : List Transaction → Mempool → Mempool
clean_up_all [] m = m
clean_up_all (t ∷ ts) m = clean_up_all ts (clean_up t m)

unfoldable pub remove_transactions : List ℕ → Mempool → Mempool
unfolding keep_pool drop_pool clean_up_all
remove_transactions hashes m =
    let removed =
      drop_pool hashes m.pending_transactions ++ drop_pool hashes m.queued_transactions in
    let m' = record (clean_up_all removed m) {
      pending_transactions = keep_pool hashes m.pending_transactions;
      queued_transactions = keep_pool hashes m.queued_transactions;
    } in
    record m' { mempool_size = len m' }

unfoldable pub all_of : Assoc (List Transaction) → List Transaction
all_of [] = []
all_of ((a, q) ∷ m) = q ++ all_of m

unfoldable pub get_all_transactions : Mempool → List Transaction
unfolding all_of
get_all_transactions m = all_of m.pending_transactions ++ all_of m.queued_transactions
