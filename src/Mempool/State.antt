-- ===== src/Mempool/State.antt =====
-- wasix_eth/wasix_eth_core/src/mempool/mempool.rs: the state `MempoolInner`, its size, the effective
-- tip, and the data of removed transactions that is cleaned up.
use wasm_based_evm.Prelude.{
  ℕ, zero, ◌+◌, ◌-◌, min, Bool, true, false, List, [], ◌∷◌, Assoc, remove, ltb, if◌then◌else◌,
  unwrap_or, length,
}
use wasm_based_evm.Block.{Transaction, legacy, eip2930, eip4844}

-- A queue is a vector of one sender's transactions. An envelope, the bytes of a transaction and a
-- blob with its proofs are named by numbers. The last two fields are the metrics.
pub record Mempool : Type 0 where
  pub pending_transactions : Assoc (List Transaction)
  pub queued_transactions : Assoc (List Transaction)
  pub pooled_envelopes : Assoc ℕ
  pub pooled_bytes : Assoc ℕ
  pub blobs : Assoc ℕ
  pub base_fee : ℕ
  pub mempool_size : ℕ
  pub rejected : ℕ

unfoldable pub new : ℕ → Mempool
new base_fee = record {
  pending_transactions = [];
  queued_transactions = [];
  pooled_envelopes = [];
  pooled_bytes = [];
  blobs = [];
  base_fee = base_fee;
  mempool_size = 0;
  rejected = 0;
}

abbrev pub max_mempool_size : ℕ
max_mempool_size = 50000

-- `recover_signer().unwrap_or_default()`.
abbrev pub sender : Transaction → ℕ
sender t = unwrap_or t.signer 0

abbrev pub price : Transaction → ℕ
price t = unwrap_or t.gas_price 0

-- The sum of the lengths of the queues.
unfoldable pub total : Assoc (List Transaction) → ℕ
total [] = 0
total ((a, q) ∷ m) = length q + total m

unfoldable pub len : Mempool → ℕ
len m = total m.pending_transactions + total m.queued_transactions

unfoldable pub is_empty_pool : Mempool → Bool
is_empty_pool m = elim (len m) [ zero ↦ true | _ ↦ false ]

-- The base fee fits a `u128`.
unfoldable pub calculate_effective_tip : Transaction → ℕ → ℕ
calculate_effective_tip t base_fee = if ltb t.max_fee_per_gas base_fee then 0 else elim t.kind [
  | legacy ↦ t.max_fee_per_gas - base_fee
  | eip2930 ↦ t.max_fee_per_gas - base_fee
  | _ ↦ min (t.max_fee_per_gas - base_fee) (unwrap_or t.max_priority_fee_per_gas 0)
]

-- `for h in hashes { self.blobs.remove(h); }`.
unfoldable pub remove_all : List ℕ → Assoc ℕ → Assoc ℕ
remove_all [] m = m
remove_all (h ∷ hs) m = remove_all hs (remove h m)

-- The hashes whose blobs go with a transaction.
unfoldable pub blob_hashes : Transaction → List ℕ
blob_hashes t = elim t.kind [ eip4844 ↦ unwrap_or t.blob_versioned_hashes [] | _ ↦ [] ]

-- What is removed with a transaction that is replaced, popped or included.
unfoldable pub clean_up : Transaction → Mempool → Mempool
clean_up t m = record m {
  blobs = remove_all (blob_hashes t) m.blobs;
  pooled_envelopes = remove t.hash m.pooled_envelopes;
  pooled_bytes = remove t.hash m.pooled_bytes;
}

unfoldable pub clear : Mempool → Mempool
clear m = record m { pending_transactions = []; queued_transactions = []; mempool_size = 0 }
