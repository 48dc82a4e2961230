-- ===== src/Tests.antt =====
-- Concrete data, and the theorems applied to it: a search, transactions, headers, a configuration
-- and a small chain.
pub mod Pool
pub mod Headers
pub mod Chains
pub mod Peers
pub mod Sessions
pub mod State
pub mod Engines
use wasm_based_evm.Prelude.{
  ℕ, zero, suc, ◌<◌, Bool, true, false, Option, none, some, List, [], ◌∷◌, ◌==◌, ltb, if◌then◌else◌,
  ok, get_elem?, All, All-map, ◌≡◌, ◌≢◌, refl, arith, Bool-cases, ==_iff, ◌⊎◌, inl, inr,
}
use mathlib.Core.Path.{subst}
use wasm_based_evm.Block.{Transaction, Header, Block, TxKind, legacy, eip1559}
use wasm_based_evm.Vector.{BinarySearch, SearchResult, found, missing, IsSorted, Splits}
use wasm_based_evm.Chain.Storage.{Storage}
use wasm_based_evm.Chain.Tree.{BlockTree, empty_tree}

abbrev pub shift : SearchResult → SearchResult
shift (found p) = found (suc p)
shift (missing p) = missing (suc p)

-- The search from the front.
unfoldable pub search_from_front : List ℕ → ℕ → SearchResult
search_from_front [] k = missing 0
search_from_front (j ∷ js) k =
    let rest = shift (search_from_front js k) in
    if j == k then found 0 else if ltb k j then missing 0 else rest

shift-found : (r : SearchResult) (p : ℕ) → shift r ≡ found (suc p) → r ≡ found p
shift-found (found q) p e = ground arith
shift-found (missing q) p e = absurd (ground arith)

shift-missing : (r : SearchResult) (p : ℕ) → shift r ≡ missing (suc p) → r ≡ missing p
shift-missing (found q) p e = absurd (ground arith)
shift-missing (missing q) p e = ground arith

shift-front : (r : SearchResult) → (shift r ≢ found 0) × (shift r ≢ missing 0)
shift-front (found q) = ((λ e. ground (arith, e)), (λ e. ground (arith, e)))
shift-front (missing q) = ((λ e. ground (arith, e)), (λ e. ground (arith, e)))

pub search-at_found :
    (ks : List ℕ) (k p : ℕ) → search_from_front ks k ≡ found p → get_elem? ks p ≡ some k
unfolding search_from_front
search-at_found [] k p e = absurd (ground arith)
search-at_found (j ∷ js) k zero e = elim (Bool-cases (j == k)) [
  | inl same ↦ ground (arith, same)
  | inr other ↦ elim (Bool-cases (ltb k j)) [
    | inl past ↦ absurd (ground (arith, rw (other, past) at e))
    | inr before ↦ absurd ((shift-front (search_from_front js k)).0 (rw (other, before) at e))
  ]
]
search-at_found (j ∷ js) k (suc p) e = elim (Bool-cases (j == k)) [
  | inl same ↦ absurd (ground (arith, rw same at e))
  | inr other ↦ elim (Bool-cases (ltb k j)) [
    | inl past ↦ absurd (ground (arith, rw (other, past) at e))
    | inr before ↦ search-at_found js k p (shift-found _ p (rw (other, before) at e))
  ]
]

pub search-at_missing :
    (ks : List ℕ) (k p : ℕ) → IsSorted ks → search_from_front ks k ≡ missing p → Splits k ks p
unfolding search_from_front
search-at_missing [] k zero s e = tt
search-at_missing [] k (suc p) s e = absurd (ground arith)
search-at_missing (j ∷ js) k zero s e = elim (Bool-cases (j == k)) [
  | inl same ↦ absurd (ground (arith, rw same at e))
  | inr other ↦ elim (Bool-cases (ltb k j)) [
    | inl past ↦
        let low : k < j = ground (arith, past) in
        (low, All-map (λ i above. omega (arith, above, low)) js s.0)
    | inr before ↦ absurd ((shift-front (search_from_front js k)).1 (rw (other, before) at e))
  ]
]
search-at_missing (j ∷ js) k (suc p) s e = elim (Bool-cases (j == k)) [
  | inl same ↦ absurd (ground (arith, rw same at e))
  | inr other ↦ elim (Bool-cases (ltb k j)) [
    | inl past ↦ absurd (ground (arith, rw (other, past) at e))
    | inr before ↦ (
      ground (arith, other, before),
      search-at_missing js k p s.1 (shift-missing _ p (rw (other, before) at e)),
    )
  ]
]

unfoldable pub from_front : BinarySearch
from_front = record {
  search = search_from_front;
  at_found = search-at_found;
  at_missing = search-at_missing;
}

-- A transaction of the sender 7.
abbrev pub tx : ℕ → ℕ → Option ℕ → Transaction
tx hash nonce price = record {
  kind = legacy;
  hash = hash;
  signer = some 7;
  nonce = nonce;
  gas_limit = 21000;
  gas_price = price;
  max_fee_per_gas = 100;
  max_priority_fee_per_gas = none;
  blob_versioned_hashes = none;
}

abbrev pub header_of : ℕ → ℕ → Header
header_of parent number = record {
  parent_hash = parent;
  ommers_hash = 0;
  beneficiary = 0;
  state_root = 0;
  transactions_root = 0;
  receipts_root = 0;
  logs_bloom = 0;
  difficulty = 0;
  number = number;
  gas_limit = 30000000;
  gas_used = 0;
  timestamp = number;
  extra_data = [];
  mix_hash = 0;
  nonce = 0;
  base_fee_per_gas = some 1000;
  withdrawals_root = none;
  blob_gas_used = none;
  excess_blob_gas = none;
  parent_beacon_block_root = none;
  requests_hash = none;
}

abbrev pub block_of : ℕ → ℕ → List Transaction → Block
block_of parent number txs = record {
  header = header_of parent number;
  body = record { transactions = txs; ommers = []; withdrawals = none };
}
