-- ===== src/Consensus.antt =====
-- wasix_eth/wasix_eth_core/src/consensus.rs: `EthConsensus`, the checks of headers, bodies and
-- execution results, and the base fee; with `calc_excess_blob_gas` and `calc_blob_gasprice` of
-- wasix_eth/wasix_eth_types/src/lib.rs. A check returns `ok tt`, one of its errors, or panics.
pub mod BaseFee
pub mod HeaderRules
pub mod BodyRules
pub mod Blobs
use wasm_based_evm.Prelude.{
  ℕ, ◌-◌, ◌*◌, ◌/◌, max, Bool, true, false, not, ◌&&◌, Option, none, some, List, [], ◌∷◌, ◌++◌, ltb,
  leb, ◌==◌, opt_eq, is_some, unwrap_or, if◌then◌else◌, length, Outcome, ok, err, panic, ◌>>=◌,
  ◌>>◌, ensure, add64, mul64, mul128, as_u64,
}
use wasm_based_evm.Block.{Header, Body, Block, Transaction, TxKind, eip4844, eip7702}
use wasm_based_evm.Hardfork.{
  Hardfork, ChainConfig, BlobParams, rank, at_least, london, paris, shanghai, cancun, prague,
  get_active_fork_with_total_difficulty, blob_params, is_cancun_active,
}

-- The messages of the checks, one constructor for each.
pub data Rejection : Type 0 where
  invalid_number timestamp_not_after_parent timestamp_in_future : Rejection
  gas_limit_too_low invalid_gas_limit_change gas_used_above_limit extra_data_too_long : Rejection
  base_fee_missing invalid_base_fee : Rejection
  merged_difficulty merged_nonce merged_ommers : Rejection
  withdrawals_root_missing withdrawals_root_early : Rejection
  blob_gas_used_missing excess_blob_gas_missing beacon_root_missing : Rejection
  invalid_excess_blob_gas excess_at_transition blob_gas_above_maximum : Rejection
  blob_gas_used_early excess_blob_gas_early beacon_root_early : Rejection
  requests_hash_missing requests_hash_early : Rejection
  invalid_transactions_root invalid_ommers_hash : Rejection
  invalid_withdrawals_root withdrawals_missing : Rejection
  invalid_blob_gas_used blob_gas_not_in_header set_code_before_prague : Rejection
  gas_used_mismatch receipts_root_mismatch logs_bloom_mismatch state_root_mismatch : Rejection
  versioned_hashes_mismatch beacon_root_mismatch : Rejection

-- What the checks call: the table of total difficulties, and the functions of the alloy crates.
pub record EthConsensus : Type 0 where
  pub header_td : ℕ → Option ℕ
  pub hash_slow : Header → ℕ
  pub fake_exponential : ℕ → ℕ → ℕ → ℕ
  pub calculate_transaction_root : List Transaction → ℕ
  pub calculate_withdrawals_root : List ℕ → ℕ
  pub hash_of_ommers : List Header → ℕ
  pub empty_ommer_root_hash : ℕ

abbrev pub data_gas_per_blob : ℕ
data_gas_per_blob = 131072

abbrev pub target_blob_gas_per_block : ℕ
target_blob_gas_per_block = 393216

abbrev pub max_blob_gas_per_block : ℕ
max_blob_gas_per_block = 786432

abbrev pub blob_gasprice_update_fraction : ℕ
blob_gasprice_update_fraction = 3338477

abbrev pub initial_base_fee : ℕ
initial_base_fee = 1000000000

abbrev pub Check : Type 0 → Type 0
Check A = Outcome Rejection A

-- A division of the source, which panics at a divisor of zero.
abbrev pub checked_div : ℕ → ℕ → Check ℕ
checked_div a b = if b == 0 then panic else ok (a / b)

unfoldable pub base_fee_delta : ℕ → ℕ → ℕ → Check ℕ
base_fee_delta fee gas_used_delta gas_target = do
  share ← checked_div (mul128 fee gas_used_delta) gas_target
  ok (as_u64 (share / 8))

-- The two branches below the `?` on the parent's base fee.
unfoldable pub next_base_fee_from : ℕ → Header → Check (Option ℕ)
unfolding base_fee_delta
next_base_fee_from fee parent =
    let target = parent.gas_limit / 2 in
    if parent.gas_used == target
    then ok (some fee)
    else if ltb target parent.gas_used
    then (base_fee_delta fee (parent.gas_used - target) target >>= λ d.
        ok (some (add64 fee (max d 1))))
    else (base_fee_delta fee (target - parent.gas_used) target >>= λ d. ok (some (fee - d)))

unfoldable pub calculate_next_base_fee : Header → Check (Option ℕ)
unfolding next_base_fee_from
calculate_next_base_fee parent = elim parent.base_fee_per_gas [
  | none ↦ ok none
  | some fee ↦ next_base_fee_from fee parent
]

unfoldable pub calc_excess_blob_gas : Option ℕ → Option ℕ → ℕ → ℕ
calc_excess_blob_gas excess used target = add64 (unwrap_or excess 0) (unwrap_or used 0) - target

module _ (con : EthConsensus) where
  unfoldable pub calc_blob_gasprice : ℕ → ℕ → ℕ
  calc_blob_gasprice excess update_fraction = con.fake_exponential 1 excess update_fraction

  -- The target gas and the update fraction of a fork.
  unfoldable pub blob_target : Option BlobParams → ℕ × ℕ
  blob_target (some p) = (mul64 p.target_blob_count data_gas_per_blob, p.update_fraction)
  blob_target none = (target_blob_gas_per_block, blob_gasprice_update_fraction)

  unfoldable pub fork_at : ChainConfig → ℕ → ℕ → ℕ → Hardfork
  fork_at c hash number timestamp =
      get_active_fork_with_total_difficulty c number timestamp (con.header_td hash)

  unfoldable pub calculate_next_blob_base_fee : Header → ChainConfig → Option ℕ
  unfolding calc_blob_gasprice blob_target fork_at
  calculate_next_blob_base_fee parent c = elim parent.excess_blob_gas [
    | none ↦ none
    | some excess ↦ elim parent.blob_gas_used [
      | none ↦ none
      | some used ↦
          let fork =
            fork_at c (con.hash_slow parent) (add64 parent.number 1) (add64 parent.timestamp 1) in
          let t = blob_target (blob_params fork c) in
          some (calc_blob_gasprice (calc_excess_blob_gas (some excess) (some used) t.0) t.1)
    ]
  ]

-- 1. and 2. of `validate_header`: the number and the timestamp.
unfoldable pub check_position : ℕ → Header → Header → Check Unit
check_position now h p = do
  ensure (h.number == add64 p.number 1) invalid_number
  ensure (ltb p.timestamp h.timestamp) timestamp_not_after_parent
  ensure (leb h.timestamp (add64 now 15)) timestamp_in_future

-- The gas limit that the header's is measured against.
unfoldable pub target_gas_limit : Hardfork → Hardfork → Header → ℕ
target_gas_limit parent_fork fork p =
    if ltb (rank parent_fork) (rank london) && at_least fork london
    then mul64 p.gas_limit 2
    else p.gas_limit

abbrev pub distance : ℕ → ℕ → ℕ
distance a b = if ltb b a then a - b else b - a

-- 3. to 5.: the gas limit, the gas used and the extra data.
unfoldable pub check_gas : Hardfork → Hardfork → Header → Header → Check Unit
check_gas parent_fork fork h p = do
  ensure (leb 5000 h.gas_limit) gas_limit_too_low
  let target = target_gas_limit parent_fork fork p
  ensure (ltb (distance h.gas_limit target) (target / 1024)) invalid_gas_limit_change
  ensure (leb h.gas_used h.gas_limit) gas_used_above_limit
  ensure (leb (length h.extra_data) 32) extra_data_too_long

-- The fee that is expected, if the parent's gives one.
unfoldable pub match_base_fee : ℕ → Option ℕ → Option ℕ → Check Unit
match_base_fee actual parent_fee none = ok tt
match_base_fee actual parent_fee (some expected) =
    ensure (actual == (if is_some parent_fee then expected else initial_base_fee)) invalid_base_fee

-- 6.: the base fee.
unfoldable pub check_base_fee : Hardfork → Header → Header → Check Unit
check_base_fee fork h p =
    if at_least fork london
    then elim h.base_fee_per_gas [
      | none ↦ err base_fee_missing
      | some actual ↦ calculate_next_base_fee p >>= match_base_fee actual p.base_fee_per_gas
    ]
    else ok tt

-- 7.: the fields that the merge fixed.
unfoldable pub check_merge : EthConsensus → Hardfork → Header → Check Unit
check_merge con fork h = elim (at_least fork paris) [
  | false ↦ ok tt
  | true ↦ do
    ensure (h.difficulty == 0) merged_difficulty
    ensure (h.nonce == 0) merged_nonce
    ensure (h.ommers_hash == con.empty_ommer_root_hash) merged_ommers
]

-- 8., a field that is there from a fork on.
abbrev pub check_field : Bool → Option ℕ → Rejection → Rejection → Check Unit
check_field active o missing early =
    if active then ensure (is_some o) missing else ensure (not (is_some o)) early

-- The maximal blob gas of a block.
unfoldable pub max_blob_gas : Hardfork → ChainConfig → ℕ
max_blob_gas fork c = elim (blob_params fork c) [
  | none ↦ max_blob_gas_per_block
  | some p ↦ mul64 p.max_blob_count data_gas_per_blob
]

unfoldable pub target_blob_gas : Hardfork → ChainConfig → ℕ
target_blob_gas fork c = elim (blob_params fork c) [
  | none ↦ target_blob_gas_per_block
  | some p ↦ mul64 p.target_blob_count data_gas_per_blob
]

-- The Cancun block of 8., where the three fields are there.
unfoldable pub check_blob_gas : Hardfork → Hardfork → ChainConfig → Header → Header → Check Unit
check_blob_gas parent_fork fork c h p = do
  (if is_cancun_active parent_fork
      then ensure
          (unwrap_or h.excess_blob_gas 0
            == calc_excess_blob_gas p.excess_blob_gas p.blob_gas_used (target_blob_gas fork c))
          invalid_excess_blob_gas
      else ensure (unwrap_or h.excess_blob_gas 0 == 0) excess_at_transition)
  ensure (leb (unwrap_or h.blob_gas_used 0) (max_blob_gas fork c)) blob_gas_above_maximum

unfoldable pub check_cancun : Hardfork → Hardfork → ChainConfig → Header → Header → Check Unit
check_cancun parent_fork fork c h p = elim (at_least fork cancun) [
  | true ↦ do
    ensure (is_some h.blob_gas_used) blob_gas_used_missing
    ensure (is_some h.excess_blob_gas) excess_blob_gas_missing
    ensure (is_some h.parent_beacon_block_root) beacon_root_missing
    check_blob_gas parent_fork fork c h p
  | false ↦ do
    ensure (not (is_some h.blob_gas_used)) blob_gas_used_early
    ensure (not (is_some h.excess_blob_gas)) excess_blob_gas_early
    ensure (not (is_some h.parent_beacon_block_root)) beacon_root_early
]

-- The checks in the order of the source; `now` is the time of the system clock.
unfoldable pub validate_header : EthConsensus → ℕ → Header → Header → ChainConfig → Check Unit
validate_header con now h p c = do
  check_position now h p
  let parent_fork = fork_at con c (con.hash_slow p) p.number p.timestamp
  let fork = fork_at con c (con.hash_slow p) h.number h.timestamp
  check_gas parent_fork fork h p
  check_base_fee fork h p
  check_merge con fork h
  check_field (at_least fork shanghai) h.withdrawals_root withdrawals_root_missing
      withdrawals_root_early
  check_cancun parent_fork fork c h p
  check_field (at_least fork prague) h.requests_hash requests_hash_missing requests_hash_early

-- `h.len()` of the hashes that a transaction of the blob kind has, else 0.
unfoldable pub num_blobs : Transaction → ℕ
num_blobs t = elim t.kind [
  | eip4844 ↦ elim t.blob_versioned_hashes [ none ↦ 0 | some hashes ↦ length hashes ]
  | _ ↦ 0
]

-- The loop that sums the blob gas.
unfoldable pub blob_gas_from : ℕ → List Transaction → ℕ
blob_gas_from acc [] = acc
blob_gas_from acc (t ∷ ts) = blob_gas_from (add64 acc (mul64 (num_blobs t) 131072)) ts

unfoldable pub check_withdrawals : EthConsensus → Option (List ℕ) → Option ℕ → Check Unit
check_withdrawals con (some ws) root =
    ensure (opt_eq (some (con.calculate_withdrawals_root ws)) root) invalid_withdrawals_root
check_withdrawals con none root = ensure (not (is_some root)) withdrawals_missing

unfoldable pub check_blob_total : ℕ → Option ℕ → Check Unit
check_blob_total total (some used) = ensure (total == used) invalid_blob_gas_used
check_blob_total total none = ensure (not (ltb 0 total)) blob_gas_not_in_header

-- The loop over the transactions of EIP-7702.
unfoldable pub check_set_code : Bool → List Transaction → Check Unit
check_set_code is_prague [] = ok tt
check_set_code is_prague (t ∷ ts) = elim t.kind [
  | eip7702 ↦ ensure is_prague set_code_before_prague >> check_set_code is_prague ts
  | _ ↦ check_set_code is_prague ts
]

unfoldable pub validate_body : EthConsensus → Block → ChainConfig → Check Unit
validate_body con b c = do
  let h = b.header
  let fork = fork_at con c h.parent_hash h.number h.timestamp
  ensure (con.calculate_transaction_root b.body.transactions == h.transactions_root)
      invalid_transactions_root
  ensure (con.hash_of_ommers b.body.ommers == h.ommers_hash) invalid_ommers_hash
  check_withdrawals con b.body.withdrawals h.withdrawals_root
  check_blob_total (blob_gas_from 0 b.body.transactions) h.blob_gas_used
  check_set_code (at_least fork prague) b.body.transactions

unfoldable pub validate_block_post_execution : Block → ℕ → ℕ → ℕ → ℕ → Check Unit
validate_block_post_execution b cumulative_gas_used receipts_root logs_bloom state_root = do
  ensure (b.header.gas_used == cumulative_gas_used) gas_used_mismatch
  ensure (b.header.receipts_root == receipts_root) receipts_root_mismatch
  ensure (b.header.logs_bloom == logs_bloom) logs_bloom_mismatch
  ensure (b.header.state_root == state_root) state_root_mismatch

-- The versioned hashes of one transaction of the blob kind.
unfoldable pub hashes_of : Transaction → List ℕ
hashes_of t = elim t.kind [
  | eip4844 ↦ elim t.blob_versioned_hashes [ none ↦ [] | some hashes ↦ hashes ]
  | _ ↦ []
]

-- The loop that extends `actual_hashes`.
unfoldable pub hashes_from : List ℕ → List Transaction → List ℕ
hashes_from acc [] = acc
hashes_from acc (t ∷ ts) = hashes_from (acc ++ hashes_of t) ts

abbrev pub list_eq : List ℕ → List ℕ → Bool
list_eq [] [] = true
list_eq (x ∷ xs) (y ∷ ys) = x == y && list_eq xs ys
list_eq _ _ = false

unfoldable pub validate_cancun : Block → Option (List ℕ) → Check Unit
validate_cancun b none = ok tt
validate_cancun b (some expected) =
    ensure (list_eq (hashes_from [] b.body.transactions) expected) versioned_hashes_mismatch

unfoldable pub validate_parent_beacon_block_root : Header → Option ℕ → Check Unit
validate_parent_beacon_block_root h none = ok tt
validate_parent_beacon_block_root h (some root) =
    ensure (opt_eq h.parent_beacon_block_root (some root)) beacon_root_mismatch
