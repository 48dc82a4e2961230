-- ===== src/Tests/Headers.antt =====
-- The theorems on the schedule of forks and on the validation of blocks, applied to a block of one
-- blob above a parent of height 0.
use wasm_based_evm.Prelude.{
  ℕ, ◌≤◌, ◌<◌, true, none, some, List, [], ◌∷◌, ok, ◌≡◌, refl, arith, length, ◌⊎◌, ◌↔◌,
}
use wasm_based_evm.Block.{Transaction, Header, Block, eip4844}
use wasm_based_evm.Tests.{tx, header_of, block_of}
use wasm_based_evm.Hardfork.{
  frontier, paris, cancun, ChainConfig, BlobParams, rank, forks, push_fork, at_least, blob_params,
  paris_by_ttd, active_fork, sort_forks, insert_fork, is_cancun_active, is_shanghai_active,
  get_active_fork_with_total_difficulty,
}
use wasm_based_evm.Hardfork.Schedule.{
  get_active_fork_with_total_difficulty-Reached, Any, Reached, TtdReached,
}
use wasm_based_evm.Hardfork.Monotone.{get_active_fork_mono}
use wasm_based_evm.Consensus.{
  EthConsensus, validate_header, validate_body, validate_cancun, calculate_next_base_fee,
  check_position, check_gas, target_gas_limit, fork_at, check_base_fee, match_base_fee, check_merge,
  check_cancun, base_fee_delta, calc_excess_blob_gas, check_blob_gas, max_blob_gas,
  next_base_fee_from, target_blob_gas, check_withdrawals, check_blob_total, blob_gas_from,
  num_blobs, check_set_code, hashes_from, hashes_of,
}
use wasm_based_evm.Consensus.HeaderRules.{validate_header_iff, IsValidChild, fork_of}
use wasm_based_evm.Consensus.BodyRules.{validate_body_iff, IsValidBody, total_blobs}
use wasm_based_evm.Consensus.BaseFee.{
  calculate_next_base_fee-IsNextBaseFee, IsNextBaseFee, transition_fee_unchecked,
}
use wasm_based_evm.Consensus.Blobs.{accepted_blobs_bounded}

abbrev six_blobs : BlobParams
six_blobs = record { target_blob_count = 3; max_blob_count = 6; update_fraction = 3338477 }

abbrev pub config : ChainConfig
config = record {
  homestead_block = some 0;
  eip150_block = none;
  eip155_block = none;
  eip158_block = none;
  byzantium_block = none;
  constantinople_block = none;
  petersburg_block = none;
  istanbul_block = none;
  muir_glacier_block = none;
  berlin_block = none;
  london_block = some 0;
  arrow_glacier_block = none;
  gray_glacier_block = none;
  merge_netsplit_block = some 0;
  shanghai_time = some 0;
  cancun_time = some 0;
  prague_time = none;
  terminal_total_difficulty = none;
  blob_schedule = λ name. some six_blobs;
}

abbrev consensus : EthConsensus
consensus = record {
  header_td = λ hash. none;
  hash_slow = λ h. h.number;
  fake_exponential = λ a b c. a;
  calculate_transaction_root = λ txs. 0;
  calculate_withdrawals_root = λ ws. 0;
  hash_of_ommers = λ hs. 0;
  empty_ommer_root_hash = 0;
}

abbrev parent : Header
parent = record (header_of 0 0) { blob_gas_used = some 0; excess_blob_gas = some 0 }

abbrev blob_tx : Transaction
blob_tx = record (tx 100 0 none) { kind = eip4844; blob_versioned_hashes = some (42 ∷ []) }

abbrev hashes : List ℕ
hashes = 42 ∷ []

abbrev child : Block
child = record (block_of 0 1 (blob_tx ∷ [])) {
  header = record (header_of 0 1) {
    base_fee_per_gas = some 875;
    withdrawals_root = some 0;
    blob_gas_used = some 131072;
    excess_blob_gas = some 0;
    parent_beacon_block_root = some 0;
  };
  body = record { transactions = blob_tx ∷ []; ommers = []; withdrawals = some [] };
}

get_active_fork_with_total_difficulty-Reached_example :
    (get_active_fork_with_total_difficulty config 3 12 none ≡ frontier)
    ⊎ Any (Reached 3 12 (get_active_fork_with_total_difficulty config 3 12 none)) (forks config)
    ⊎ ((get_active_fork_with_total_difficulty config 3 12 none ≡ paris) × TtdReached config none)
get_active_fork_with_total_difficulty-Reached_example =
    get_active_fork_with_total_difficulty-Reached config 3 12 none

get_active_fork_mono_example :
    rank (get_active_fork_with_total_difficulty config 3 12 none)
    ≤ rank (get_active_fork_with_total_difficulty config 4 24 (some 9))
unfolding forks push_fork
get_active_fork_mono_example =
    get_active_fork_mono config 3 4 12 24 none (some 9) (refl, (refl, (refl, (refl, tt))))
      (omega arith) (omega arith) tt

calculate_next_base_fee-IsNextBaseFee_example :
    (f : ℕ) × (calculate_next_base_fee parent ≡ ok (some f)) × IsNextBaseFee 1000 parent f
calculate_next_base_fee-IsNextBaseFee_example =
    calculate_next_base_fee-IsNextBaseFee parent 1000 refl (omega arith) (omega arith) (omega arith)
      (omega arith)

transition_fee_unchecked_example :
    validate_header consensus 9
      (record child.header { base_fee_per_gas = some 1 })
      (record parent { base_fee_per_gas = none })
      config
    ≡ validate_header consensus 9
        (record child.header { base_fee_per_gas = some 2 })
        (record parent { base_fee_per_gas = none })
        config
transition_fee_unchecked_example =
    transition_fee_unchecked consensus 9 child.header (record parent { base_fee_per_gas = none })
      config 1 2 refl

validate_header_iff_example :
    (validate_header consensus 9 child.header parent config ≡ ok tt)
    ↔ IsValidChild consensus 9 child.header parent config
validate_header_iff_example = validate_header_iff consensus 9 child.header parent config

validate_body_iff_example :
    (validate_body consensus child config ≡ ok tt) ↔ IsValidBody consensus child config
validate_body_iff_example = validate_body_iff consensus child config

child_header_accepted : validate_header consensus 9 child.header parent config ≡ ok tt
unfolding validate_header check_position check_gas target_gas_limit fork_at
    get_active_fork_with_total_difficulty paris_by_ttd active_fork sort_forks forks push_fork
    insert_fork check_base_fee calculate_next_base_fee match_base_fee check_merge check_cancun
    base_fee_delta calc_excess_blob_gas check_blob_gas max_blob_gas next_base_fee_from
    target_blob_gas blob_params is_cancun_active is_shanghai_active
child_header_accepted = refl

child_body_accepted : validate_body consensus child config ≡ ok tt
unfolding validate_body check_withdrawals check_blob_total blob_gas_from num_blobs check_set_code
child_body_accepted = refl

child_blobs_accepted : validate_cancun child (some hashes) ≡ ok tt
unfolding validate_cancun hashes_from hashes_of
child_blobs_accepted = refl

child_is_cancun : at_least (fork_of consensus child.header parent config) cancun ≡ true
unfolding fork_at get_active_fork_with_total_difficulty paris_by_ttd active_fork sort_forks forks
    push_fork insert_fork
child_is_cancun = refl

child_params : blob_params (fork_of consensus child.header parent config) config ≡ some six_blobs
unfolding fork_at get_active_fork_with_total_difficulty paris_by_ttd active_fork sort_forks forks
    push_fork insert_fork blob_params
child_params = refl

few_blobs : total_blobs child.body.transactions < 140737488355328
unfolding total_blobs num_blobs
few_blobs = omega arith

accepted_blobs_bounded_example :
    (length hashes ≡ total_blobs child.body.transactions) × (length hashes ≤ 6)
accepted_blobs_bounded_example =
    accepted_blobs_bounded consensus 9 child parent config six_blobs hashes child_is_cancun
      child_params (omega arith) few_blobs child_header_accepted child_body_accepted
      child_blobs_accepted
