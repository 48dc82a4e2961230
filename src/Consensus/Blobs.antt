-- ===== src/Consensus/Blobs.antt =====
-- The checks together bound the blobs of a block.
use wasm_based_evm.Prelude.{
  ℕ, ◌*◌, ◌%◌, ◌≤◌, ◌<◌, ◌≡◌, true, Option, none, some, arith, length, u64_mod, ok, List, mul64,
  unwrap_or,
}
use wasm_based_evm.Block.{Header, Block, Transaction}
use wasm_based_evm.Hardfork.{Hardfork, ChainConfig, BlobParams, at_least, cancun, blob_params}
use wasm_based_evm.Consensus.{
  EthConsensus, validate_header, validate_body, validate_cancun, max_blob_gas,
}
use wasm_based_evm.Consensus.HeaderRules.{fork_of, validate_header_iff}
use wasm_based_evm.Consensus.BodyRules.{
  validate_body_iff, validate_cancun_iff, total_blobs, length-all_hashes, all_hashes, IsBlobTotal,
}

max_blob_gas-eq :
    (fork : Hardfork) (c : ChainConfig) (bp : BlobParams)
    → blob_params fork c ≡ some bp
    → max_blob_gas fork c ≡ mul64 bp.max_blob_count 131072
unfolding max_blob_gas
max_blob_gas-eq fork c bp e = rw (e, max_blob_gas)

blob_total :
    (ts : List Transaction) (o : Option ℕ)
    → IsBlobTotal ts o
    → (total_blobs ts * 131072) % u64_mod ≡ unwrap_or o 0
blob_total ts none h = h
blob_total ts (some used) h = h

-- From Cancun on, with blob parameters in the configuration, a block of fewer than 2^47 blobs that
-- passes the checks of its header, of its body and of the expected versioned hashes has at most the
-- maximal number of blobs, and as many expected hashes.
pub accepted_blobs_bounded :
    (con : EthConsensus) (now : ℕ) (b : Block) (p : Header) (c : ChainConfig) (bp : BlobParams)
    (expected : List ℕ)
    → at_least (fork_of con b.header p c) cancun ≡ true
    → blob_params (fork_of con b.header p c) c ≡ some bp
    → bp.max_blob_count < 140737488355328
    → total_blobs b.body.transactions < 140737488355328
    → validate_header con now b.header p c ≡ ok tt
    → validate_body con b c ≡ ok tt
    → validate_cancun b (some expected) ≡ ok tt
    → (length expected ≡ total_blobs b.body.transactions) × (length expected ≤ bp.max_blob_count)
accepted_blobs_bounded con now b p c bp expected on params small few eh eb ec =
    let same : expected ≡ all_hashes ts = (validate_cancun_iff b expected).0 ec in
    let counted : length expected ≡ total_blobs ts = rw same (length-all_hashes ts) in
    let total : (total_blobs ts * 131072) % u64_mod ≡ unwrap_or b.header.blob_gas_used 0 =
      blob_total ts b.header.blob_gas_used ((validate_body_iff con b c).0 eb).blobs in
    let below : unwrap_or b.header.blob_gas_used 0 ≤ mul64 bp.max_blob_count 131072 =
      rw (max_blob_gas-eq fork c bp params) at
        ((((validate_header_iff con now b.header p c).0 eh).blobs.1 on).2) in
    (counted, omega arith)
  where
    ts : List Transaction
    ts = b.body.transactions

    fork : Hardfork
    fork = fork_of con b.header p c
