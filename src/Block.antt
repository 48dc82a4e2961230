-- ===== src/Block.antt =====
-- The data of alloy's headers, transactions and blocks that the node reads (`Header`, `TxEnvelope`,
-- `Block`). Hashes, addresses and roots are numbers, 0 for `B256::ZERO`. What an accessor of a
-- transaction returns (`gas_price()`, `recover_signer()`) is a field.
use wasm_based_evm.Prelude.{ℕ, Option, List}

-- The kinds of a `TxEnvelope`.
pub data TxKind : Type 0 where
  legacy eip2930 eip1559 eip4844 eip7702 : TxKind

pub record Transaction : Type 0 where
  pub kind : TxKind
  pub hash : ℕ
  pub signer : Option ℕ
  pub nonce : ℕ
  pub gas_limit : ℕ
  pub gas_price : Option ℕ
  pub max_fee_per_gas : ℕ
  pub max_priority_fee_per_gas : Option ℕ
  pub blob_versioned_hashes : Option (List ℕ)

pub record Header : Type 0 where
  pub parent_hash : ℕ
  pub ommers_hash : ℕ
  pub beneficiary : ℕ
  pub state_root : ℕ
  pub transactions_root : ℕ
  pub receipts_root : ℕ
  pub logs_bloom : ℕ
  pub difficulty : ℕ
  pub number : ℕ
  pub gas_limit : ℕ
  pub gas_used : ℕ
  pub timestamp : ℕ
  pub extra_data : List ℕ
  pub mix_hash : ℕ
  pub nonce : ℕ
  pub base_fee_per_gas : Option ℕ
  pub withdrawals_root : Option ℕ
  pub blob_gas_used : Option ℕ
  pub excess_blob_gas : Option ℕ
  pub parent_beacon_block_root : Option ℕ
  pub requests_hash : Option ℕ

pub record Body : Type 0 where
  pub transactions : List Transaction
  pub ommers : List Header
  pub withdrawals : Option (List ℕ)

pub record Block : Type 0 where
  pub header : Header
  pub body : Body
