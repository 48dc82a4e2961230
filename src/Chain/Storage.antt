-- ===== src/Chain/Storage.antt =====
-- What the chain manager reads of the database (wasix_eth/wasix_eth_storage/src/read_traits.rs,
-- `BlockProvider` and `HeaderProvider`): a record of operations that its clients take as a
-- parameter. A read fails, finds nothing or finds a value.
use wasm_based_evm.Prelude.{
  ℕ, Bool, false, Option, none, some, Outcome, ok, err, panic, ◌>>=◌, ◌==◌,
}
use wasm_based_evm.Block.{Header, Block}

-- The result of a read: `Result<Option<A>>`.
abbrev pub Read : Type 0 → Type 0
Read A = Outcome (Unit {0}) (Option A)

pub record Storage : Type 0 where
  -- `header`, by the block's hash and by its number.
  pub header : ℕ → Read Header
  pub header_at : ℕ → Read Header
  pub block_number : ℕ → Read ℕ
  pub block_hash : ℕ → Read ℕ
  pub block_by_hash : ℕ → Read Block
  -- `get_payload_by_block_hash`, less the receipts and the blobs.
  pub payload : ℕ → Option Block

-- `if let Ok(Some(value)) = read`.
abbrev pub present : {A : Type 0} → Read A → Option A
present (ok o) = o
present (err e) = none
present panic = none

abbrev pub canonical_at : Storage → ℕ → Option ℕ → Outcome (Unit {0}) Bool
canonical_at s hash none = ok false
canonical_at s hash (some number) =
    s.block_hash number >>= λ found. elim found [ none ↦ ok false | some h ↦ ok (h == hash) ]

-- The number of the block is looked up, and then the canonical hash at that number.
unfoldable pub is_canonical : Storage → ℕ → Outcome (Unit {0}) Bool
is_canonical s hash = s.block_number hash >>= canonical_at s hash

-- `if let Ok(true) = read`.
abbrev pub is_true : Outcome (Unit {0}) Bool → Bool
is_true (ok b) = b
is_true (err e) = false
is_true panic = false
