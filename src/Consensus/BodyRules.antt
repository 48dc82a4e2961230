-- ===== src/Consensus/BodyRules.antt =====
-- `validate_body`, `validate_cancun` and `validate_block_post_execution` accept exactly the blocks
-- that obey the rules; the loops over the transactions are sums, concatenations and a universal test.
use mathlib.Core.List.{append_assoc, append-nil}
use wasm_based_evm.Prelude.{
  ℕ, ◌+◌, ◌*◌, ◌%◌, ◌<◌, ◌≡◌, ◌≢◌, refl, sym, ◌↔◌, Bool, true, false, Option, none, some, arith,
  length, add64, mul64, u64_mod, ok, >>-eq-ok_iff, ensure-eq-ok_iff, List, [], ◌∷◌, ◌++◌, All,
  length-append, ==_iff,
}
use wasm_based_evm.Block.{Block, Transaction, eip7702}
use wasm_based_evm.Hardfork.{ChainConfig, at_least, prague}
use wasm_based_evm.Consensus.{
  EthConsensus, fork_at, num_blobs, blob_gas_from, check_withdrawals, check_blob_total,
  check_set_code, validate_body, hashes_of, hashes_from, list_eq, validate_cancun,
  validate_block_post_execution,
}

-- The number of blobs of a list of transactions.
unfoldable pub total_blobs : List Transaction → ℕ
total_blobs [] = 0
total_blobs (t ∷ ts) = num_blobs t + total_blobs ts

pub blob_gas_from-eq :
    (acc : ℕ) (ts : List Transaction)
    → acc < u64_mod
    → blob_gas_from acc ts ≡ (acc + total_blobs ts * 131072) % u64_mod
unfolding blob_gas_from total_blobs
blob_gas_from-eq acc [] h = omega arith
blob_gas_from-eq acc (t ∷ ts) h =
    omega (arith, blob_gas_from-eq (add64 acc (mul64 (num_blobs t) 131072)) ts (omega arith))

-- The blob gas of the transactions, as a 64-bit sum, is the header's; without a field it is 0.
abbrev pub IsBlobTotal : List Transaction → Option ℕ → Type 0
IsBlobTotal ts (some used) = (total_blobs ts * 131072) % u64_mod ≡ used
IsBlobTotal ts none = (total_blobs ts * 131072) % u64_mod ≡ 0

check_blob_total_iff :
    (ts : List Transaction) (o : Option ℕ)
    → (check_blob_total (blob_gas_from 0 ts) o ≡ ok tt) ↔ IsBlobTotal ts o
unfolding check_blob_total
check_blob_total_iff ts (some used) =
    let e : blob_gas_from 0 ts ≡ (total_blobs ts * 131072) % u64_mod =
      omega (arith, blob_gas_from-eq 0 ts (omega arith)) in
    (λ h. ground arith, λ h. ground arith)
check_blob_total_iff ts none =
    let e : blob_gas_from 0 ts ≡ (total_blobs ts * 131072) % u64_mod =
      omega (arith, blob_gas_from-eq 0 ts (omega arith)) in
    (λ h. ground arith, λ h. ground arith)

check_set_code_early :
    (ts : List Transaction) → (check_set_code false ts ≡ ok tt) ↔ All (λ t. t.kind ≢ eip7702) ts
unfolding check_set_code
check_set_code_early [] = (λ _. tt, λ _. refl)
check_set_code_early (t ∷ ts) =
    let ih = check_set_code_early ts in
    (λ e. (λ k. ground arith, ih.0 (ground arith)), λ v. ground (arith, ih.1 v.1))

check_set_code_late : (ts : List Transaction) → check_set_code true ts ≡ ok tt
unfolding check_set_code
check_set_code_late [] = refl
check_set_code_late (t ∷ ts) = ground (arith, check_set_code_late ts)

-- The withdrawals of the body, if there are any, hash to the header's root.
abbrev pub AreWithdrawalsValid : EthConsensus → Option (List ℕ) → Option ℕ → Type 0
AreWithdrawalsValid con (some ws) root = root ≡ some (con.calculate_withdrawals_root ws)
AreWithdrawalsValid con none root = root ≡ none

check_withdrawals_iff :
    (con : EthConsensus) (ws : Option (List ℕ)) (root : Option ℕ)
    → (check_withdrawals con ws root ≡ ok tt) ↔ AreWithdrawalsValid con ws root
unfolding check_withdrawals
check_withdrawals_iff con (some ws) none = (λ e. cc, λ e. cc)
check_withdrawals_iff con (some ws) (some r) = (λ e. ground arith, λ e. ground arith)
check_withdrawals_iff con none root = (λ e. ground arith, λ e. ground arith)

pub record IsValidBody (con : EthConsensus) (b : Block) (c : ChainConfig) : Type 0 where
  pub transactions : con.calculate_transaction_root b.body.transactions ≡ b.header.transactions_root
  pub ommers : con.hash_of_ommers b.body.ommers ≡ b.header.ommers_hash
  pub withdrawals : AreWithdrawalsValid con b.body.withdrawals b.header.withdrawals_root
  pub blobs : IsBlobTotal b.body.transactions b.header.blob_gas_used
  pub set_code :
      at_least (fork_at con c b.header.parent_hash b.header.number b.header.timestamp) prague
        ≡ false
      → All (λ t. t.kind ≢ eip7702) b.body.transactions

check_set_code_iff :
    (is_prague : Bool) (ts : List Transaction)
    → (check_set_code is_prague ts ≡ ok tt) ↔ (is_prague ≡ false → All (λ t. t.kind ≢ eip7702) ts)
check_set_code_iff true ts = (λ e off. cc, λ v. check_set_code_late ts)
check_set_code_iff false ts =
    (λ e _. (check_set_code_early ts).0 e, λ v. (check_set_code_early ts).1 (v refl))

module _ (con : EthConsensus) (b : Block) (c : ChainConfig) where
  validate_body_sound : validate_body con b c ≡ ok tt → IsValidBody con b c
  unfolding validate_body
  validate_body_sound e =
      let (transactions, e) = (>>-eq-ok_iff _ _).0 e in
      let (ommers, e) = (>>-eq-ok_iff _ _).0 e in
      let (withdrawals, e) = (>>-eq-ok_iff _ _).0 e in
      let (blobs, set_code) = (>>-eq-ok_iff _ _).0 e in
      record {
        transactions = (==_iff _ _).0 ((ensure-eq-ok_iff _ _).0 transactions);
        ommers = (==_iff _ _).0 ((ensure-eq-ok_iff _ _).0 ommers);
        withdrawals = (check_withdrawals_iff con _ _).0 withdrawals;
        blobs = (check_blob_total_iff _ _).0 blobs;
        set_code = (check_set_code_iff _ _).0 set_code;
      }

  validate_body_complete : IsValidBody con b c → validate_body con b c ≡ ok tt
  unfolding validate_body
  validate_body_complete v = (>>-eq-ok_iff _ _).1 (
    (ensure-eq-ok_iff _ _).1 ((==_iff _ _).1 v.transactions),
    (>>-eq-ok_iff _ _).1 (
      (ensure-eq-ok_iff _ _).1 ((==_iff _ _).1 v.ommers),
      (>>-eq-ok_iff _ _).1 (
        (check_withdrawals_iff con _ _).1 v.withdrawals,
        (>>-eq-ok_iff _ _).1
            ((check_blob_total_iff _ _).1 v.blobs, (check_set_code_iff _ _).1 v.set_code),
      ),
    ),
  )

-- `validate_body` accepts a block exactly when its transactions, ommers and withdrawals hash to the
-- roots of the header, the blob gas of its transactions, as a 64-bit sum, is the header's, and
-- before Prague no transaction is of EIP-7702.
pub validate_body_iff :
    (con : EthConsensus) (b : Block) (c : ChainConfig)
    → (validate_body con b c ≡ ok tt) ↔ IsValidBody con b c
validate_body_iff con b c = (validate_body_sound con b c, validate_body_complete con b c)

list_eq_iff : (xs ys : List ℕ) → (list_eq xs ys ≡ true) ↔ (xs ≡ ys)
list_eq_iff [] [] = (λ _. refl, λ _. refl)
list_eq_iff [] (y ∷ ys) = (λ h. cc, λ h. cc)
list_eq_iff (x ∷ xs) [] = (λ h. cc, λ h. cc)
list_eq_iff (x ∷ xs) (y ∷ ys) =
    let ih = list_eq_iff xs ys in (λ h. ground (arith, ih.0), λ h. ground (arith, ih.1))

-- The versioned hashes of the blob transactions, in order.
unfoldable pub all_hashes : List Transaction → List ℕ
all_hashes [] = []
all_hashes (t ∷ ts) = hashes_of t ++ all_hashes ts

hashes_from-eq : (acc : List ℕ) (ts : List Transaction) → hashes_from acc ts ≡ acc ++ all_hashes ts
unfolding hashes_from all_hashes
hashes_from-eq acc [] = rw append-nil
hashes_from-eq acc (t ∷ ts) =
    rw (hashes_from-eq (acc ++ hashes_of t) ts) (append_assoc acc (hashes_of t) (all_hashes ts))

-- `validate_cancun` accepts exactly the list of the versioned hashes of the block's blob
-- transactions, in order.
pub validate_cancun_iff :
    (b : Block) (expected : List ℕ)
    → (validate_cancun b (some expected) ≡ ok tt) ↔ (expected ≡ all_hashes b.body.transactions)
unfolding validate_cancun
validate_cancun_iff b expected = rw (hashes_from-eq [] b.body.transactions) (
  λ e. sym ((list_eq_iff _ _).0 ((ensure-eq-ok_iff _ _).0 e)),
  λ e. (ensure-eq-ok_iff _ _).1 ((list_eq_iff _ _).1 (sym e)),
)

pub length-all_hashes : (ts : List Transaction) → length (all_hashes ts) ≡ total_blobs ts
unfolding all_hashes total_blobs num_blobs hashes_of
length-all_hashes [] = refl
length-all_hashes (t ∷ ts) =
    ground (arith, length-append (hashes_of t) (all_hashes ts), length-all_hashes ts)

pub record IsExecuted (b : Block) (gas receipts bloom state : ℕ) : Type 0 where
  pub gas_used : b.header.gas_used ≡ gas
  pub receipts_root : b.header.receipts_root ≡ receipts
  pub logs_bloom : b.header.logs_bloom ≡ bloom
  pub state_root : b.header.state_root ≡ state

-- The check after the execution accepts exactly the results that the header states: the gas used,
-- the root of the receipts, the bloom of the logs and the root of the state.
validate_block_post_execution_iff :
    (b : Block) (gas receipts bloom state : ℕ)
    → (validate_block_post_execution b gas receipts bloom state ≡ ok tt)
      ↔ IsExecuted b gas receipts bloom state
unfolding validate_block_post_execution
validate_block_post_execution_iff b gas receipts bloom state =
    (λ e. ground arith, λ v. ground arith)
