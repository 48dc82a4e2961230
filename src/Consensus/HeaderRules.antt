-- ===== src/Consensus/HeaderRules.antt =====
-- `validate_header` accepts exactly the headers that obey the rules, stated here without the order
-- of the tests.
use wasm_based_evm.Prelude.{
  ℕ, ◌+◌, ◌/◌, ◌≤◌, ◌<◌, ◌≡◌, ◌⊎◌, inl, inr, ◌↔◌, Bool, true, false, Option, none, some, arith,
  is_some, length, add64, ok, >>-eq-ok_iff, Bool-cases, Option-cases, ◌>>=◌, unwrap_or,
}
use wasm_based_evm.Block.{Header}
use wasm_based_evm.Hardfork.{
  Hardfork, ChainConfig, at_least, london, paris, shanghai, cancun, prague, is_cancun_active,
}
use wasm_based_evm.Consensus.{
  EthConsensus, Rejection, fork_at, target_gas_limit, calculate_next_base_fee, calc_excess_blob_gas,
  target_blob_gas, max_blob_gas, check_position, check_gas, check_base_fee, match_base_fee,
  check_merge, check_field, check_blob_gas, check_cancun, validate_header,
}

-- The fork of the parent, and that of the header; both take the parent's total difficulty.
abbrev pub parent_fork_of : EthConsensus → Header → ChainConfig → Hardfork
parent_fork_of con p c = fork_at con c (con.hash_slow p) p.number p.timestamp

abbrev pub fork_of : EthConsensus → Header → Header → ChainConfig → Hardfork
fork_of con h p c = fork_at con c (con.hash_slow p) h.number h.timestamp

pub record InPosition (now : ℕ) (h p : Header) : Type 0 where
  pub number : h.number ≡ add64 p.number 1
  pub after_parent : p.timestamp < h.timestamp
  pub not_future : h.timestamp ≤ add64 now 15

pub record IsGasValid (parent_fork fork : Hardfork) (h p : Header) : Type 0 where
  pub minimum : 5000 ≤ h.gas_limit
  pub not_above :
      h.gas_limit < target_gas_limit parent_fork fork p + target_gas_limit parent_fork fork p / 1024
  pub not_below :
      target_gas_limit parent_fork fork p < h.gas_limit + target_gas_limit parent_fork fork p / 1024
  pub used : h.gas_used ≤ h.gas_limit
  pub extra_data : length h.extra_data ≤ 32

-- From London on the fee is there, and it is the parent's next base fee if the parent has one.
abbrev pub IsFeeValid : Hardfork → Header → Header → Type 0
IsFeeValid fork h p =
    at_least fork london ≡ true
    → (fee : ℕ) × (h.base_fee_per_gas ≡ some fee)
      × ((calculate_next_base_fee p ≡ ok none) ⊎ (calculate_next_base_fee p ≡ ok (some fee)))

abbrev pub IsMergeValid : EthConsensus → Hardfork → Header → Type 0
IsMergeValid con fork h =
    at_least fork paris ≡ true
    → (h.difficulty ≡ 0) × (h.nonce ≡ 0) × (h.ommers_hash ≡ con.empty_ommer_root_hash)

-- The fields of Cancun are there exactly from Cancun on.
pub record HasCancunFields (fork : Hardfork) (h : Header) : Type 0 where
  pub blob_gas_used : is_some h.blob_gas_used ≡ at_least fork cancun
  pub excess_blob_gas : is_some h.excess_blob_gas ≡ at_least fork cancun
  pub beacon_root : is_some h.parent_beacon_block_root ≡ at_least fork cancun

abbrev pub IsBlobGasValid : Hardfork → Hardfork → ChainConfig → Header → Header → Type 0
IsBlobGasValid parent_fork fork c h p =
    (at_least parent_fork cancun ≡ true
      → unwrap_or h.excess_blob_gas 0
        ≡ calc_excess_blob_gas p.excess_blob_gas p.blob_gas_used (target_blob_gas fork c))
    × (at_least parent_fork cancun ≡ false → unwrap_or h.excess_blob_gas 0 ≡ 0)
    × (unwrap_or h.blob_gas_used 0 ≤ max_blob_gas fork c)

abbrev pub IsBlobValid : Hardfork → Hardfork → ChainConfig → Header → Header → Type 0
IsBlobValid parent_fork fork c h p =
    HasCancunFields fork h × (at_least fork cancun ≡ true → IsBlobGasValid parent_fork fork c h p)

check_position_iff :
    (now : ℕ) (h p : Header) → (check_position now h p ≡ ok tt) ↔ InPosition now h p
unfolding check_position
check_position_iff now h p = (λ e. ground arith, λ v. ground arith)

check_gas_iff : (f g : Hardfork) (h p : Header) → (check_gas f g h p ≡ ok tt) ↔ IsGasValid f g h p
unfolding check_gas
check_gas_iff f g h p = (λ e. ground arith, λ v. ground arith)

match_base_fee_iff :
    (h p : Header) (fee : ℕ)
    → ((calculate_next_base_fee p >>= match_base_fee fee p.base_fee_per_gas) ≡ ok tt)
      ↔ ((calculate_next_base_fee p ≡ ok none) ⊎ (calculate_next_base_fee p ≡ ok (some fee)))
unfolding match_base_fee calculate_next_base_fee
match_base_fee_iff h p fee = (λ e. ground arith, λ v. ground arith)

check_base_fee_iff :
    (f : Hardfork) (h p : Header) → (check_base_fee f h p ≡ ok tt) ↔ IsFeeValid f h p
unfolding check_base_fee
check_base_fee_iff f h p = elim (Bool-cases (at_least f london)) [
  | inl on ↦ elim (Option-cases h.base_fee_per_gas) [
    | inl e ↦ (λ c. absurd (ground arith), λ v. absurd (ground (arith, v on)))
    | inr (fee, e) ↦ (
      λ c _. (fee, e, (match_base_fee_iff h p fee).0 (ground arith)),
      λ v. rw (on, e) ((match_base_fee_iff h p fee).1 (ground (arith, v on))),
    )
  ]
  | inr off ↦ (λ c on. absurd (ground arith), λ v. rw off)
]

check_merge_iff :
    (con : EthConsensus) (f : Hardfork) (h : Header)
    → (check_merge con f h ≡ ok tt) ↔ IsMergeValid con f h
unfolding check_merge
check_merge_iff con f h = elim (Bool-cases (at_least f paris)) [
  | inl on ↦ (λ e _. ground arith, λ v. ground (arith, v on))
  | inr off ↦ (λ e on. absurd (ground arith), λ v. ground arith)
]

check_blob_gas_iff :
    (f g : Hardfork) (c : ChainConfig) (h p : Header)
    → (check_blob_gas f g c h p ≡ ok tt) ↔ IsBlobGasValid f g c h p
unfolding check_blob_gas is_cancun_active
check_blob_gas_iff f g c h p = elim (Bool-cases (at_least f cancun)) [
  | inl on ↦ (
    λ e. (λ _. ground arith, λ off. absurd (ground arith), ground arith),
    λ v. ground (arith, v.0 on),
  )
  | inr off ↦ (
    λ e. (λ on. absurd (ground arith), λ _. ground arith, ground arith),
    λ v. ground (arith, v.1 off),
  )
]

check_field_iff :
    (b : Bool) (o : Option ℕ) (missing early : Rejection)
    → (check_field b o missing early ≡ ok tt) ↔ (is_some o ≡ b)
check_field_iff b o missing early = (λ e. ground arith, λ v. ground arith)

check_cancun_iff :
    (f g : Hardfork) (c : ChainConfig) (h p : Header)
    → (check_cancun f g c h p ≡ ok tt) ↔ IsBlobValid f g c h p
unfolding check_cancun
check_cancun_iff f g c h p = elim (Bool-cases (at_least g cancun)) [
  | inl on ↦ (
    λ e. (ground arith, λ _. (check_blob_gas_iff f g c h p).0 (ground arith)),
    λ v. ground (arith, (check_blob_gas_iff f g c h p).1 (v.1 on)),
  )
  | inr off ↦ (λ e. (ground arith, λ on. absurd (ground arith)), λ v. ground arith)
]

-- The rules for a header `h` on a parent `p` at the time `now`.
pub record IsValidChild (con : EthConsensus) (now : ℕ) (h p : Header) (c : ChainConfig)
    : Type 0 where
  pub position : InPosition now h p
  pub gas : IsGasValid (parent_fork_of con p c) (fork_of con h p c) h p
  pub base_fee : IsFeeValid (fork_of con h p c) h p
  pub merge : IsMergeValid con (fork_of con h p c) h
  pub withdrawals : is_some h.withdrawals_root ≡ at_least (fork_of con h p c) shanghai
  pub blobs : IsBlobValid (parent_fork_of con p c) (fork_of con h p c) c h p
  pub requests : is_some h.requests_hash ≡ at_least (fork_of con h p c) prague

module _ (con : EthConsensus) (now : ℕ) (h p : Header) (c : ChainConfig) where
  validate_header_sound : validate_header con now h p c ≡ ok tt → IsValidChild con now h p c
  unfolding validate_header
  validate_header_sound e =
      let (position, e) = (>>-eq-ok_iff _ _).0 e in
      let (gas, e) = (>>-eq-ok_iff _ _).0 e in
      let (fee, e) = (>>-eq-ok_iff _ _).0 e in
      let (merge, e) = (>>-eq-ok_iff _ _).0 e in
      let (withdrawals, e) = (>>-eq-ok_iff _ _).0 e in
      let (blobs, requests) = (>>-eq-ok_iff _ _).0 e in
      record {
        position = (check_position_iff now h p).0 position;
        gas = (check_gas_iff _ _ h p).0 gas;
        base_fee = (check_base_fee_iff _ h p).0 fee;
        merge = (check_merge_iff con _ h).0 merge;
        withdrawals = (check_field_iff _ _ _ _).0 withdrawals;
        blobs = (check_cancun_iff _ _ c h p).0 blobs;
        requests = (check_field_iff _ _ _ _).0 requests;
      }

  validate_header_complete : IsValidChild con now h p c → validate_header con now h p c ≡ ok tt
  unfolding validate_header
  validate_header_complete v = (>>-eq-ok_iff _ _).1 (
    (check_position_iff now h p).1 v.position,
    (>>-eq-ok_iff _ _).1 (
      (check_gas_iff _ _ h p).1 v.gas,
      (>>-eq-ok_iff _ _).1 (
        (check_base_fee_iff _ h p).1 v.base_fee,
        (>>-eq-ok_iff _ _).1 (
          (check_merge_iff con _ h).1 v.merge,
          (>>-eq-ok_iff _ _).1 (
            (check_field_iff _ _ _ _).1 v.withdrawals,
            (>>-eq-ok_iff _ _).1
                ((check_cancun_iff _ _ c h p).1 v.blobs, (check_field_iff _ _ _ _).1 v.requests),
          ),
        ),
      ),
    ),
  )

-- `validate_header` accepts a header exactly when all of these hold: its number is the parent's and
-- one, as a u64; it is later than the parent and at most 15 seconds after `now`, as a u64; its gas
-- limit is at least 5000 and differs from the target, the parent's gas limit (twice that, as a u64,
-- where London begins), by less than a 1024th of the target, rounded down; it uses at most its gas
-- limit; its extra data has at most 32 bytes; from London on it has a base fee, the one
-- computed from the parent where the computation gives one, and the computation does not panic; from
-- Paris on its difficulty and nonce are 0 and its ommers hash is the empty one; it has a withdrawals
-- root exactly from Shanghai on, the two blob gas fields and a beacon root exactly from Cancun on,
-- and a requests hash exactly from Prague on; and from Cancun on its excess blob gas is the one
-- computed from the parent, or 0 if the parent is before Cancun, and its blob gas is at most the
-- maximum of the fork. The forks of the header and of the parent are those that are found with the
-- parent's total difficulty.
pub validate_header_iff :
    (con : EthConsensus) (now : ℕ) (h p : Header) (c : ChainConfig)
    → (validate_header con now h p c ≡ ok tt) ↔ IsValidChild con now h p c
validate_header_iff con now h p c =
    (validate_header_sound con now h p c, validate_header_complete con now h p c)
