-- ===== src/Consensus/BaseFee.antt =====
-- The base fee of the next block: how far it moves and in which direction, and what is left
-- unchecked at the London transition.
use native.Mathlib.Nat.{div-le_of_le-mul}
use wasm_based_evm.Prelude.{
  ℕ, ◌+◌, ◌-◌, ◌*◌, ◌/◌, ◌≤◌, ◌<◌, max, ◌≡◌, ◌≢◌, inl, inr, none, some, arith, false, Bool-cases,
  ltb, ltb→lt, ltb→le, ◌==◌, ok, add64, mul128, as_u64, u64_mod, mul128-eq-*,
}
use wasm_based_evm.Block.{Header}
use wasm_based_evm.Hardfork.{Hardfork, ChainConfig}
use wasm_based_evm.Consensus.{
  base_fee_delta, next_base_fee_from, calculate_next_base_fee, check_base_fee, match_base_fee,
  EthConsensus, validate_header, check_position, check_gas, check_merge, check_cancun,
  check_blob_gas,
}

share-le : (fee d target : ℕ) → d ≤ target → fee * d / target ≤ fee
share-le fee d target h = div-le_of_le-mul target (grind arith)

-- The delta is at most an eighth of the fee where the gas is within twice the target.
base_fee_delta-eq :
    (fee d target : ℕ)
    → fee < u64_mod
    → d ≤ target
    → 0 < target
    → target < u64_mod
    → (r : ℕ) × (base_fee_delta fee d target ≡ ok r) × (r ≤ fee / 8)
unfolding base_fee_delta
base_fee_delta-eq fee d target hf hd ht hm =
    let e : mul128 fee d ≡ fee * d = mul128-eq-* fee d hf (omega arith) in
    let nonzero : (target == 0) ≡ false = ground arith in
    let small : fee * d / target ≤ fee = share-le fee d target hd in
    (as_u64 (fee * d / target / 8), rw (nonzero, e), omega arith)

pub record IsNextBaseFee (fee : ℕ) (parent : Header) (f : ℕ) : Type 0 where
  pub up_to_an_eighth : f ≤ fee + max (fee / 8) 1
  pub down_to_an_eighth : fee ≤ f + fee / 8
  pub rises : parent.gas_limit / 2 < parent.gas_used → fee < f
  pub falls : parent.gas_used < parent.gas_limit / 2 → f ≤ fee
  pub stays : parent.gas_used ≡ parent.gas_limit / 2 → f ≡ fee

-- For a parent with a base fee, a gas limit of at least 2 and gas used within twice the target
-- (half the limit), with the fields in their range and no overflow in the sum, the next base fee is
-- defined and the division does not panic; it moves by at most an eighth (at least by 1 upwards),
-- rises exactly above the target, does not rise below it, and stays at it.
pub calculate_next_base_fee-IsNextBaseFee :
    (parent : Header) (fee : ℕ)
    → parent.base_fee_per_gas ≡ some fee
    → fee + fee / 8 + 1 < u64_mod
    → parent.gas_limit < u64_mod
    → 2 ≤ parent.gas_limit
    → parent.gas_used ≤ 2 * (parent.gas_limit / 2)
    → (f : ℕ) × (calculate_next_base_fee parent ≡ ok (some f)) × IsNextBaseFee fee parent f
unfolding calculate_next_base_fee next_base_fee_from
calculate_next_base_fee-IsNextBaseFee parent fee e hf hl lo hu =
    rw e (elim (Bool-cases (parent.gas_used == target)) [
      | inl at_target ↦
          let same : parent.gas_used ≡ target = ground arith in (fee, rw at_target, omega arith)
      | inr off_target ↦
          let other : parent.gas_used ≢ target = ground arith in
          elim (Bool-cases (ltb target parent.gas_used)) [
            | inl above ↦
                let over : target < parent.gas_used = ltb→lt target parent.gas_used above in
                let (d, gives, small) =
                  base_fee_delta-eq fee (parent.gas_used - target) target (omega arith)
                    (omega arith) (omega arith) (omega arith) in
                (add64 fee (max d 1), rw (off_target, above, gives), omega arith)
            | inr below ↦
                let under : parent.gas_used ≤ target = ltb→le target parent.gas_used below in
                let (d, gives, small) =
                  base_fee_delta-eq fee (target - parent.gas_used) target (omega arith)
                    (omega arith) (omega arith) (omega arith) in
                (fee - d, rw (off_target, below, gives), omega arith)
          ]
    ])
  where
    target : ℕ
    target = parent.gas_limit / 2

fee_unchecked :
    (fork : Hardfork) (h parent : Header) (fee : ℕ)
    → parent.base_fee_per_gas ≡ none
    → check_base_fee fork (record h { base_fee_per_gas = some fee }) parent ≡ ok tt
unfolding check_base_fee calculate_next_base_fee match_base_fee
fee_unchecked fork h parent fee e = rw e (ground arith)

-- Where the parent has no base fee, as at the London transition, the validation of a header does
-- not depend on which base fee the header gives.
pub transition_fee_unchecked :
    (con : EthConsensus) (now : ℕ) (h parent : Header) (c : ChainConfig) (fee fee' : ℕ)
    → parent.base_fee_per_gas ≡ none
    → validate_header con now (record h { base_fee_per_gas = some fee }) parent c
      ≡ validate_header con now (record h { base_fee_per_gas = some fee' }) parent c
unfolding validate_header check_position check_gas check_merge check_cancun check_blob_gas
transition_fee_unchecked con now h parent c fee fee' e =
    rw (fee_unchecked _ h parent fee e, fee_unchecked _ h parent fee' e)
