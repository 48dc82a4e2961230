-- ===== src/Engine/Attributes.antt =====
-- engine.rs, `fork_validation`: which payload attributes a version of the call takes.
use wasm_based_evm.Prelude.{
  ◌&&◌, ℕ, ◌≡◌, refl, ◌↔◌, Bool, true, false, Option, none, some, is_some, or_else, leb, arith,
}
use wasm_based_evm.Hardfork.{cancun, shanghai, at_least, ChainConfig, get_active_fork}
use wasm_based_evm.Hardfork.{forks}
use wasm_based_evm.Hardfork.Genesis.{any_late, get_active_fork_late}
use wasm_based_evm.Engine.{
  PayloadAttributes, RpcError, validate_version, validate_presence, fork_validation,
}

or_else-none_iff : (a b : Option RpcError) → (or_else a b ≡ none) ↔ ((a ≡ none) × (b ≡ none))
or_else-none_iff none b = (λ h. (refl, h), λ h. h.1)
or_else-none_iff (some e) b = (λ h. absurd (ground arith), λ h. absurd (ground (arith, h.0)))

validate_presence_iff : (p q : Bool) → (validate_presence p q ≡ none) ↔ (q ≡ p)
unfolding validate_presence
validate_presence_iff true true = (λ h. refl, λ h. refl)
validate_presence_iff true false = (λ h. absurd (ground arith), λ h. absurd (ground arith))
validate_presence_iff false true = (λ h. absurd (ground arith), λ h. absurd (ground arith))
validate_presence_iff false false = (λ h. refl, λ h. refl)

validate_version_iff :
    (version : ℕ) (c : Bool) (root : Option ℕ)
    → (validate_version version c root ≡ none) ↔ (leb 3 version ≡ c)
unfolding validate_version
validate_version_iff version true root = ground arith
validate_version_iff version false root = ground arith

-- Attributes are taken exactly if version 3 or above is called just when the fork that is found at
-- block 0 and their timestamp is Cancun or later, they have withdrawals just when it is Shanghai or
-- later, and a beacon block root just when it is Cancun or later. And if the configuration has a fork
-- by a block number above 0, that fork is before Shanghai, at whatever timestamp.
pub fork_validation_iff :
    (version : ℕ) (config : ChainConfig) (attr : PayloadAttributes)
    → let fork = get_active_fork config 0 attr.timestamp in
      ((fork_validation version config attr ≡ none) ↔ (
        (leb 3 version ≡ at_least fork cancun)
        × ((attr.has_withdrawals ≡ at_least fork shanghai)
            × (is_some attr.parent_beacon_block_root ≡ at_least fork cancun))))
      × ((any_late (forks config) && at_least fork shanghai) ≡ false)
unfolding fork_validation
fork_validation_iff version config attr =
    let fork = get_active_fork config 0 attr.timestamp in
    let v = validate_version_iff version (at_least fork cancun) attr.parent_beacon_block_root in
    let w = validate_presence_iff (at_least fork shanghai) attr.has_withdrawals in
    let r = validate_presence_iff (at_least fork cancun) (is_some attr.parent_beacon_block_root) in
    let outer =
      or_else-none_iff
        (validate_version version (at_least fork cancun) attr.parent_beacon_block_root) _ in
    let inner =
      or_else-none_iff (validate_presence (at_least fork shanghai) attr.has_withdrawals) _ in
    (
      (
        (λ h. let (a, rest) = outer.0 h in let (b, c) = inner.0 rest in (v.0 a, (w.0 b, r.0 c))),
        (λ h. outer.1 (v.1 h.0, inner.1 (w.1 h.1.0, r.1 h.1.1))),
      ),
      get_active_fork_late config attr.timestamp,
    )
