-- ===== src/Mempool/Snapshot/Budget.antt =====
-- mempool.rs: what `peek_best_transactions` chooses fits the limits of the block.
use wasm_based_evm.Prelude.{
  u64_mod, ℕ, zero, suc, ◌+◌, ◌<◌, ◌≤◌, ◌≡◌, refl, sym, true, Option, some, List, [], ◌∷◌, ◌++◌,
  All, All-lookup, lookup, length, get_elem?, inl, inr, Bool-cases, Option-cases, arith, unwrap_or,
  ltb, add64, u64_mod,
}
use mathlib.Core.Path.{subst}
use mathlib.Core.Option.{some-injective}
use wasm_based_evm.Block.{Transaction, TxKind, legacy, eip2930, eip1559, eip4844, eip7702}
use wasm_based_evm.Vector.Sorted.{All-get_elem?}
use wasm_based_evm.Mempool.State.{blob_hashes}
use wasm_based_evm.Mempool.Snapshot.{
  Snapshot, Pick, u32_mod, add32, start, choose, count_blobs, check_blobs, is_eligible, consider,
  take_turn, pick, pop_best, peek_best_transactions,
}

abbrev pub total_gas : List Transaction → ℕ
total_gas [] = 0
total_gas (t ∷ l) = t.gas_limit + total_gas l

abbrev pub total_blobs : List Transaction → ℕ
total_blobs [] = 0
total_blobs (t ∷ l) = length (blob_hashes t) + total_blobs l

-- The limits leave room for one more transaction below the bounds of the machine words.
abbrev pub IsSmall : ℕ → ℕ → Transaction → Type 0
IsSmall target max_blobs t =
    (target + t.gas_limit < u64_mod) × (max_blobs + length (blob_hashes t) < u32_mod)

total_gas-append :
    (l : List Transaction) (t : Transaction) → total_gas (l ++ (t ∷ [])) ≡ total_gas l + t.gas_limit
total_gas-append [] t = omega arith
total_gas-append (u ∷ l) t = omega (arith, total_gas-append l t)

total_blobs-append :
    (l : List Transaction) (t : Transaction)
    → total_blobs (l ++ (t ∷ [])) ≡ total_blobs l + length (blob_hashes t)
total_blobs-append [] t = omega arith
total_blobs-append (u ∷ l) t = omega (arith, total_blobs-append l t)

-- The counters are exact, and within the limits.
pub record IsWithin (target max_blobs : ℕ) (p : Pick) : Type 0 where
  pub gas : p.gas ≡ total_gas p.chosen
  pub gas_fits : p.gas ≤ target
  pub blobs : p.blob_count ≡ total_blobs p.chosen
  pub blobs_fit : p.blob_count ≤ max_blobs

final :
    {target max_blobs : ℕ} (p : Pick) (chosen : List Transaction)
    → IsWithin target max_blobs p
    → p.chosen ≡ chosen
    → (total_gas chosen ≤ target) × (total_blobs chosen ≤ max_blobs)
final p chosen w e =
    rw (sym e) (omega (arith, w.gas, w.gas_fits), omega (arith, w.blobs, w.blobs_fit))

module _ (effective_tip : Transaction → ℕ → Option ℕ) (base_fee : ℕ) (s : Snapshot)
    (target max_blobs : ℕ) where
  count-exact :
      (current : ℕ) (t : Transaction)
      → current ≤ max_blobs
      → IsSmall target max_blobs t
      → add32 current (count_blobs t) ≡ current + length (blob_hashes t)
  unfolding count_blobs
  count-exact current t c small = omega (arith, c, small.1)

  check_blobs-fits :
      (current : ℕ) (t : Transaction)
      → current ≤ max_blobs
      → IsSmall target max_blobs t
      → check_blobs s.blobs max_blobs current t ≡ true
      → current + length (blob_hashes t) ≤ max_blobs
  unfolding check_blobs blob_hashes
  check_blobs-fits current t c small h = go t.kind refl
    where
      go : (k : TxKind) → t.kind ≡ k → current + length (blob_hashes t) ≤ max_blobs
      go eip4844 e = elim (Bool-cases (ltb max_blobs (add32 current (count_blobs t)))) [
        | inl over ↦ absurd (ground (arith, rw (e, check_blobs, over) at h))
        | inr fits ↦ ground (arith, fits, count-exact current t c small)
      ]
      go legacy e = rw (e, blob_hashes) (omega (arith, c))
      go eip2930 e = rw (e, blob_hashes) (omega (arith, c))
      go eip1559 e = rw (e, blob_hashes) (omega (arith, c))
      go eip7702 e = rw (e, blob_hashes) (omega (arith, c))

  choose-IsWithin :
      (a : ℕ) (q : List Transaction) (c : ℕ) (t : Transaction) (p : Pick)
      → is_eligible s.blobs target max_blobs p t ≡ true
      → IsSmall target max_blobs t
      → IsWithin target max_blobs p
      → IsWithin target max_blobs (choose effective_tip base_fee a q c t p)
  unfolding choose is_eligible
  choose-IsWithin a q c t p h small w = elim (Bool-cases (ltb target (add64 p.gas t.gas_limit))) [
    | inl over ↦ absurd (ground (arith, rw over at h))
    | inr fits ↦
        let exact = count-exact p.blob_count t w.blobs_fit small in
        let gas : add64 p.gas t.gas_limit ≡ p.gas + t.gas_limit =
          omega (arith, w.gas_fits, small.0) in
        record {
          gas = omega (arith, gas, w.gas, total_gas-append p.chosen t);
          gas_fits = ground (arith, fits);
          blobs = omega (arith, exact, w.blobs, total_blobs-append p.chosen t);
          blobs_fit =
              omega
                (arith, exact, check_blobs-fits p.blob_count t w.blobs_fit small (rw fits at h));
        }
  ]

  consider-IsWithin :
      (a : ℕ) (q : List Transaction) (c : ℕ) (t : Transaction) (p : Pick)
      → IsSmall target max_blobs t
      → IsWithin target max_blobs p
      → IsWithin target max_blobs (consider effective_tip base_fee s target max_blobs a q c t p)
  unfolding consider
  consider-IsWithin a q c t p small w =
      elim (Bool-cases (is_eligible s.blobs target max_blobs p t)) [
        | inl e ↦ rw (e, consider) (choose-IsWithin a q c t p e small w)
        | inr e ↦ rw (e, consider) w
      ]

  take_turn-IsWithin :
      (a : ℕ) (p p' : Pick)
      → All (λ e. All (IsSmall target max_blobs) e.1) s.pending
      → IsWithin target max_blobs p
      → take_turn effective_tip base_fee s target max_blobs a p ≡ some p'
      → IsWithin target max_blobs p'
  unfolding take_turn consider
  take_turn-IsWithin a p p' small w h = elim (Option-cases (lookup a s.pending)) [
    | inl e ↦ absurd (ground (arith, rw (e, take_turn) at h))
    | inr (q, eq) ↦ elim (Option-cases (lookup a p.cursors)) [
      | inl e ↦ absurd (ground (arith, rw (eq, take_turn, e) at h))
      | inr (c, ec) ↦ elim (Option-cases (get_elem? q c)) [
        | inl e ↦ absurd (ground (arith, rw (eq, take_turn, ec, e) at h))
        | inr (t, et) ↦
            subst (IsWithin target max_blobs)
              (some-injective _ p' (rw (eq, take_turn, ec, et) at h))
              (consider-IsWithin a q c t p
                (All-get_elem? (IsSmall target max_blobs) c t q
                  (All-lookup (λ e. All (IsSmall target max_blobs) e.1) a q s.pending small eq) et)
                w)
      ]
    ]
  ]

  pick-IsWithin :
      (fuel : ℕ) (p : Pick) (chosen : List Transaction)
      → All (λ e. All (IsSmall target max_blobs) e.1) s.pending
      → IsWithin target max_blobs p
      → pick effective_tip base_fee s target max_blobs fuel p ≡ some chosen
      → (total_gas chosen ≤ target) × (total_blobs chosen ≤ max_blobs)
  unfolding pick
  pick-IsWithin zero p chosen small w h = absurd (ground arith)
  pick-IsWithin (suc fuel) p chosen small w h = elim (Bool-cases (ltb p.gas target)) [
    | inr full ↦ final p chosen w (some-injective p.chosen chosen (rw (full, pick) at h))
    | inl room ↦ elim (Option-cases (pop_best p.heap)) [
      | inl empty ↦ final p chosen w (some-injective p.chosen chosen (rw (room, pick, empty) at h))
      | inr ((e, rest), popped) ↦
          elim (Option-cases
            (take_turn effective_tip base_fee s target max_blobs e.1 (record p { heap = rest }))) [
              | inl stop ↦ absurd (ground (arith, rw (room, pick, popped, stop) at h))
              | inr (p', step) ↦
                  pick-IsWithin fuel p' chosen small
                    (take_turn-IsWithin e.1 (record p { heap = rest }) p' small
                      (record {
                        gas = w.gas;
                        gas_fits = w.gas_fits;
                        blobs = w.blobs;
                        blobs_fit = w.blobs_fit;
                      })
                      step)
                    (rw (room, pick, popped, step) at h)
            ]
    ]
  ]

-- The gas limits of the chosen transactions add up to at most the target, and their blobs to at most
-- the limit, 6 by default, if the target and a single gas limit, and the limit and the blobs of a
-- single transaction, add up within a u64 and a u32.
pub peek_best_transactions_within :
    (effective_tip : Transaction → ℕ → Option ℕ) (base_fee : ℕ) (s : Snapshot) (target : ℕ)
    (max_blobs_per_block : Option ℕ) (chosen : List Transaction)
    → All (λ e. All (IsSmall target (unwrap_or max_blobs_per_block 6)) e.1) s.pending
    → peek_best_transactions effective_tip base_fee s target max_blobs_per_block ≡ some chosen
    → (total_gas chosen ≤ target) × (total_blobs chosen ≤ unwrap_or max_blobs_per_block 6)
unfolding peek_best_transactions start
peek_best_transactions_within effective_tip base_fee s target max_blobs_per_block chosen small h =
    elim (Bool-cases (ltb base_fee u64_mod)) [
      | inr above ↦ absurd (ground (arith, rw (above, peek_best_transactions) at h))
      | inl fits ↦
          pick-IsWithin effective_tip base_fee s target (unwrap_or max_blobs_per_block 6) _ _ chosen
            small
            (record { gas = refl; gas_fits = omega arith; blobs = refl; blobs_fit = omega arith })
            (rw (fits, peek_best_transactions) at h)
    ]
