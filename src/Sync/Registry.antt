-- ===== src/Sync/Registry.antt =====
-- wasix_eth/wasix_eth_core/src/sync/registry.rs: `SyncRegistry`. Whether the chain manager has the
-- block of a new target is an argument; the notification is counted.
use wasm_based_evm.Prelude.{
  ℕ, ◌+◌, Bool, true, false, not, ◌||◌, Option, none, some, List, [], ◌∷◌, ◌++◌, ◌==◌,
  if◌then◌else◌, is_empty, ◌≡◌, refl, arith, Bool-cases, inl, inr,
}

pub data SyncStatus : Type 0 where
  idle syncing stalled : SyncStatus

pub record SyncTarget : Type 0 where
  pub hash : ℕ
  pub peer_id : Option ℕ
  pub retries : ℕ

pub record SyncRegistry : Type 0 where
  pub targets : List SyncTarget
  pub status : SyncStatus
  pub notified : ℕ

abbrev pub new : SyncRegistry
new = record { targets = []; status = idle; notified = 0 }

abbrev pub has_target : ℕ → List SyncTarget → Bool
has_target hash [] = false
has_target hash (t ∷ l) = (t.hash == hash) || has_target hash l

unfoldable pub add_target_with_retries : Bool → SyncTarget → SyncRegistry → SyncRegistry
add_target_with_retries has_block t r =
    if has_block
    then r
    else if not (has_target t.hash r.targets)
    then record r { targets = r.targets ++ (t ∷ []); notified = r.notified + 1 }
    else r

unfoldable pub add_target : Bool → ℕ → Option ℕ → SyncRegistry → SyncRegistry
add_target has_block hash peer_id r =
    add_target_with_retries has_block (record { hash = hash; peer_id = peer_id; retries = 0 }) r

unfoldable pub pop_target : SyncRegistry → SyncRegistry × Option SyncTarget
pop_target r = elim r.targets [ [] ↦ (r, none) | t ∷ l ↦ (record r { targets = l }, some t) ]

unfoldable pub set_status : SyncStatus → SyncRegistry → SyncRegistry
set_status status r = record r { status = status }

unfoldable pub has_targets : SyncRegistry → Bool
has_targets r = not (is_empty r.targets)

unfoldable pub clear_targets : SyncRegistry → SyncRegistry
clear_targets r = record r { targets = [] }

unfoldable pub is_syncing : SyncRegistry → Bool
is_syncing r = elim r.status [ syncing ↦ true | _ ↦ false ]

-- The operations that change the registry.
pub data Op : Type 0 where
  add : Bool → SyncTarget → Op
  pop clear : Op
  change : SyncStatus → Op

abbrev pub apply : Op → SyncRegistry → SyncRegistry
apply (add has_block t) r = add_target_with_retries has_block t r
apply pop r = (pop_target r).0
apply clear r = clear_targets r
apply (change status) r = set_status status r

abbrev pub run : List Op → SyncRegistry → SyncRegistry
run [] r = r
run (op ∷ ops) r = run ops (apply op r)

-- No block is a target twice.
abbrev pub IsDistinct : List SyncTarget → Type 0
IsDistinct [] = Unit
IsDistinct (t ∷ l) = (has_target t.hash l ≡ false) × IsDistinct l

has_target-append :
    (hash : ℕ) (t : SyncTarget) (l : List SyncTarget)
    → has_target hash (l ++ (t ∷ [])) ≡ has_target hash l || (t.hash == hash)
has_target-append hash t [] = ground arith
has_target-append hash t (x ∷ l) = ground (arith, has_target-append hash t l)

IsDistinct-append :
    (t : SyncTarget) (l : List SyncTarget)
    → IsDistinct l
    → has_target t.hash l ≡ false
    → IsDistinct (l ++ (t ∷ []))
IsDistinct-append t [] d e = (refl, tt)
IsDistinct-append t (x ∷ l) d e =
    (rw has_target-append (ground (arith, d.0, e)), IsDistinct-append t l d.1 (ground (arith, e)))

-- From a registry in which no block is a target twice, any sequence of additions, pops, clearings
-- and changes of the status leads to such a registry.
pub run-IsDistinct :
    (ops : List Op) (r : SyncRegistry) → IsDistinct r.targets → IsDistinct (run ops r).targets
unfolding add_target_with_retries pop_target clear_targets set_status
run-IsDistinct [] r d = d
run-IsDistinct (op ∷ ops) r d = run-IsDistinct ops (apply op r) (one op)
  where
    popped :
        (l : List SyncTarget) → r.targets ≡ l → IsDistinct l → IsDistinct (pop_target r).0.targets
    popped [] e d = rw e tt
    popped (t ∷ l) e d = rw e d.1

    one : (op : Op) → IsDistinct (apply op r).targets
    one (add true t) = d
    one (add false t) = elim (Bool-cases (has_target t.hash r.targets)) [
      | inl there ↦ rw there d
      | inr absent ↦ rw absent (IsDistinct-append t r.targets d absent)
    ]
    one pop = popped r.targets refl d
    one clear = tt
    one (change status) = d
