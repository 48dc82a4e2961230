-- ===== src/Chain/Status.antt =====
-- wasix_eth/wasix_eth_core/src/chain_manager.rs: what is known of a block (`has_block`,
-- `is_invalid`), its latest valid ancestor and the status of a payload.
pub mod Valid
use wasm_based_evm.Prelude.{
  ℕ, zero, suc, ◌-◌, Bool, true, false, not, ◌&&◌, ◌||◌, Option, none, some, List, [], ◌∷◌, length,
  ◌==◌, leb, if◌then◌else◌, or_else, opt_eq, is_some, ◌⊎◌, inl, inr,
}
use mathlib.Core.Option
use wasm_based_evm.Chain.Storage.{Storage, present, is_canonical, is_true}
use wasm_based_evm.Chain.Tree.{
  BlockTree, get_block, contains_block, get_invalidation_reason, get_invalid_parent,
}
use wasm_based_evm.Chain.Canonical.{CanonicalState, get_head}
use wasm_based_evm.Chain.Ancestor.{is_ancestor}

pub record SyncInfo : Type 0 where
  pub starting_block : ℕ
  pub current_block : ℕ
  pub highest_block : ℕ
  pub stages : Option (List ℕ)

pub data SyncStatus : Type 0 where
  not_syncing : SyncStatus
  syncing_with : SyncInfo → SyncStatus

abbrev at_head : ℕ → SyncStatus
at_head number = syncing_with (record {
  starting_block = 0;
  current_block = number;
  highest_block = number;
  stages = some [];
})

-- A status that was set without stages is given back, else the head is reported.
unfoldable sync_status : SyncStatus → CanonicalState → SyncStatus
sync_status (syncing_with info) c = elim info.stages [
  | none ↦ syncing_with info
  | some l ↦ at_head (get_head c).1
]
sync_status not_syncing c = at_head (get_head c).1

pub data PayloadStatusEnum : Type 0 where
  valid invalid syncing : PayloadStatusEnum

pub record PayloadStatus : Type 0 where
  pub status : PayloadStatusEnum
  pub latest_valid_hash : Option ℕ

abbrev pub member : ℕ → List ℕ → Bool
member x [] = false
member x (y ∷ l) = (y == x) || member x l

unfoldable pub is_invalid : BlockTree → ℕ → Bool
is_invalid tree hash = is_some (get_invalidation_reason hash tree)

abbrev pub answer_or : Option ℕ ⊎ ℕ → (ℕ → Option ℕ) → Option ℕ
answer_or (inl answer) rest = answer
answer_or (inr parent) rest = rest parent

module _ (s : Storage) (tree : BlockTree) where
  -- The header or the payload is stored.
  abbrev pub is_stored : ℕ → Bool
  is_stored hash = is_some (present (s.header hash)) || is_some (s.payload hash)

  unfoldable pub has_block : ℕ → Bool
  has_block hash =
      is_some (present (s.header hash)) || (contains_block hash tree || is_some (s.payload hash))

  abbrev pub is_genesis : ℕ → Bool
  is_genesis hash = opt_eq (present (s.block_hash 0)) (some hash)

  -- The number of an invalid block, from the tree, the headers or the payloads.
  unfoldable pub invalid_number : ℕ → Option ℕ
  invalid_number hash = or_else (Option.map (λ b. b.header.number) (get_block hash tree)) (
      or_else (Option.map (λ h. h.number) (present (s.header hash)))
        (Option.map (λ b. b.header.number) (s.payload hash)))

  unfoldable pub invalid_parent : ℕ → Option ℕ
  invalid_parent hash = or_else (get_invalid_parent hash tree) (
      or_else (Option.map (λ b. b.header.parent_hash) (get_block hash tree)) (
        or_else (Option.map (λ h. h.parent_hash) (present (s.header hash)))
          (Option.map (λ b. b.header.parent_hash) (s.payload hash))))

  abbrev pub if_ancestor : ℕ → Option ℕ → Option ℕ
  if_ancestor current none = none
  if_ancestor current (some hash) = if is_ancestor s tree current hash then some hash else none

  abbrev pub below : ℕ → Option ℕ → Option ℕ
  below current none = none
  below current (some number) = if_ancestor current (present (s.block_hash (number - 1)))

  -- The canonical block one below the invalid block, if it is an ancestor.
  unfoldable pub canonical_below : ℕ → Option ℕ
  canonical_below current = below current (invalid_number current)

  -- One turn of the walk: an answer, or the parent to go on with.
  abbrev pub to_parent : ℕ → Option ℕ → Option ℕ ⊎ ℕ
  to_parent current none = inl none
  to_parent current (some parent) =
      if parent == current
      then inl none
      else if is_true (is_canonical s parent)
      then inl (some parent)
      else inr parent

  unfoldable pub back_step : ℕ → Option ℕ ⊎ ℕ
  back_step current = elim (canonical_below current) [
    | some hash ↦ inl (some hash)
    | none ↦ to_parent current (invalid_parent current)
  ]

  -- With the blocks visited so far: no block twice, and 1024 blocks at most.
  abbrev pub within_limit : List ℕ → Option ℕ ⊎ ℕ → Option ℕ ⊎ ℕ
  within_limit visited (inl answer) = inl answer
  within_limit visited (inr parent) = if leb 1024 (length visited) then inl none else inr parent

  unfoldable pub visit : List ℕ → ℕ → Option ℕ ⊎ ℕ
  visit visited current =
      if member current visited
      then inl none
      else within_limit (current ∷ visited) (back_step current)

  -- The first block that is not invalid.
  unfoldable pub settle : ℕ → Option ℕ
  settle current =
      if has_block current
      then some current
      else if is_genesis current
      then some current
      else if current == 0
      then some 0
      else none

  unfoldable pub walk_back : ℕ → List ℕ → ℕ → Option ℕ
  walk_back zero visited current = none
  walk_back (suc left) visited current = elim (is_invalid tree current) [
    | false ↦ settle current
    | true ↦ answer_or (visit visited current) (λ parent. walk_back left (current ∷ visited) parent)
  ]

  unfoldable pub get_latest_valid_ancestor : CanonicalState → ℕ → Option ℕ
  get_latest_valid_ancestor c hash =
      if hash == 0
      then some 0
      else if is_true (is_canonical s hash)
      then some hash
      else if (hash == (get_head c).0) && not (is_invalid tree hash)
      then some hash
      else if not (is_invalid tree hash) && (has_block hash || is_genesis hash)
      then some hash
      else walk_back 1024 [] hash

  unfoldable pub determine_payload_status : CanonicalState → ℕ → PayloadStatus
  determine_payload_status c hash =
      if is_invalid tree hash
      then record { status = invalid; latest_valid_hash = get_latest_valid_ancestor c hash }
      else if is_stored hash
      then record { status = valid; latest_valid_hash = some hash }
      else record { status = syncing; latest_valid_hash = none }
