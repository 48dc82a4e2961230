-- ===== src/Engine.antt =====
-- wasix_eth/wasix_eth_core/src/engine/engine.rs: `Engine::forkchoice_updated`, the answer to the
-- consensus client that names a new head. It is in three parts: the verdict on the head, which only
-- reads; the move of the chain to the head; the attributes of the payload to build.
pub mod Bodies
pub mod Descendants
pub mod Attributes
pub mod Adopted
pub mod Tail
pub mod Update
use wasm_based_evm.Prelude.{
  ℕ, ◌==◌, Bool, true, false, ◌&&◌, not, Option, none, some, List, [], ◌∷◌, lookup, if◌then◌else◌,
  unwrap_or, or_else, is_some, Outcome, ok, err, panic, ltb, leb,
}
use mathlib.Core.Option
use wasm_based_evm.Block.{Header, Block}
use wasm_based_evm.Hardfork.{Hardfork, cancun, shanghai, at_least, ChainConfig, get_active_fork}
use wasm_based_evm.Chain.Storage.{Storage, present}
use wasm_based_evm.Chain.Tree.{
  BlockTree, InvalidationReason, hard, soft, get_invalidation_reason, get_block,
}
use wasm_based_evm.Chain.Canonical.{ForkchoiceState, CanonicalState, update_state}
use wasm_based_evm.Chain.Status.{
  PayloadStatusEnum, PayloadStatus, valid, invalid, syncing, get_latest_valid_ancestor,
}
use wasm_based_evm.Chain.Status
use wasm_based_evm.Chain.Forkchoice.{
  InvalidForkchoiceState, known_header, check_safe_block, check_finalized_block,
  check_header_without_headheader,
}
use wasm_based_evm.Chain.Reorg.{ReorgContext}
use wasm_based_evm.Chain.Revert.{RevertError, revert_to_height}
use wasm_based_evm.Chain.Mark.{mark_branch_canonical}
use wasm_based_evm.Database.{Bytes, TrieAccount, Database, Writer, on_db}

-- The fields of `PayloadAttributes` that are checked; withdrawals count as present or not.
pub record PayloadAttributes : Type 0 where
  pub timestamp : ℕ
  pub has_withdrawals : Bool
  pub parent_beacon_block_root : Option ℕ

-- The errors of the move to a head and of the attributes.
pub data RpcError : Type 0 where
  unsupported_fork invalid_payload_attributes internal : RpcError

-- The verdict on a head: a status that ends the call, an error, or the number of the head.
pub data Verdict : Type 0 where
  answered : PayloadStatus → Verdict
  refused : InvalidForkchoiceState → Verdict
  accepted : ℕ → Verdict

abbrev pub is_valid : PayloadStatusEnum → Bool
is_valid valid = true
is_valid _ = false

-- `has_body` is whether the main storage has the body of a block.
module _ (s : Storage) (tree : BlockTree) (has_body : ℕ → Bool) where
  unfoldable pub determine_payload_status : CanonicalState → ℕ → PayloadStatus
  determine_payload_status c hash =
      if has_body hash
      then record { status = valid; latest_valid_hash = some hash }
      else Status.determine_payload_status s tree c hash

  unfoldable pub get_header_from_anywhere : ℕ → Option Header
  get_header_from_anywhere hash = or_else (present (s.header hash)) (
      or_else (Option.map (λ b. b.header) (s.payload hash))
        (Option.map (λ b. b.header) (get_block hash tree)))

  -- A block that is known to be invalid: soft reasons may be tried again.
  unfoldable pub blame : CanonicalState → ℕ → Option InvalidationReason → Option PayloadStatus
  blame c hash none = none
  blame c hash (some soft) =
      some
        (record { status = syncing; latest_valid_hash = get_latest_valid_ancestor s tree c hash })
  blame c hash (some hard) =
      some
        (record { status = invalid; latest_valid_hash = get_latest_valid_ancestor s tree c hash })

  unfoldable pub blame_parent : CanonicalState → Option Header → Option PayloadStatus
  blame_parent c none = none
  blame_parent c (some h) = blame c h.parent_hash (get_invalidation_reason h.parent_hash tree)

  -- The status that a head which is not valid is answered with.
  unfoldable pub answer : CanonicalState → ℕ → PayloadStatus → PayloadStatus
  answer c head status =
      unwrap_or
        (or_else (blame c head (get_invalidation_reason head tree))
          (blame_parent c (get_header_from_anywhere head)))
        status

  unfoldable pub check_linked : ForkchoiceState → Option Header → Option InvalidForkchoiceState
  check_linked st none = check_header_without_headheader s tree st
  check_linked st (some header) =
      or_else (check_safe_block s tree st header) (check_finalized_block s tree st header)

  -- The number of the head, 0 for none.
  unfoldable pub head_number : ForkchoiceState → Option Header → ℕ
  head_number st header =
      let number = unwrap_or (Option.map (λ h. h.number) header) 0 in
      if number == 0 then unwrap_or (present (s.block_number st.head_block_hash)) 0 else number

  unfoldable pub verdict_linked : ForkchoiceState → Option Header → Verdict
  verdict_linked st header = elim (check_linked st header) [
    | some e ↦ refused e
    | none ↦ accepted (head_number st header)
  ]

  unfoldable pub verdict_of : CanonicalState → ForkchoiceState → PayloadStatus → Verdict
  verdict_of c st status =
      if is_valid status.status
      then if st.head_block_hash == 0
        then accepted 0
        else verdict_linked st (known_header s tree st.head_block_hash)
      else answered (answer c st.head_block_hash status)

  unfoldable pub verdict : CanonicalState → ForkchoiceState → Verdict
  verdict c st = verdict_of c st (determine_payload_status c st.head_block_hash)

-- What the move to a head works on.
pub record Chain : Type 0 where
  pub writer : Writer
  pub canonical : CanonicalState

abbrev pub Moved : Type 0
Moved = Chain × Option RpcError

-- The updates of the canonical state ignore a write that fails.
abbrev pub adopt : Bool → ForkchoiceState → ℕ → Chain → Chain
adopt writes st number ch = record ch { canonical = (update_state writes st number ch.canonical).0 }

-- `reexecute` is the execution of a block from the payloads, which may fail.
module _ (decode : Bytes → Option TrieAccount) (hash_slow : Header → ℕ)
    (reexecute : Block → Database → Option Database) where
  -- A failed revert takes the old state back.
  unfoldable pub after_revert :
      Bool → ForkchoiceState → ℕ → Writer × CanonicalState × Option RevertError → Moved
  after_revert writes old old_number (w, c, none) = (record { writer = w; canonical = c }, none)
  after_revert writes old old_number (w, c, some e) =
      (adopt writes old old_number (record { writer = w; canonical = c }), some internal)

  unfoldable pub revert_first : Bool → ForkchoiceState → ℕ → Bool → ℕ → Chain → Moved
  revert_first writes old old_number false height ch = (ch, none)
  revert_first writes old old_number true height ch =
      after_revert writes old old_number
        (revert_to_height decode writes height ch.writer ch.canonical)

  -- The blocks of the branch that have no body in the main storage are executed, the newest first. One
  -- that fails ends the call; the blocks before it stay executed.
  unfoldable pub reexecute_block : Block → Database → Option Database
  reexecute_block b d =
      if is_some (lookup (hash_slow b.header) d.block_bodies) then some d else reexecute b d

  unfoldable pub reexecute_all : List Block → Database → Database × Bool
  reexecute_all [] d = (d, true)
  reexecute_all (b ∷ bs) d = elim (reexecute_block b d) [
    | none ↦ (d, false)
    | some e ↦ reexecute_all bs e
  ]

  unfoldable pub mark_executed : List Block → Database × Bool → Chain → Moved
  mark_executed blocks (d, false) ch =
      (record ch { writer = record ch.writer { db = d } }, some internal)
  mark_executed blocks (d, true) ch = (
    record ch { writer = record ch.writer { db = mark_branch_canonical hash_slow blocks d } },
    none,
  )

  unfoldable pub mark_new : List Block → Moved → Moved
  mark_new blocks (ch, some e) = (ch, some e)
  mark_new blocks (ch, none) = mark_executed blocks (reexecute_all blocks ch.writer.db) ch

  -- `update_head_block`.
  unfoldable pub finish : Bool → ForkchoiceState → Header → Moved → Moved
  finish writes st header (ch, some e) = (ch, some e)
  finish writes st header (ch, none) = (adopt writes st header.number ch, none)

  -- The blocks of the new branch after the revert to the common ancestor, whose height is 0 if its
  -- header is not found.
  unfoldable pub follow :
      Storage → Bool → ForkchoiceState → ℕ → Outcome (Unit {0}) ReorgContext → Chain → Moved
  follow s writes old old_number (err e) ch = (ch, some internal)
  follow s writes old old_number panic ch = (ch, some internal)
  follow s writes old old_number (ok ctx) ch =
      let height =
        unwrap_or (Option.map (λ h. h.number) (present (s.header ctx.common_ancestor_hash))) 0 in
      mark_new ctx.new_canonical_blocks (revert_first writes old old_number ctx.is_reorg height ch)

  -- The state is updated first; a head with a header is then followed.
  unfoldable pub move :
      Storage
      → Bool
      → ForkchoiceState
      → ℕ
      → Option Header
      → Outcome (Unit {0}) ReorgContext
      → Chain
      → Moved
  move s writes st number none context ch = (adopt writes st number ch, none)
  move s writes st number (some header) context ch =
      finish writes st header
        (follow s writes ch.canonical.state ch.canonical.number context (adopt writes st number ch))

-- `fork_validation`, on the fork at the timestamp of the attributes.
unfoldable pub validate_version : ℕ → Bool → Option ℕ → Option RpcError
validate_version version is_cancun root =
    if leb 3 version && not is_cancun
    then some (if is_some root then unsupported_fork else invalid_payload_attributes)
    else if ltb version 3 && is_cancun
    then some (if is_some root then invalid_payload_attributes else unsupported_fork)
    else none

-- A field that has to be there if and only if a fork is active.
unfoldable pub validate_presence : Bool → Bool → Option RpcError
validate_presence is_active is_present = elim is_active [
  | true ↦ if is_present then none else some invalid_payload_attributes
  | false ↦ if is_present then some invalid_payload_attributes else none
]

unfoldable pub fork_validation : ℕ → ChainConfig → PayloadAttributes → Option RpcError
fork_validation version config attr =
    let fork = get_active_fork config 0 attr.timestamp in
    or_else (validate_version version (at_least fork cancun) attr.parent_beacon_block_root) (
      or_else (validate_presence (at_least fork shanghai) attr.has_withdrawals)
        (validate_presence (at_least fork cancun) (is_some attr.parent_beacon_block_root)))
