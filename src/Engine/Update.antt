-- ===== src/Engine/Update.antt =====
-- engine.rs, `forkchoice_updated` as a whole, less the building of the payload, the metrics and the
-- messages to the mempool. The reads of blocks by their hash are those of one storage. `none` is a
-- walk of `resolve_reorg` that the fuel does not end.
use wasm_based_evm.Prelude.{
  ℕ, ◌==◌, ◌≡◌, refl, Bool, true, false, ◌⊎◌, inl, inr, Option, none, some, if◌then◌else◌, or_else,
  unwrap_or, leb, Bool-cases, is_some, ◌<◌, Option-cases, Outcome, ok, err, panic, arith,
}
use mathlib.Core.Path.{subst}
use mathlib.Core.Option
use mathlib.Core.Option.{some-injective}
use wasm_based_evm.Block.{Header, Block}
use wasm_based_evm.Hardfork.{ChainConfig}
use wasm_based_evm.Database.{Bytes, TrieAccount, Database}
use wasm_based_evm.Chain.Storage.{Storage, present}
use wasm_based_evm.Chain.Tree.{BlockTree, InvalidationReason, hard, soft, get_invalidation_reason}
use wasm_based_evm.Chain.Canonical.{ForkchoiceState, CanonicalState}
use wasm_based_evm.Chain.Status.{PayloadStatus}
use wasm_based_evm.Chain.Forkchoice.{InvalidForkchoiceState}
use wasm_based_evm.Chain.Reorg.{resolve_reorg}
use wasm_based_evm.Chain.Reorg.Branch.{IsParent, resolve_reorg_total}
use wasm_based_evm.Engine.Adopted.{move_adopts}
use wasm_based_evm.Engine.{
  PayloadAttributes, RpcError, invalid_payload_attributes, Verdict, answered, refused, accepted,
  is_valid, Chain, Moved, determine_payload_status, get_header_from_anywhere, blame, blame_parent,
  answer, check_linked, verdict_linked, verdict_of, verdict, move, fork_validation,
}

-- The errors of the call: the state is refused, or what follows its acceptance fails.
pub data UpdateError : Type 0 where
  invalid_forkchoice : InvalidForkchoiceState → UpdateError
  failed : RpcError → UpdateError

abbrev pub Answer : Type 0
Answer = Chain × Outcome UpdateError PayloadStatus

-- The attributes against the timestamp of the head and the fork.
unfoldable pub check_timestamp : PayloadAttributes → Option Block → Option RpcError
check_timestamp attr none = none
check_timestamp attr (some b) =
    if leb attr.timestamp b.header.timestamp then some invalid_payload_attributes else none

unfoldable pub check_attributes :
    Storage → ChainConfig → ℕ → ℕ → Option PayloadAttributes → Option RpcError
check_attributes s config head version none = none
check_attributes s config head version (some attr) =
    or_else (check_timestamp attr (or_else (present (s.block_by_hash head)) (s.payload head)))
      (fork_validation version config attr)

-- The errors of the move come before those of the attributes.
unfoldable pub answer_move : PayloadStatus → Option RpcError → Moved → Answer
answer_move p check (ch, some e) = (ch, err (failed e))
answer_move p none (ch, none) = (ch, ok p)
answer_move p (some e) (ch, none) = (ch, err (failed e))

-- What an answer says of the state.
abbrev pub IsHonest : ForkchoiceState → Chain → Answer → Type 0
IsHonest st ch (ch', ok p) =
    ((is_valid p.status ≡ true) × (ch'.canonical.state ≡ st))
    ⊎ ((is_valid p.status ≡ false) × (ch' ≡ ch))
IsHonest st ch (ch', err (invalid_forkchoice e)) = ch' ≡ ch
IsHonest st ch (ch', err (failed e)) = Unit
IsHonest st ch (ch', panic) = ⊥

module _ (decode : Bytes → Option TrieAccount) (hash_slow : Header → ℕ)
    (reexecute : Block → Database → Option Database) (s : Storage) (tree : BlockTree)
    (has_body : ℕ → Bool) (config : ChainConfig) (writes : Bool) where
  -- The head is followed if its header is stored.
  unfoldable pub moved : ℕ → ForkchoiceState → ℕ → Option Header → Chain → Option Moved
  moved fuel st number none ch =
      some (move decode hash_slow reexecute s writes st number none panic ch)
  moved fuel st number (some h) ch =
      Option.map (λ context. move decode hash_slow reexecute s writes st number (some h) context ch)
        (resolve_reorg s fuel ch.canonical.state.head_block_hash st.head_block_hash)

  unfoldable pub update_by :
      ℕ
      → ForkchoiceState
      → Option PayloadAttributes
      → ℕ
      → PayloadStatus
      → Verdict
      → Chain
      → Option Answer
  update_by fuel st attr version p (answered q) ch = some (ch, ok q)
  update_by fuel st attr version p (refused e) ch = some (ch, err (invalid_forkchoice e))
  update_by fuel st attr version p (accepted number) ch =
      Option.map (answer_move p (check_attributes s config st.head_block_hash version attr)) (
        moved fuel st number
          (or_else (present (s.header st.head_block_hash))
            (Option.map (λ b. b.header) (s.payload st.head_block_hash)))
          ch)

  unfoldable pub forkchoice_updated :
      ℕ → ForkchoiceState → Option PayloadAttributes → ℕ → Chain → Option Answer
  forkchoice_updated fuel st attr version ch =
      let p = determine_payload_status s tree has_body ch.canonical st.head_block_hash in
      update_by fuel st attr version p (verdict s tree has_body ch.canonical st) ch

  blame-not_valid :
      (c : CanonicalState) (hash : ℕ) (o : Option InvalidationReason) (p : PayloadStatus)
      → blame s tree has_body c hash o ≡ some p
      → is_valid p.status ≡ false
  unfolding blame
  blame-not_valid c hash none p e = absurd (ground arith)
  blame-not_valid c hash (some soft) p e = rw⁻¹ (some-injective _ p e) refl
  blame-not_valid c hash (some hard) p e = rw⁻¹ (some-injective _ p e) refl

  blame_parent-not_valid :
      (c : CanonicalState) (h : Option Header) (p : PayloadStatus)
      → blame_parent s tree has_body c h ≡ some p
      → is_valid p.status ≡ false
  unfolding blame_parent
  blame_parent-not_valid c none p e = absurd (ground arith)
  blame_parent-not_valid c (some h) p e = blame-not_valid c h.parent_hash _ p e

  answer-not_valid :
      (c : CanonicalState) (head : ℕ) (status : PayloadStatus)
      → is_valid status.status ≡ false
      → is_valid (answer s tree has_body c head status).status ≡ false
  unfolding answer
  answer-not_valid c head status e =
      go (blame s tree has_body c head (get_invalidation_reason head tree))
        (blame_parent s tree has_body c (get_header_from_anywhere s tree has_body head)) refl refl
    where
      go :
          (a b : Option PayloadStatus)
          → blame s tree has_body c head (get_invalidation_reason head tree) ≡ a
          → blame_parent s tree has_body c (get_header_from_anywhere s tree has_body head) ≡ b
          → is_valid (unwrap_or (or_else a b) status).status ≡ false
      go (some p) b ea eb = blame-not_valid c head _ p ea
      go none (some p) ea eb = blame_parent-not_valid c _ p eb
      go none none ea eb = e

  -- The status that goes with a verdict.
  abbrev pub IsApt : PayloadStatus → Verdict → Type 0
  IsApt p (answered q) = is_valid q.status ≡ false
  IsApt p (refused e) = Unit
  IsApt p (accepted number) = is_valid p.status ≡ true

  verdict_linked-IsApt :
      (p : PayloadStatus) (st : ForkchoiceState) (h : Option Header)
      → is_valid p.status ≡ true
      → IsApt p (verdict_linked s tree has_body st h)
  unfolding verdict_linked
  verdict_linked-IsApt p st h v = elim (Option-cases (check_linked s tree has_body st h)) [
    | inl e ↦ rw (e, verdict_linked) v
    | inr (x, e) ↦ rw (e, verdict_linked) tt
  ]

  verdict_of-IsApt :
      (c : CanonicalState) (st : ForkchoiceState) (p : PayloadStatus)
      → IsApt p (verdict_of s tree has_body c st p)
  unfolding verdict_of
  verdict_of-IsApt c st p = elim (Bool-cases (is_valid p.status)) [
    | inl v ↦ elim (Bool-cases (st.head_block_hash == 0)) [
      | inl zero_head ↦ rw (v, verdict_of, zero_head) v
      | inr other ↦ rw (v, verdict_of, other) (verdict_linked-IsApt p st _ v)
    ]
    | inr n ↦ rw (n, verdict_of) (answer-not_valid c st.head_block_hash p n)
  ]

  -- A move that ends has the state of the call.
  moved-adopts :
      (fuel : ℕ) (st : ForkchoiceState) (number : ℕ) (h : Option Header) (ch : Chain) (m : Moved)
      → moved fuel st number h ch ≡ some m
      → m.1 ≡ none
      → m.0.canonical.state ≡ st
  unfolding moved
  moved-adopts fuel st number none ch m e done =
      let same = some-injective _ m e in
      subst (λ r. r.1 ≡ none → r.0.canonical.state ≡ st) same
        (move_adopts decode hash_slow reexecute s writes st number none panic ch) done
  moved-adopts fuel st number (some h) ch m e done =
      elim (Option-cases
        (resolve_reorg s fuel ch.canonical.state.head_block_hash st.head_block_hash)) [
          | inl endless ↦ absurd (ground (arith, rw (endless, moved) at e))
          | inr (context, found) ↦
              let same = some-injective _ m (rw (found, moved) at e) in
              subst (λ r. r.1 ≡ none → r.0.canonical.state ≡ st) same
                (move_adopts decode hash_slow reexecute s writes st number (some h) context ch) done
        ]

  answer_move-IsHonest :
      (st : ForkchoiceState) (ch : Chain) (p : PayloadStatus) (check : Option RpcError) (m : Moved)
      → is_valid p.status ≡ true
      → (m.1 ≡ none → m.0.canonical.state ≡ st)
      → IsHonest st ch (answer_move p check m)
  unfolding answer_move
  answer_move-IsHonest st ch p check (ch', some e) v h = tt
  answer_move-IsHonest st ch p none (ch', none) v h = inl (v, h refl)
  answer_move-IsHonest st ch p (some e) (ch', none) v h = tt

  update_by-IsHonest :
      (fuel : ℕ) (st : ForkchoiceState) (attr : Option PayloadAttributes) (version : ℕ)
      (p : PayloadStatus) (v : Verdict) (ch : Chain) (a : Answer)
      → IsApt p v
      → update_by fuel st attr version p v ch ≡ some a
      → IsHonest st ch a
  unfolding update_by
  update_by-IsHonest fuel st attr version p (answered q) ch a apt e =
      subst (IsHonest st ch) (some-injective _ a e) (inr (apt, refl))
  update_by-IsHonest fuel st attr version p (refused x) ch a apt e =
      subst (IsHonest st ch) (some-injective _ a e) refl
  update_by-IsHonest fuel st attr version p (accepted number) ch a apt e =
      let h =
        or_else (present (s.header st.head_block_hash))
          (Option.map (λ b. b.header) (s.payload st.head_block_hash)) in
      elim (Option-cases (moved fuel st number h ch)) [
        | inl endless ↦ absurd (ground (arith, rw endless at e))
        | inr (m, found) ↦
            subst (IsHonest st ch) (some-injective _ a (rw found at e))
              (answer_move-IsHonest st ch p _ m apt (moved-adopts fuel st number h ch m found))
      ]

  -- The walk is all that may not end.
  moved_ends :
      (fuel number : ℕ) (st : ForkchoiceState) (h : Option Header) (ch : Chain)
      → is_some (resolve_reorg s fuel ch.canonical.state.head_block_hash st.head_block_hash) ≡ true
      → is_some (moved fuel st number h ch) ≡ true
  unfolding moved
  moved_ends fuel number st none ch e = refl
  moved_ends fuel number st (some h) ch e =
      elim (Option-cases
        (resolve_reorg s fuel ch.canonical.state.head_block_hash st.head_block_hash)) [
          | inl endless ↦ absurd (ground (arith, rw endless at e))
          | inr (context, found) ↦ rw (found, moved) refl
        ]

  update_by_ends :
      (fuel : ℕ) (st : ForkchoiceState) (attr : Option PayloadAttributes) (version : ℕ)
      (p : PayloadStatus) (v : Verdict) (ch : Chain)
      → ((number : ℕ) (h : Option Header) → is_some (moved fuel st number h ch) ≡ true)
      → is_some (update_by fuel st attr version p v ch) ≡ true
  unfolding update_by
  update_by_ends fuel st attr version p (answered q) ch ends = refl
  update_by_ends fuel st attr version p (refused x) ch ends = refl
  update_by_ends fuel st attr version p (accepted number) ch ends =
      let h =
        or_else (present (s.header st.head_block_hash))
          (Option.map (λ b. b.header) (s.payload st.head_block_hash)) in
      elim (Option-cases (moved fuel st number h ch)) [
        | inl endless ↦ absurd (ground (arith, rw endless at (ends number h)))
        | inr (m, found) ↦ rw found refl
      ]

-- If a measure gets smaller from each stored block to its parent, then fuel above the measure of the
-- new head lets a forkchoice update end with an answer, and the answer tells what became of the
-- state: VALID means that the state of the call is the canonical state, any other status, and the
-- refusal of the state, that nothing has changed.
pub forkchoice_updated_answers :
    (decode : Bytes → Option TrieAccount) (hash_slow : Header → ℕ)
    (reexecute : Block → Database → Option Database) (s : Storage) (tree : BlockTree)
    (has_body : ℕ → Bool) (config : ChainConfig) (writes : Bool) (height : ℕ → ℕ) (fuel : ℕ)
    (st : ForkchoiceState) (attr : Option PayloadAttributes) (version : ℕ) (ch : Chain)
    → ((c p : ℕ) → IsParent s c p → height p < height c)
    → height st.head_block_hash < fuel
    → (a : Answer) × (forkchoice_updated decode hash_slow reexecute s tree has_body config writes
          fuel st attr version ch
        ≡ some a)
      × IsHonest st ch a
unfolding forkchoice_updated verdict
forkchoice_updated_answers decode hash_slow reexecute s tree has_body config writes height fuel st
      attr version ch smaller enough =
    let p = determine_payload_status s tree has_body ch.canonical st.head_block_hash in
    let v = verdict s tree has_body ch.canonical st in
    let walk =
      resolve_reorg_total s height ch.canonical.state.head_block_hash st.head_block_hash fuel
        smaller enough in
    let ends =
      update_by_ends decode hash_slow reexecute s tree has_body config writes fuel st attr version p
        v ch
        (λ number h.
          moved_ends decode hash_slow reexecute s tree has_body config writes fuel number st h ch
            walk) in
    elim (Option-cases (
      update_by decode hash_slow reexecute s tree has_body config writes fuel st attr version p v
        ch)) [
          | inl endless ↦ absurd (ground (arith, rw endless at ends))
          | inr (a, found) ↦ (
            a,
            found,
            update_by-IsHonest decode hash_slow reexecute s tree has_body config writes fuel st attr
                version p v ch a
                (verdict_of-IsApt decode hash_slow reexecute s tree has_body config writes
                  ch.canonical st p)
                found,
          )
        ]
