-- ===== src/Chain/Canonical.antt =====
-- wasix_eth/wasix_eth_core/src/engine/canonicality_tracker.rs: `CanonicalState`, the forkchoice in
-- memory with the number of the head, and its copy on disk (the table `Forkchoice` that
-- wasix_eth/wasix_eth_storage/src/write.rs `update_forkchoice` writes). Whether a write to the
-- disk succeeds is an argument; the state in memory is changed before the write.
use wasm_based_evm.Prelude.{
  ℕ, Bool, true, false, Option, none, some, List, [], ◌∷◌, ◌==◌, ◌&&◌, if◌then◌else◌, unwrap_or,
  ◌⊎◌, inl, inr, ◌≡◌, refl, arith, ==_refl, Bool-cases,
}
use mathlib.Core.Path.{subst}
use mathlib.Core.Option.{some-injective}
use wasm_based_evm.Chain.Storage.{Storage, present}

pub record ForkchoiceState : Type 0 where
  pub head_block_hash : ℕ
  pub safe_block_hash : ℕ
  pub finalized_block_hash : ℕ

pub record Forkchoice : Type 0 where
  pub head : Option ℕ
  pub safe : Option ℕ
  pub finalized : Option ℕ

pub record CanonicalState : Type 0 where
  pub state : ForkchoiceState
  pub number : ℕ
  pub disk : Forkchoice

unfoldable pub update_forkchoice : ℕ → Option ℕ → Option ℕ → Forkchoice → Forkchoice
update_forkchoice head safe finalized disk = record {
  head = some head;
  safe = elim safe [ none ↦ disk.safe | some h ↦ some h ];
  finalized = elim finalized [ none ↦ disk.finalized | some h ↦ some h ];
}

-- `CanonicalState::new`: the state is read from the disk. A read that fails counts as one that finds
-- nothing.
unfoldable pub load : Storage → Forkchoice → CanonicalState
load s disk =
    let head = unwrap_or disk.head 0 in
    record {
      state = record {
        head_block_hash = head;
        safe_block_hash = unwrap_or disk.safe 0;
        finalized_block_hash = unwrap_or disk.finalized 0;
      };
      number = if head == 0 then 0 else unwrap_or (present (s.block_number head)) 0;
      disk = disk;
    }

unfoldable pub get_head : CanonicalState → ℕ × ℕ
get_head c = (c.state.head_block_hash, c.number)

-- The new state in memory, and the write, which fails where the argument says so.
unfoldable pub store : Bool → ForkchoiceState → ℕ → CanonicalState → CanonicalState × Bool
store true st number c = (
  record {
    state = st;
    number = number;
    disk =
        update_forkchoice st.head_block_hash (some st.safe_block_hash)
          (some st.finalized_block_hash) c.disk;
  },
  true,
)
store false st number c = (record { state = st; number = number; disk = c.disk }, false)

unfoldable pub update_head : Bool → ℕ → ℕ → CanonicalState → CanonicalState × Bool
update_head writes hash number c =
    if (c.state.head_block_hash == hash) && (c.number == number)
    then (c, true)
    else store writes (record c.state { head_block_hash = hash }) number c

unfoldable pub update_safe : Bool → ℕ → CanonicalState → CanonicalState × Bool
update_safe writes hash c =
    if c.state.safe_block_hash == hash
    then (c, true)
    else store writes (record c.state { safe_block_hash = hash }) c.number c

unfoldable pub update_finalized : Bool → ℕ → CanonicalState → CanonicalState × Bool
update_finalized writes hash c =
    if c.state.finalized_block_hash == hash
    then (c, true)
    else store writes (record c.state { finalized_block_hash = hash }) c.number c

-- `==` on `ForkchoiceState`.
abbrev pub same_state : ForkchoiceState → ForkchoiceState → Bool
same_state a b =
    (a.head_block_hash == b.head_block_hash)
    && (a.safe_block_hash == b.safe_block_hash)
    && (a.finalized_block_hash == b.finalized_block_hash)

unfoldable pub update_state : Bool → ForkchoiceState → ℕ → CanonicalState → CanonicalState × Bool
update_state writes st number c =
    if same_state c.state st && (c.number == number) then (c, true) else store writes st number c

-- An update of the canonical state, with whether its write to the disk succeeds.
pub data Update : Type 0 where
  head : Bool → ℕ → ℕ → Update
  safe finalized : Bool → ℕ → Update
  whole : Bool → ForkchoiceState → ℕ → Update

abbrev pub apply : Update → CanonicalState → CanonicalState × Bool
apply (Update.head w hash number) c = update_head w hash number c
apply (Update.safe w hash) c = update_safe w hash c
apply (Update.finalized w hash) c = update_finalized w hash c
apply (whole w st number) c = update_state w st number c

-- The disk has what the memory has.
abbrev pub IsSaved : CanonicalState → Type 0
IsSaved c =
    (unwrap_or c.disk.head 0 ≡ c.state.head_block_hash)
    × ((unwrap_or c.disk.safe 0 ≡ c.state.safe_block_hash)
        × (unwrap_or c.disk.finalized 0 ≡ c.state.finalized_block_hash))

abbrev Saves : CanonicalState → CanonicalState × Bool → Type 0
Saves c r = ((r.1 ≡ true) × IsSaved r.0) ⊎ ((r.1 ≡ false) × (r.0.disk ≡ c.disk))

kept :
    (same w : Bool) (st : ForkchoiceState) (number : ℕ) (c : CanonicalState)
    → IsSaved c
    → Saves c (if same then (c, true) else store w st number c)
unfolding store update_forkchoice
kept true w st number c v = inl (refl, v)
kept false true st number c v = inl (refl, (refl, (refl, refl)))
kept false false st number c v = inr (refl, refl)

-- An update that succeeds leaves on the disk what the memory has, if it was so before. One that
-- fails leaves the disk as it was.
update_saves :
    (u : Update) (c : CanonicalState)
    → IsSaved c
    → (((apply u c).1 ≡ true) × IsSaved (apply u c).0)
      ⊎ (((apply u c).1 ≡ false) × ((apply u c).0.disk ≡ c.disk))
unfolding update_head update_safe update_finalized update_state
update_saves (Update.head w hash number) c v = kept _ w _ _ c v
update_saves (Update.safe w hash) c v = kept _ w _ _ c v
update_saves (Update.finalized w hash) c v = kept _ w _ _ c v
update_saves (whole w st number) c v = kept _ w _ _ c v

-- The updates in order, as long as they succeed.
abbrev pub run : List Update → CanonicalState → Option CanonicalState
run [] c = some c
run (u ∷ us) c = let rest = run us (apply u c).0 in if (apply u c).1 then rest else none

run-IsSaved : (us : List Update) (c d : CanonicalState) → IsSaved c → run us c ≡ some d → IsSaved d
run-IsSaved [] c d v e = subst IsSaved (some-injective c d e) v
run-IsSaved (u ∷ us) c d v e = elim (update_saves u c v) [
  | inl (done, saved) ↦ run-IsSaved us (apply u c).0 d saved (rw done at e)
  | inr (failed, _) ↦ absurd (ground (arith, rw failed at e))
]

-- If the state is loaded from the disk and updated any number of times, each time with success, then
-- loading it again gives the same forkchoice state.
pub restart_restores :
    (s : Storage) (disk : Forkchoice) (us : List Update) (c : CanonicalState)
    → run us (load s disk) ≡ some c
    → (load s c.disk).state ≡ c.state
unfolding load
restart_restores s disk us c e =
    let saved : IsSaved c = run-IsSaved us (load s disk) c (refl, (refl, refl)) e in
    rw (saved.0, saved.1.0, saved.1.1)

-- An update of the head whose write failed is not written by a second try: that one succeeds at
-- once, whether it could write or not, and the disk is as it was before the first.
pub update_head_retry :
    (w : Bool) (hash number : ℕ) (c : CanonicalState)
    → (update_head w hash number (update_head false hash number c).0
        ≡ ((update_head false hash number c).0, true))
      × ((update_head false hash number c).0.disk ≡ c.disk)
unfolding update_head store
update_head_retry w hash number c =
    elim (Bool-cases ((c.state.head_block_hash == hash) && (c.number == number))) [
      | inl same ↦ rw (same, same) (refl, refl)
      | inr other ↦ rw (other, ==_refl hash, ==_refl number) (refl, refl)
    ]
