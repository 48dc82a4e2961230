-- ===== src/Engine/Bodies.antt =====
-- engine.rs: `get_payload_bodies_by_hash` and `get_payload_bodies_by_range`, the bodies that the
-- consensus client asks for, as blocks before their encoding.
use wasm_based_evm.Prelude.{
  ℕ, zero, suc, ◌+◌, ◌-◌, ◌<◌, ◌≤◌, ◌==◌, ◌≡◌, ◌^◌, refl, ap, ◌∙◌, min, false, Option, none, some,
  List, [], ◌∷◌, length, get_elem?, if◌then◌else◌, Outcome, ok, err, panic, ◌>>=◌, ltb, add64,
  arith,
}
use mathlib.Core.Option
use wasm_based_evm.Block.{Header, Body, Block}
use wasm_based_evm.Chain.Storage.{Storage, Read, present}
use wasm_based_evm.Chain.Canonical.{CanonicalState, get_head}

-- The reads of bodies.
pub record BodyStorage : Type 0 where
  pub block_body : ℕ → Read Body
  pub block_body_by_hash : ℕ → Read Body

pub data BodiesError : Type 0 where
  invalid_params failed_read : BodiesError

-- A body whose header is not read counts as missing.
unfoldable pub with_header : Read Header → Option Body → Option Block
with_header header none = none
with_header header (some body) =
    Option.map (λ h. record { header = h; body = body }) (present header)

unfoldable pub read_body : Read Header → Read Body → Outcome BodiesError (Option Block)
read_body header (ok body) = ok (with_header header body)
read_body header (err e) = err failed_read
read_body header panic = panic

-- The loops: the bodies of the keys, up to the first read that fails.
unfoldable pub read_bodies :
    (ℕ → Outcome BodiesError (Option Block)) → List ℕ → Outcome BodiesError (List (Option Block))
read_bodies read [] = ok []
read_bodies read (k ∷ ks) = read k >>= λ b. read_bodies read ks >>= λ bs. ok (b ∷ bs)

-- The numbers `start`, `start + 1` and so on.
abbrev pub interval : ℕ → ℕ → List ℕ
interval start zero = []
interval start (suc n) = start ∷ interval (suc start) n

module _ (s : Storage) (r : BodyStorage) where
  unfoldable pub get_payload_bodies_by_hash : List ℕ → Outcome BodiesError (List (Option Block))
  get_payload_bodies_by_hash hashes =
      read_bodies (λ hash. read_body (s.header hash) (r.block_body_by_hash hash)) hashes

  unfoldable pub get_payload_bodies_by_range :
      CanonicalState → ℕ → ℕ → Outcome BodiesError (List (Option Block))
  get_payload_bodies_by_range c start count =
      if count == 0
      then err invalid_params
      else if start == 0
      then err invalid_params
      else if ltb (get_head c).1 start
      then ok []
      else read_bodies (λ number. read_body (s.header_at number) (r.block_body number))
          (interval start (min count (add64 ((get_head c).1 - start) 1)))

-- The body at each place is that of the number.
abbrev pub IsWindow : (ℕ → Option Block) → ℕ → ℕ → List (Option Block) → Type 0
IsWindow at start n l = (length l ≡ n) × ((i : ℕ) → i < n → get_elem? l i ≡ some (at (start + i)))

-- The places after the first hold those of the next number on.
places :
    (at : ℕ → Option Block) (start : ℕ) (l : List (Option Block)) (n : ℕ)
    → ((i : ℕ) → i < n → get_elem? l i ≡ some (at (suc start + i)))
    → (i : ℕ) → i < suc n
    → get_elem? (at start ∷ l) i ≡ some (at (start + i))
places at start l n rest zero lt = ap (λ k. some (at k)) (omega arith)
places at start l n rest (suc i) lt =
    rest i (omega (arith, lt)) ∙ ap (λ k. some (at k)) (omega arith)

read_bodies-IsWindow :
    (read : ℕ → Outcome BodiesError (Option Block)) (at : ℕ → Option Block) (start n : ℕ)
    → ((k : ℕ) → start ≤ k → k < start + n → read k ≡ ok (at k))
    → (l : List (Option Block)) × (read_bodies read (interval start n) ≡ ok l)
      × IsWindow at start n l
unfolding read_bodies
read_bodies-IsWindow read at start zero reads =
    ([], refl, (refl, λ i lt. absurd (omega (arith, lt))))
read_bodies-IsWindow read at start (suc n) reads =
    let (l, e, (len, rest)) =
      read_bodies-IsWindow read at (suc start) n
        (λ k ge lt. reads k (omega (arith, ge)) (omega (arith, lt))) in
    (
      at start ∷ l,
      rw (reads start (omega arith) (omega arith), e) refl,
      (ap suc len, places at start l n rest),
    )

positive : (n : ℕ) → 1 ≤ n → (n == 0) ≡ false
positive n h = ground (arith, h)

not_below : (head start : ℕ) → start ≤ head → ltb head start ≡ false
not_below head start h = ground (arith, h)

-- If the head is not below the start, the numbers fit a word and all bodies from the start to the
-- head can be read, then the bodies of a range of a positive start and count are those of the
-- numbers from the start on, in order, as many as are asked for and none above the head.
pub get_payload_bodies_by_range-IsWindow :
    (s : Storage) (r : BodyStorage) (c : CanonicalState) (start count : ℕ) (body : ℕ → Option Body)
    → 1 ≤ start
    → 1 ≤ count
    → start ≤ c.number
    → c.number < 2 ^ 64
    → ((k : ℕ) → start ≤ k → k ≤ c.number → r.block_body k ≡ ok (body k))
    → (l : List (Option Block)) × (get_payload_bodies_by_range s r c start count ≡ ok l)
      × IsWindow
          (λ k. with_header (s.header_at k) (body k))
          start
          (min count (c.number + 1 - start))
          l
unfolding get_payload_bodies_by_range get_head read_body
get_payload_bodies_by_range-IsWindow s r c start count body one_start one_count below fits reads =
    let span : min count (add64 (c.number - start) 1) ≡ min count (c.number + 1 - start) =
      ap (min count) (omega (arith, below, fits, one_start)) in
    let window =
      read_bodies-IsWindow (λ k. read_body (s.header_at k) (r.block_body k))
        (λ k. with_header (s.header_at k) (body k)) start (min count (c.number + 1 - start))
        (λ k ge lt. ap (read_body (s.header_at k)) (reads k ge (omega (arith, lt, below)))) in
    rw (span, positive count one_count, positive start one_start, not_below c.number start below)
      window
