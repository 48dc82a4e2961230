-- ===== src/Discovery.antt =====
-- wasix_eth/wasix_eth_p2p/src/discovery/kbuckets.rs: `RoutingTable`, the nodes known to the discovery
-- protocol in buckets by the distance of their hashes. Keccak and the exclusive or of two hashes
-- (keccak256 and `B256 ^ B256` of alloy) are parameters, the latter as bytes.
pub mod Buckets
use wasm_based_evm.Prelude.{
  ℕ, zero, suc, ◌+◌, ◌-◌, ◌*◌, Bool, true, false, not, Option, none, some, List, [], ◌∷◌, ◌++◌,
  ◌==◌, ltb, leb, if◌then◌else◌, unwrap_or, length, get_elem?, set, take,
}

pub record NodeRecord : Type 0 where
  pub id : ℕ
  pub endpoint : ℕ
  pub last_seen : ℕ

pub record RoutingTable : Type 0 where
  pub local_id : ℕ
  pub buckets : List (List NodeRecord)

abbrev pub max_bucket_size : ℕ
max_bucket_size = 16

-- `u8::leading_zeros`.
abbrev pub leading_zeros : ℕ → ℕ
leading_zeros b =
    if leb 128 b
    then 0
    else if leb 64 b
    then 1
    else if leb 32 b
    then 2
    else if leb 16 b
    then 3
    else if leb 8 b
    then 4
    else if leb 4 b
    then 5
    else if leb 2 b
    then 6
    else 7

-- The position of the highest bit that is set, of the bytes from the given one on.
unfoldable pub highest_bit : ℕ → List ℕ → Option ℕ
highest_bit i [] = none
highest_bit i (byte ∷ bytes) =
    let rest = highest_bit (i + 1) bytes in
    if not (byte == 0) then some (255 - (i * 8 + leading_zeros byte)) else rest

abbrev pub find_node : ℕ → List NodeRecord → Option NodeRecord
find_node id [] = none
find_node id (n ∷ l) = if n.id == id then some n else find_node id l

-- `bucket.retain(|n| n.id != id)`.
abbrev pub retain : ℕ → List NodeRecord → List NodeRecord
retain id [] = []
retain id (n ∷ l) = let rest = retain id l in if n.id == id then rest else n ∷ rest

abbrev pub repeat : {A : Type 0} → ℕ → A → List A
repeat zero x = []
repeat (suc n) x = x ∷ repeat n x

abbrev pub concat : {A : Type 0} → List (List A) → List A
concat [] = []
concat (l ∷ ls) = l ++ concat ls

unfoldable pub new : ℕ → RoutingTable
new local_id = record { local_id = local_id; buckets = repeat 256 [] }

-- A new node is added where there is room for it, or the oldest node is given back.
abbrev pub add_new : Bool → NodeRecord → List NodeRecord → List NodeRecord × Option NodeRecord
add_new true node bucket = (bucket ++ (node ∷ []), none)
add_new false node bucket = (bucket, get_elem? bucket 0)

-- What is done in a bucket for a node that is seen: it moves to the end, it is added, or the bucket
-- is full and its oldest node is given back.
unfoldable pub see_in : ℕ → ℕ → ℕ → List NodeRecord → List NodeRecord × Option NodeRecord
see_in id endpoint now bucket = elim (find_node id bucket) [
  | some existing ↦
      (retain id bucket ++ (record existing { endpoint = endpoint; last_seen = now } ∷ []), none)
  | none ↦
      add_new (ltb (length bucket) max_bucket_size)
        (record { id = id; endpoint = endpoint; last_seen = now }) bucket
]

module _ (keccak : ℕ → ℕ) (xor : ℕ → ℕ → List ℕ) where
  unfoldable pub distance_log2 : ℕ → ℕ → Option ℕ
  distance_log2 local_id id = highest_bit 0 (xor (keccak local_id) (keccak id))

  abbrev pub bucket_at : ℕ → RoutingTable → List NodeRecord
  bucket_at i t = unwrap_or (get_elem? t.buckets i) []

  unfoldable pub add_node : ℕ → ℕ → ℕ → RoutingTable → RoutingTable × Option NodeRecord
  add_node id endpoint now t =
      if id == t.local_id then (t, none) else elim (distance_log2 t.local_id id) [
        | none ↦ (t, none)
        | some i ↦
            let (bucket, oldest) = see_in id endpoint now (bucket_at i t) in
            (record t { buckets = set t.buckets i bucket }, oldest)
      ]

  unfoldable pub remove_node : ℕ → RoutingTable → RoutingTable
  remove_node id t = elim (distance_log2 t.local_id id) [
    | none ↦ t
    | some i ↦ record t { buckets = set t.buckets i (retain id (bucket_at i t)) }
  ]

unfoldable pub get_all_nodes : RoutingTable → List NodeRecord
get_all_nodes t = concat t.buckets

-- `sort_by_key`, which keeps the order of equal keys.
abbrev pub insert_by : (ℕ → ℕ) → NodeRecord → List NodeRecord → List NodeRecord
insert_by key n [] = n ∷ []
insert_by key n (m ∷ l) =
    let rest = insert_by key n l in if leb (key n.id) (key m.id) then n ∷ m ∷ l else m ∷ rest

abbrev pub sort_by : (ℕ → ℕ) → List NodeRecord → List NodeRecord
sort_by key [] = []
sort_by key (n ∷ l) = insert_by key n (sort_by key l)

-- The nodes with the least exclusive or of their hash with the target's, which the key gives.
unfoldable pub closest_nodes : (ℕ → ℕ) → ℕ → RoutingTable → List NodeRecord
closest_nodes key count t = take count (sort_by key (get_all_nodes t))
