-- ===== src/Discovery/Buckets.antt =====
-- The buckets of the routing table: at most 16 nodes each, no node twice, every node in the bucket of
-- its distance.
use wasm_based_evm.Prelude.{
  ℕ, zero, suc, ◌≤◌, ◌<◌, Bool, true, false, Option, none, some, List, [], ◌∷◌, ◌++◌, ◌==◌, ltb,
  unwrap_or, length, get_elem?, set, length-append, All, All-append, ◌≡◌, refl, ap, ◌⊎◌, inl, inr,
  arith, Bool-cases, Option-cases, ==_iff,
}
use mathlib.Core.Path.{subst}
use mathlib.Core.Option.{some-injective}
use wasm_based_evm.Discovery.{
  NodeRecord, RoutingTable, new, find_node, retain, see_in, add_new, distance_log2, bucket_at,
  add_node, remove_node, repeat, max_bucket_size,
}

-- No node of the bucket has the identifier of another.
abbrev pub IsDistinct : List NodeRecord → Type 0
IsDistinct [] = Unit
IsDistinct (n ∷ l) = (find_node n.id l ≡ none) × IsDistinct l

find_node-retain :
    (id j : ℕ) (l : List NodeRecord) → find_node j l ≡ none → find_node j (retain id l) ≡ none
find_node-retain id j [] e = refl
find_node-retain id j (n ∷ l) e = ground (arith, find_node-retain id j l)

find_node-retain_self : (id : ℕ) (l : List NodeRecord) → find_node id (retain id l) ≡ none
find_node-retain_self id [] = refl
find_node-retain_self id (n ∷ l) = ground (arith, find_node-retain_self id l)

IsDistinct-retain : (id : ℕ) (l : List NodeRecord) → IsDistinct l → IsDistinct (retain id l)
IsDistinct-retain id [] d = tt
IsDistinct-retain id (n ∷ l) d = elim (Bool-cases (n.id == id)) [
  | inl same ↦ rw same (IsDistinct-retain id l d.1)
  | inr other ↦ rw other (find_node-retain id n.id l d.0, IsDistinct-retain id l d.1)
]

find_node-append :
    (j : ℕ) (n : NodeRecord) (l : List NodeRecord)
    → find_node j l ≡ none
    → (n.id == j) ≡ false
    → find_node j (l ++ (n ∷ [])) ≡ none
find_node-append j n [] e other = ground (arith, other)
find_node-append j n (m ∷ l) e other = ground (arith, find_node-append j n l, other)

IsDistinct-append :
    (n : NodeRecord) (l : List NodeRecord)
    → IsDistinct l
    → find_node n.id l ≡ none
    → IsDistinct (l ++ (n ∷ []))
IsDistinct-append n [] d e = (refl, tt)
IsDistinct-append n (m ∷ l) d e =
    (find_node-append m.id n l d.0 (ground arith), IsDistinct-append n l d.1 (ground arith))

length-retain_le : (id : ℕ) (l : List NodeRecord) → length (retain id l) ≤ length l
length-retain_le id [] = omega arith
length-retain_le id (n ∷ l) = ground (arith, length-retain_le id l)

-- A node that is found leaves room for itself.
length-retain_lt :
    (id : ℕ) (e : NodeRecord) (l : List NodeRecord)
    → find_node id l ≡ some e
    → length (retain id l) < length l
length-retain_lt id e [] found = absurd (ground arith)
length-retain_lt id e (n ∷ l) found = ground (arith, length-retain_le id l, length-retain_lt id e l)

find_node-id : (id : ℕ) (e : NodeRecord) (l : List NodeRecord) → find_node id l ≡ some e → e.id ≡ id
find_node-id id e [] found = absurd (ground arith)
find_node-id id e (n ∷ l) found = elim (Bool-cases (n.id == id)) [
  | inl same ↦
      (subst (λ (x : NodeRecord). x.id ≡ id) (some-injective n e (rw same at found))
        ((==_iff n.id id).0 same))
  | inr other ↦ find_node-id id e l (rw other at found)
]

All-retain :
    (P : NodeRecord → Type 0) (id : ℕ) (l : List NodeRecord) → All P l → All P (retain id l)
All-retain P id [] a = tt
All-retain P id (n ∷ l) a = elim (Bool-cases (n.id == id)) [
  | inl same ↦ rw same (All-retain P id l a.1)
  | inr other ↦ rw other (a.0, All-retain P id l a.1)
]

get_elem?-set :
    {A : Type 0} (l : List A) (i j : ℕ) (v w : A)
    → get_elem? (set l i v) j ≡ some w
    → (get_elem? l j ≡ some w) ⊎ ((i ≡ j) × (v ≡ w))
get_elem?-set [] i j v w e = inl e
get_elem?-set (x ∷ l) zero zero v w e = inr (refl, some-injective v w e)
get_elem?-set (x ∷ l) zero (suc j) v w e = inl e
get_elem?-set (x ∷ l) (suc i) zero v w e = inl e
get_elem?-set (x ∷ l) (suc i) (suc j) v w e = elim (get_elem?-set l i j v w e) [
  | inl h ↦ inl h
  | inr (same, v_w) ↦ inr (ap suc same, v_w)
]

module _ (keccak : ℕ → ℕ) (xor : ℕ → ℕ → List ℕ) where
  -- A bucket of at most 16 nodes, without duplicates, all at the distance of the bucket.
  pub record IsBucket (local_id i : ℕ) (l : List NodeRecord) : Type 0 where
    pub small : length l ≤ max_bucket_size
    pub distinct : IsDistinct l
    pub near : All (λ n. distance_log2 keccak xor local_id n.id ≡ some i) l

  -- Every bucket of the table is one, and none of them has the local node.
  abbrev pub IsWell : RoutingTable → Type 0
  IsWell t =
      (i : ℕ) (l : List NodeRecord) → get_elem? t.buckets i ≡ some l → IsBucket t.local_id i l

  IsBucket-empty : (local_id i : ℕ) → IsBucket local_id i []
  IsBucket-empty local_id i = record { small = omega arith; distinct = tt; near = tt }

  IsBucket-bucket_at :
      (t : RoutingTable) (i : ℕ) → IsWell t → IsBucket t.local_id i (bucket_at keccak xor i t)
  IsBucket-bucket_at t i v = go (get_elem? t.buckets i) refl
    where
      go :
          (o : Option (List NodeRecord))
          → get_elem? t.buckets i ≡ o
          → IsBucket t.local_id i (unwrap_or o [])
      go none e = IsBucket-empty t.local_id i
      go (some l) e = v i l e

  IsBucket-retain :
      (local_id i id : ℕ) (l : List NodeRecord)
      → IsBucket local_id i l
      → IsBucket local_id i (retain id l)
  IsBucket-retain local_id i id l v = record {
    small = omega (arith, v.small, length-retain_le id l);
    distinct = IsDistinct-retain id l v.distinct;
    near = All-retain _ id l v.near;
  }

  IsBucket-see_in :
      (local_id i id endpoint now : ℕ) (l : List NodeRecord)
      → distance_log2 keccak xor local_id id ≡ some i
      → IsBucket local_id i l
      → IsBucket local_id i (see_in id endpoint now l).0
  unfolding see_in
  IsBucket-see_in local_id i id endpoint now l near v = go (find_node id l) refl
    where
      room :
          ltb (length l) max_bucket_size ≡ true
          → length (l ++ (record { id = id; endpoint = endpoint; last_seen = now } ∷ []))
            ≤ max_bucket_size
      room e = rw length-append (ground (arith, e))

      pushed :
          find_node id l ≡ none
          → (b : Bool) → ltb (length l) max_bucket_size ≡ b
          → IsBucket local_id i
              (add_new b (record { id = id; endpoint = endpoint; last_seen = now }) l).0
      pushed absent true e = record {
        small = room e;
        distinct = IsDistinct-append _ l v.distinct absent;
        near = All-append _ l _ v.near (near, tt);
      }
      pushed absent false e = v

      go :
          (o : Option NodeRecord)
          → find_node id l ≡ o
          → IsBucket local_id i (see_in id endpoint now l).0
      go none absent = rw (absent, see_in) (pushed absent (ltb (length l) max_bucket_size) refl)
      go (some e) there =
          let same : e.id ≡ id = find_node-id id e l there in
          rw (there, see_in)
            (record {
              small = rw length-append (omega (arith, v.small, length-retain_lt id e l there));
              distinct =
                  IsDistinct-append _ (retain id l) (IsDistinct-retain id l v.distinct)
                    (rw same (find_node-retain_self id l));
              near = All-append _ (retain id l) _ (All-retain _ id l v.near) (rw same near, tt);
            })

  IsWell-set :
      (t : RoutingTable) (i : ℕ) (l : List NodeRecord)
      → IsWell t
      → IsBucket t.local_id i l
      → IsWell (record t { buckets = set t.buckets i l })
  IsWell-set t i l v new j k e = elim (get_elem?-set t.buckets i j l k e) [
    | inl old ↦ v j k old
    | inr (at_i, is_l) ↦
        subst (λ x. IsBucket t.local_id j x) is_l (subst (λ x. IsBucket t.local_id x l) at_i new)
  ]

  -- A node that is seen or removed.
  pub data Op : Type 0 where
    see : ℕ → ℕ → ℕ → Op
    forget : ℕ → Op

  abbrev pub apply : Op → RoutingTable → RoutingTable
  apply (see id endpoint now) t = (add_node keccak xor id endpoint now t).0
  apply (forget id) t = remove_node keccak xor id t

  abbrev pub run : List Op → RoutingTable → RoutingTable
  run [] t = t
  run (op ∷ ops) t = run ops (apply op t)

  apply-IsWell : (op : Op) (t : RoutingTable) → IsWell t → IsWell (apply op t)
  unfolding add_node remove_node
  apply-IsWell (see id endpoint now) t v = elim (Bool-cases (id == t.local_id)) [
    | inl self ↦ rw (self, apply, add_node) v
    | inr other ↦ elim (Option-cases (distance_log2 keccak xor t.local_id id)) [
      | inl none_at ↦ rw (other, none_at, apply, add_node) v
      | inr (i, near) ↦
          rw (other, near, apply, add_node)
            (IsWell-set t i _ v
              (IsBucket-see_in t.local_id i id endpoint now _ near (IsBucket-bucket_at t i v)))
    ]
  ]
  apply-IsWell (forget id) t v = elim (Option-cases (distance_log2 keccak xor t.local_id id)) [
    | inl none_at ↦ rw (none_at, apply, remove_node) v
    | inr (i, near) ↦
        rw (near, apply, remove_node)
          (IsWell-set t i _ v (IsBucket-retain t.local_id i id _ (IsBucket-bucket_at t i v)))
  ]

  get_elem?-repeat : (n i : ℕ) (l : List NodeRecord) → get_elem? (repeat n []) i ≡ some l → l ≡ []
  get_elem?-repeat zero i l e = absurd (ground arith)
  get_elem?-repeat (suc n) zero l e = ground arith
  get_elem?-repeat (suc n) (suc i) l e = get_elem?-repeat n i l e

  -- However nodes are seen and removed, each bucket of the table has at most 16 nodes, no node
  -- twice, and only nodes at the bucket's distance.
  pub run-new-IsWell : (ops : List Op) (local_id : ℕ) → IsWell (run ops (new local_id))
  unfolding new
  run-new-IsWell ops local_id =
      go ops (new local_id) (λ i l e. rw (get_elem?-repeat 256 i l e) (IsBucket-empty local_id i))
    where
      go : (ops : List Op) (t : RoutingTable) → IsWell t → IsWell (run ops t)
      go [] t v = v
      go (op ∷ ops) t v = go ops (apply op t) (apply-IsWell op t v)
