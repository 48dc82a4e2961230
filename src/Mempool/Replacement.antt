-- ===== src/Mempool/Replacement.antt =====
-- What an insertion does at a nonce that is taken: the replacement by fee.
use wasm_based_evm.Prelude.{
  ◌+◌, ◌/◌, ◌%◌, ◌^◌, ◌≤◌, ◌⊎◌, ◌==◌, not, unwrap_or, Assoc, lookup, remove, lookup-insert,
  lookup-remove, Bool-cases, ℕ, zero, suc, ◌<◌, ◌≡◌, ◌≢◌, refl, ap, ◌∙◌, Bool, true, false, inl,
  inr, Option, none, some, List, [], ◌∷◌, arith, get_elem?, set, ==_iff, leb, if◌then◌else◌,
}
use wasm_based_evm.Block.{Transaction}
use wasm_based_evm.Vector.{BinarySearch, found, search_cases, IsSorted, Splits}
use wasm_based_evm.Vector.Sorted.{All-get_elem?}
use wasm_based_evm.Mempool.{
  Mempool, sender, price, nonces, queue_of, put_queue, clean_up, replace, insert_where,
  insert_sorted, min_replacement_price, pool, remove_all, blob_hashes, contains,
}
use wasm_based_evm.Mempool.Invariant.{IsSound}
use wasm_based_evm.Mempool.Invariant.Inserting.{IsRead-pool}

nonces-get_elem? :
    (q : List Transaction) (i : ℕ) (t : Transaction)
    → get_elem? q i ≡ some t
    → get_elem? (nonces q) i ≡ some t.nonce
nonces-get_elem? [] i t e = absurd (ground arith)
nonces-get_elem? (x ∷ q) zero t e = ground (arith, ap (λ (o : Option Transaction). o) e)
nonces-get_elem? (x ∷ q) (suc i) t e = nonces-get_elem? q i t e

-- A sorted list of keys has each key at one position.
IsSorted-get_elem? :
    (ks : List ℕ) (i j k : ℕ)
    → IsSorted ks
    → get_elem? ks i ≡ some k
    → get_elem? ks j ≡ some k
    → i ≡ j
IsSorted-get_elem? [] i j k s e f = absurd (ground arith)
IsSorted-get_elem? (x ∷ ks) zero zero k s e f = refl
IsSorted-get_elem? (x ∷ ks) zero (suc j) k s e f =
    absurd (ground (arith, All-get_elem? (λ y. x < y) j k ks s.0 f))
IsSorted-get_elem? (x ∷ ks) (suc i) zero k s e f =
    absurd (ground (arith, All-get_elem? (λ y. x < y) i k ks s.0 e))
IsSorted-get_elem? (x ∷ ks) (suc i) (suc j) k s e f = ap suc (IsSorted-get_elem? ks i j k s.1 e f)

-- A key that is there is not reported missing.
Splits-absent : (ks : List ℕ) (k i p : ℕ) → Splits k ks p → get_elem? ks i ≢ some k
Splits-absent [] k i p h e = absurd (ground arith)
Splits-absent (x ∷ ks) k zero zero h e = ground arith
Splits-absent (x ∷ ks) k (suc i) zero h e =
    absurd (ground (arith, All-get_elem? (λ y. k < y) i k ks h.1 e))
Splits-absent (x ∷ ks) k zero (suc p) h e = ground arith
Splits-absent (x ∷ ks) k (suc i) (suc p) h e = Splits-absent ks k i p h.1 e

module _ (bs : BinarySearch) where
  search_taken :
      (ks : List ℕ) (k i : ℕ) → IsSorted ks → get_elem? ks i ≡ some k → bs.search ks k ≡ found i
  search_taken ks k i s e = elim (search_cases bs ks k) [
    | inl (p, f) ↦ f ∙ ap found (IsSorted-get_elem? ks p i k s (bs.at_found ks k p f) e)
    | inr (p, f) ↦ absurd (Splits-absent ks k i p (bs.at_missing ks k p s f) e)
  ]

-- The code's two branches at a taken nonce.
insert_sorted_at_taken :
    (bs : BinarySearch) (p : Bool) (t old : Transaction) (i : ℕ) (m : Mempool)
    → IsSound m
    → get_elem? (queue_of p (sender t) m) i ≡ some old
    → old.nonce ≡ t.nonce
    → insert_sorted bs p t m ≡ (
        if leb (min_replacement_price old) (price t)
        then (put_queue p (sender t) (set (queue_of p (sender t) m) i t) (clean_up old m), true)
        else (m, false))
unfolding insert_sorted replace
insert_sorted_at_taken bs p t old i m v e n =
    let q = queue_of p (sender t) m in
    let r = IsRead-pool bs p (sender t) m v in
    let at : get_elem? (nonces q) i ≡ some t.nonce = nonces-get_elem? q i old e ∙ ap some n in
    rw (search_taken bs (nonces q) t.nonce i r.sorted at, e)
      (unfold insert_where in rw ((==_iff old.nonce t.nonce).1 n))

-- What a replacement of `old`, at the position `i` of its queue, by `t` leaves of the mempool `m`: the
-- queue with `t` in its place, no envelope, bytes or blobs of `old`, and all else as it was.
pub record IsReplaced (p : Bool) (t old : Transaction) (i : ℕ) (m m' : Mempool) : Type 0 where
  pub queues :
      (b : ℕ)
      → lookup b (pool p m')
        ≡ (if sender t == b then some (set (queue_of p (sender t) m) i t) else lookup b (pool p m))
  pub other_pool : pool (not p) m' ≡ pool (not p) m
  pub envelopes :
      (h : ℕ)
      → lookup h m'.pooled_envelopes ≡ (if old.hash == h then none else lookup h m.pooled_envelopes)
  pub bytes :
      (h : ℕ) → lookup h m'.pooled_bytes ≡ (if old.hash == h then none else lookup h m.pooled_bytes)
  pub blobs :
      (h : ℕ)
      → lookup h m'.blobs ≡ (if contains (blob_hashes old) h then none else lookup h m.blobs)
  pub fees :
      (m'.base_fee ≡ m.base_fee) × (m'.mempool_size ≡ m.mempool_size) × (m'.rejected ≡ m.rejected)

lookup-remove_all :
    (h : ℕ) (hs : List ℕ) (m : Assoc ℕ)
    → lookup h (remove_all hs m) ≡ (if contains hs h then none else lookup h m)
unfolding remove_all contains
lookup-remove_all h [] m = refl
lookup-remove_all h (x ∷ hs) m = lookup-remove_all h hs (remove x m) ∙ elim (Bool-cases (x == h)) [
  | inl same ↦ rw (lookup-remove, same) (ground arith)
  | inr other ↦ rw (lookup-remove, other) refl
]

put_queue-IsReplaced :
    (p : Bool) (t old : Transaction) (i : ℕ) (m : Mempool)
    → IsReplaced p t old i m
        (put_queue p (sender t) (set (queue_of p (sender t) m) i t) (clean_up old m))
unfolding put_queue clean_up
put_queue-IsReplaced true t old i m = record {
  queues = λ b. lookup-insert (sender t) b _ m.pending_transactions;
  other_pool = refl;
  envelopes = λ h. lookup-remove old.hash h m.pooled_envelopes;
  bytes = λ h. lookup-remove old.hash h m.pooled_bytes;
  blobs = λ h. lookup-remove_all h (blob_hashes old) m.blobs;
  fees = (refl, refl, refl);
}
put_queue-IsReplaced false t old i m = record {
  queues = λ b. lookup-insert (sender t) b _ m.queued_transactions;
  other_pool = refl;
  envelopes = λ h. lookup-remove old.hash h m.pooled_envelopes;
  bytes = λ h. lookup-remove old.hash h m.pooled_bytes;
  blobs = λ h. lookup-remove_all h (blob_hashes old) m.blobs;
  fees = (refl, refl, refl);
}

-- In a well formed mempool, where the sender already has the transaction `old` with the nonce, at any
-- position of the queue: either the new price is at least the old one and a tenth of it, rounded
-- down, as a u128, and the insertion succeeds, the queue has the new transaction in the place of the
-- old, the envelope, the bytes and the blobs of the old one are gone, and all else is as it was; or
-- the new price is lower, nothing changes and the insertion is refused.
pub insert_sorted_taken :
    (bs : BinarySearch) (p : Bool) (t old : Transaction) (i : ℕ) (m : Mempool)
    → IsSound m
    → get_elem? (queue_of p (sender t) m) i ≡ some old
    → old.nonce ≡ t.nonce
    → let asked = (unwrap_or old.gas_price 0 + unwrap_or old.gas_price 0 / 10) % 2 ^ 128 in
      let r = insert_sorted bs p t m in
      ((asked ≤ unwrap_or t.gas_price 0) × (r.1 ≡ true) × IsReplaced p t old i m r.0)
      ⊎ ((unwrap_or t.gas_price 0 < asked) × (r ≡ (m, false)))
unfolding min_replacement_price
insert_sorted_taken bs p t old i m v e n =
    elim (Bool-cases (leb (min_replacement_price old) (price t))) [
      | inl enough ↦ inl (
        ground (arith, enough),
        rw (insert_sorted_at_taken bs p t old i m v e n, enough) refl,
        rw (insert_sorted_at_taken bs p t old i m v e n, enough) (put_queue-IsReplaced p t old i m),
      )
      | inr low ↦
          inr (ground (arith, low), insert_sorted_at_taken bs p t old i m v e n ∙ rw low refl)
    ]

-- Where neither transaction has a gas price, as with dynamic fees, a replacement is accepted
-- whatever the two offer.
pub dynamic_fee_replaces :
    (bs : BinarySearch) (p : Bool) (t old : Transaction) (i : ℕ) (m : Mempool)
    → IsSound m
    → get_elem? (queue_of p (sender t) m) i ≡ some old
    → old.nonce ≡ t.nonce
    → old.gas_price ≡ none
    → t.gas_price ≡ none
    → insert_sorted bs p t m
      ≡ (put_queue p (sender t) (set (queue_of p (sender t) m) i t) (clean_up old m), true)
unfolding min_replacement_price
dynamic_fee_replaces bs p t old i m v e n no_price no_price' =
    insert_sorted_at_taken bs p t old i m v e n ∙ rw (no_price, no_price')
