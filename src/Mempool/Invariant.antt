-- ===== src/Mempool/Invariant.antt =====
-- The pools are well formed: one queue for each sender, never empty, its transactions the sender's,
-- with nonces that rise strictly. Every operation keeps that.
pub mod Promotion
pub mod Inserting
pub mod Eviction
pub mod Removals
use wasm_based_evm.Prelude.{
  ℕ, zero, suc, ◌+◌, ◌<◌, ◌≤◌, ◌≡◌, ◌≢◌, refl, sym, ap, Bool, true, false, ◌⊎◌, inl, inr, Option,
  none, some, List, [], ◌∷◌, map, arith, All, All-map, Distinct, Distinct-insert, Distinct-remove,
  All-insert, All-remove, All-lookup, All-except, Assoc, lookup, insert, remove, length, is_empty,
  get_elem?, set, add64, unwrap_or, Bool-cases, Option-cases, ◌==◌, ==_iff, if◌then◌else◌, ◌%◌, leb,
  ltb,
}
use wasm_based_evm.Block.{Transaction}
use wasm_based_evm.Vector.{
  BinarySearch, SearchResult, found, missing, position, insert_at, remove_at, IsSorted, Splits,
  search_cases,
}
use wasm_based_evm.Vector.Sorted.{
  All-insert_at, All-set, All-remove_at, All-get_elem?, insert_at-IsSorted, keys-set,
  remove_at-IsSorted,
}
use wasm_based_evm.Mempool.{
  Mempool, sender, price, pool, nonces, queue_of, put_queue, clean_up, insert_promoted,
  promote_loop, drop_if_empty, promote_queued, replace, insert_new, insert_sorted, new,
  min_replacement_price,
}

abbrev pub Entry : Type 0
Entry = ℕ × List Transaction

pub record IsQueue (e : Entry) : Type 0 where
  pub sorted : IsSorted (nonces e.1)
  pub senders : All (λ t. sender t ≡ e.0) e.1
  pub nonempty : is_empty e.1 ≡ false

pub record IsPool (m : Assoc (List Transaction)) : Type 0 where
  pub queues : All IsQueue m
  pub distinct : Distinct m

pub record IsSound (m : Mempool) : Type 0 where
  pub pending : IsPool m.pending_transactions
  pub queued : IsPool m.queued_transactions

-- While the queue of `a` is promoted it may be empty.
record IsLooseQueue (a : ℕ) (e : Entry) : Type 0 where
  sorted : IsSorted (nonces e.1)
  senders : All (λ t. sender t ≡ e.0) e.1
  nonempty : (e.0 == a) ≡ false → is_empty e.1 ≡ false

record IsLoose (a : ℕ) (m : Mempool) : Type 0 where
  pending : IsPool m.pending_transactions
  queued : All (IsLooseQueue a) m.queued_transactions
  distinct : Distinct m.queued_transactions

pub new-IsSound : (base_fee : ℕ) → IsSound (new base_fee)
unfolding new
new-IsSound f = record {
  pending = record { queues = tt; distinct = tt };
  queued = record { queues = tt; distinct = tt };
}

pub insert-IsPool :
    (a : ℕ) (q : List Transaction) (m : Assoc (List Transaction))
    → IsQueue (a, q)
    → IsPool m
    → IsPool (insert a q m)
insert-IsPool a q m h v = record {
  queues = All-insert IsQueue a q m h v.queues;
  distinct = Distinct-insert a q m v.distinct;
}

pub remove-IsPool : (a : ℕ) (m : Assoc (List Transaction)) → IsPool m → IsPool (remove a m)
remove-IsPool a m v = record {
  queues = All-remove IsQueue a m v.queues;
  distinct = Distinct-remove a m v.distinct;
}

put_queue-IsSound :
    (p : Bool) (a : ℕ) (q : List Transaction) (m : Mempool)
    → IsQueue (a, q)
    → IsSound m
    → IsSound (put_queue p a q m)
unfolding put_queue
put_queue-IsSound true a q m h v = record {
  pending = insert-IsPool a q _ h v.pending;
  queued = v.queued;
}
put_queue-IsSound false a q m h v = record {
  pending = v.pending;
  queued = insert-IsPool a q _ h v.queued;
}

-- What a queue that is read satisfies, with the empty queue for a missing one.
pub record IsRead (a : ℕ) (q : List Transaction) : Type 0 where
  pub sorted : IsSorted (nonces q)
  pub senders : All (λ t. sender t ≡ a) q

pub read : (a : ℕ) (m : Assoc (List Transaction)) → IsPool m → IsRead a (unwrap_or (lookup a m) [])
read a m v = elim (Option-cases (lookup a m)) [
  | inl e ↦ rw e (record { sorted = tt; senders = tt })
  | inr (q, e) ↦
      let h = All-lookup IsQueue a q m v.queues e in
      rw e (record { sorted = h.sorted; senders = h.senders })
]

is_empty-insert_at :
    (p : ℕ) (t : Transaction) (q : List Transaction) → is_empty (insert_at p t q) ≡ false
unfolding insert_at
is_empty-insert_at zero t q = refl
is_empty-insert_at (suc p) t [] = refl
is_empty-insert_at (suc p) t (x ∷ q) = refl

-- A transaction of the sender goes where the search says.
insert_at-IsQueue :
    (a p : ℕ) (t : Transaction) (q : List Transaction)
    → sender t ≡ a
    → IsRead a q
    → Splits t.nonce (nonces q) p
    → IsQueue (a, insert_at p t q)
insert_at-IsQueue a p t q s r h = record {
  sorted = insert_at-IsSorted (λ (x : Transaction). x.nonce) p t q r.sorted h;
  senders = All-insert_at (λ x. sender x ≡ a) p t q s r.senders;
  nonempty = is_empty-insert_at p t q;
}

module _ (bs : BinarySearch) where
  insert_promoted-IsLoose :
      (a : ℕ) (t : Transaction) (m : Mempool)
      → sender t ≡ a
      → IsLoose a m
      → IsLoose a (insert_promoted bs a t m)
  unfolding insert_promoted put_queue
  insert_promoted-IsLoose a t m s v =
      let r = read a m.pending_transactions v.pending in
      elim (search_cases bs (nonces (queue_of true a m)) t.nonce) [
        | inl (p, e) ↦ rw (e, insert_promoted) v
        | inr (p, e) ↦
            rw (e, insert_promoted)
              (record {
                pending =
                    insert-IsPool a _ _
                      (insert_at-IsQueue a p t _ s r (bs.at_missing _ _ p r.sorted e)) v.pending;
                queued = v.queued;
                distinct = v.distinct;
              })
      ]
