-- ===== src/Mempool/Insertion.antt =====
-- What `add_transaction` answers: a transaction that is accepted is in a pool, one that is refused
-- has changed nothing but the count of rejections.
use wasm_based_evm.Prelude.{
  ℕ, zero, suc, ◌+◌, ◌%◌, ◌≡◌, ◌≢◌, refl, ap, Bool, true, false, ◌⊎◌, inl, inr, Option, none, some,
  List, [], ◌∷◌, arith, get_elem?, set, lookup, lookup-insert, ==_iff, Bool-cases, Option-cases,
  ◌==◌, leb, ltb, add64,
}
use wasm_based_evm.Block.{Transaction}
use wasm_based_evm.Vector.{BinarySearch, search_cases, insert_at}
use wasm_based_evm.Mempool.{
  Mempool, sender, price, nonces, queue_of, put_queue, clean_up, insert_promoted, promote_loop,
  promote_queued, replace, insert_new, insert_where, insert_sorted, insert_into_queue,
  min_replacement_price, count_result, next_pending_nonce, add_transaction,
}
use wasm_based_evm.Mempool.Promotion.{pending-drop_if_empty, pending-put}

-- The transaction is in the queue.
abbrev pub In : Transaction → List Transaction → Type 0
In t [] = ⊥
In t (x ∷ q) = (x ≡ t) ⊎ In t q

In-insert_at_self : (p : ℕ) (t : Transaction) (q : List Transaction) → In t (insert_at p t q)
unfolding insert_at
In-insert_at_self zero t q = inl refl
In-insert_at_self (suc p) t [] = inl refl
In-insert_at_self (suc p) t (x ∷ q) = inr (In-insert_at_self p t q)

In-insert_at : (p : ℕ) (t u : Transaction) (q : List Transaction) → In t q → In t (insert_at p u q)
unfolding insert_at
In-insert_at zero t u q h = inr h
In-insert_at (suc p) t u [] h = absurd h
In-insert_at (suc p) t u (x ∷ q) (inl e) = inl e
In-insert_at (suc p) t u (x ∷ q) (inr h) = inr (In-insert_at p t u q h)

In-set :
    (i : ℕ) (t old : Transaction) (q : List Transaction)
    → get_elem? q i ≡ some old
    → In t (set q i t)
In-set i t old [] e = absurd (ground arith)
In-set zero t old (x ∷ q) e = inl refl
In-set (suc i) t old (x ∷ q) e = inr (In-set i t old q e)

queue-put_queue :
    (p : Bool) (a : ℕ) (q : List Transaction) (m : Mempool) → queue_of p a (put_queue p a q m) ≡ q
unfolding put_queue
queue-put_queue true a q m = rw lookup-insert (ground (arith, ==_iff a a))
queue-put_queue false a q m = rw lookup-insert (ground (arith, ==_iff a a))

module _ (bs : BinarySearch) (t : Transaction) where
  In-insert_promoted :
      (a : ℕ) (u : Transaction) (m : Mempool)
      → In t (queue_of true a m)
      → In t (queue_of true a (insert_promoted bs a u m))
  unfolding insert_promoted
  In-insert_promoted a u m h = elim (search_cases bs (nonces (queue_of true a m)) u.nonce) [
    | inl (p, e) ↦ rw (e, insert_promoted) h
    | inr (p, e) ↦ rw (e, insert_promoted) (rw pending-put (In-insert_at p t u _ h))
  ]

  In-promote_loop :
      (fuel a next : ℕ) (m : Mempool)
      → In t (queue_of true a m)
      → In t (queue_of true a (promote_loop bs fuel a next m))
  unfolding promote_loop put_queue
  In-promote_loop zero a next m h = h
  In-promote_loop (suc fuel) a next m h = elim (Option-cases (lookup a m.queued_transactions)) [
    | inl e ↦ rw (e, promote_loop) h
    | inr (q, e) ↦ elim (search_cases bs (nonces q) next) [
      | inr (p, e') ↦ rw (e, e', promote_loop) h
      | inl (p, e') ↦ elim (Option-cases (get_elem? q p)) [
        | inl e'' ↦ rw (e, e', e'', promote_loop) h
        | inr (u, e'') ↦
            rw (e, e', e'', promote_loop)
              (In-promote_loop fuel a (add64 next 1) _ (In-insert_promoted a u _ h))
      ]
    ]
  ]

  In-promote_queued :
      (a next : ℕ) (m : Mempool)
      → In t (queue_of true a m)
      → In t (queue_of true a (promote_queued bs a next m))
  unfolding promote_queued
  In-promote_queued a next m h = rw (pending-drop_if_empty bs a _) (In-promote_loop _ a next m h)

  In-insert_new :
      (p : Bool) (i : ℕ) (q : List Transaction) (m : Mempool)
      → In t (queue_of p (sender t) (insert_new bs p t i q m).0)
  unfolding insert_new
  In-insert_new true i q m =
      In-promote_queued (sender t) _ _
        (rw (queue-put_queue true (sender t) (insert_at i t q) m) (In-insert_at_self i t q))
  In-insert_new false i q m =
      rw (queue-put_queue false (sender t) (insert_at i t q) m) (In-insert_at_self i t q)

  -- Accepted and in the queue, or refused and nothing changed.
  abbrev pub Answered : Bool → Mempool → Mempool × Bool → Type 0
  Answered p m r = ((r.1 ≡ true) × In t (queue_of p (sender t) r.0)) ⊎ ((r.1 ≡ false) × (r.0 ≡ m))

  replace-Answered :
      (p : Bool) (i : ℕ) (old : Transaction) (q : List Transaction) (m : Mempool)
      → get_elem? q i ≡ some old
      → Answered p m (replace bs p t old i q m)
  unfolding replace
  replace-Answered p i old q m e = elim (Bool-cases (leb (min_replacement_price old) (price t))) [
    | inr low ↦ rw low (inr (refl, refl))
    | inl high ↦ rw high (
        inl (
          refl,
          rw (queue-put_queue p (sender t) (set q i t) (clean_up old m)) (In-set i t old q e),
        ))
  ]

  insert_new_accepts :
      (p : Bool) (i : ℕ) (q : List Transaction) (m : Mempool) → (insert_new bs p t i q m).1 ≡ true
  unfolding insert_new
  insert_new_accepts true i q m = refl
  insert_new_accepts false i q m = refl

  insert_where-Answered :
      (p : Bool) (i : ℕ) (q : List Transaction) (o : Option Transaction) (m : Mempool)
      → get_elem? q i ≡ o
      → Answered p m (insert_where bs p t i q o m)
  unfolding insert_where
  insert_where-Answered p i q none m e = inl (insert_new_accepts p i q m, In-insert_new p i q m)
  insert_where-Answered p i q (some old) m e = elim (Bool-cases (old.nonce == t.nonce)) [
    | inl same ↦ rw same (replace-Answered p i old q m e)
    | inr other ↦ rw other (inl (insert_new_accepts p i q m, In-insert_new p i q m))
  ]

  insert_sorted-Answered : (p : Bool) (m : Mempool) → Answered p m (insert_sorted bs p t m)
  unfolding insert_sorted
  insert_sorted-Answered p m = insert_where-Answered p _ _ _ m refl

-- Unless the capacity is enforced by chance (a random byte that 16 divides), `add_transaction`
-- either accepts the transaction, and then it is in the sender's pending or queued transactions, or
-- refuses it, and then nothing has changed but the count of rejections.
pub add_transaction_answers :
    (bs : BinarySearch) (roll : ℕ) (t : Transaction) (current : ℕ) (m : Mempool)
    → roll % 16 ≢ 0
    → (((add_transaction bs roll t current m).1 ≡ true)
        × (In t (queue_of true (sender t) (add_transaction bs roll t current m).0)
            ⊎ In t (queue_of false (sender t) (add_transaction bs roll t current m).0)))
      ⊎ (((add_transaction bs roll t current m).1 ≡ false)
          × ((add_transaction bs roll t current m).0 ≡ record m { rejected = m.rejected + 1 }))
unfolding add_transaction insert_into_queue
add_transaction_answers bs roll t current m unforced = elim (Bool-cases (ltb t.nonce current)) [
  | inl low ↦ rw low (inr (refl, refl))
  | inr enough ↦
      let p = leb t.nonce (next_pending_nonce bs (sender t) current m) in
      let no_chance : (roll % 16 == 0) ≡ false = ground arith in
      rw (enough, no_chance) (counted p m _ (insert_sorted-Answered bs t p m))
]
  where
    counted :
        (p : Bool) (m : Mempool) (r : Mempool × Bool)
        → Answered bs t p m r
        → (((count_result bs r).1 ≡ true)
            × (In t (queue_of true (sender t) (count_result bs r).0)
                ⊎ In t (queue_of false (sender t) (count_result bs r).0)))
          ⊎ (((count_result bs r).1 ≡ false)
              × ((count_result bs r).0 ≡ record m { rejected = m.rejected + 1 }))
    counted true m (m', true) (inl h) = unfold count_result in inl (refl, inl h.1)
    counted false m (m', true) (inl h) = unfold count_result in inl (refl, inr h.1)
    counted p m (m', true) (inr h) = absurd (ground (arith, h.0))
    counted p m (m', false) (inl h) = absurd (ground (arith, h.0))
    counted p m (m', false) (inr h) =
        unfold count_result in
        inr (refl, ap (λ (x : Mempool). record x { rejected = x.rejected + 1 }) h.1)
