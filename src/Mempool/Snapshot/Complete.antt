-- ===== src/Mempool/Snapshot/Complete.antt =====
-- mempool.rs: `peek_best_transactions` from its start, with an entry for each sender.
use wasm_based_evm.Prelude.{
  ℕ, ◌+◌, ◌≤◌, ◌==◌, ◌≡◌, refl, false, Option, none, some, List, [], ◌∷◌, All, Assoc, Distinct,
  lookup, lookup-insert, length, take, get_elem?, inl, inr, Bool-cases, Option-cases, ==_iff, arith,
  unwrap_or, ltb, true, ◌<◌, u64_mod,
}
use wasm_based_evm.Block.{Transaction}
use wasm_based_evm.Mempool.State.{Mempool, total}
use wasm_based_evm.Mempool.Invariant.{IsSound}
use wasm_based_evm.Mempool.Snapshot.{
  Snapshot, snapshot, push, open_cursor, open_cursors, fill, start, peek_best_transactions,
}
use wasm_based_evm.Mempool.Snapshot.Heap.{IsFree, IsSingle}
use wasm_based_evm.Mempool.Snapshot.Order.{
  from, cursor, queue, remaining, IsReady, IsPick, IsReady-other, push-IsSingle, length-push,
}
use wasm_based_evm.Mempool.Snapshot.Selection.{pick-total}

module _ (effective_tip : Transaction → ℕ → Option ℕ) (base_fee : ℕ) where
  push-IsFree :
      (a b : ℕ) (t : Option Transaction) (h : List (ℕ × ℕ))
      → (b == a) ≡ false
      → IsFree a h
      → IsFree a (push effective_tip base_fee b t h)
  unfolding push
  push-IsFree a b none h n f = f
  push-IsFree a b (some t) h n f = elim (Option-cases (effective_tip t base_fee)) [
    | inl e ↦ rw (e, push) f
    | inr (tip, e) ↦ rw (e, push) (n, f)
  ]

  IsReady-add :
      (b : ℕ) (q : List Transaction) (m : Assoc (List Transaction)) (cursors : Assoc ℕ)
      (h : List (ℕ × ℕ))
      → IsFree b h
      → All (IsReady m cursors) h
      → All (IsReady ((b, q) ∷ m) cursors) h
  unfolding lookup
  IsReady-add b q m cursors [] f r = tt
  IsReady-add b q m cursors (e ∷ h) f r = (
    record {
      queue = r.0.queue;
      at = r.0.at;
      tx = r.0.tx;
      has_queue = ground (arith, f.0, ==_iff b e.1, ==_iff e.1 b, r.0.has_queue);
      has_cursor = r.0.has_cursor;
      has_tx = r.0.has_tx;
    },
    IsReady-add b q m cursors h f.1 r.1,
  )

  cursor-open_cursors :
      (a : ℕ) (m : Assoc (List Transaction)) → cursor a (open_cursors effective_tip base_fee m) ≡ 0
  unfolding open_cursors lookup open_cursor
  cursor-open_cursors a [] = refl
  cursor-open_cursors a ((b, q) ∷ m) = elim (Option-cases (get_elem? q 0)) [
    | inl e ↦ rw (e, open_cursor) (cursor-open_cursors a m)
    | inr (t, e) ↦ elim (Option-cases (effective_tip t base_fee)) [
      | inl no_tip ↦ rw (e, open_cursor, no_tip) (cursor-open_cursors a m)
      | inr (tip, has_tip) ↦
          rw (e, open_cursor, has_tip)
            (ground (
              arith,
              cursor-open_cursors a m,
              lookup-insert b a 0 (open_cursors effective_tip base_fee m),
            ))
    ]
  ]

  fill-IsFree :
      (a : ℕ) (m : Assoc (List Transaction))
      → lookup a m ≡ none
      → IsFree a (fill effective_tip base_fee m)
  unfolding fill lookup
  fill-IsFree a [] e = tt
  fill-IsFree a ((b, q) ∷ m) e = elim (Bool-cases (b == a)) [
    | inl same ↦ absurd (ground (arith, rw same at e))
    | inr other ↦ push-IsFree a b (get_elem? q 0) _ other (fill-IsFree a m (rw other at e))
  ]

  fill-IsReady :
      (m : Assoc (List Transaction))
      → Distinct m
      → All (IsReady m (open_cursors effective_tip base_fee m)) (fill effective_tip base_fee m)
  unfolding fill open_cursors lookup push open_cursor
  fill-IsReady [] d = tt
  fill-IsReady ((b, q) ∷ m) d =
      let others : All (IsReady ((b, q) ∷ m) (open_cursors effective_tip base_fee m))
          (fill effective_tip base_fee m) =
        IsReady-add b q m _ _ (fill-IsFree b m d.0) (fill-IsReady m d.1) in
      elim (Option-cases (get_elem? q 0)) [
        | inl e ↦ rw (e, open_cursor, push) others
        | inr (t, e) ↦ elim (Option-cases (effective_tip t base_fee)) [
          | inl no_tip ↦ rw (e, open_cursor, push, no_tip) others
          | inr (tip, has_tip) ↦
              rw (e, open_cursor, push, has_tip)
                (
                  record {
                    queue = q;
                    at = 0;
                    tx = t;
                    has_queue = ground (arith, ==_iff b b);
                    has_cursor =
                        ground (arith, lookup-insert b b 0 (open_cursors effective_tip base_fee m));
                    has_tx = e;
                  },
                  IsReady-other ((b, q) ∷ m) b 0 _ _ (fill-IsFree b m d.0) others,
                )
        ]
      ]

  fill-IsSingle :
      (m : Assoc (List Transaction)) → Distinct m → IsSingle (fill effective_tip base_fee m)
  unfolding fill
  fill-IsSingle [] d = tt
  fill-IsSingle ((b, q) ∷ m) d =
      push-IsSingle effective_tip base_fee b (get_elem? q 0) _ (fill-IsFree b m d.0)
        (fill-IsSingle m d.1)

  length-fill : (m : Assoc (List Transaction)) → length (fill effective_tip base_fee m) ≤ length m
  unfolding fill
  length-fill [] = omega arith
  length-fill ((b, q) ∷ m) = omega (
    arith,
    length-push effective_tip base_fee b (get_elem? q 0) (fill effective_tip base_fee m),
    length-fill m,
  )

  remaining-le-total :
      (cursors : Assoc ℕ) (m : Assoc (List Transaction)) → remaining cursors m ≤ total m
  unfolding total
  remaining-le-total cursors [] = omega arith
  remaining-le-total cursors ((b, q) ∷ m) = omega (arith, remaining-le-total cursors m)

  start-IsPick :
      (s : Snapshot) → Distinct s.pending → IsPick s.pending (start effective_tip base_fee s)
  unfolding start
  start-IsPick s d = record {
    ready = fill-IsReady s.pending d;
    single = fill-IsSingle s.pending d;
    prefix = λ a. rw (cursor-open_cursors a s.pending) refl;
  }

-- From a well-formed mempool, at any limits and tips and a base fee that fits a u64,
-- `peek_best_transactions` ends without a panic, and what it chooses of each sender is, in this
-- order, a front part of the sender's pending queue: no transaction of the queue is passed over for
-- a later one.
pub peek_best_transactions_in_order :
    (effective_tip : Transaction → ℕ → Option ℕ) (base_fee : ℕ) (m : Mempool) (target : ℕ)
    (max_blobs_per_block : Option ℕ)
    → base_fee < u64_mod
    → IsSound m
    → (chosen : List Transaction) × (peek_best_transactions effective_tip base_fee
          (snapshot m)
          target
          max_blobs_per_block
        ≡ some chosen)
      × ((a : ℕ) → (n : ℕ) × (from a chosen ≡ take n (queue a m.pending_transactions)))
unfolding peek_best_transactions snapshot start
peek_best_transactions_in_order effective_tip base_fee m target max_blobs_per_block fits sound =
    let fee : ltb base_fee u64_mod ≡ true = ground (arith, fits) in
    rw (fee, peek_best_transactions)
      (pick-total effective_tip base_fee (snapshot m) sound.pending target
        (unwrap_or max_blobs_per_block 6)
        (length m.pending_transactions + total m.pending_transactions + 1)
        (start effective_tip base_fee (snapshot m))
        (start-IsPick effective_tip base_fee (snapshot m) sound.pending.distinct)
        (omega (
          arith,
          length-fill effective_tip base_fee m.pending_transactions,
          remaining-le-total effective_tip base_fee
              (open_cursors effective_tip base_fee m.pending_transactions) m.pending_transactions,
        )))
