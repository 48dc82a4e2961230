-- ===== src/Mempool/Invariant/Promotion.antt =====
-- The promotion of queued transactions keeps the pools well formed.
use wasm_based_evm.Prelude.{
  ℕ, zero, suc, ◌≡◌, false, inl, inr, some, List, arith, All, All-map, All-insert, All-remove,
  All-lookup, All-except, Distinct, lookup-remove, Distinct-insert, Distinct-remove, Assoc, lookup,
  is_empty, get_elem?, add64, Bool-cases, Option-cases, ==_iff,
}
use wasm_based_evm.Block.{Transaction}
use wasm_based_evm.Vector.{BinarySearch, remove_at, search_cases}
use wasm_based_evm.Vector.Sorted.{All-remove_at, All-get_elem?, remove_at-IsSorted}
use wasm_based_evm.Mempool.{
  Mempool, sender, nonces, put_queue, promote_loop, drop_if_empty, promote_queued,
}
use wasm_based_evm.Mempool.Invariant.{
  IsQueue, IsPool, IsSound, IsLooseQueue, IsLoose, insert_promoted-IsLoose,
}

loosen : (a : ℕ) (m : Mempool) → IsSound m → IsLoose a m
loosen a m v = record {
  pending = v.pending;
  queued =
      All-map (λ e q. record { sorted = q.sorted; senders = q.senders; nonempty = λ _. q.nonempty })
        m.queued_transactions v.queued.queues;
  distinct = v.queued.distinct;
}

-- A transaction is taken out of the queue of `a`.
take_out-IsLoose :
    (a p : ℕ) (q : List Transaction) (m : Mempool)
    → lookup a m.queued_transactions ≡ some q
    → IsLoose a m
    → IsLoose a (put_queue false a (remove_at p q) m)
unfolding put_queue
take_out-IsLoose a p q m e v =
    let h = All-lookup (IsLooseQueue a) a q m.queued_transactions v.queued e in
    record {
      pending = v.pending;
      queued =
          All-insert (IsLooseQueue a) a _ m.queued_transactions
            (record {
              sorted = remove_at-IsSorted (λ (x : Transaction). x.nonce) p q h.sorted;
              senders = All-remove_at (λ x. sender x ≡ a) p q h.senders;
              nonempty = λ other. absurd (ground (arith, ==_iff a a));
            })
            v.queued;
      distinct = Distinct-insert a _ m.queued_transactions v.distinct;
    }

module _ (bs : BinarySearch) where
  promote_loop-IsLoose :
      (fuel a next : ℕ) (m : Mempool) → IsLoose a m → IsLoose a (promote_loop bs fuel a next m)
  unfolding promote_loop
  promote_loop-IsLoose zero a next m v = v
  promote_loop-IsLoose (suc fuel) a next m v =
      elim (Option-cases (lookup a m.queued_transactions)) [
        | inl e ↦ rw (e, promote_loop) v
        | inr (q, e) ↦ elim (search_cases bs (nonces q) next) [
          | inr (p, e') ↦ rw (e, e', promote_loop) v
          | inl (p, e') ↦ elim (Option-cases (get_elem? q p)) [
            | inl e'' ↦ rw (e, e', e'', promote_loop) v
            | inr (t, e'') ↦
                let h = All-lookup (IsLooseQueue a) a q m.queued_transactions v.queued e in
                let s = All-get_elem? (λ x. sender x ≡ a) p t q h.senders e'' in
                rw (e, e', e'', promote_loop)
                  (promote_loop-IsLoose fuel a (add64 next 1) _
                    (insert_promoted-IsLoose bs a t _ s (take_out-IsLoose a p q m e v)))
          ]
        ]
      ]

  -- Only the queue of `a` may have been empty.
  tighten :
      (a : ℕ) (m : Assoc (List Transaction))
      → Distinct m
      → All (IsLooseQueue a) m
      → ((q : List Transaction) → lookup a m ≡ some q → is_empty q ≡ false)
      → IsPool m
  tighten a m d v h = record {
    queues =
        All-except (IsLooseQueue a) IsQueue a
          (λ e q other. record {
            sorted = q.sorted;
            senders = q.senders;
            nonempty = q.nonempty other;
          })
          m d v
          (λ q e.
            let r = All-lookup (IsLooseQueue a) a q m v e in
            record { sorted = r.sorted; senders = r.senders; nonempty = h q e });
    distinct = d;
  }

  drop_if_empty-IsSound : (a : ℕ) (m : Mempool) → IsLoose a m → IsSound (drop_if_empty bs a m)
  unfolding drop_if_empty
  drop_if_empty-IsSound a m v = elim (Option-cases (lookup a m.queued_transactions)) [
    | inl e ↦
        rw (e, drop_if_empty)
          (record {
            pending = v.pending;
            queued = tighten a _ v.distinct v.queued (λ q e'. absurd (ground arith));
          })
    | inr (q, e) ↦ elim (Bool-cases (is_empty q)) [
      | inr full ↦
          rw (e, full, drop_if_empty)
            (record {
              pending = v.pending;
              queued = tighten a _ v.distinct v.queued (λ q' e'. ground arith);
            })
      | inl empty ↦
          rw (e, empty, drop_if_empty)
            (record {
              pending = v.pending;
              queued =
                  tighten a _ (Distinct-remove a _ v.distinct)
                    (All-remove (IsLooseQueue a) a _ v.queued)
                    (λ q' e'.
                      absurd (ground (arith, lookup-remove a a m.queued_transactions, ==_iff a a)));
            })
    ]
  ]

  pub promote_queued-IsSound :
      (a next : ℕ) (m : Mempool) → IsSound m → IsSound (promote_queued bs a next m)
  unfolding promote_queued
  promote_queued-IsSound a next m v =
      drop_if_empty-IsSound a _ (promote_loop-IsLoose _ a next m (loosen a m v))
