-- ===== src/Mempool/Snapshot/Selection.antt =====
-- mempool.rs: the rounds of `peek_best_transactions` from the first to the last.
use wasm_based_evm.Prelude.{
  ℕ, zero, suc, ◌+◌, ◌<◌, ◌≤◌, ◌≡◌, refl, ap, ◌∙◌, Option, some, List, All-lookup, lookup, insert,
  lookup-insert, length, take, get_elem?, inl, inr, Bool-cases, Option-cases, arith, ltb,
}
use wasm_based_evm.Block.{Transaction}
use wasm_based_evm.Vector.Sorted.{All-get_elem?}
use wasm_based_evm.Mempool.State.{sender}
use wasm_based_evm.Mempool.Invariant.{IsQueue, IsPool}
use wasm_based_evm.Mempool.Snapshot.{
  Snapshot, Pick, choose, is_eligible, consider, take_turn, pick, pop_best,
}
use wasm_based_evm.Mempool.Snapshot.Heap.{IsFree, Popped, pop-Popped, pop-IsSingle}
use wasm_based_evm.Mempool.Snapshot.Order.{
  from, cursor, queue, remaining, IsReady, IsPick, remaining-lt, get_elem?-lt, push-IsReady,
  push-IsSingle, length-push, IsReady-other, prefix-choose,
}

module _ (effective_tip : Transaction → ℕ → Option ℕ) (base_fee : ℕ) (s : Snapshot)
    (sound : IsPool s.pending) where
  abbrev pub measure : Pick → ℕ
  measure p = length p.heap + remaining p.cursors s.pending

  choose-IsPick :
      (a c : ℕ) (q : List Transaction) (t : Transaction) (p : Pick)
      → lookup a s.pending ≡ some q
      → lookup a p.cursors ≡ some c
      → get_elem? q c ≡ some t
      → IsFree a p.heap
      → IsPick s.pending p
      → IsPick s.pending (choose effective_tip base_fee a q c t p)
        × (measure (choose effective_tip base_fee a q c t p) ≤ measure p)
  unfolding choose
  choose-IsPick a c q t p eq ec et f v = (
    record {
      ready =
          push-IsReady effective_tip base_fee s.pending a (suc c) q (insert a (suc c) p.cursors)
            p.heap eq here (IsReady-other s.pending a (suc c) p.cursors p.heap f v.ready);
      single = push-IsSingle effective_tip base_fee a (get_elem? q (suc c)) p.heap f v.single;
      prefix = prefix-choose s.pending p.cursors p.chosen a c q t eq ec et owner v.prefix;
    },
    omega (
      arith,
      length-push effective_tip base_fee a (get_elem? q (suc c)) p.heap,
      remaining-lt a c q p.cursors s.pending ec eq (get_elem?-lt c q t et),
    ),
  )
    where
      here : lookup a (insert a (suc c) p.cursors) ≡ some (suc c)
      here = ground (arith, lookup-insert a a (suc c) p.cursors)

      owner : sender t ≡ a
      owner =
          All-get_elem? (λ u. sender u ≡ a) c t q
            (All-lookup IsQueue a q s.pending sound.queues eq).senders et

  module _ (target max_blobs : ℕ) where
    take_turn-consider :
        (a c : ℕ) (q : List Transaction) (t : Transaction) (p : Pick)
        → lookup a s.pending ≡ some q
        → lookup a p.cursors ≡ some c
        → get_elem? q c ≡ some t
        → take_turn effective_tip base_fee s target max_blobs a p
          ≡ some (consider effective_tip base_fee s target max_blobs a q c t p)
    unfolding take_turn
    take_turn-consider a c q t p eq ec et = rw (eq, take_turn, ec, et) refl

    -- A round keeps the state right and leaves less to do.
    round :
        (p : Pick) (r : (ℕ × ℕ) × List (ℕ × ℕ))
        → IsPick s.pending p
        → pop_best p.heap ≡ some r
        → (p' : Pick) × (take_turn effective_tip base_fee s target max_blobs
              (r.0).1
              (record p { heap = r.1 })
            ≡ some p')
          × IsPick s.pending p'
          × (measure p' < measure p)
    unfolding consider
    round p (e, rest) v h = elim (Bool-cases (is_eligible s.blobs target max_blobs left ready.tx)) [
      | inl take_it ↦ (
        choose effective_tip base_fee e.1 ready.queue ready.at ready.tx left,
        same ∙ ap some (rw (take_it, consider) refl),
        chosen.0,
        omega (arith, chosen.1, popped.size),
      )
      | inr skip ↦
          (left, same ∙ ap some (rw (skip, consider) refl), left-IsPick, omega (arith, popped.size))
    ]
      where
        left : Pick
        left = record p { heap = rest }

        popped : Popped (IsReady s.pending p.cursors) p.heap e rest
        popped = pop-Popped (IsReady s.pending p.cursors) p.heap (e, rest) h v.ready

        ready : IsReady s.pending p.cursors e
        ready = popped.best

        left-IsPick : IsPick s.pending left
        left-IsPick = record {
          ready = popped.others;
          single = (pop-IsSingle p.heap (e, rest) h v.single).1;
          prefix = v.prefix;
        }

        same :
            take_turn effective_tip base_fee s target max_blobs e.1 left
            ≡ some (
                consider effective_tip base_fee s target max_blobs e.1 ready.queue ready.at ready.tx
                  left)
        same =
            take_turn-consider e.1 ready.at ready.queue ready.tx left ready.has_queue
              ready.has_cursor ready.has_tx

        chosen :
            IsPick s.pending (choose effective_tip base_fee e.1 ready.queue ready.at ready.tx left)
            × (measure (choose effective_tip base_fee e.1 ready.queue ready.at ready.tx left)
                ≤ measure left)
        chosen =
            choose-IsPick e.1 ready.at ready.queue ready.tx left ready.has_queue ready.has_cursor
              ready.has_tx (pop-IsSingle p.heap (e, rest) h v.single).0 left-IsPick

    -- Enough fuel gives a selection.
    pub pick-total :
        (fuel : ℕ) (p : Pick)
        → IsPick s.pending p
        → measure p < fuel
        → (chosen : List Transaction) × (pick effective_tip base_fee s target max_blobs fuel p
            ≡ some chosen)
          × ((a : ℕ) → (n : ℕ) × (from a chosen ≡ take n (queue a s.pending)))
    unfolding pick
    pick-total zero p v l = absurd (omega (arith, l))
    pick-total (suc fuel) p v l = elim (Bool-cases (ltb p.gas target)) [
      | inr full ↦ (p.chosen, rw (full, pick) refl, λ a. (cursor a p.cursors, v.prefix a))
      | inl room ↦ elim (Option-cases (pop_best p.heap)) [
        | inl empty ↦ (p.chosen, rw (room, pick, empty) refl, λ a. (cursor a p.cursors, v.prefix a))
        | inr (r, e) ↦
            let (p', step, v', less) = round p r v e in
            let (chosen, run, prefixes) = pick-total fuel p' v' (omega (arith, less, l)) in
            (chosen, rw (room, pick, e, step) run, prefixes)
      ]
    ]
