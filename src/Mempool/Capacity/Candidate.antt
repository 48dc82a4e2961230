-- ===== src/Mempool/Capacity/Candidate.antt =====
-- The candidate for eviction: it names a queue that exists, and it is found where there is one.
use mathlib.Core.Path.{subst, ◌∙◌}
use wasm_based_evm.Prelude.{
  ℕ, ◌<◌, ◌≡◌, refl, sym, ap, Bool, true, false, not, ◌||◌, ◌⊎◌, inl, inr, Option, none, some, List,
  [], ◌∷◌, arith, All, All-lookup, All-insert, All-remove, Assoc, lookup, is_empty, is_some,
  Bool-cases, Option-cases, ltb, ==_iff, lt→ltb,
}
use wasm_based_evm.Block.{Transaction}
use wasm_based_evm.Vector.{back, pop_back}
use wasm_based_evm.Vector.Sorted.{All-pop_back}
use wasm_based_evm.Mempool.{
  Mempool, Worst, max_tip, consider_worst, len, calculate_effective_tip, scan_worst, find_worst,
  shrink, pool,
}
use wasm_based_evm.Mempool.Invariant.{IsPool, IsSound}
use wasm_based_evm.Mempool.Capacity.Totals.{total_of_empty}

-- What the scan names is a queue of its pool.
abbrev Named : Bool → Assoc (List Transaction) → Option (ℕ × Bool) → Type 0
Named p m none = Unit
Named p m (some (a, p')) = (p' ≡ p) × (is_some (lookup a m) ≡ true)

consider_worst_cases :
    (fee : ℕ) (p : Bool) (a : ℕ) (o : Option Transaction) (w : Worst)
    → (consider_worst fee p a o w ≡ w) ⊎ ((consider_worst fee p a o w).sender ≡ some (a, p))
unfolding consider_worst
consider_worst_cases fee p a none w = inl refl
consider_worst_cases fee p a (some t) w =
    elim (Bool-cases (ltb (calculate_effective_tip t fee) w.tip)) [
      | inl e ↦ inr (rw e)
      | inr e ↦ inl (rw e)
    ]

Named-cons :
    (p : Bool) (a : ℕ) (q : List Transaction) (m : Assoc (List Transaction)) (s : Option (ℕ × Bool))
    → Named p m s
    → Named p ((a, q) ∷ m) s
unfolding lookup
Named-cons p a q m none h = tt
Named-cons p a q m (some (b, p')) h = (h.0, ground arith)

Named-head :
    (p : Bool) (a : ℕ) (q : List Transaction) (m : Assoc (List Transaction))
    → Named p ((a, q) ∷ m) (some (a, p))
unfolding lookup
Named-head p a q m = (refl, ground (arith, ==_iff a a))

scan_worst-Named :
    (fee : ℕ) (p : Bool) (m : Assoc (List Transaction)) (w : Worst)
    → (scan_worst fee p m w ≡ w) ⊎ Named p m (scan_worst fee p m w).sender
unfolding scan_worst
scan_worst-Named fee p [] w = inl refl
scan_worst-Named fee p ((a, q) ∷ m) w =
    let w' = consider_worst fee p a (back q) w in
    elim (scan_worst-Named fee p m w') [
      | inr later ↦ inr (Named-cons p a q m _ later)
      | inl same ↦ elim (consider_worst_cases fee p a (back q) w) [
        | inl kept ↦ inl (same ∙ kept)
        | inr taken ↦ inr (
            subst (λ (s : Option (ℕ × Bool)). Named p ((a, q) ∷ m) s)
              (sym (ap (λ (v : Worst). v.sender) same ∙ taken)) (Named-head p a q m))
      ]
    ]

abbrev none_yet : Worst
none_yet = record { sender = none; tip = max_tip }

-- The queue that is named exists.
abbrev pub Exists : Mempool → Option (ℕ × Bool) → Type 0
Exists m none = Unit
Exists m (some (a, p)) = is_some (lookup a (pool p m)) ≡ true

Named-Exists : (m : Mempool) (p : Bool) (s : Option (ℕ × Bool)) → Named p (pool p m) s → Exists m s
Named-Exists m p none h = tt
Named-Exists m p (some (a, p')) h =
    subst (λ (b : Bool). is_some (lookup a (pool b m)) ≡ true) (sym h.0) h.1

scan_worst-Exists :
    (fee : ℕ) (m : Mempool) (p : Bool) (w : Worst)
    → Exists m w.sender
    → Exists m (scan_worst fee p (pool p m) w).sender
scan_worst-Exists fee m p w h = elim (scan_worst-Named fee p (pool p m) w) [
  | inl same ↦ rw same h
  | inr named ↦ Named-Exists m p _ named
]

pub find_worst-Exists : (m : Mempool) (fee : ℕ) → Exists m (find_worst m fee).sender
unfolding find_worst
find_worst-Exists m fee =
    let w = scan_worst fee false m.queued_transactions none_yet in
    let h = scan_worst-Exists fee m false none_yet tt in
    elim (Bool-cases (not (is_some w.sender) || is_empty m.queued_transactions)) [
      | inl e ↦ rw e (scan_worst-Exists fee m true w h)
      | inr e ↦ rw e h
    ]

-- Every transaction's tip is below `u128::MAX`.
abbrev pub IsPriced : ℕ → Assoc (List Transaction) → Type 0
IsPriced fee m = All (λ e. All (λ t. calculate_effective_tip t fee < max_tip) e.1) m

pub shrink-IsPriced :
    (fee a : ℕ) (m : Assoc (List Transaction)) → IsPriced fee m → IsPriced fee (shrink a m)
unfolding shrink
shrink-IsPriced fee a m h = elim (Option-cases (lookup a m)) [
  | inl e ↦ rw (e, shrink) h
  | inr (q, e) ↦ elim (Bool-cases (is_empty (pop_back q))) [
    | inl last ↦ rw (e, last, shrink) (All-remove _ a m h)
    | inr more ↦
        rw (e, more, shrink) (All-insert _ a _ m (All-pop_back _ q (All-lookup _ a q m h e)) h)
  ]
]

-- The candidate is found where there is a queue.
back-IsPriced :
    (fee : ℕ) (q : List Transaction)
    → is_empty q ≡ false
    → All (λ t. calculate_effective_tip t fee < max_tip) q
    → (t : Transaction) × (back q ≡ some t) × (calculate_effective_tip t fee < max_tip)
unfolding back
back-IsPriced fee [] e h = cc
back-IsPriced fee (t ∷ []) e h = (t, refl, h.0)
back-IsPriced fee (t ∷ u ∷ q) e h = back-IsPriced fee (u ∷ q) refl h.1

scan_worst-keeps :
    (fee : ℕ) (p : Bool) (m : Assoc (List Transaction)) (w : Worst)
    → is_some w.sender ≡ true
    → is_some (scan_worst fee p m w).sender ≡ true
unfolding scan_worst
scan_worst-keeps fee p [] w h = h
scan_worst-keeps fee p ((a, q) ∷ m) w h =
    scan_worst-keeps fee p m _
      (elim (consider_worst_cases fee p a (back q) w) [ inl e ↦ rw e h | inr e ↦ rw e ])

scan_worst-finds :
    (fee : ℕ) (p : Bool) (m : Assoc (List Transaction)) (w : Worst)
    → w.tip ≡ max_tip
    → IsPool m
    → IsPriced fee m
    → is_empty m ≡ false
    → is_some (scan_worst fee p m w).sender ≡ true
unfolding scan_worst consider_worst
scan_worst-finds fee p [] w t v h e = cc
scan_worst-finds fee p ((a, q) ∷ m) w t v h e =
    let (u, found_last, low) = back-IsPriced fee q v.queues.0.nonempty h.0 in
    scan_worst-keeps fee p m _
      (rw found_last (ground (arith, lt→ltb (calculate_effective_tip u fee) w.tip)))

pub record ArePriced (fee : ℕ) (m : Mempool) : Type 0 where
  pub pending : IsPriced fee m.pending_transactions
  pub queued : IsPriced fee m.queued_transactions

pub find_worst-finds :
    (fee : ℕ) (m : Mempool)
    → IsSound m
    → ArePriced fee m
    → 0 < len m
    → is_some (find_worst m fee).sender ≡ true
unfolding find_worst len
find_worst-finds fee m v h pos = elim (Bool-cases (is_empty m.queued_transactions)) [
  | inr some_queued ↦
      let e =
        scan_worst-finds fee false m.queued_transactions none_yet refl v.queued h.queued
          some_queued in
      rw (e, some_queued) e
  | inl none_queued ↦
      let e = empty_scan fee m.queued_transactions none_queued in
      let some_pending : is_empty m.pending_transactions ≡ false = ground (
        arith,
        total_of_empty m.queued_transactions none_queued,
        total_of_empty m.pending_transactions,
      ) in
      rw e (
        scan_worst-finds fee true m.pending_transactions none_yet refl v.pending h.pending
          some_pending)
]
  where
    empty_scan :
        (fee : ℕ) (m : Assoc (List Transaction))
        → is_empty m ≡ true
        → scan_worst fee false m none_yet ≡ none_yet
    empty_scan fee [] e = unfold scan_worst in refl
    empty_scan fee (x ∷ m) e = cc
