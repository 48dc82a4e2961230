-- ===== src/Mempool/Snapshot/Order.antt =====
-- mempool.rs: the selection of `peek_best_transactions` ends without a panic, and takes the
-- transactions of each sender from the front of its queue on.
use wasm_based_evm.Prelude.{
  ℕ, zero, suc, ◌+◌, ◌-◌, ◌<◌, ◌≤◌, ◌==◌, ◌≡◌, ap, Option, none, some, List, [], ◌∷◌, ◌++◌, All,
  Assoc, lookup, insert, lookup-insert, length, take, get_elem?, inl, inr, Bool-cases, Option-cases,
  ==_iff, ==_refl, arith, unwrap_or, if◌then◌else◌,
}
use mathlib.Core.Path.{subst}
use wasm_based_evm.Block.{Transaction}
use wasm_based_evm.Mempool.State.{sender}
use wasm_based_evm.Mempool.Snapshot.{Pick, push}
use wasm_based_evm.Mempool.Snapshot.Heap.{IsFree, IsSingle}

-- The transactions of the sender `a`, in the order of the list.
abbrev pub from : ℕ → List Transaction → List Transaction
from a [] = []
from a (t ∷ l) = if sender t == a then t ∷ from a l else from a l

abbrev pub cursor : ℕ → Assoc ℕ → ℕ
cursor a cursors = unwrap_or (lookup a cursors) 0

abbrev pub queue : ℕ → Assoc (List Transaction) → List Transaction
queue a m = unwrap_or (lookup a m) []

from-append :
    (a : ℕ) (l : List Transaction) (t : Transaction)
    → from a (l ++ (t ∷ [])) ≡ (if sender t == a then from a l ++ (t ∷ []) else from a l)
from-append a [] t = ground arith
from-append a (u ∷ l) t = ground (arith, from-append a l t)

take-suc :
    (c : ℕ) (q : List Transaction) (t : Transaction)
    → get_elem? q c ≡ some t
    → take (suc c) q ≡ take c q ++ (t ∷ [])
take-suc zero [] t e = absurd (ground arith)
take-suc zero (u ∷ q) t e = ground arith
take-suc (suc c) [] t e = absurd (ground arith)
take-suc (suc c) (u ∷ q) t e = ap (λ l. u ∷ l) (take-suc c q t e)

-- What each sender still has after its cursor.
abbrev pub remaining : Assoc ℕ → Assoc (List Transaction) → ℕ
remaining cursors [] = 0
remaining cursors ((a, q) ∷ m) = (length q - cursor a cursors) + remaining cursors m

-- An entry of the heap leads to a transaction.
pub record IsReady (pending : Assoc (List Transaction)) (cursors : Assoc ℕ) (e : ℕ × ℕ)
    : Type 0 where
  pub queue : List Transaction
  pub at : ℕ
  pub tx : Transaction
  pub has_queue : lookup e.1 pending ≡ some queue
  pub has_cursor : lookup e.1 cursors ≡ some at
  pub has_tx : get_elem? queue at ≡ some tx

-- What is chosen of each sender is the front of its queue, up to the cursor.
abbrev pub IsPrefix : Assoc (List Transaction) → Assoc ℕ → List Transaction → Type 0
IsPrefix pending cursors chosen =
    (a : ℕ) → from a chosen ≡ take (cursor a cursors) (queue a pending)

pub record IsPick (pending : Assoc (List Transaction)) (p : Pick) : Type 0 where
  pub ready : All (IsReady pending p.cursors) p.heap
  pub single : IsSingle p.heap
  pub prefix : IsPrefix pending p.cursors p.chosen

remaining-le :
    (a c : ℕ) (cursors : Assoc ℕ) (m : Assoc (List Transaction))
    → lookup a cursors ≡ some c
    → remaining (insert a (suc c) cursors) m ≤ remaining cursors m
remaining-le a c cursors [] e = omega arith
remaining-le a c cursors ((b, q) ∷ m) e =
    ground (arith, e, remaining-le a c cursors m e, lookup-insert a b (suc c) cursors, ==_iff a b)

pub remaining-lt :
    (a c : ℕ) (q : List Transaction) (cursors : Assoc ℕ) (m : Assoc (List Transaction))
    → lookup a cursors ≡ some c
    → lookup a m ≡ some q
    → c < length q
    → remaining (insert a (suc c) cursors) m < remaining cursors m
unfolding lookup
remaining-lt a c q cursors [] e h l = absurd (ground arith)
remaining-lt a c q cursors ((b, r) ∷ m) e h l = elim (Bool-cases (b == a)) [
  | inl same ↦ ground (
    arith,
    e,
    h,
    rw same at h,
    same,
    remaining-le a c cursors m e,
    lookup-insert a b (suc c) cursors,
    ==_iff b a,
    ==_iff a b,
  )
  | inr other ↦ ground (
    arith,
    e,
    other,
    remaining-lt a c q cursors m e (rw other at h) l,
    lookup-insert a b (suc c) cursors,
    ==_iff b a,
    ==_iff a b,
  )
]

pub get_elem?-lt :
    (c : ℕ) (q : List Transaction) (t : Transaction) → get_elem? q c ≡ some t → c < length q
get_elem?-lt c [] t e = absurd (ground arith)
get_elem?-lt zero (u ∷ q) t e = omega arith
get_elem?-lt (suc c) (u ∷ q) t e = omega (arith, get_elem?-lt c q t e)

-- The state that a round leaves to the next.
module _ (effective_tip : Transaction → ℕ → Option ℕ) (base_fee : ℕ) where
  pub push-IsReady :
      (pending : Assoc (List Transaction)) (a c : ℕ) (q : List Transaction) (cursors : Assoc ℕ)
      (h : List (ℕ × ℕ))
      → lookup a pending ≡ some q
      → lookup a cursors ≡ some c
      → All (IsReady pending cursors) h
      → All (IsReady pending cursors) (push effective_tip base_fee a (get_elem? q c) h)
  unfolding push
  push-IsReady pending a c q cursors h eq ec r = elim (Option-cases (get_elem? q c)) [
    | inl e ↦ rw (e, push) r
    | inr (t, e) ↦ elim (Option-cases (effective_tip t base_fee)) [
      | inl none_tip ↦ rw (e, push, none_tip) r
      | inr (tip, has_tip) ↦
          rw (e, push, has_tip)
            (record { queue = q; at = c; tx = t; has_queue = eq; has_cursor = ec; has_tx = e }, r)
    ]
  ]

  pub push-IsSingle :
      (a : ℕ) (t : Option Transaction) (h : List (ℕ × ℕ))
      → IsFree a h
      → IsSingle h
      → IsSingle (push effective_tip base_fee a t h)
  unfolding push
  push-IsSingle a none h f s = s
  push-IsSingle a (some t) h f s = elim (Option-cases (effective_tip t base_fee)) [
    | inl e ↦ rw (e, push) s
    | inr (tip, e) ↦ rw (e, push) (f, s)
  ]

  pub length-push :
      (a : ℕ) (t : Option Transaction) (h : List (ℕ × ℕ))
      → length (push effective_tip base_fee a t h) ≤ suc (length h)
  unfolding push
  length-push a none h = omega arith
  length-push a (some t) h = elim (Option-cases (effective_tip t base_fee)) [
    | inl e ↦ rw (e, push) (omega arith)
    | inr (tip, e) ↦ rw (e, push) (omega arith)
  ]

-- The entries of other senders stay ready.
pub IsReady-other :
    (pending : Assoc (List Transaction)) (a v : ℕ) (cursors : Assoc ℕ) (h : List (ℕ × ℕ))
    → IsFree a h
    → All (IsReady pending cursors) h
    → All (IsReady pending (insert a v cursors)) h
IsReady-other pending a v cursors [] f r = tt
IsReady-other pending a v cursors (e ∷ h) f r = (
  record {
    queue = r.0.queue;
    at = r.0.at;
    tx = r.0.tx;
    has_queue = r.0.has_queue;
    has_cursor =
        ground
          (arith, lookup-insert a e.1 v cursors, f.0, ==_iff a e.1, ==_iff e.1 a, r.0.has_cursor);
    has_tx = r.0.has_tx;
  },
  IsReady-other pending a v cursors h f.1 r.1,
)

-- The prefix of the sender grows by the transaction at its cursor.
pub prefix-choose :
    (pending : Assoc (List Transaction)) (cursors : Assoc ℕ) (chosen : List Transaction) (a c : ℕ)
    (q : List Transaction) (t : Transaction)
    → lookup a pending ≡ some q
    → lookup a cursors ≡ some c
    → get_elem? q c ≡ some t
    → sender t ≡ a
    → IsPrefix pending cursors chosen
    → IsPrefix pending (insert a (suc c) cursors) (chosen ++ (t ∷ []))
prefix-choose pending cursors chosen a c q t eq ec et es p b = elim (Bool-cases (a == b)) [
  | inl same ↦
      subst
        (λ i.
          from i (chosen ++ (t ∷ []))
          ≡ take (cursor i (insert a (suc c) cursors)) (queue i pending))
        ((==_iff a b).0 same) own
  | inr other ↦
      grind (arith, p b, from-append b chosen t, lookup-insert a b (suc c) cursors, other, es)
]
  where
    front : from a chosen ≡ take c q
    front = grind (arith, p a, eq, ec)

    own : from a (chosen ++ (t ∷ [])) ≡ take (cursor a (insert a (suc c) cursors)) (queue a pending)
    own = grind (
      arith,
      front,
      from-append a chosen t,
      take-suc c q t et,
      lookup-insert a a (suc c) cursors,
      eq,
      ==_refl a,
      es,
    )
