-- ===== src/Mempool/Invariant/Inserting.antt =====
-- The insertion of a transaction and the replacement of one keep the pools well formed.
use wasm_based_evm.Prelude.{
  ℕ, zero, suc, ◌≡◌, refl, sym, ap, Bool, true, false, inl, inr, Option, none, some, List, [], ◌∷◌,
  arith, is_empty, get_elem?, set, Bool-cases, Option-cases, ◌==◌, ==_iff, leb,
}
use wasm_based_evm.Block.{Transaction}
use wasm_based_evm.Vector.{BinarySearch, Splits, search_cases}
use wasm_based_evm.Vector.Sorted.{All-set, keys-set}
use wasm_based_evm.Mempool.{
  Mempool, sender, price, nonces, queue_of, clean_up, replace, insert_new, insert_where,
  insert_sorted, min_replacement_price,
}
use wasm_based_evm.Mempool.Invariant.Promotion.{promote_queued-IsSound}
use wasm_based_evm.Mempool.Invariant.{
  IsQueue, IsSound, IsRead, read, put_queue-IsSound, insert_at-IsQueue,
}

get_elem?-nonces :
    (q : List Transaction) (i k : ℕ)
    → get_elem? (nonces q) i ≡ some k
    → (t : Transaction) × (get_elem? q i ≡ some t) × (t.nonce ≡ k)
get_elem?-nonces [] i k e = absurd (ground arith)
get_elem?-nonces (t ∷ q) zero k e = (t, refl, ground arith)
get_elem?-nonces (t ∷ q) (suc i) k e = get_elem?-nonces q i k e

abbrev nonce_or : ℕ → Option Transaction → ℕ
nonce_or k none = k
nonce_or k (some t) = t.nonce

-- The element at the position where a key is missing has another key.
Splits-get_elem? :
    (q : List Transaction) (i k : ℕ) (t : Transaction)
    → Splits k (nonces q) i
    → get_elem? q i ≡ some t
    → (t.nonce == k) ≡ false
Splits-get_elem? [] i k t h e = absurd (ground arith)
Splits-get_elem? (x ∷ q) zero k t h e =
    ground (arith, ap (λ (o : Option Transaction). nonce_or k o) e)
Splits-get_elem? (x ∷ q) (suc i) k t h e = Splits-get_elem? q i k t h.1 e

is_empty-set :
    (i : ℕ) (t : Transaction) (q : List Transaction)
    → is_empty q ≡ false
    → is_empty (set q i t) ≡ false
is_empty-set i t [] h = h
is_empty-set zero t (x ∷ q) h = refl
is_empty-set (suc i) t (x ∷ q) h = refl

module _ (bs : BinarySearch) where
  insert_new-IsSound :
      (p : Bool) (t : Transaction) (i : ℕ) (m : Mempool)
      → IsSound m
      → Splits t.nonce (nonces (queue_of p (sender t) m)) i
      → IsSound (insert_new bs p t i (queue_of p (sender t) m) m).0
  unfolding insert_new
  insert_new-IsSound true t i m v h = promote_queued-IsSound bs _ _ _ (
      put_queue-IsSound true _ _ m
        (insert_at-IsQueue (sender t) i t _ refl (read _ m.pending_transactions v.pending) h) v)
  insert_new-IsSound false t i m v h =
      put_queue-IsSound false _ _ m
        (insert_at-IsQueue (sender t) i t _ refl (read _ m.queued_transactions v.queued) h) v

  clean_up-IsSound : (t : Transaction) (m : Mempool) → IsSound m → IsSound (clean_up t m)
  unfolding clean_up
  clean_up-IsSound t m v = record { pending = v.pending; queued = v.queued }

  pub IsRead-pool : (p : Bool) (a : ℕ) (m : Mempool) → IsSound m → IsRead a (queue_of p a m)
  IsRead-pool true a m v = read a m.pending_transactions v.pending
  IsRead-pool false a m v = read a m.queued_transactions v.queued

  set-IsQueue :
      (a i : ℕ) (t old : Transaction) (q : List Transaction)
      → sender t ≡ a
      → IsRead a q
      → get_elem? q i ≡ some old
      → t.nonce ≡ old.nonce
      → IsQueue (a, set q i t)
  set-IsQueue a i t old q s r e n = record {
    sorted = rw (keys-set (λ (x : Transaction). x.nonce) i t old q e n) r.sorted;
    senders = All-set (λ x. sender x ≡ a) i t q s r.senders;
    nonempty = is_empty-set i t q (ground arith);
  }

  replace-IsSound :
      (p : Bool) (t old : Transaction) (i : ℕ) (m : Mempool)
      → IsSound m
      → get_elem? (queue_of p (sender t) m) i ≡ some old
      → t.nonce ≡ old.nonce
      → IsSound (replace bs p t old i (queue_of p (sender t) m) m).0
  unfolding replace
  replace-IsSound p t old i m v e n =
      elim (Bool-cases (leb (min_replacement_price old) (price t))) [
        | inr low ↦ rw low v
        | inl high ↦ rw high (
            put_queue-IsSound p _ _ (clean_up old m)
              (set-IsQueue (sender t) i t old _ refl (IsRead-pool p _ m v) e n)
              (clean_up-IsSound old m v))
      ]

  pub insert_sorted-IsSound :
      (p : Bool) (t : Transaction) (m : Mempool) → IsSound m → IsSound (insert_sorted bs p t m).0
  unfolding insert_sorted
  insert_sorted-IsSound p t m v =
      let r = IsRead-pool p (sender t) m v in
      let q = queue_of p (sender t) m in
      elim (search_cases bs (nonces q) t.nonce) [
        | inl (i, e) ↦
            let (old, e', n) = get_elem?-nonces q i t.nonce (bs.at_found _ _ i e) in
            rw (e, e')
              (unfold insert_where in
                rw ((==_iff old.nonce t.nonce).1 n) (replace-IsSound p t old i m v e' (sym n)))
        | inr (i, e) ↦
            let h = bs.at_missing _ _ i r.sorted e in
            elim (Option-cases (get_elem? q i)) [
              | inl e' ↦ rw (e, e') (unfold insert_where in insert_new-IsSound p t i m v h)
              | inr (old, e') ↦
                  rw (e, e')
                    (unfold insert_where in
                      rw (Splits-get_elem? q i t.nonce old h e') (insert_new-IsSound p t i m v h))
            ]
      ]
