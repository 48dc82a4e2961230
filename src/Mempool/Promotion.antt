-- ===== src/Mempool/Promotion.antt =====
-- The promotion of queued transactions goes on until the next nonce is not queued.
use wasm_based_evm.Prelude.{
  ℕ, ◌+◌, ◌%◌, ◌<◌, ◌≡◌, Bool, true, false, ◌||◌, inl, inr, List, [], ◌∷◌, arith, lookup,
  lookup-insert, ==_iff, is_empty, Bool-cases, Option-cases, ◌==◌, u64_mod,
}
use wasm_based_evm.Block.{Transaction}
use wasm_based_evm.Vector.{BinarySearch}
use wasm_based_evm.Mempool.{Mempool, queue_of, put_queue, drop_if_empty}

-- A queue has a transaction with the nonce.
unfoldable pub has_nonce : ℕ → List Transaction → Bool
has_nonce n [] = false
has_nonce n (t ∷ q) = t.nonce == n || has_nonce n q

pub pending-put :
    (a : ℕ) (q : List Transaction) (m : Mempool) → queue_of true a (put_queue true a q m) ≡ q
unfolding put_queue
pending-put a q m = rw lookup-insert (ground (arith, ==_iff a a))

module _ (bs : BinarySearch) where
  -- From the nonce `next` on, `count` nonces are pending, and the one after them is not queued.
  pub record IsPromoted (a next : ℕ) (m r : Mempool) : Type 0 where
    pub count : ℕ
    pub pending_all :
        (j : ℕ) → j < count → has_nonce ((next + j) % u64_mod) (queue_of true a r) ≡ true
    pub stops : has_nonce ((next + count) % u64_mod) (queue_of false a r) ≡ false
    pub keeps :
        (n : ℕ) → has_nonce n (queue_of true a m) ≡ true → has_nonce n (queue_of true a r) ≡ true

  pub pending-drop_if_empty :
      (a : ℕ) (m : Mempool) → queue_of true a (drop_if_empty bs a m) ≡ queue_of true a m
  unfolding drop_if_empty
  pending-drop_if_empty a m = elim (Option-cases (lookup a m.queued_transactions)) [
    | inl e ↦ rw (e, drop_if_empty)
    | inr (q, e) ↦ elim (Bool-cases (is_empty q)) [
      | inl none_left ↦ rw (e, none_left, drop_if_empty)
      | inr some_left ↦ rw (e, some_left, drop_if_empty)
    ]
  ]
