-- ===== src/Mempool/Snapshot/Heap.antt =====
-- mempool.rs: the heap of `peek_best_transactions`: a pop keeps what holds of all entries, and one
-- entry for each sender.
use wasm_based_evm.Prelude.{
  ℕ, suc, ◌==◌, false, some, List, [], ◌∷◌, All, length, ◌≡◌, refl, inl, inr, Bool-cases, arith,
}
use mathlib.Core.Path.{subst}
use mathlib.Core.Option.{some-injective}
use wasm_based_evm.Mempool.Snapshot.{above, better, pop_best}

-- No entry of the sender `a`.
abbrev pub IsFree : ℕ → List (ℕ × ℕ) → Type 0
IsFree a h = All (λ e. (e.1 == a) ≡ false) h

abbrev pub IsSingle : List (ℕ × ℕ) → Type 0
IsSingle [] = Unit
IsSingle (e ∷ h) = IsFree e.1 h × IsSingle h

-- What a pop gives.
pub record Popped (P : ℕ × ℕ → Type 0) (h : List (ℕ × ℕ)) (e : ℕ × ℕ) (rest : List (ℕ × ℕ))
    : Type 0 where
  pub best : P e
  pub others : All P rest
  pub size : length h ≡ suc (length rest)

-- Any property of all entries passes to the popped one and the others.
better-Popped :
    (P : ℕ × ℕ → Type 0) (e : ℕ × ℕ) (h : List (ℕ × ℕ))
    → P e
    → All P h
    → Popped P (e ∷ h) (better e h (pop_best h)).0 (better e h (pop_best h)).1
unfolding pop_best better
better-Popped P e [] p a = record { best = p; others = tt; size = refl }
better-Popped P e (f ∷ h) p a =
    let below = better-Popped P f h a.0 a.1 in
    elim (Bool-cases (above e (better f h (pop_best h)).0)) [
      | inl b ↦ rw b (record { best = p; others = a; size = refl })
      | inr b ↦ rw b (record {
        best = below.best;
        others = (p, below.others);
        size = omega (arith, below.size);
      })
    ]

-- The popped sender has no other entry, and the others keep theirs apart.
better-IsSingle :
    (e : ℕ × ℕ) (h : List (ℕ × ℕ))
    → IsSingle (e ∷ h)
    → IsFree ((better e h (pop_best h)).0).1 (better e h (pop_best h)).1
      × IsSingle (better e h (pop_best h)).1
unfolding pop_best better
better-IsSingle e [] s = (tt, tt)
better-IsSingle e (f ∷ h) s =
    let below = better-IsSingle f h s.1 in
    let apart = better-Popped (λ g. (g.1 == e.1) ≡ false) f h s.0.0 s.0.1 in
    elim (Bool-cases (above e (better f h (pop_best h)).0)) [
      | inl b ↦ rw b s
      | inr b ↦ rw b ((ground (arith, apart.best), below.0), (apart.others, below.1))
    ]

pub pop-Popped :
    (P : ℕ × ℕ → Type 0) (h : List (ℕ × ℕ)) (r : (ℕ × ℕ) × List (ℕ × ℕ))
    → pop_best h ≡ some r
    → All P h
    → Popped P h r.0 r.1
unfolding pop_best
pop-Popped P [] r e a = absurd (ground arith)
pop-Popped P (f ∷ h) r e a =
    subst (λ b. Popped P (f ∷ h) b.0 b.1) (some-injective _ r e) (better-Popped P f h a.0 a.1)

pub pop-IsSingle :
    (h : List (ℕ × ℕ)) (r : (ℕ × ℕ) × List (ℕ × ℕ))
    → pop_best h ≡ some r
    → IsSingle h
    → IsFree (r.0).1 r.1 × IsSingle r.1
unfolding pop_best
pop-IsSingle [] r e s = absurd (ground arith)
pop-IsSingle (f ∷ h) r e s =
    subst (λ b. IsFree (b.0).1 b.1 × IsSingle b.1) (some-injective _ r e) (better-IsSingle f h s)
