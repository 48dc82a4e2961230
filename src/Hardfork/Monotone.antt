-- ===== src/Hardfork/Monotone.antt =====
-- The active fork never regresses as a chain with an ordered configuration grows.
use wasm_based_evm.Prelude.{
  ℕ, ◌≤◌, ◌≡◌, refl, ap, Bool, true, Option, none, some, List, [], ◌∷◌, arith, Bool-cases, inl, inr,
}
use wasm_based_evm.Hardfork.{
  Hardfork, Activation, ChainConfig, frontier, rank, key_le, push_fork, forks, insert_fork,
  sort_forks, is_active, active_fork, paris_by_ttd, get_active_fork_with_total_difficulty,
}

-- The activation points come in the order of the forks.
abbrev pub Chained : List Activation → Type 0
Chained [] = Unit
Chained (a ∷ []) = Unit
Chained (a ∷ b ∷ l) = (key_le a b ≡ true) × Chained (b ∷ l)

abbrev pub IsOrdered : ChainConfig → Type 0
IsOrdered c = Chained (forks c)

sort_forks-eq : (l : List Activation) → Chained l → sort_forks l ≡ l
unfolding sort_forks insert_fork
sort_forks-eq [] h = refl
sort_forks-eq (a ∷ []) h = refl
sort_forks-eq (a ∷ b ∷ l) h = rw (ap (insert_fork a) (sort_forks-eq (b ∷ l) h.1)) (rw h.0)

-- The ranks do not fall, from a first bound on.
abbrev RankedFrom : ℕ → List Activation → Type 0
RankedFrom lo [] = Unit
RankedFrom lo (a ∷ l) = (lo ≤ rank a.fork) × RankedFrom (rank a.fork) l

push_fork-RankedFrom :
    (o : Option ℕ) (ts : Bool) (f : Hardfork) (l : List Activation) {lo : ℕ}
    → lo ≤ rank f
    → RankedFrom (rank f) l
    → RankedFrom lo (push_fork o ts f l)
unfolding push_fork
push_fork-RankedFrom none ts f [] h r = tt
push_fork-RankedFrom none ts f (a ∷ l) h r = (omega arith, r.1)
push_fork-RankedFrom (some b) ts f l h r = (h, r)

forks-RankedFrom : (c : ChainConfig) → RankedFrom 0 (forks c)
unfolding forks
forks-RankedFrom c = push_fork-RankedFrom _ _ _ _ (omega arith) (
    push_fork-RankedFrom _ _ _ _ (omega arith) (
      push_fork-RankedFrom _ _ _ _ (omega arith) (
        push_fork-RankedFrom _ _ _ _ (omega arith) (
          push_fork-RankedFrom _ _ _ _ (omega arith) (
            push_fork-RankedFrom _ _ _ _ (omega arith) (
              push_fork-RankedFrom _ _ _ _ (omega arith) (
                push_fork-RankedFrom _ _ _ _ (omega arith) (
                  push_fork-RankedFrom _ _ _ _ (omega arith) (
                    push_fork-RankedFrom _ _ _ _ (omega arith) (
                      push_fork-RankedFrom _ _ _ _ (omega arith) (
                        push_fork-RankedFrom _ _ _ _ (omega arith) (
                          push_fork-RankedFrom _ _ _ _ (omega arith) (
                            push_fork-RankedFrom _ _ _ _ (omega arith) (
                              push_fork-RankedFrom _ _ _ _ (omega arith) (
                                push_fork-RankedFrom _ _ _ _ (omega arith)
                                  (push_fork-RankedFrom _ _ _ [] (omega arith) tt))))))))))))))))

le-active_fork :
    (n t : ℕ) (f : Hardfork) (l : List Activation)
    → RankedFrom (rank f) l
    → rank f ≤ rank (active_fork n t f l)
unfolding active_fork
le-active_fork n t f [] r = omega arith
le-active_fork n t f (a ∷ l) r = ground (arith, le-active_fork n t a.fork l)

-- Without a difficulty that is known, Paris is not found by it.
abbrev pub TdGrows : Option ℕ → Option ℕ → Type 0
TdGrows none td' = Unit
TdGrows (some d) none = ⊥
TdGrows (some d) (some d') = d ≤ d'

paris_by_ttd_mono :
    (ttd td td' : Option ℕ) (f f' : Hardfork)
    → TdGrows td td'
    → rank f ≤ rank f'
    → rank (paris_by_ttd ttd td f) ≤ rank (paris_by_ttd ttd td' f')
unfolding paris_by_ttd
paris_by_ttd_mono none td td' f f' g h = h
paris_by_ttd_mono (some x) none none f f' g h = h
paris_by_ttd_mono (some x) none (some d') f f' g h = ground arith
paris_by_ttd_mono (some x) (some d) none f f' g h = absurd g
paris_by_ttd_mono (some x) (some d) (some d') f f' g h = ground arith

module _ (n n' t t' : ℕ) (hn : n ≤ n') (ht : t ≤ t') where
  is_active_mono : (a : Activation) → is_active n t a ≡ true → is_active n' t' a ≡ true
  is_active_mono a h = ground arith

  active_fork_mono :
      (f : Hardfork) (l : List Activation)
      → RankedFrom (rank f) l
      → rank (active_fork n t f l) ≤ rank (active_fork n' t' f l)
  unfolding active_fork
  active_fork_mono f [] r = omega arith
  active_fork_mono f (a ∷ l) r = elim (Bool-cases (is_active n t a)) [
    | inl e ↦ rw (e, is_active_mono a e) (active_fork_mono a.fork l r.1)
    | inr e ↦ rw e (ground (arith, le-active_fork n' t' a.fork l))
  ]

-- For a configuration whose activation points come in the order of the forks, a later block, at a
-- height, a time and a known total difficulty that are not smaller, has the same fork or a later one.
pub get_active_fork_mono :
    (c : ChainConfig) (n n' t t' : ℕ) (td td' : Option ℕ)
    → IsOrdered c
    → n ≤ n'
    → t ≤ t'
    → TdGrows td td'
    → rank (get_active_fork_with_total_difficulty c n t td)
      ≤ rank (get_active_fork_with_total_difficulty c n' t' td')
unfolding get_active_fork_with_total_difficulty
get_active_fork_mono c n n' t t' td td' ordered hn ht g = rw (sort_forks-eq (forks c) ordered) (
    paris_by_ttd_mono c.terminal_total_difficulty td td' _ _ g
      (active_fork_mono n n' t t' hn ht frontier (forks c) (forks-RankedFrom c)))
