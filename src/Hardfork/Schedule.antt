-- ===== src/Hardfork/Schedule.antt =====
-- The fork that is found has been activated: by its block, by its time, or by the difficulty.
use wasm_based_evm.Prelude.{
  ℕ, ◌≤◌, ◌≡◌, refl, ◌⊎◌, inl, inr, true, Option, none, some, List, [], ◌∷◌, arith, Bool-cases, ltb,
  leb, ◌&&◌,
}
use wasm_based_evm.Hardfork.{
  Hardfork, Activation, ChainConfig, frontier, paris, forks, insert_fork, sort_forks, is_active,
  active_fork, rank, paris_by_ttd, get_active_fork_with_total_difficulty,
}

-- Some element satisfies the predicate.
abbrev pub Any : (Activation → Type 0) → List Activation → Type 0
Any P [] = ⊥
Any P (a ∷ l) = P a ⊎ Any P l

module _ (P : Activation → Type 0) where
  Any-insert_fork : (a : Activation) (l : List Activation) → Any P (insert_fork a l) → P a ⊎ Any P l
  unfolding insert_fork
  Any-insert_fork a [] h = h
  Any-insert_fork a (b ∷ l) h = ground (arith, Any-insert_fork a l)

  Any-sort_forks : (l : List Activation) → Any P (sort_forks l) → Any P l
  unfolding sort_forks
  Any-sort_forks [] h = h
  Any-sort_forks (a ∷ l) h = ground (arith, Any-insert_fork a (sort_forks l), Any-sort_forks l)

-- An entry of the configuration for the fork `f` whose point has been reached.
abbrev pub Reached : ℕ → ℕ → Hardfork → Activation → Type 0
Reached number timestamp f a = (a.fork ≡ f) × (is_active number timestamp a ≡ true)

module _ (number timestamp : ℕ) where
  active_fork-Reached :
      (f : Hardfork) (l : List Activation)
      → (active_fork number timestamp f l ≡ f)
        ⊎ Any (Reached number timestamp (active_fork number timestamp f l)) l
  unfolding active_fork
  active_fork-Reached f [] = inl refl
  active_fork-Reached f (a ∷ l) = ground (arith, active_fork-Reached a.fork l)

-- The total difficulty has reached the terminal one.
abbrev pub TtdReached : ChainConfig → Option ℕ → Type 0
TtdReached c td =
    (ttd : ℕ) × (d : ℕ) × (c.terminal_total_difficulty ≡ some ttd) × (td ≡ some d) × (ttd ≤ d)

-- Either the difficulty decides, or the fork stays as it was.
paris_by_ttd_cases :
    (c : ChainConfig) (td : Option ℕ) (f : Hardfork)
    → (paris_by_ttd c.terminal_total_difficulty td f ≡ f)
      ⊎ ((paris_by_ttd c.terminal_total_difficulty td f ≡ paris) × TtdReached c td)
unfolding paris_by_ttd
paris_by_ttd_cases c td f = go c.terminal_total_difficulty td refl refl
  where
    go :
        (o p : Option ℕ)
        → c.terminal_total_difficulty ≡ o
        → td ≡ p
        → (paris_by_ttd o p f ≡ f) ⊎ ((paris_by_ttd o p f ≡ paris) × TtdReached c td)
    go (some ttd) (some d) e e' = elim (Bool-cases (ltb (rank f) (rank paris) && leb ttd d)) [
      | inl yes' ↦ inr (rw yes', (ttd, d, e, e', ground arith))
      | inr no' ↦ inl (rw no')
    ]
    go none p e e' = inl refl
    go (some ttd) none e e' = inl refl

-- Whatever the configuration, the fork that is found is Frontier, or the configuration has an entry
-- for it whose block or time has been reached, or it is Paris and the total difficulty has reached
-- the terminal one.
pub get_active_fork_with_total_difficulty-Reached :
    (c : ChainConfig) (number timestamp : ℕ) (td : Option ℕ)
    → (get_active_fork_with_total_difficulty c number timestamp td ≡ frontier)
      ⊎ Any
          (Reached number timestamp (get_active_fork_with_total_difficulty c number timestamp td))
          (forks c)
      ⊎ ((get_active_fork_with_total_difficulty c number timestamp td ≡ paris) × TtdReached c td)
unfolding get_active_fork_with_total_difficulty
get_active_fork_with_total_difficulty-Reached c number timestamp td =
    let f = active_fork number timestamp frontier (sort_forks (forks c)) in
    elim (paris_by_ttd_cases c td f) [
      | inl same ↦
          rw same (elim (active_fork-Reached number timestamp frontier (sort_forks (forks c))) [
            | inl e ↦ inl e
            | inr some_entry ↦
                inr (inl (Any-sort_forks (Reached number timestamp f) (forks c) some_entry))
          ])
      | inr by_ttd ↦ inr (inr by_ttd)
    ]
