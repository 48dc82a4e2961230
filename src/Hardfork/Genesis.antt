-- ===== src/Hardfork/Genesis.antt =====
-- The fork at block 0, as `Engine::fork_validation` asks for it: a fork by block number above 0 hides
-- all the forks by time, since the loop over the sorted forks stops at it.
use wasm_based_evm.Prelude.{
  ℕ, ◌≡◌, refl, ◌∙◌, Bool, true, false, not, ◌&&◌, ◌||◌, Option, none, some, List, [], ◌∷◌, All,
  arith, Bool-cases, inl, inr, ltb,
}
use wasm_based_evm.Hardfork.{
  Hardfork, Activation, ChainConfig, frontier, shanghai, at_least, key_le, push_fork, forks,
  insert_fork, sort_forks, is_active, active_fork, paris_by_ttd, get_active_fork,
  get_active_fork_with_total_difficulty,
}

-- An entry by block number, above 0.
abbrev pub is_late : Activation → Bool
is_late a = not a.is_timestamp && ltb 0 a.val

unfoldable pub any_late : List Activation → Bool
any_late [] = false
any_late (a ∷ l) = is_late a || any_late l

-- Entries by block number are for forks before Shanghai.
abbrev IsEarly : Activation → Type 0
IsEarly a = (not a.is_timestamp && at_least a.fork shanghai) ≡ false

push_fork-IsEarly :
    (o : Option ℕ) (ts : Bool) (f : Hardfork) (l : List Activation)
    → (not ts && at_least f shanghai) ≡ false
    → All IsEarly l
    → All IsEarly (push_fork o ts f l)
unfolding push_fork
push_fork-IsEarly none ts f l h r = r
push_fork-IsEarly (some b) ts f l h r = (h, r)

insert_fork-All :
    (P : Activation → Type 0) (a : Activation) (l : List Activation)
    → P a
    → All P l
    → All P (insert_fork a l)
unfolding insert_fork
insert_fork-All P a [] h r = (h, tt)
insert_fork-All P a (b ∷ l) h r = elim (Bool-cases (key_le a b)) [
  | inl e ↦ rw e (h, r)
  | inr e ↦ rw e (r.0, insert_fork-All P a l h r.1)
]

sort_forks-All : (P : Activation → Type 0) (l : List Activation) → All P l → All P (sort_forks l)
unfolding sort_forks
sort_forks-All P [] r = tt
sort_forks-All P (a ∷ l) r = insert_fork-All P a (sort_forks l) r.0 (sort_forks-All P l r.1)

any_late-insert_fork :
    (a : Activation) (l : List Activation) → any_late (insert_fork a l) ≡ is_late a || any_late l
unfolding insert_fork any_late
any_late-insert_fork a [] = refl
any_late-insert_fork a (b ∷ l) = ground (arith, any_late-insert_fork a l)

any_late-sort_forks : (l : List Activation) → any_late (sort_forks l) ≡ any_late l
unfolding sort_forks any_late
any_late-sort_forks [] = refl
any_late-sort_forks (a ∷ l) =
    ground (arith, any_late-sort_forks l, any_late-insert_fork a (sort_forks l))

-- After an entry by time there is no late one.
abbrev IsBlocksFirst : List Activation → Type 0
IsBlocksFirst [] = Unit
IsBlocksFirst (a ∷ l) = ((a.is_timestamp && any_late l) ≡ false) × IsBlocksFirst l

insert_fork-IsBlocksFirst :
    (a : Activation) (l : List Activation) → IsBlocksFirst l → IsBlocksFirst (insert_fork a l)
unfolding insert_fork any_late
insert_fork-IsBlocksFirst a [] r = (ground arith, tt)
insert_fork-IsBlocksFirst a (b ∷ l) r = elim (Bool-cases (key_le a b)) [
  | inl e ↦ rw e (ground (arith, e, r.0), r)
  | inr e ↦
      rw e (ground (arith, e, r.0, any_late-insert_fork a l), insert_fork-IsBlocksFirst a l r.1)
]

sort_forks-IsBlocksFirst : (l : List Activation) → IsBlocksFirst (sort_forks l)
unfolding sort_forks
sort_forks-IsBlocksFirst [] = tt
sort_forks-IsBlocksFirst (a ∷ l) =
    insert_fork-IsBlocksFirst a (sort_forks l) (sort_forks-IsBlocksFirst l)

active_fork-early :
    (timestamp : ℕ) (f : Hardfork) (l : List Activation)
    → IsBlocksFirst l
    → All IsEarly l
    → any_late l ≡ true
    → at_least f shanghai ≡ false
    → at_least (active_fork 0 timestamp f l) shanghai ≡ false
unfolding active_fork any_late
active_fork-early timestamp f [] b e late h = absurd (ground arith)
active_fork-early timestamp f (a ∷ l) b e late h = elim (Bool-cases (is_active 0 timestamp a)) [
  | inr stop ↦ rw stop h
  | inl on ↦ rw on (
      active_fork-early timestamp a.fork l b.1 e.1 (ground (arith, on, late, b.0, e.0))
        (ground (arith, on, late, b.0, e.0)))
]

forks-IsEarly : (c : ChainConfig) → All IsEarly (forks c)
unfolding forks
forks-IsEarly c = push_fork-IsEarly _ _ _ _ refl (
    push_fork-IsEarly _ _ _ _ refl (
      push_fork-IsEarly _ _ _ _ refl (
        push_fork-IsEarly _ _ _ _ refl (
          push_fork-IsEarly _ _ _ _ refl (
            push_fork-IsEarly _ _ _ _ refl (
              push_fork-IsEarly _ _ _ _ refl (
                push_fork-IsEarly _ _ _ _ refl (
                  push_fork-IsEarly _ _ _ _ refl (
                    push_fork-IsEarly _ _ _ _ refl (
                      push_fork-IsEarly _ _ _ _ refl (
                        push_fork-IsEarly _ _ _ _ refl (
                          push_fork-IsEarly _ _ _ _ refl (
                            push_fork-IsEarly _ _ _ _ refl (
                              push_fork-IsEarly _ _ _ _ refl (
                                push_fork-IsEarly _ _ _ _ refl
                                  (push_fork-IsEarly _ _ _ _ refl (tt)))))))))))))))))

fork_unknown_ttd : (ttd : Option ℕ) (f : Hardfork) → paris_by_ttd ttd none f ≡ f
unfolding paris_by_ttd
fork_unknown_ttd none f = refl
fork_unknown_ttd (some x) f = refl

-- With an entry by a block number above 0, the fork at block 0 is before Shanghai at any time.
pub get_active_fork_late :
    (c : ChainConfig) (timestamp : ℕ)
    → (any_late (forks c) && at_least (get_active_fork c 0 timestamp) shanghai) ≡ false
unfolding get_active_fork get_active_fork_with_total_difficulty
get_active_fork_late c timestamp = elim (Bool-cases (any_late (forks c))) [
  | inr no_entry ↦ rw no_entry refl
  | inl late ↦ rw late (
      rw
        (fork_unknown_ttd c.terminal_total_difficulty
          (active_fork 0 timestamp frontier (sort_forks (forks c))))
        (active_fork-early timestamp frontier (sort_forks (forks c))
          (sort_forks-IsBlocksFirst (forks c)) (sort_forks-All IsEarly (forks c) (forks-IsEarly c))
          (any_late-sort_forks (forks c) ∙ late) refl))
]
