-- ===== src/Prelude/Entries.antt =====
-- What holds of all entries of a map, and maps with one entry for each key.
use mathlib.Core.Path.{◌≡◌, refl, sym, subst}
use mathlib.Core.Option.{none, some, some-injective}
use mathlib.Core.Bool.{false}
use mathlib.Core.Logic.{inl, inr}
use mathlib.Core.List.{[], ◌∷◌}
use Prim.Native.Nat.{ℕ}
use native.Mathlib.Omega.{arith}
use wasm_based_evm.Prelude.Tests.{◌==◌, Bool-cases, ==_iff}
use wasm_based_evm.Prelude.Lists.{All}
use wasm_based_evm.Prelude.Maps.{Assoc, lookup, insert, remove, lookup-insert, lookup-remove}

-- One entry for each key.
abbrev pub Distinct : {V : Type 0} → Assoc V → Type 0
Distinct [] = Unit
Distinct ((k, v) ∷ m) = (lookup k m ≡ none) × Distinct m

module _ {V : Type 0} where
  pub Distinct-insert : (k : ℕ) (v : V) (m : Assoc V) → Distinct m → Distinct (insert k v m)
  unfolding insert lookup
  Distinct-insert k v [] d = (refl, tt)
  Distinct-insert k v ((j, w) ∷ m) d =
      ground (arith, lookup-insert k j v m, Distinct-insert k v m d.1, ==_iff j k)

  pub Distinct-remove : (k : ℕ) (m : Assoc V) → Distinct m → Distinct (remove k m)
  unfolding remove
  Distinct-remove k [] d = tt
  Distinct-remove k ((j, w) ∷ m) d = ground (arith, lookup-remove k j m, Distinct-remove k m d.1)

module _ {V : Type 0} (P : ℕ × V → Type 0) where
  pub All-insert : (k : ℕ) (v : V) (m : Assoc V) → P (k, v) → All P m → All P (insert k v m)
  unfolding insert
  All-insert k v [] h a = (h, tt)
  All-insert k v ((j, w) ∷ m) h a = elim (Bool-cases (j == k)) [
    | inl e ↦ rw e (h, a.1)
    | inr e ↦ rw e (a.0, All-insert k v m h a.1)
  ]

  pub All-remove : (k : ℕ) (m : Assoc V) → All P m → All P (remove k m)
  unfolding remove
  All-remove k [] a = tt
  All-remove k ((j, w) ∷ m) a = elim (Bool-cases (j == k)) [
    | inl e ↦ rw e (All-remove k m a.1)
    | inr e ↦ rw e (a.0, All-remove k m a.1)
  ]

  pub All-lookup : (k : ℕ) (v : V) (m : Assoc V) → All P m → lookup k m ≡ some v → P (k, v)
  unfolding lookup
  All-lookup k v [] a e = absurd (ground arith)
  All-lookup k v ((j, w) ∷ m) a e = elim (Bool-cases (j == k)) [
    | inl same ↦
        subst (λ i. P (i, v)) ((==_iff j k).0 same)
          (subst (λ u. P (j, u)) (some-injective w v (rw same at e)) a.0)
    | inr other ↦ All-lookup k v m a.1 (rw other at e)
  ]

  -- To strengthen what holds of all entries, with the entry of one key treated apart.
  pub All-except :
      (Q : ℕ × V → Type 0) (k : ℕ)
      → ((e : ℕ × V) → P e → (e.0 == k) ≡ false → Q e)
      → (m : Assoc V) → Distinct m
      → All P m
      → ((v : V) → lookup k m ≡ some v → Q (k, v))
      → All Q m
  unfolding lookup
  All-except Q k f [] d a h = tt
  All-except Q k f ((j, w) ∷ m) d a h = elim (Bool-cases (j == k)) [
    | inl same ↦ (
      subst (λ i. Q (i, w)) (sym ((==_iff j k).0 same)) (h w (rw same)),
      All-except Q k f m d.1 a.1 (λ v e.
          absurd (ground (arith, subst (λ i. lookup i m ≡ none) ((==_iff j k).0 same) d.0))),
    )
    | inr other ↦ (f (j, w) a.0 other, All-except Q k f m d.1 a.1 (λ v e. h v (rw other e)))
  ]
