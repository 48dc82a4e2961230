-- ===== src/Prelude/Pairs.antt =====
-- Tables keyed by pairs, `(address, slot)` and `(block hash, index)`, as association lists.
use Prim.Native.Nat.{ℕ}
use mathlib.Core.Path.{◌≡◌, refl}
use mathlib.Core.Bool.{Bool, ◌&&◌}
use mathlib.Core.List.{List, [], ◌∷◌}
use mathlib.Core.Option.{Option, none, some}
use native.Mathlib.Omega.{arith}
use wasm_based_evm.Prelude.Tests.{◌==◌, if◌then◌else◌}

abbrev pub Table2 {ℓ} : Type ℓ → Type ℓ
Table2 V = List ((ℕ × ℕ) × V)

abbrev pub same_key : ℕ × ℕ → ℕ × ℕ → Bool
same_key k j = (k.0 == j.0) && (k.1 == j.1)

module _ {ℓ} {V : Type ℓ} where
  unfoldable pub lookup2 : ℕ × ℕ → Table2 V → Option V
  lookup2 k [] = none
  lookup2 k (entry ∷ m) = if same_key entry.0 k then some entry.1 else lookup2 k m

  unfoldable pub insert2 : ℕ × ℕ → V → Table2 V → Table2 V
  insert2 k v [] = (k, v) ∷ []
  insert2 k v (entry ∷ m) = if same_key entry.0 k then (k, v) ∷ m else entry ∷ insert2 k v m

  unfoldable pub remove2 : ℕ × ℕ → Table2 V → Table2 V
  remove2 k [] = []
  remove2 k (entry ∷ m) =
      let rest = remove2 k m in if same_key entry.0 k then rest else entry ∷ rest

  pub lookup2-insert2 :
      (k j : ℕ × ℕ) (v : V) (m : Table2 V)
      → lookup2 j (insert2 k v m) ≡ (if same_key k j then some v else lookup2 j m)
  unfolding insert2 lookup2
  lookup2-insert2 k j v [] = refl
  lookup2-insert2 k j v (entry ∷ m) = ground (arith, lookup2-insert2 k j v m)

  pub lookup2-remove2 :
      (k j : ℕ × ℕ) (m : Table2 V)
      → lookup2 j (remove2 k m) ≡ (if same_key k j then none else lookup2 j m)
  unfolding lookup2 remove2
  lookup2-remove2 k j [] = ground arith
  lookup2-remove2 k j (entry ∷ m) = ground (arith, lookup2-remove2 k j m)
