-- ===== src/Prelude/Results.antt =====
-- What a fallible routine gives: a value, one of its errors, or a panic (a division by zero, an
-- `unwrap` of `None`).
use mathlib.Core.Path.{◌≡◌, refl}
use mathlib.Core.Bool.{Bool, true, false}
use mathlib.Core.Logic.{◌↔◌}

pub data Outcome {ℓ} (E : Type ℓ) (A : Type ℓ) : Type ℓ where
  ok : A → Outcome E A
  err : E → Outcome E A
  panic : Outcome E A

infixl 5 ◌>>=◌ ◌>>◌
abbrev pub ◌>>=◌ {ℓ} : {E A B : Type ℓ} → Outcome E A → (A → Outcome E B) → Outcome E B
ok a >>= f = f a
err e >>= f = err e
panic >>= f = panic

abbrev pub ◌>>◌ : {E B : Type 0} → Outcome E (Unit {0}) → Outcome E B → Outcome E B
m >> k = m >>= λ _. k

-- `if !test { return Err(e) }`.
abbrev pub ensure : {E : Type 0} → Bool → E → Outcome E (Unit {0})
ensure true e = ok tt
ensure false e = err e

-- A sequence of checks passes exactly when each of them passes.
pub >>-eq-ok_iff :
    {E : Type 0} (m k : Outcome E (Unit {0})) → ((m >> k) ≡ ok tt) ↔ ((m ≡ ok tt) × (k ≡ ok tt))
>>-eq-ok_iff (ok tt) k = (λ h. (refl, h), λ h. h.1)
>>-eq-ok_iff (err e) k = (λ h. cc, λ h. cc)
>>-eq-ok_iff panic k = (λ h. cc, λ h. cc)

pub ensure-eq-ok_iff : {E : Type 0} (b : Bool) (e : E) → (ensure b e ≡ ok tt) ↔ (b ≡ true)
ensure-eq-ok_iff true e = (λ _. refl, λ _. refl)
ensure-eq-ok_iff false e = (λ h. cc, λ h. cc)
