-- ===== src/Prelude/Outcome.antt =====
-- What a call of code that can go wrong comes to.
use mathlib.Core.Path.{◌≡◌, ap}
use native.Mathlib.Omega.{arith}

-- A fault ends the process, or leaves it in a loop.
-- `null_pointer` is an access through NULL, `past_end` one through an `end()` iterator, `overrun` one
-- outside of an object or of what has been written to it, and `hang` a loop that does not end.
pub data Fault : Type 0 where
  null_pointer past_end overrun hang : Fault

pub data Outcome {ℓ} (A : Type ℓ) : Type ℓ where
  done : A → Outcome A
  fault : Fault → Outcome A

infixl 5 ◌>>=◌
abbrev pub ◌>>=◌ {ℓ κ} : {A : Type ℓ} {B : Type κ} → Outcome A → (A → Outcome B) → Outcome B
done a >>= f = f a
fault x >>= f = fault x

pub done-injective {ℓ} : {A : Type ℓ} {a b : A} → done a ≡ done b → a ≡ b
done-injective {a = a} e = ap (λ o. elim o [ done x ↦ x | fault x ↦ a ]) e

pub done-fault {ℓ} : {A : Type ℓ} {a : A} {x : Fault} → ¬ (fault x ≡ done a)
done-fault e = ground (arith, e)
