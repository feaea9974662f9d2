-- ===== src/Prelude/Ordered.antt =====
-- Lists ordered by a key: what the timer queues keep.
use Prim.Native.Nat.{ℕ, ◌≤◌}
use mathlib.Core.Bool.{Bool, true, false}
use mathlib.Core.Logic.{inl, inr}
use mathlib.Core.List.{List, [], ◌∷◌}
use unified_routing_framewor.Prelude.Tests.{ltb, if◌then◌else◌}
use unified_routing_framewor.Prelude.Lists.{All, Any, erase_first}
use native.Mathlib.Omega.{arith}

module _ {ℓ} {A : Type ℓ} (key : A → ℕ) where
  -- Before the first entry whose key is not smaller.
  unfoldable pub insert_by : A → List A → List A
  insert_by x [] = x ∷ []
  insert_by x (y ∷ l) = if ltb (key y) (key x) then y ∷ insert_by x l else x ∷ y ∷ l

  -- Keys do not fall along the list and are at least the bound.
  abbrev pub From : ℕ → List A → Type 0
  From n [] = Unit {0}
  From n (x ∷ l) = (n ≤ key x) × From (key x) l

  abbrev pub IsOrdered : List A → Type 0
  IsOrdered [] = Unit {0}
  IsOrdered (x ∷ l) = From (key x) l

  From-insert_by : (n : ℕ) (x : A) (l : List A) → n ≤ key x → From n l → From n (insert_by x l)
  unfolding insert_by
  From-insert_by n x [] h f = (h, tt)
  From-insert_by n x (y ∷ l) h f = ground (arith, From-insert_by (key y) x l)

  pub insert_by-IsOrdered : (x : A) (l : List A) → IsOrdered l → IsOrdered (insert_by x l)
  unfolding insert_by
  insert_by-IsOrdered x [] o = tt
  insert_by-IsOrdered x (y ∷ l) o = ground (arith, From-insert_by (key y) x l)

  pub From-IsOrdered : (n : ℕ) (l : List A) → From n l → IsOrdered l
  From-IsOrdered n [] f = tt
  From-IsOrdered n (x ∷ l) f = f.1

  pub From-mono : (j k : ℕ) (l : List A) → j ≤ k → From k l → From j l
  From-mono j k [] h f = tt
  From-mono j k (x ∷ l) h f = (omega arith, f.1)

  pub insert_by-All {κ} :
      (P : A → Type κ) (x : A) (l : List A) → P x → All P l → All P (insert_by x l)
  unfolding insert_by
  insert_by-All P x [] h a = (h, tt)
  insert_by-All P x (y ∷ l) h a = ground (arith, insert_by-All P x l h a.1)

  pub insert_by-Any : (P : A → Type 0) (x : A) (l : List A) → P x → Any P (insert_by x l)
  unfolding insert_by
  insert_by-Any P x [] h = inl h
  insert_by-Any P x (y ∷ l) h =
      elim (ltb (key y) (key x)) as (λ b. Any P (if b then y ∷ insert_by x l else x ∷ y ∷ l)) [
        | true ↦ inr (insert_by-Any P x l h)
        | false ↦ inl h
      ]

  From-erase_first : (n : ℕ) (p : A → Bool) (l : List A) → From n l → From n (erase_first p l)
  From-erase_first n p [] f = tt
  From-erase_first n p (x ∷ l) f =
      ground (arith, From-erase_first (key x) p l f.1, From-mono n (key x) l)

  pub erase_first-IsOrdered :
      (p : A → Bool) (l : List A) → IsOrdered l → IsOrdered (erase_first p l)
  erase_first-IsOrdered p [] o = tt
  erase_first-IsOrdered p (x ∷ l) o =
      ground (arith, From-erase_first (key x) p l o, From-IsOrdered (key x) l o)
