-- ===== src/Prelude/Lists.antt =====
-- Lists measured by native numbers, under the library's names, and predicates on lists.
use Prim.Native.Nat.{ℕ, zero, suc, ◌+◌, ◌<◌}
use mathlib.Core.Logic.{◌≢◌, ◌⊎◌}
use mathlib.Core.Bool.{Bool, true, false, ◌&&◌}
use unified_routing_framewor.Prelude.Tests.{if◌then◌else◌, ◌==◌}
use mathlib.Core.Option.{Option, none, some, some-injective}
use mathlib.Core.Path.{◌≡◌, refl, ap, subst}
use mathlib.Core.List.{List, [], ◌∷◌, ◌++◌}
use native.Mathlib.Omega.{arith}

module _ {ℓ} {A : Type ℓ} where
  abbrev pub length : List A → ℕ
  length [] = 0
  length (x ∷ xs) = suc (length xs)

  pub length-append : (xs ys : List A) → length (xs ++ ys) ≡ length xs + length ys
  length-append [] ys = omega arith
  length-append (x ∷ xs) ys = omega (arith, length-append xs ys)

  abbrev pub get_elem? : List A → ℕ → Option A
  get_elem? [] _ = none
  get_elem? (x ∷ xs) zero = some x
  get_elem? (x ∷ xs) (suc i) = get_elem? xs i

  -- `xs[i] = y`
  abbrev pub set_elem : List A → ℕ → A → List A
  set_elem [] _ y = []
  set_elem (x ∷ xs) zero y = y ∷ xs
  set_elem (x ∷ xs) (suc i) y = x ∷ set_elem xs i y

  pub length-set_elem : (xs : List A) (i : ℕ) (y : A) → length (set_elem xs i y) ≡ length xs
  length-set_elem [] i y = refl
  length-set_elem (x ∷ xs) zero y = refl
  length-set_elem (x ∷ xs) (suc i) y = ap suc (length-set_elem xs i y)

  pub get_elem?-some : (xs : List A) (i : ℕ) → i < length xs → (x : A) × (get_elem? xs i ≡ some x)
  get_elem?-some [] i h = ground arith
  get_elem?-some (x ∷ xs) zero h = (x, refl)
  get_elem?-some (x ∷ xs) (suc i) h = get_elem?-some xs i (omega arith)

  pub get_elem?_bound : (xs : List A) (i : ℕ) (x : A) → get_elem? xs i ≡ some x → i < length xs
  get_elem?_bound [] i x h = ground (arith, h)
  get_elem?_bound (y ∷ xs) zero x h = omega arith
  get_elem?_bound (y ∷ xs) (suc i) x h = omega (arith, get_elem?_bound xs i x h)

  pub get_elem?-set_elem :
      (xs : List A) (i : ℕ) (x y : A)
      → get_elem? xs i ≡ some x
      → get_elem? (set_elem xs i y) i ≡ some y
  get_elem?-set_elem [] i x y h = ground (arith, h)
  get_elem?-set_elem (z ∷ xs) zero x y h = refl
  get_elem?-set_elem (z ∷ xs) (suc i) x y h = get_elem?-set_elem xs i x y h

  pub get_elem?-set_elem_ne :
      (xs : List A) (i j : ℕ) (y : A) → j ≢ i → get_elem? (set_elem xs i y) j ≡ get_elem? xs j
  get_elem?-set_elem_ne [] i j y h = refl
  get_elem?-set_elem_ne (z ∷ xs) zero zero y h = ground (arith, h)
  get_elem?-set_elem_ne (z ∷ xs) zero (suc j) y h = refl
  get_elem?-set_elem_ne (z ∷ xs) (suc i) zero y h = refl
  get_elem?-set_elem_ne (z ∷ xs) (suc i) (suc j) y h =
      get_elem?-set_elem_ne xs i j y (λ e. h (ap suc e))

-- A predicate that every entry of a list has.
abbrev pub All {ℓ κ} : {A : Type ℓ} → (A → Type κ) → List A → Type κ
All P [] = Unit
All P (x ∷ xs) = P x × All P xs

-- One that some entry has.
abbrev pub Any {ℓ} : {A : Type ℓ} → (A → Type 0) → List A → Type 0
Any P [] = ⊥
Any P (x ∷ xs) = P x ⊎ Any P xs

pub All-get_elem? {ℓ κ} :
    {A : Type ℓ} (P : A → Type κ) (xs : List A) (i : ℕ) (x : A)
    → get_elem? xs i ≡ some x
    → All P xs
    → P x
All-get_elem? P [] i x h a = ground (arith, h)
All-get_elem? P (y ∷ xs) zero x h a = subst P (some-injective y x h) a.0
All-get_elem? P (y ∷ xs) (suc i) x h a = All-get_elem? P xs i x h a.1

pub All-set_elem {ℓ κ} :
    {A : Type ℓ} (P : A → Type κ) (xs : List A) (i : ℕ) (y : A)
    → P y
    → All P xs
    → All P (set_elem xs i y)
All-set_elem P [] i y h a = tt
All-set_elem P (x ∷ xs) zero y h a = (h, a.1)
All-set_elem P (x ∷ xs) (suc i) y h a = (a.0, All-set_elem P xs i y h a.1)

pub All-map {ℓ κ μ} :
    {A : Type ℓ} (P : A → Type κ) (Q : A → Type μ)
    → ((x : A) → P x → Q x)
    → (xs : List A) → All P xs
    → All Q xs
All-map P Q f [] a = tt
All-map P Q f (x ∷ xs) a = (f x a.0, All-map P Q f xs a.1)

pub All-append {ℓ κ} :
    {A : Type ℓ} (P : A → Type κ) (x : A) (xs : List A) → P x → All P xs → All P (xs ++ x ∷ [])
All-append P x [] h a = (h, tt)
All-append P x (y ∷ xs) h a = (a.0, All-append P x xs h a.1)

-- Without the first entry that passes a test.
abbrev pub erase_first {ℓ} : {A : Type ℓ} → (A → Bool) → List A → List A
erase_first p [] = []
erase_first p (x ∷ xs) = if p x then xs else x ∷ erase_first p xs

pub erase_first-All {ℓ κ} :
    {A : Type ℓ} (P : A → Type κ) (p : A → Bool) (xs : List A) → All P xs → All P (erase_first p xs)
erase_first-All P p [] a = tt
erase_first-All P p (x ∷ xs) a = ground (arith, erase_first-All P p xs a.1)

-- `!strcmp(a, b)`
abbrev pub same_string : List ℕ → List ℕ → Bool
same_string [] [] = true
same_string (a ∷ x) (b ∷ y) = a == b && same_string x y
same_string _ _ = false
