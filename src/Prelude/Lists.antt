-- ===== src/Prelude/Lists.antt =====
-- Lists over the native numbers, and predicates on lists by recursion.
use Prim.Native.Nat.{ℕ, suc, ◌+◌}
use mathlib.Core.Path.{◌≡◌}
use mathlib.Core.Bool.{Bool, true, false, ◌&&◌, ◌||◌}
use mathlib.Core.List.{List, [], ◌∷◌, ◌++◌}
use native.Mathlib.Omega.{arith}
use tenara.Prelude.Tests.{Bool-cases}
use mathlib.Core.Path.{refl}
use mathlib.Core.Logic.{inl, inr}

module _ {ℓ} {A : Type ℓ} where
  abbrev pub length : List A → ℕ
  length [] = 0
  length (x ∷ xs) = suc (length xs)

  abbrev pub any : (A → Bool) → List A → Bool
  any p [] = false
  any p (x ∷ xs) = p x || any p xs

  abbrev pub all : (A → Bool) → List A → Bool
  all p [] = true
  all p (x ∷ xs) = p x && all p xs

  pub length-append : (xs ys : List A) → length (xs ++ ys) ≡ length xs + length ys
  length-append [] ys = omega arith
  length-append (x ∷ xs) ys = omega (arith, length-append xs ys)

-- The elements, with the place where each stands: the family that proofs match on.
pub data Member {ℓ} {A : Type ℓ} (a : A) : List A → Type ℓ where
  here : {xs : List A} → Member a (a ∷ xs)
  there : {x : A} {xs : List A} → Member a xs → Member a (x ∷ xs)

abbrev pub All {ℓ κ} : {A : Type ℓ} → (A → Type κ) → List A → Type κ
All holds [] = Unit
All holds (v ∷ vs) = holds v × All holds vs

pub All-Member {ℓ κ} :
    {A : Type ℓ} (P : A → Type κ) {a : A} {xs : List A} → All P xs → Member a xs → P a
All-Member P h here = h.0
All-Member P h (there m) = All-Member P h.1 m

module _ {ℓ} {A : Type ℓ} where
  pub All-of_all : (p : A → Bool) (xs : List A) → all p xs ≡ true → All (λ x. p x ≡ true) xs
  All-of_all p [] h = tt
  All-of_all p (x ∷ xs) h = (ground arith, All-of_all p xs (ground arith))

  pub all-of_All : (p : A → Bool) (xs : List A) → All (λ x. p x ≡ true) xs → all p xs ≡ true
  all-of_All p [] h = refl
  all-of_All p (x ∷ xs) h = ground (arith, all-of_All p xs h.1)

  -- A search that succeeds names the element that it found.
  pub any_Member :
      (p : A → Bool) (xs : List A) → any p xs ≡ true → (a : A) × Member a xs × (p a ≡ true)
  any_Member p [] h = cc
  any_Member p (x ∷ xs) h = elim (Bool-cases (p x)) [
    | inl e ↦ (x, here, e)
    | inr e ↦ let (a, m, q) = any_Member p xs (ground arith) in (a, there m, q)
  ]

  pub any-false :
      (p : A → Bool) {a : A} {xs : List A} → any p xs ≡ false → Member a xs → p a ≡ false
  any-false p h here = ground arith
  any-false p h (there {x = x} {xs = xs} m) = any-false p (ground arith) m

  pub all-Member : (p : A → Bool) {a : A} {xs : List A} → all p xs ≡ true → Member a xs → p a ≡ true
  all-Member p h here = ground arith
  all-Member p h (there {x = x} {xs = xs} m) = all-Member p (ground arith) m

  pub all-append : (p : A → Bool) (xs ys : List A) → all p (xs ++ ys) ≡ (all p xs && all p ys)
  all-append p [] ys = refl
  all-append p (x ∷ xs) ys = ground (arith, all-append p xs ys)

-- at least one element
abbrev pub is_nonempty {ℓ} : {A : Type ℓ} → List A → Bool
is_nonempty [] = false
is_nonempty (x ∷ xs) = true

pub is_nonempty-append {ℓ} :
    {A : Type ℓ} (xs : List A) (y : A) (ys : List A) → is_nonempty (xs ++ y ∷ ys) ≡ true
is_nonempty-append [] y ys = refl
is_nonempty-append (x ∷ xs) y ys = refl
