-- ===== src/Prelude/Rows.antt =====
-- Tables of a database as lists of rows, and what the conditions of the statements select.
use Prim.Native.Nat.{ℕ, suc, ◌≤◌}
use mathlib.Core.Path.{◌≡◌, refl, ◌∙◌, ap, sym}
use mathlib.Core.Logic.{inl, inr}
use mathlib.Core.Bool.{Bool, true, false}
use mathlib.Core.Option.{Option, none, some}
use mathlib.Core.List.{List, [], ◌∷◌}
use native.Mathlib.Omega.{arith}
use tenara.Prelude.Tests.{if◌then◌else◌, Bool-cases}
use tenara.Prelude.Lists.{all}

module _ {ℓ} {A : Type ℓ} where
  -- SELECT .. WHERE p, for a condition that at most one row meets: the first row that meets it
  unfoldable pub find : (A → Bool) → List A → Option A
  find p [] = none
  find p (x ∷ xs) = if p x then some x else find p xs

  -- SELECT .. WHERE p
  unfoldable pub select : (A → Bool) → List A → List A
  select p [] = []
  select p (x ∷ xs) = if p x then x ∷ select p xs else select p xs

  -- SELECT count(*) .. WHERE p
  unfoldable pub count_where : (A → Bool) → List A → ℕ
  count_where p [] = 0
  count_where p (x ∷ xs) = if p x then suc (count_where p xs) else count_where p xs

  -- UPDATE .. SET .. WHERE p
  unfoldable pub update_where : (A → Bool) → (A → A) → List A → List A
  update_where p f [] = []
  update_where p f (x ∷ xs) = (if p x then f x else x) ∷ update_where p f xs

  pub find-holds : (p : A → Bool) (xs : List A) {x : A} → find p xs ≡ some x → p x ≡ true
  unfolding find
  find-holds p [] h = cc
  find-holds p (y ∷ xs) {x} h = elim (Bool-cases (p y)) [
    | inl e ↦ let same : y ≡ x = ground arith in ap p (sym same) ∙ e
    | inr e ↦ find-holds p xs (ground arith)
  ]

  -- An update that no row meeting `q` takes part in, before or after, changes no such row.
  pub select-update_where_other :
      (p q : A → Bool) (f : A → A) (xs : List A)
      → ((x : A) → p x ≡ true → (q x ≡ false) × (q (f x) ≡ false))
      → select q (update_where p f xs) ≡ select q xs
  unfolding select update_where
  select-update_where_other p q f [] apart = refl
  select-update_where_other p q f (x ∷ xs) apart = elim (Bool-cases (p x)) [
    | inl e ↦ rw (e, (apart x e).0, (apart x e).1) (select-update_where_other p q f xs apart)
    | inr e ↦ rw (e, select-update_where_other p q f xs apart) refl
  ]

  pub count_where-update_where_le :
      (p q : A → Bool) (f : A → A) (xs : List A)
      → ((x : A) → q (f x) ≡ true → q x ≡ true)
      → count_where q (update_where p f xs) ≤ count_where q xs
  unfolding count_where update_where
  count_where-update_where_le p q f [] keeps = omega arith
  count_where-update_where_le p q f (x ∷ xs) keeps =
      ground (arith, keeps x, count_where-update_where_le p q f xs keeps)

  pub find-update_where :
      (p q : A → Bool) (f : A → A) (xs : List A)
      → ((x : A) → q (f x) ≡ q x)
      → find q (update_where p f xs)
        ≡ elim (find q xs) [ none ↦ none | some x ↦ some (if p x then f x else x) ]
  unfolding find update_where
  find-update_where p q f [] same = refl
  find-update_where p q f (x ∷ xs) same = ground (arith, same x, find-update_where p q f xs same)

  pub all-update_where :
      (p q : A → Bool) (f : A → A) (xs : List A)
      → ((x : A) → p x ≡ true → p (f x) ≡ true)
      → all p xs ≡ true
      → all p (update_where q f xs) ≡ true
  unfolding update_where
  all-update_where p q f [] keeps h = refl
  all-update_where p q f (x ∷ xs) keeps h = ground (arith, keeps x, all-update_where p q f xs keeps)

  pub all-find :
      (p q : A → Bool) (xs : List A) {x : A} → all p xs ≡ true → find q xs ≡ some x → p x ≡ true
  unfolding find
  all-find p q [] h e = cc
  all-find p q (y ∷ ys) {x} h e = elim (Bool-cases (q y)) [
    | inl t ↦
        let same : y ≡ x = ground arith in let k : p y ≡ true = ground arith in ap p (sym same) ∙ k
    | inr t ↦ all-find p q ys (ground arith) (ground arith)
  ]

  -- an update keeps what every row satisfies, if it does so for the rows that it changes
  pub all-update_where_of :
      (p q : A → Bool) (f : A → A) (xs : List A)
      → ((x : A) → p x ≡ true → q x ≡ true → p (f x) ≡ true)
      → all p xs ≡ true
      → all p (update_where q f xs) ≡ true
  unfolding update_where
  all-update_where_of p q f [] keeps h = refl
  all-update_where_of p q f (x ∷ xs) keeps h =
      ground (arith, keeps x, all-update_where_of p q f xs keeps)
