-- ===== src/Prelude/Maps.antt =====
-- Go's `map[string]V` as a list of entries. Where the program ranges over a map, the list is in
-- the order that the range visits, so a theorem about every list covers every such order.
use mathlib.Core.Path.{◌≡◌, refl}
use mathlib.Core.Option
use mathlib.Core.Option.{Option, none, some}
use mathlib.Core.List.{List, [], ◌∷◌, map}
use Prim.Native.String.{String}
use native.Mathlib.Omega.{arith}
use mathlib.Core.Bool.{Bool, true, false}
use tenara.Prelude.Lists.{all}
use mathlib.Core.Logic.{inl, inr}
use tenara.Prelude.Tests.{Bool-cases, ◌==◌, string_Eq, if◌then◌else◌, text_iff, text_refl}

abbrev pub Map {ℓ} : Type ℓ → Type ℓ
Map V = List (String × V)

module _ {ℓ} {V : Type ℓ} where
  -- m[k], with `none` for a key that is not there
  unfoldable pub get : Map V → String → Option V
  get [] k = none
  get ((j, v) ∷ m) k = if j == k then some v else get m k

  -- delete(m, k)
  unfoldable pub remove : Map V → String → Map V
  remove [] k = []
  remove ((j, v) ∷ m) k = let rest = remove m k in if j == k then rest else (j, v) ∷ rest

  -- m[k] = v
  unfoldable pub put : Map V → String → V → Map V
  put [] k v = (k, v) ∷ []
  put ((j, w) ∷ m) k v = if j == k then (k, v) ∷ m else (j, w) ∷ put m k v

  abbrev pub keys : Map V → List String
  keys m = map (λ e. e.0) m

  pub get-remove :
      (m : Map V) (k j : String) → get (remove m k) j ≡ (if k == j then none else get m j)
  unfolding get remove
  get-remove [] k j = ground arith
  get-remove ((i, v) ∷ m) k j =
      ground (arith, get-remove m k j, text_iff i k, text_iff i j, text_iff k j)

  pub get-put :
      (m : Map V) (k j : String) (v : V) → get (put m k v) j ≡ (if k == j then some v else get m j)
  unfolding get put
  get-put [] k j v = refl
  get-put ((i, w) ∷ m) k j v =
      ground (arith, get-put m k j v, text_iff i k, text_iff i j, text_iff k j)

pub ruleset map_laws = (get-remove, get-put)

-- A read with a default, as Go's zero value on a missing key.
abbrev pub get_or {ℓ} : {V : Type ℓ} → Map V → String → V → V
get_or m k d = elim (get m k) [ none ↦ d | some v ↦ v ]

-- What every entry satisfies holds of what a read finds.
pub all-get {ℓ} :
    {V : Type ℓ} (p : String → V → Bool) (m : Map V) (k : String) (v : V)
    → all (λ e. p e.0 e.1) m ≡ true
    → get m k ≡ some v
    → p k v ≡ true
unfolding get
all-get p [] k v h g = cc
all-get p ((j, w) ∷ m) k v h g = ground (arith, text_iff j k, all-get p m k v)

pub get-put_self {ℓ} : {V : Type ℓ} (m : Map V) (k : String) (v : V) → get (put m k v) k ≡ some v
get-put_self m k v = ground (arith, get-put m k k v, text_refl k)

pub get-put_ne {ℓ} :
    {V : Type ℓ} (m : Map V) (k j : String) (v : V) → (k == j) ≡ false → get (put m k v) j ≡ get m j
get-put_ne m k j v h = ground (arith, get-put m k j v)

-- A write of a value that satisfies `p` keeps all values satisfying it.
pub all-put {ℓ} :
    {V : Type ℓ} (p : V → Bool) (m : Map V) (k : String) (v : V)
    → p v ≡ true
    → all (λ e. p e.1) m ≡ true
    → all (λ e. p e.1) (put m k v) ≡ true
unfolding put
all-put p [] k v g h = ground arith
all-put p ((j, w) ∷ m) k v g h = ground (arith, all-put p m k v)

pub get-map {ℓ κ} :
    {V : Type ℓ} {W : Type κ} (f : V → W) (m : Map V) (k : String)
    → get (map (λ e. (e.0, f e.1)) m) k ≡ Option.map f (get m k)
unfolding get
get-map f [] k = refl
get-map f ((j, v) ∷ m) k = elim (Bool-cases (j == k)) [
  | inl e ↦ rw e refl
  | inr e ↦ rw e (get-map f m k)
]
