-- ===== src/Prelude/Sort.antt =====
-- Go's sort.Strings, and what does not depend on the order in which a range visits a map.
use Prim.Native.Char.{code}
use Prim.Native.String.{String}
use mathlib.Core.Path.{◌≡◌, refl, ◌∙◌, ap}
use mathlib.Core.Bool.{Bool, true, false, ◌&&◌, ◌||◌}
use mathlib.Core.Option.{some}
use mathlib.Core.List.{List, [], ◌∷◌}
use native.Mathlib.Omega.{arith}
use text.Mathlib.TextEquality.{Char-path}
use tenara.Prelude.Tests.{ltb, nat_eq, ◌==◌, nat_Eq, string_Eq, if◌then◌else◌, text_iff}
use tenara.Prelude.Lists.{all}
use tenara.Prelude.Maps.{Map, get, keys}

-- the order of the bytes of UTF-8, which is that of the code points
unfoldable le_text : String → String → Bool
le_text String.[] t = true
le_text (String.◌∷◌ c s) String.[] = false
le_text (String.◌∷◌ c s) (String.◌∷◌ d t) =
    ltb (code c) (code d) || (nat_eq (code c) (code d) && le_text s t)

le_total : (s t : String) → (le_text s t || le_text t s) ≡ true
unfolding le_text
le_total String.[] t = refl
le_total (String.◌∷◌ c s) String.[] = refl
le_total (String.◌∷◌ c s) (String.◌∷◌ d t) = ground (arith, le_total s t)

le_trans : (s t u : String) → le_text s t ≡ true → le_text t u ≡ true → le_text s u ≡ true
unfolding le_text
le_trans String.[] t u h k = refl
le_trans (String.◌∷◌ c s) String.[] u h k = cc
le_trans (String.◌∷◌ c s) (String.◌∷◌ d t) String.[] h k = cc
le_trans (String.◌∷◌ c s) (String.◌∷◌ d t) (String.◌∷◌ e u) h k = ground (arith, le_trans s t u)

le_antisym : (s t : String) → le_text s t ≡ true → le_text t s ≡ true → s ≡ t
unfolding le_text
le_antisym String.[] String.[] h k = refl
le_antisym String.[] (String.◌∷◌ d t) h k = cc
le_antisym (String.◌∷◌ c s) String.[] h k = cc
le_antisym (String.◌∷◌ c s) (String.◌∷◌ d t) h k =
    let e : c ≡ d = Char-path c d (ground arith) in
    let r : s ≡ t = le_antisym s t (ground arith) (ground arith) in cc

unfoldable insert : String → List String → List String
unfolding le_text
insert s [] = s ∷ []
insert s (t ∷ ts) = let rest = insert s ts in if le_text s t then s ∷ t ∷ ts else t ∷ rest

-- the list in order
unfoldable pub sort : List String → List String
unfolding insert
sort [] = []
sort (s ∷ ss) = insert s (sort ss)

insert_swap : (a b : String) (ts : List String) → insert a (insert b ts) ≡ insert b (insert a ts)
unfolding insert
insert_swap a b [] = ground (arith, le_total a b, le_antisym a b)
insert_swap a b (t ∷ ts) = ground (
  arith,
  le_total a b,
  le_antisym a b,
  le_trans a b t,
  le_trans b a t,
  le_total a t,
  le_total b t,
  insert_swap a b ts,
)

-- The maps have the same entries, visited in another order.
pub data Reordered {ℓ} {V : Type ℓ} : Map V → Map V → Type ℓ where
  same_order : (m : Map V) → Reordered m m
  later : (e : String × V) {m n : Map V} → Reordered m n → Reordered (e ∷ m) (e ∷ n)
  swapped :
      (j k : String) (v w : V) (m : Map V)
      → (j == k) ≡ false
      → Reordered ((j, v) ∷ (k, w) ∷ m) ((k, w) ∷ (j, v) ∷ m)
  twice : {m n o : Map V} → Reordered m n → Reordered n o → Reordered m o

module _ {ℓ} {V : Type ℓ} where
  pub sort-Reordered : {m n : Map V} → Reordered m n → sort (keys m) ≡ sort (keys n)
  unfolding sort
  sort-Reordered (same_order m) = refl
  sort-Reordered (later e r) = ap (insert e.0) (sort-Reordered r)
  sort-Reordered (swapped j k v w m d) = insert_swap j k (sort (keys m))
  sort-Reordered (twice r q) = sort-Reordered r ∙ sort-Reordered q

  pub get-Reordered : {m n : Map V} (k : String) → Reordered m n → get m k ≡ get n k
  unfolding get
  get-Reordered k (same_order m) = refl
  get-Reordered k (later (j, v) r) = ap (λ o. if j == k then some v else o) (get-Reordered k r)
  get-Reordered k (swapped i j v w m d) = ground (arith, text_iff i k, text_iff j k, text_iff i j)
  get-Reordered k (twice r q) = get-Reordered k r ∙ get-Reordered k q

all-insert :
    (p : String → Bool) (s : String) (ts : List String) → all p (insert s ts) ≡ (p s && all p ts)
unfolding insert
all-insert p s [] = ground arith
all-insert p s (t ∷ ts) = ground (arith, all-insert p s ts)

pub all-sort : (p : String → Bool) (ss : List String) → all p (sort ss) ≡ all p ss
unfolding sort
all-sort p [] = refl
all-sort p (s ∷ ss) = all-insert p s (sort ss) ∙ ap (λ b. p s && b) (all-sort p ss)
