-- ===== src/Prelude/Results.antt =====
-- Go's `(T, error)`: a value or an error of the component's own type.
use mathlib.Core.Path.{◌≡◌, refl}
use mathlib.Core.Bool.{Bool, true, false, ◌&&◌}
use tenara.Prelude.Tests.{if◌then◌else◌}

pub data Outcome {ℓ} (E A : Type ℓ) : Type ℓ where
  ok : A → Outcome E A
  err : E → Outcome E A

infixl 5 ◌>>=◌ ◌>>◌
abbrev pub ◌>>=◌ {ℓ} : {E V W : Type ℓ} → Outcome E V → (V → Outcome E W) → Outcome E W
ok v >>= next = next v
err e >>= next = err e

abbrev pub ◌>>◌ {ℓ} : {E B : Type ℓ} → Outcome E (Unit {ℓ}) → Outcome E B → Outcome E B
m >> k = m >>= λ _. k

-- `if !b { return err }`
abbrev pub require {ℓ} : {E : Type ℓ} → Bool → E → Outcome E (Unit {ℓ})
require true e = ok tt
require false e = err e

-- `if b { return err }`
abbrev pub refuse {ℓ} : {E : Type ℓ} → Bool → E → Outcome E (Unit {ℓ})
refuse true e = err e
refuse false e = ok tt

-- A chain that succeeds had a first step that did.
pub >>=-eq-ok {ℓ} :
    {E V W : Type ℓ} (first : Outcome E V) (next : V → Outcome E W) {w : W}
    → (first >>= next) ≡ ok w
    → (v : V) × (first ≡ ok v) × (next v ≡ ok w)
>>=-eq-ok (ok v) next chain = (v, refl, chain)
>>=-eq-ok (err e) next chain = cc

abbrev pub is_ok {ℓ} : {E A : Type ℓ} → Outcome E A → Bool
is_ok (ok a) = true
is_ok (err e) = false

pub ok-injective {ℓ} : {E A : Type ℓ} {a b : A} → ◌≡◌ {A = Outcome E A} (ok a) (ok b) → a ≡ b
ok-injective h = cc

pub is_ok-then {ℓ} :
    {E B : Type ℓ} (m : Outcome E (Unit {ℓ})) (k : Outcome E B)
    → is_ok (m >> k) ≡ (is_ok m && is_ok k)
is_ok-then (ok u) k = refl
is_ok-then (err e) k = refl

-- A step that answers with a value took the branch that does, and left that branch's state.
module _ {ℓ} {S E A : Type ℓ} where
  pub then-ok :
      (b : Bool) (t : S) (e : E) {s s' : S} {v a : A}
      → ◌≡◌ {A = S × Outcome E A} (if b then (s, ok v) else (t, err e)) (s', ok a)
      → (b ≡ true) × (s ≡ s') × (v ≡ a)
  then-ok true t e h = (refl, cc, cc)
  then-ok false t e h = cc

  pub else-ok :
      (b : Bool) (t : S) (e : E) {s' : S} {a : A} {rest : S × Outcome E A}
      → (if b then (t, err e) else rest) ≡ (s', ok a)
      → (b ≡ false) × (rest ≡ (s', ok a))
  else-ok true t e h = cc
  else-ok false t e h = (refl, h)
