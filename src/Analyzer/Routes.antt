-- ===== src/Analyzer/Routes.antt =====
-- The routes that are rendered for the collected services.
use tenara.Prelude.{
  all-put, ℕ, suc, String, ◌≡◌, refl, sym, subst, inl, inr, Bool, true, false, ◌&&◌, Option, none,
  some, [], ◌∷◌, arith, if◌then◌else◌, ◌==◌, nat_Eq, string_Eq, text_iff, Bool-cases, text-cases,
  is_some, length, all, Map, get, put, int_Eq,
}
use tenara.Analyzer.{ServiceDef, RouteTarget, first_of_type, with_root, with_api, routes_of}

-- the routes before the branch for a lone service
abbrev pub plain_routes : Map ServiceDef → Map RouteTarget
plain_routes services =
    with_api (first_of_type "backend" services) (with_root (first_of_type "frontend" services) [])

one_route :
    (name : String) (b c : Bool)
    → (b && c) ≡ false
    → (length
          (with_api (if c then some name else none) (with_root (if b then some name else none) []))
        == 2)
      ≡ false
unfolding get put
one_route name true true h = cc
one_route name true false h = refl
one_route name false true h = refl
one_route name false false h = refl

not_both : (t : String) → (t == "frontend" && t == "backend") ≡ false
not_both t = elim (text-cases t "frontend") [ inl e ↦ rw e refl | inr n ↦ rw n refl ]

skip_lone {ℓ} : {A : Type ℓ} (a b : Bool) (x y : A) → b ≡ false → (if a && b then x else y) ≡ y
skip_lone true true x y h = cc
skip_lone true false x y h = refl
skip_lone false b x y h = refl

not_one : (n : ℕ) → (suc (suc n) == 1) ≡ false
not_one n = ground arith

-- The branch that routes "/" to a lone service is never taken: the routes of a spec are those to
-- its first frontend and its first backend alone.
pub lone_dead : (services : Map ServiceDef) → routes_of services ≡ plain_routes services
unfolding routes_of first_of_type
lone_dead [] = refl
lone_dead ((name, s) ∷ []) =
    rw (one_route name (s.type == "frontend") (s.type == "backend") (not_both s.type)) refl
lone_dead (e ∷ f ∷ m) = skip_lone _ _ _ _ (not_one (length m))

found_or_later :
    (b : Bool) (s : ServiceDef) (o : Option ServiceDef)
    → is_some o ≡ true
    → is_some (if b then some s else o) ≡ true
found_or_later true s o h = refl
found_or_later false s o h = h

some-injective {ℓ} : {A : Type ℓ} {x y : A} → ◌≡◌ {A = Option A} (some x) (some y) → x ≡ y
some-injective h = cc

first_some :
    (type : String) (m : Map ServiceDef) (n : String)
    → first_of_type type m ≡ some n
    → is_some (get m n) ≡ true
unfolding first_of_type get
first_some type [] n h = cc
first_some type ((j, s) ∷ m) n h = elim (Bool-cases (s.type == type)) [
  | inl e ↦ rw ((text_iff j n).1 (some-injective (rw e at h))) refl
  | inr e ↦ found_or_later (j == n) s (get m n) (first_some type m n (rw e at h))
]

-- the service that a route names is there
abbrev pub is_there : Map ServiceDef → RouteTarget → Bool
is_there services t = is_some (get services t.service)

root_there :
    (services : Map ServiceDef) (o : Option String)
    → ((n : String) → o ≡ some n → is_some (get services n) ≡ true)
    → all (λ e. is_there services e.1) (with_root o []) ≡ true
root_there services none h = refl
root_there services (some n) h =
    all-put (is_there services) [] "/" (record { service = n }) (h n refl) refl

api_there :
    (services : Map ServiceDef) (o : Option String) (routing : Map RouteTarget)
    → ((n : String) → o ≡ some n → is_some (get services n) ≡ true)
    → all (λ e. is_there services e.1) routing ≡ true
    → all (λ e. is_there services e.1) (with_api o routing) ≡ true
api_there services none routing h a = a
api_there services (some n) routing h a = elim (Bool-cases (is_some (get routing "/api"))) [
  | inl e ↦ rw e a
  | inr e ↦ rw e (all-put (is_there services) routing "/api" (record { service = n }) (h n refl) a)
]

pub routes_there :
    (services : Map ServiceDef) → all (λ e. is_there services e.1) (routes_of services) ≡ true
routes_there services =
    subst (λ r. all (λ e. is_there services e.1) r ≡ true) (sym (lone_dead services))
      (api_there services (first_of_type "backend" services)
        (with_root (first_of_type "frontend" services) []) (first_some "backend" services)
        (root_there services (first_of_type "frontend" services) (first_some "frontend" services)))
