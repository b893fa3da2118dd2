-- ===== src/Analyzer/Rendered.antt =====
-- The rendered spec against the validation of the control plane.
use tenara.Prelude.{
  get-map, String, ◌≡◌, refl, ap, ◌∙◌, subst, inl, inr, Bool, true, false, not, ◌&&◌, ◌||◌, Option,
  none, some, List, [], ◌∷◌, map, arith, ◌==◌, nat_Eq, string_Eq, text_iff, text-cases, is_some,
  all, Map, get, all-get, get_or, ok, is_ok, ok-injective, is_nonempty, int_Eq,
}
use mathlib.Core.Option
use tenara.Bytes.{codes, is_blank}
use tenara.AppSpec.Spec
use tenara.AppSpec.Spec.{validate}
use tenara.AppSpec.Spec.Accepts.{service_ok, route_ok, leads, validate_iff}
use tenara.Analyzer.{
  ServiceFacts, MongoEvidence, ServiceDef, RouteTarget, AppSpecV1, Result, is_supported, collect,
  routes_of, result_of, rendered, generate,
}
use tenara.Analyzer.Collected.{is_good, not_blank, head_true, collect_good}
use tenara.Analyzer.Routes.{is_there, routes_there}

-- a rendered document as the control plane reads it
abbrev read_service : ServiceDef → Spec.ServiceDef
read_service s = record {
  type = s.type;
  runtime = s.runtime;
  path = s.path;
  schedule = "";
  port = s.port;
}

abbrev read_target : RouteTarget → Spec.RouteTarget
read_target t = record { service = t.service }

abbrev pub read_spec : AppSpecV1 → Spec.Spec
read_spec s = record {
  services = map (λ e. (e.0, read_service e.1)) s.services;
  routing = map (λ e. (e.0, read_target e.1)) s.routing;
  database = Option.map (λ d. record { mongodb = d.mongodb }) s.database;
  version = s.version;
}

type_ok :
    (t : String)
    → (t == "frontend" || t == "backend") ≡ true
    → (get_or Spec.valid_types t false ≡ true)
      × ((t == "cron") ≡ false)
      × (Spec.is_http_type t ≡ true)
unfolding get
type_ok t h = elim (text-cases t "frontend") [
  | inl e ↦ rw e (refl, refl, refl)
  | inr n ↦ rw ((text_iff t "backend").0 (rw n at h)) (refl, refl, refl)
]

runtime_ok : (r : String) → is_supported r ≡ true → get_or Spec.valid_runtimes r false ≡ true
unfolding get
runtime_ok r h = elim (text-cases r "node") [
  | inl e ↦ rw e refl
  | inr n ↦ elim (text-cases r "python") [
    | inl e ↦ rw e refl
    | inr m ↦ rw ((text_iff r "go").0 (rw (n, m) at h)) refl
  ]
]

four_checks :
    (a b http blank cron fits : Bool)
    → a ≡ true
    → b ≡ true
    → blank ≡ false
    → cron ≡ false
    → (a && b && not (http && blank) && (not cron || fits)) ≡ true
four_checks a b http blank cron fits h k l m = ground arith

good_parts :
    (s : ServiceDef)
    → is_good s ≡ true
    → ((s.type == "frontend" || s.type == "backend") ≡ true)
      × (is_supported s.runtime ≡ true)
      × (is_blank (codes s.path) ≡ false)
good_parts s h =
    parts (s.type == "frontend" || s.type == "backend") (is_supported s.runtime)
      (is_blank (codes s.path)) h
  where
    parts : (a b c : Bool) → (a && b && not c) ≡ true → (a ≡ true) × (b ≡ true) × (c ≡ false)
    parts a b c h = (ground arith, ground arith, ground arith)

good_ok : (s : ServiceDef) → is_good s ≡ true → service_ok (read_service s) ≡ true
unfolding service_ok
good_ok s h =
    let (t, r, p) = good_parts s h in
    let (valid, cron, http) = type_ok s.type t in
    four_checks (get_or Spec.valid_types s.type false) (get_or Spec.valid_runtimes s.runtime false)
      (Spec.is_http_type s.type) (is_blank (codes s.path)) (s.type == "cron") _ valid
      (runtime_ok s.runtime r) p cron

all-convert {ℓ κ} :
    {V : Type ℓ} {W : Type κ} (p : V → Bool) (q : W → Bool) (f : V → W) (m : Map V)
    → ((v : V) → p v ≡ true → q (f v) ≡ true)
    → all {A = String × V} (λ e. p e.1) m ≡ true
    → all {A = String × W} (λ e. q e.1) (map {A = String × V} (λ e. (e.0, f e.1)) m) ≡ true
all-convert p q f [] h a = refl
all-convert {V} p q f ((k, v) ∷ m) h a =
    let (x, xs) = head_true (p v) (all {A = String × V} (λ e. p e.1) m) a in
    rw (h v x, all-convert p q f m h xs) refl

leads_of :
    (services : Map ServiceDef) (name : String) (o : Option ServiceDef)
    → all (λ e. is_good e.1) services ≡ true
    → get services name ≡ o
    → is_some o ≡ true
    → leads (Option.map read_service o) ≡ true
leads_of services name none a g h = cc
leads_of services name (some s) a g h =
    let (t, r, p) = good_parts s (all-get (λ k v. is_good v) services name s a g) in
    let (valid, cron, http) = type_ok s.type t in http

target_leads :
    (services : Map ServiceDef) (t : RouteTarget)
    → all (λ e. is_good e.1) services ≡ true
    → is_there services t ≡ true
    → route_ok (map (λ e. (e.0, read_service e.1)) services) (read_target t) ≡ true
unfolding route_ok
target_leads services t a h =
    ap leads (get-map read_service services t.service)
    ∙ leads_of services t.service (get services t.service) a refl h

nonempty-map :
    (m : Map ServiceDef)
    → is_nonempty m ≡ true
    → is_nonempty {A = String × Spec.ServiceDef} (map (λ e. (e.0, read_service e.1)) m) ≡ true
nonempty-map [] h = h
nonempty-map (e ∷ m) h = refl

four_true : (b c d : Bool) → b ≡ true → c ≡ true → d ≡ true → (true && b && c && d) ≡ true
four_true b c d h k l = ground arith

result_valid :
    (services : Map ServiceDef) (mongo : MongoEvidence)
    → is_nonempty services ≡ true
    → all (λ e. is_good e.1) services ≡ true
    → is_ok (validate (read_spec (result_of services mongo).spec)) ≡ true
result_valid services mongo n a =
    let read : Map Spec.ServiceDef = map (λ e. (e.0, read_service e.1)) services in
    validate_iff (read_spec (result_of services mongo).spec)
    ∙ four_true _ _ _ (nonempty-map services n)
        (all-convert is_good service_ok read_service services good_ok a)
        (all-convert (is_there services) (route_ok read) read_target (routes_of services)
          (λ t. target_leads services t a) (routes_there services))

rendered_valid :
    (services : Map ServiceDef) (unsupported : List String) (mongo : MongoEvidence) {r : Result}
    → all (λ e. is_good e.1) services ≡ true
    → rendered (services, unsupported) mongo ≡ ok r
    → is_ok (validate (read_spec r.spec)) ≡ true
rendered_valid services (d ∷ dirs) mongo a h = cc
rendered_valid [] [] mongo a h = cc
rendered_valid (e ∷ services) [] mongo a h =
    subst (λ r. is_ok (validate (read_spec r.spec)) ≡ true) (ok-injective h)
      (result_valid (e ∷ services) mongo refl a)

-- Every spec that is rendered for directories with names that are not blank passes the validation of
-- the control plane.
pub generated_valid :
    (services : Map ServiceFacts) (mongo : MongoEvidence) {r : Result}
    → all (λ e. not_blank e.0) services ≡ true
    → generate services mongo ≡ ok r
    → is_ok (validate (read_spec r.spec)) ≡ true
unfolding generate
generated_valid services mongo n h =
    let c = collect services [] [] in
    rendered_valid c.0 c.1 mongo (collect_good services [] [] n refl) h
