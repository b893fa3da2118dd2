-- ===== src/AppSpec/Spec/Accepts.antt =====
-- Which specs the validation accepts, and what a route of an accepted spec leads to.
use tenara.Prelude.{
  String, ◌≡◌, refl, sym, ap, ◌∙◌, subst, Bool, true, false, not, ◌&&◌, ◌||◌, Option, none, some,
  [], ◌∷◌, arith, if◌then◌else◌, ◌==◌, nat_Eq, string_Eq, length, all, Map, get, all-get, get_or,
  Outcome, ok, err, ◌>>◌, require, refuse, is_ok, is_ok-then, is_nonempty, int_Eq,
}
use tenara.Bytes.{Bytes, codes, is_blank, trim_space}
use tenara.AppSpec.Cron.{validate_schedule}
use tenara.AppSpec.Spec.{
  ServiceDef, RouteTarget, Spec, Error, valid_types, valid_runtimes, is_http_type, type_cron,
  Checked, name_schedule, check_service, check_services, check_target, check_routing, validate,
  parse, checked_spec, no_spec, empty_document, decoded_spec,
}

-- a service that is well formed by itself
unfoldable pub service_ok : ServiceDef → Bool
service_ok svc =
    get_or valid_types svc.type false
    && get_or valid_runtimes svc.runtime false
    && not (is_http_type svc.type && is_blank (codes svc.path))
    && (not (svc.type == type_cron) || is_ok (validate_schedule (codes svc.schedule)))

abbrev pub leads : Option ServiceDef → Bool
leads none = false
leads (some svc) = is_http_type svc.type

-- a route to a service of the map that speaks HTTP
unfoldable pub route_ok : Map ServiceDef → RouteTarget → Bool
route_ok services target = leads (get services target.service)

three_checks {ℓ} :
    {E : Type ℓ} (a b c : Bool) (e₁ e₂ e₃ : E) (k : Outcome E (Unit {ℓ}))
    → is_ok (do require a e₁; require b e₂; refuse c e₃; k) ≡ (a && b && not c && is_ok k)
three_checks false b c e₁ e₂ e₃ k = refl
three_checks true false c e₁ e₂ e₃ k = refl
three_checks true true true e₁ e₂ e₃ k = refl
three_checks true true false e₁ e₂ e₃ k = refl

two_checks {ℓ} :
    {E : Type ℓ} (a b : Bool) (e₁ e₂ : E) (m k : Outcome E (Unit {ℓ}))
    → is_ok (do require a e₁; require b e₂; m; k) ≡ (a && b && is_ok m && is_ok k)
two_checks false b e₁ e₂ m k = refl
two_checks true false e₁ e₂ m k = refl
two_checks true true e₁ e₂ m k = is_ok-then m k

cron_ok :
    (name : String) (b : Bool) (c : Outcome _ (Unit {0}))
    → is_ok (if b then name_schedule name c else ok tt) ≡ (not b || is_ok c)
cron_ok name true (ok u) = refl
cron_ok name true (err e) = refl
cron_ok name false c = refl

check_service_ok :
    (name : String) (svc : ServiceDef) → is_ok (check_service name svc) ≡ service_ok svc
unfolding check_service service_ok get is_blank
check_service_ok name svc =
    three_checks (get_or valid_types svc.type false) (get_or valid_runtimes svc.runtime false)
      (is_http_type svc.type && is_blank (codes svc.path)) _ _ _ _
    ∙ ap
        (λ r.
          get_or valid_types svc.type false
          && get_or valid_runtimes svc.runtime false
          && not (is_http_type svc.type && is_blank (codes svc.path))
          && r)
        (cron_ok name (svc.type == type_cron) (validate_schedule (codes svc.schedule)))

target_ok :
    (route : String) (t : RouteTarget) (o : Option ServiceDef)
    → is_ok (check_target route t o) ≡ leads o
target_ok route t none = refl
target_ok route t (some svc) = ground arith

check_services_ok :
    (services : Map ServiceDef)
    → is_ok (check_services services) ≡ all (λ e. service_ok e.1) services
unfolding check_services
check_services_ok [] = refl
check_services_ok ((name, svc) ∷ services) =
    rw
      (
        is_ok-then (check_service name svc) (check_services services),
        check_service_ok name svc,
        check_services_ok services,
      )
      refl

check_routing_ok :
    (services : Map ServiceDef) (routing : Map RouteTarget)
    → is_ok (check_routing services routing) ≡ all (λ e. route_ok services e.1) routing
unfolding check_routing route_ok
check_routing_ok services [] = refl
check_routing_ok services ((route, t) ∷ routing) =
    rw
      (
        is_ok-then (check_target route t (get services t.service)) (check_routing services routing),
        target_ok route t (get services t.service),
        check_routing_ok services routing,
      )
      refl

-- The validation accepts a spec exactly if its version is v1, it has a service, each service is
-- well formed by itself and each route leads to an HTTP service of the spec: the order in which
-- the maps are visited decides no acceptance.
pub validate_iff :
    (s : Spec)
    → is_ok (validate s) ≡ (
        s.version == "v1"
        && is_nonempty s.services
        && all (λ e. service_ok e.1) s.services
        && all (λ e. route_ok s.services e.1) s.routing)
unfolding validate
validate_iff s =
    two_checks (s.version == "v1") (is_nonempty s.services) _ _ (check_services s.services)
      (check_routing s.services s.routing)
    ∙ rw (check_services_ok s.services, check_routing_ok s.services s.routing) refl

leads_to :
    (o : Option ServiceDef)
    → leads o ≡ true
    → (svc : ServiceDef) × (o ≡ some svc) × (is_http_type svc.type ≡ true)
leads_to none h = cc
leads_to (some svc) h = (svc, refl, h)

checked_ok :
    (s s' : Spec) (c : Checked) → checked_spec s c ≡ (s', none) → (s' ≡ s) × (is_ok c ≡ true)
checked_ok s s' (ok u) h = (cc, refl)
checked_ok s s' (err e) h = cc

checked_validated :
    (r s : Spec) → checked_spec r (validate r) ≡ (s, none) → is_ok (validate s) ≡ true
checked_validated r s h =
    let (e, v) = checked_ok r s (validate r) h in subst (λ x. is_ok (validate x) ≡ true) (sym e) v

decoded_validated :
    (b : Bool) (o : Option Spec) (s : Spec)
    → ◌≡◌ {A = Spec × Option Error}
        (if b then (no_spec, some empty_document) else decoded_spec o)
        (s, none)
    → is_ok (validate s) ≡ true
decoded_validated true o s h = cc
decoded_validated false none s h = cc
decoded_validated false (some r) s h = checked_validated r s h

-- A document that `Parse` returns without an error has only routes that lead to a service of the
-- document, which is a frontend or a backend and has a path that is not blank.
pub routes_lead :
    (decode : Bytes → Option Spec) (bytes : Bytes) (s : Spec) (route : String) (t : RouteTarget)
    → parse decode bytes ≡ (s, none)
    → get s.routing route ≡ some t
    → (svc : ServiceDef) × (get s.services t.service ≡ some svc)
      × (is_http_type svc.type ≡ true)
      × (is_blank (codes svc.path) ≡ false)
unfolding route_ok service_ok parse
routes_lead decode bytes s route t h g =
    let v = validate_iff s in
    let a = decoded_validated (length (trim_space bytes) == 0) (decode (trim_space bytes)) s h in
    let r = all-get (λ k u. route_ok s.services u) s.routing route t (ground arith) g in
    let (svc, f, http) = leads_to (get s.services t.service) r in
    let p = all-get (λ k u. service_ok u) s.services t.service svc (ground arith) f in
    (svc, f, http, ground arith)
