-- ===== src/AppSpec/Spec.antt =====
-- control-plane/internal/appspec/spec.go: the AppSpec document and its validation. A Go map is the
-- list of its entries in the order in which the range visits them.
pub mod Accepts
use tenara.Prelude.{
  ℕ, zero, suc, ◌+◌, ◌-◌, ◌*◌, ◌/◌, ◌%◌, ◌^◌, ◌≤◌, ◌<◌, String, ◌≡◌, refl, sym, ap, ◌∙◌, subst, ◌≢◌,
  ◌↔◌, ◌⊎◌, inl, inr, Bool, true, false, not, ◌&&◌, ◌||◌, Option, none, some, List, [], ◌∷◌, ◌++◌,
  map, arith, ltb, leb, nat_eq, if◌then◌else◌, ltb→lt, ltb→ge, leb→le, leb→gt, nat_eq_iff, Eq, ◌==◌,
  nat_Eq, string_Eq, text_iff, text_refl, text_ne, Bool-cases, Option-cases, text-cases, is_some,
  length, any, all, length-append, Member, here, there, All, All-Member, Map, get, remove, put,
  keys, get-remove, get-put, map_laws, all-get, get_or, get-put_self, get-put_ne, Outcome, ok, err,
  ◌>>=◌, ◌>>◌, require, refuse, >>=-eq-ok, is_ok, is_ok-then, ok-injective, all-Member, all-append,
  is_nonempty, is_nonempty-append, tests, ℤ, pos, negsuc, lt_ℤ, int_Eq, int_iff, All-of_all,
  all-of_All, any_Member, any-false,
}
use tenara.Bytes.{Bytes, codes, is_blank, is_space, trim_space}
use tenara.AppSpec.Cron
use tenara.AppSpec.Cron.{validate_schedule}

pub record ServiceDef : Type 0 where
  pub type : String
  pub runtime : String
  pub path : String
  pub schedule : String
  pub port : ℤ

pub record DatabaseDef : Type 0 where
  pub mongodb : Bool

pub record RouteTarget : Type 0 where
  pub service : String

pub record Spec : Type 0 where
  pub services : Map ServiceDef
  pub routing : Map RouteTarget
  pub database : Option DatabaseDef
  pub version : String

abbrev type_frontend : String
type_frontend = "frontend"

abbrev type_backend : String
type_backend = "backend"

abbrev type_worker : String
type_worker = "worker"

abbrev pub type_cron : String
type_cron = "cron"

abbrev pub valid_types : Map Bool
valid_types =
    (type_frontend, true) ∷ (type_backend, true) ∷ (type_worker, true) ∷ (type_cron, true) ∷ []

abbrev pub valid_runtimes : Map Bool
valid_runtimes = ("node", true) ∷ ("python", true) ∷ ("go", true) ∷ []

abbrev pub is_http_type : String → Bool
is_http_type t = t == type_frontend || t == type_backend

pub data Error : Type 0 where
  empty_document undecodable no_services : Error
  unsupported_version : String → Error
  invalid_type invalid_runtime missing_path : String → Error
  bad_schedule : String → Cron.Error → Error
  unknown_service : String → String → Error
  non_http_service : String → String → Error

abbrev pub Checked : Type 0
Checked = Outcome Error (Unit {0})

abbrev pub name_schedule : String → Cron.Checked → Checked
name_schedule name (ok u) = ok u
name_schedule name (err e) = err (bad_schedule name e)

-- the body of the loop over the services
unfoldable pub check_service : String → ServiceDef → Checked
unfolding get is_blank
check_service name svc = do
  require (get_or valid_types svc.type false) (invalid_type name)
  require (get_or valid_runtimes svc.runtime false) (invalid_runtime name)
  refuse (is_http_type svc.type && is_blank (codes svc.path)) (missing_path name)
  if svc.type == type_cron
      then name_schedule name (validate_schedule (codes svc.schedule))
      else ok tt

unfoldable pub check_services : Map ServiceDef → Checked
check_services [] = ok tt
check_services ((name, svc) ∷ services) = do check_service name svc; check_services services

abbrev pub check_target : String → RouteTarget → Option ServiceDef → Checked
check_target route target none = err (unknown_service route target.service)
check_target route target (some svc) =
    if not (is_http_type svc.type) then err (non_http_service route target.service) else ok tt

-- the loop over the routes
unfoldable pub check_routing : Map ServiceDef → Map RouteTarget → Checked
check_routing services [] = ok tt
check_routing services ((route, target) ∷ routing) = do
  check_target route target (get services target.service)
  check_routing services routing

unfoldable pub validate : Spec → Checked
unfolding check_services check_routing check_service
validate s = do
  require (s.version == "v1") (unsupported_version s.version)
  require (is_nonempty s.services) no_services
  check_services s.services
  check_routing s.services s.routing

abbrev pub checked_spec : Spec → Checked → Spec × Option Error
checked_spec s (ok u) = (s, none)
checked_spec s (err e) = (s, some e)

-- a spec of Go's zero value
abbrev pub no_spec : Spec
no_spec = record { services = []; routing = []; database = none; version = "" }

abbrev pub decoded_spec : Option Spec → Spec × Option Error
decoded_spec none = (no_spec, some undecodable)
decoded_spec (some s) = checked_spec s (validate s)

-- `Parse`, over the strict JSON decoder, which gives a spec for a document of the schema without
-- unknown fields. A decoded spec is returned beside the error of its validation.
unfoldable pub parse : (Bytes → Option Spec) → Bytes → Spec × Option Error
unfolding trim_space
parse decode doc =
    let trimmed = trim_space doc in
    if length trimmed == 0 then (no_spec, some empty_document) else decoded_spec (decode trimmed)
