-- ===== src/Analyzer.antt =====
-- analyzer/internal/generator/generator.go: the AppSpec that is rendered from what the detectors
-- found in each directory.
pub mod Collected
pub mod Routes
pub mod Rendered
pub mod Tests
use Prim.Native.String
use tenara.Prelude.{
  ℕ, zero, suc, ◌+◌, ◌-◌, ◌*◌, ◌/◌, ◌%◌, ◌^◌, ◌≤◌, ◌<◌, String, ◌≡◌, refl, sym, ap, ◌∙◌, subst, ◌≢◌,
  ◌↔◌, ◌⊎◌, inl, inr, Bool, true, false, not, ◌&&◌, ◌||◌, Option, none, some, List, [], ◌∷◌, ◌++◌,
  map, arith, ltb, leb, nat_eq, if◌then◌else◌, ltb→lt, ltb→ge, leb→le, leb→gt, nat_eq_iff, Eq, ◌==◌,
  nat_Eq, string_Eq, text_iff, text_refl, text_ne, Bool-cases, Option-cases, text-cases, is_some,
  length, any, all, length-append, Member, here, there, All, All-Member, Map, get, remove, put,
  keys, get-remove, get-put, map_laws, all-get, get_or, get-put_self, get-put_ne, Outcome, ok, err,
  ◌>>=◌, ◌>>◌, require, refuse, >>=-eq-ok, is_ok, is_ok-then, ok-injective, all-Member, all-append,
  is_nonempty, is_nonempty-append, tests, ℤ, pos, negsuc, lt_ℤ, int_Eq, int_iff, All-of_all,
  all-of_All, any_Member, any-false,
}

-- what the detectors tell of a directory and of a database
pub record ServiceFacts : Type 0 where
  pub runtime : String
  pub framework : String
  pub port : ℤ

pub record MongoEvidence : Type 0 where
  pub found : Bool
  pub evidence : String

pub record ServiceDef : Type 0 where
  pub type : String
  pub runtime : String
  pub path : String
  pub port : ℤ

pub record DatabaseDef : Type 0 where
  pub mongodb : Bool

pub record RouteTarget : Type 0 where
  pub service : String

pub record AppSpecV1 : Type 0 where
  pub services : Map ServiceDef
  pub routing : Map RouteTarget
  pub database : Option DatabaseDef
  pub version : String

pub record ConfidenceEntry : Type 0 where
  pub field : String
  pub decision : String
  pub evidence : List String

pub record Result : Type 0 where
  pub spec : AppSpecV1
  pub confidence : List ConfidenceEntry

pub data Error : Type 0 where
  unsupported_stack : List String → Error
  no_services : Error

abbrev pub is_supported : String → Bool
is_supported runtime = runtime == "node" || runtime == "python" || runtime == "go"

abbrev pub is_frontend_framework : String → Bool
is_frontend_framework f = f == "next" || f == "vue" || f == "react" || f == "vite" || f == "nuxt"

abbrev pub service_of : String → ServiceFacts → ServiceDef
service_of dir facts = record {
  type = if is_frontend_framework facts.framework then "frontend" else "backend";
  runtime = facts.runtime;
  path = dir;
  port = facts.port;
}

-- the loop over the directories, with the services and the unsupported directories so far
unfoldable pub collect :
    Map ServiceFacts → Map ServiceDef → List String → Map ServiceDef × List String
collect [] services unsupported = (services, unsupported)
collect ((dir, facts) ∷ rest) services unsupported =
    collect rest
      (if is_supported facts.runtime then put services dir (service_of dir facts) else services)
      (if is_supported facts.runtime then unsupported else unsupported ++ dir ∷ [])

-- The first service of a type that the range visits. The source ranges twice, for a frontend and for
-- a backend; every pair of choices is made by some one order.
unfoldable pub first_of_type : String → Map ServiceDef → Option String
first_of_type type [] = none
first_of_type type ((name, svc) ∷ services) =
    let rest = first_of_type type services in if svc.type == type then some name else rest

abbrev pub with_root : Option String → Map RouteTarget → Map RouteTarget
with_root none routing = routing
with_root (some name) routing = put routing "/" (record { service = name })

abbrev pub with_api : Option String → Map RouteTarget → Map RouteTarget
with_api none routing = routing
with_api (some name) routing =
    if is_some (get routing "/api") then routing else put routing "/api" (record { service = name })

-- the loop that routes "/" to a lone service
unfoldable root_to_each : Map ServiceDef → Map RouteTarget → Map RouteTarget
root_to_each [] routing = routing
root_to_each ((name, svc) ∷ services) routing =
    root_to_each services (put routing "/" (record { service = name }))

abbrev with_lone : Map ServiceDef → Map RouteTarget → Map RouteTarget
with_lone services routing =
    if length routing == length services + 1 && length services == 1
    then root_to_each services routing
    else routing

unfoldable pub routes_of : Map ServiceDef → Map RouteTarget
unfolding get put first_of_type root_to_each
routes_of services =
    with_lone services (
      with_api (first_of_type "backend" services)
        (with_root (first_of_type "frontend" services) []))

abbrev entry_of : String → String → Option String → List ConfidenceEntry
entry_of field type none = []
entry_of field type (some name) =
    record {
      field = field;
      decision = name;
      evidence = String.◌++◌ name (String.◌++◌ " is type=" type) ∷ [];
    }
    ∷ []

-- the entries of `buildRouting`: "/api" is not yet routed when a backend is found
unfoldable pub routing_entries : Map ServiceDef → List ConfidenceEntry
unfolding first_of_type
routing_entries services =
    entry_of "routing./" "frontend" (first_of_type "frontend" services)
    ++ entry_of "/api" "backend" (first_of_type "backend" services)

abbrev database_of : MongoEvidence → Option DatabaseDef
database_of mongo = if mongo.found then some (record { mongodb = true }) else none

abbrev database_entries : MongoEvidence → List ConfidenceEntry
database_entries mongo =
    record {
      field = "database.mongodb";
      decision = if mongo.found then "true" else "false";
      evidence = mongo.evidence ∷ [];
    }
    ∷ []

abbrev pub result_of : Map ServiceDef → MongoEvidence → Result
result_of services mongo = record {
  spec = record {
    services = services;
    routing = routes_of services;
    database = database_of mongo;
    version = "v1";
  };
  confidence = routing_entries services ++ database_entries mongo;
}

abbrev pub rendered : Map ServiceDef × List String → MongoEvidence → Outcome Error Result
rendered (services, unsupported) mongo =
    if is_nonempty unsupported
    then err (unsupported_stack unsupported)
    else if not (is_nonempty services)
    then err no_services
    else ok (result_of services mongo)

unfoldable pub generate : Map ServiceFacts → MongoEvidence → Outcome Error Result
unfolding collect routes_of routing_entries
generate services mongo = rendered (collect services [] []) mongo
