-- ===== src/Orchestrator/Plan.antt =====
-- control-plane/internal/orchestrator/plan/generator.go: the checklist that is shown before a
-- creation is approved.
pub mod Checklist
use tenara.Prelude.{
  sort, ℕ, zero, suc, ◌+◌, ◌-◌, ◌*◌, ◌/◌, ◌%◌, ◌^◌, ◌≤◌, ◌<◌, String, ◌≡◌, refl, sym, ap, ◌∙◌,
  subst, ◌≢◌, ◌↔◌, ◌⊎◌, inl, inr, Bool, true, false, not, ◌&&◌, ◌||◌, Option, none, some, List, [],
  ◌∷◌, ◌++◌, map, arith, ltb, leb, nat_eq, if◌then◌else◌, ltb→lt, ltb→ge, leb→le, leb→gt,
  nat_eq_iff, Eq, ◌==◌, nat_Eq, string_Eq, text_iff, text_refl, text_ne, Bool-cases, Option-cases,
  text-cases, is_some, length, any, all, length-append, Member, here, there, All, All-Member, Map,
  get, remove, put, keys, get-remove, get-put, map_laws, all-get, get_or, get-put_self, get-put_ne,
  Outcome, ok, err, ◌>>=◌, ◌>>◌, require, refuse, >>=-eq-ok, is_ok, is_ok-then, ok-injective,
  all-Member, all-append, is_nonempty, is_nonempty-append, tests, ℤ, pos, negsuc, lt_ℤ, int_Eq,
  int_iff, All-of_all, all-of_All, any_Member, any-false,
}
use Prim.Native.Char.{code}
use Prim.Native.String
use tenara.AppSpec.Spec.{Spec, ServiceDef, DatabaseDef}
use tenara.Orchestrator.Deploy.{Time}

pub record ServiceResources : Type 0 where
  pub cpu_millicores : ℕ
  pub memory_megabytes : ℕ

pub record PlanService : Type 0 where
  pub name : String
  pub resources : ServiceResources

pub record Plan : Type 0 where
  pub services : List PlanService
  pub expires_at : Time
  pub namespace_name : String
  pub database_name : String
  pub domain : String
  pub plan_id : String

abbrev pub resource_by_type : Map ServiceResources
resource_by_type =
    ("frontend", record { cpu_millicores = 250; memory_megabytes = 256 })
    ∷ ("backend", record { cpu_millicores = 500; memory_megabytes = 512 })
    ∷ []

pub record Input : Type 0 where
  pub spec : Spec
  pub now : Time
  pub app_id : String
  pub slug : String
  pub env : String
  pub base_domain : String
  pub ttl : Time

pub data Error : Type 0 where
  incomplete : Error
  no_estimate : String → Error

-- strings.SplitN(s, "-", 2)[0]
unfoldable pub before_dash : String → String
before_dash String.[] = String.[]
before_dash (String.◌∷◌ c s) =
    let rest = before_dash s in if code c == b'-' then String.[] else String.◌∷◌ c rest

-- the type of a service; Go's zero value for a name that is not there
abbrev pub found_type : Option ServiceDef → String
found_type none = ""
found_type (some def) = def.type

abbrev pub type_of : Map ServiceDef → String → String
type_of services name = found_type (get services name)

abbrev pub listed : String → Option ServiceResources → String → Outcome Error PlanService
listed name none type = err (no_estimate type)
listed name (some r) type = ok (record { name = name; resources = r })

-- the loop over the names
unfoldable pub list_services : Map ServiceDef → List String → Outcome Error (List PlanService)
unfolding get
list_services services [] = ok []
list_services services (name ∷ names) = do
  s ← listed name (get resource_by_type (type_of services name)) (type_of services name)
  rest ← list_services services names
  ok (s ∷ rest)

abbrev database_name_of : Option DatabaseDef → String → String
database_name_of none short_id = ""
database_name_of (some d) short_id = if d.mongodb then String.◌++◌ "app_" short_id else ""

unfoldable pub domain_of : Input → String
domain_of i =
    if not (i.env == "production")
    then String.◌++◌ i.slug (String.◌++◌ "-" (String.◌++◌ i.env (String.◌++◌ "." i.base_domain)))
    else String.◌++◌ i.slug (String.◌++◌ "." i.base_domain)

abbrev pub is_incomplete : Input → Bool
is_incomplete i = i.app_id == "" || i.slug == "" || i.env == "" || i.base_domain == ""

abbrev pub plan_with : Input → List PlanService → Plan
plan_with i services = record {
  services = services;
  expires_at = i.now + i.ttl;
  namespace_name = String.◌++◌ "app-" (String.◌++◌ (before_dash i.app_id) (String.◌++◌ "-" i.env));
  database_name = database_name_of i.spec.database (before_dash i.app_id);
  domain = domain_of i;
  plan_id = "";
}

unfoldable pub generate : Input → Outcome Error Plan
unfolding before_dash list_services domain_of sort
generate i = do
  refuse (is_incomplete i) incomplete
  services ← list_services i.spec.services (sort (keys i.spec.services))
  ok (plan_with i services)
