-- ===== src/Cells.antt =====
-- control-plane/internal/cells/cells.go: the registry of clusters and the routing of organizations.
-- The mutex makes each method atomic; the cells behind the map's pointers are written back, so
-- `snapshot`, which copies a cell, is the cell itself.
pub mod Routing
pub mod Invariant
pub mod Tests
use tenara.Prelude.{sort}
use tenara.Prelude.{
  ℕ, zero, suc, ◌+◌, ◌-◌, ◌*◌, ◌/◌, ◌%◌, ◌^◌, ◌≤◌, ◌<◌, String, ◌≡◌, refl, sym, ap, ◌∙◌, subst, ◌≢◌,
  ◌↔◌, ◌⊎◌, inl, inr, Bool, true, false, not, ◌&&◌, ◌||◌, Option, none, some, List, [], ◌∷◌, ◌++◌,
  map, arith, ltb, leb, nat_eq, if◌then◌else◌, ltb→lt, ltb→ge, leb→le, leb→gt, nat_eq_iff, Eq, ◌==◌,
  nat_Eq, string_Eq, text_iff, text_refl, text_ne, Bool-cases, Option-cases, text-cases, is_some,
  length, any, all, length-append, Member, here, there, All, All-Member, Map, get, remove, put,
  keys, get-remove, get-put, map_laws, all-get, get_or, get-put_self, get-put_ne, Outcome, ok, err,
  ◌>>=◌, ◌>>◌, require, refuse, >>=-eq-ok, is_ok, ok-injective, all-Member, tests, ℤ, pos, negsuc,
  lt_ℤ, int_Eq, int_iff, All-of_all, all-of_All, any_Member, any-false,
}

pub record Cell : Type 0 where
  pub name : String
  pub cloud : String
  pub endpoint : String
  pub region : String
  pub is_default : Bool
  pub orgs : Map (Unit {0})

abbrev known_clouds : Map Bool
known_clouds =
    ("baidu-cce", true) ∷ ("aliyun-ack", true) ∷ ("tencent-tke", true) ∷ ("selfhosted", true) ∷ []

-- `nil_cell` stands for the panic on a name that the map does not have.
pub data Error : Type 0 where
  incomplete no_cell duplicate_cell unknown_cell nil_cell : Error
  unknown_cloud : String → Error

pub record Spec : Type 0 where
  pub name : String
  pub cloud : String
  pub endpoint : String
  pub region : String
  pub is_default : Bool

pub record Target : Type 0 where
  pub cell_name : String
  pub cloud : String
  pub endpoint : String
  pub region : String

pub record Registry : Type 0 where
  pub cells : Map Cell
  pub names : List String

unfoldable pub new_registry : Registry
new_registry = record { cells = []; names = [] }

abbrev pub new_cell : Spec → Cell
new_cell s = record {
  name = s.name;
  cloud = s.cloud;
  endpoint = s.endpoint;
  region = s.region;
  is_default = s.is_default;
  orgs = [];
}

unfoldable pub is_known_cloud : String → Bool
unfolding get
is_known_cloud cloud = get_or known_clouds cloud false

unfoldable pub register : Registry → Spec → Registry × Outcome Error (Unit {0})
unfolding is_known_cloud
register r s =
    if s.name == "" || s.endpoint == ""
    then (r, err incomplete)
    else if not (is_known_cloud s.cloud)
    then (r, err (unknown_cloud s.cloud))
    else if is_some (get r.cells s.name)
    then (r, err duplicate_cell)
    else (
      record r { cells = put r.cells s.name (new_cell s); names = r.names ++ s.name ∷ [] },
      ok tt,
    )

abbrev pin : Registry → String → String → Option Cell → Registry × Outcome Error (Unit {0})
pin r org_id cell_name none = (r, err unknown_cell)
pin r org_id cell_name (some c) =
    (record r { cells = put r.cells cell_name (record c { orgs = put c.orgs org_id tt }) }, ok tt)

unfoldable pub assign : Registry → String → String → Registry × Outcome Error (Unit {0})
assign r org_id cell_name = pin r org_id cell_name (get r.cells cell_name)

abbrev pub is_pinned : Cell → String → Bool
is_pinned c org_id = is_some (get c.orgs org_id)

abbrev or_no_cell : Option Cell → Outcome Error Cell
or_no_cell none = err no_cell
or_no_cell (some c) = ok c

-- `c.Default && fallback == nil`
abbrev pub fall_back : Cell → Option Cell → Option Cell
fall_back c none = if c.is_default then some c else none
fall_back c (some f) = some f

-- the loop of `RouteForOrg` over the names, in the order of registration
unfoldable pub route_from : Map Cell → List String → String → Option Cell → Outcome Error Cell
route_from cells [] org_id fallback = or_no_cell fallback
route_from cells (name ∷ names) org_id fallback = elim (get cells name) [
  | none ↦ err nil_cell
  | some c ↦
      let rest = route_from cells names org_id (fall_back c fallback) in
      if is_pinned c org_id then ok c else rest
]

unfoldable pub route_for_org : Registry → String → Outcome Error Cell
route_for_org r org_id = route_from r.cells r.names org_id none

abbrev pub target_of : Cell → Target
target_of c = record {
  cell_name = c.name;
  cloud = c.cloud;
  endpoint = c.endpoint;
  region = c.region;
}

unfoldable pub target_for_org : Registry → String → Outcome Error Target
target_for_org r org_id = do c ← route_for_org r org_id; ok (target_of c)

abbrev add_name : Map (List String) → String → Option Cell → Outcome Error (Map (List String))
add_name out name none = err nil_cell
add_name out name (some c) = ok (put out c.cloud (get_or out c.cloud [] ++ name ∷ []))

-- the loop of `FleetByCloud` over the names
unfoldable pub fleet_from :
    Map Cell → List String → Map (List String) → Outcome Error (Map (List String))
unfolding get put
fleet_from cells [] out = ok out
fleet_from cells (name ∷ names) out = elim (add_name out name (get cells name)) [
  | ok o ↦ fleet_from cells names o
  | err e ↦ err e
]

abbrev pub sort_values : Map (List String) → Map (List String)
sort_values out = map (λ (cloud, names). (cloud, sort names)) out

unfoldable pub fleet_by_cloud : Registry → Outcome Error (Map (List String))
unfolding fleet_from sort
fleet_by_cloud r = do out ← fleet_from r.cells r.names []; ok (sort_values out)

-- the loop of `AffectedApps`: the apps homed on the failed cell, in the order of the range
unfoldable pub homed_on : String → Map String → List String
homed_on failed_cell [] = []
homed_on failed_cell ((app, cell) ∷ app_to_cell) =
    let rest = homed_on failed_cell app_to_cell in if cell == failed_cell then app ∷ rest else rest

unfoldable pub affected_apps : Map String → String → List String
unfolding homed_on sort
affected_apps app_to_cell failed_cell = sort (homed_on failed_cell app_to_cell)

unfoldable pub assigned_orgs : Cell → List String
unfolding sort
assigned_orgs c = sort (keys c.orgs)
