-- ===== src/AppSpec/Tests.antt =====
-- The validation at concrete documents and schedules.
use tenara.Prelude.{◌≡◌, refl, true, false, Option, none, some, [], ◌∷◌, pos, is_ok, get, string_Eq}
use tenara.Bytes.{Bytes, codes, is_blank, trim_space, trim_left, trim_right}
use tenara.AppSpec.Cron.{validate_schedule}
use tenara.AppSpec.Cron.Print.{Part, every, every_nth, between, value, Field, Schedule, print, fits}
use tenara.AppSpec.Cron.Accepts.{validate_printed}
use tenara.AppSpec.Spec.{
  ServiceDef, RouteTarget, Spec, is_http_type, validate, parse, check_services, check_service,
  check_routing,
}
use tenara.AppSpec.Spec.Accepts.{routes_lead}

abbrev one : Part → Field
one p = record { first = p; others = [] }

-- "*/15 9-17 * * 1,5"
abbrev office_hours : Schedule
office_hours = record {
  minutes = one (every_nth 15);
  hours = one (between 9 17);
  days = one every;
  months = one every;
  weekdays = record { first = value 1; others = value 5 ∷ [] };
}

validate_printed_example : is_ok (validate_schedule (print office_hours)) ≡ fits office_hours
validate_printed_example = validate_printed office_hours refl

abbrev web_service : ServiceDef
web_service = record {
  type = "frontend";
  runtime = "node";
  path = "web";
  schedule = "";
  port = pos 3000;
}

abbrev web_route : RouteTarget
web_route = record { service = "web" }

abbrev web_spec : Spec
web_spec = record {
  services = ("web", web_service) ∷ [];
  routing = ("/", web_route) ∷ [];
  database = none;
  version = "v1";
}

-- a decoder that knows one document
abbrev decoder : Bytes → Option Spec
decoder b = some web_spec

routes_lead_example :
    (svc : ServiceDef) × (get web_spec.services "web" ≡ some svc)
    × (is_http_type svc.type ≡ true)
    × (is_blank (codes svc.path) ≡ false)
unfolding parse trim_space trim_left trim_right is_blank validate check_services check_service
    check_routing get
routes_lead_example = routes_lead decoder (codes "{...}") web_spec "/" web_route refl refl
