-- ===== src/SecurityEvent.antt =====
-- control-plane/internal/securityevent/event.go: the catalog of the events and their validation.
use tenara.Prelude.{
  String, not, ◌&&◌, Option, [], ◌∷◌, ◌==◌, nat_Eq, string_Eq, is_some, Map, get, Outcome, ◌>>◌,
  require, refuse, int_Eq,
}
use tenara.Orchestrator.Deploy.{Time}

abbrev Severity : Type 0
Severity = String

abbrev severity_info : Severity
severity_info = "info"

abbrev severity_warn : Severity
severity_warn = "warn"

abbrev severity_critical : Severity
severity_critical = "critical"

abbrev code_login_failed : String
code_login_failed = "auth.login.failed"

abbrev code_user_suspended : String
code_user_suspended = "user.suspended"

abbrev code_build_concurrency_denied : String
code_build_concurrency_denied = "build.concurrency.denied"

abbrev code_rate_limit_rejected : String
code_rate_limit_rejected = "rate.limit.rejected"

abbrev code_netpol_denied : String
code_netpol_denied = "netpol.denied"

abbrev pub catalog : Map Severity
catalog =
    (code_login_failed, severity_warn)
    ∷ (code_user_suspended, severity_warn)
    ∷ (code_build_concurrency_denied, severity_info)
    ∷ (code_rate_limit_rejected, severity_info)
    ∷ (code_netpol_denied, severity_warn)
    ∷ []

-- `at` is `none` for Go's zero time.
pub record Event : Type 0 where
  pub event_code : String
  pub severity : Severity
  pub actor_type : String
  pub actor_id : String
  pub org_id : String
  pub app_id : String
  pub detail : String
  pub at : Option Time

pub data Error : Type 0 where
  unknown_code : String → Error
  timestamp_required : Error
  invalid_actor_type : String → Error

-- `Validate`: the severity that it sets is that of its own copy of the event
unfoldable pub validate : Event → Outcome Error (Unit {0})
unfolding get
validate e = do
  require (is_some (get catalog e.event_code)) (unknown_code e.event_code)
  require (is_some e.at) timestamp_required
  refuse (not (e.actor_type == "user") && not (e.actor_type == "controller"))
      (invalid_actor_type e.actor_type)
