-- ===== src/Apps/Domains/Challenge.antt =====
-- The calls of the domains of control-plane/internal/apps/domains.go as the steps of a history.
use tenara.Prelude.{String, Option, List, [], ◌∷◌, nat_Eq, string_Eq, int_Eq}
use tenara.Bytes.{Bytes}
use tenara.Orchestrator.Deploy.{Time}
use tenara.Apps.{Db}
use tenara.Apps.Domains.{allocate_default_domain, add_custom_domain, Resolver, verify_custom_domain}

-- the calls of a history, with the resolver that a verification asks
pub data Call : Type 0 where
  default_call : String → Bytes → Bytes → String → Call
  custom_call : String → Bytes → Option String → String → Call
  verify_call : String → String → Resolver → Call

unfoldable pub perform : (String → Option String) → Db → Time → Call → Db
unfolding allocate_default_domain add_custom_domain verify_custom_domain
perform uuid db now (default_call app slug base id) =
    (allocate_default_domain db app slug base id now).0
perform uuid db now (custom_call app host token id) = (add_custom_domain db app host token id now).0
perform uuid db now (verify_call app domain resolver) =
    (verify_custom_domain uuid resolver db app domain).0

unfoldable pub run : (String → Option String) → Db → List (Time × Call) → Db
unfolding perform
run uuid db [] = db
run uuid db ((now, c) ∷ cs) = run uuid (perform uuid db now c) cs
