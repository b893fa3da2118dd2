-- ===== src/Apps/Tests.antt =====
-- The theorems on the apps, plans and quotas at concrete apps.
pub mod Requests
pub mod Bindings
use tenara.Prelude.{
  ℕ, zero, suc, ◌+◌, ◌-◌, ◌*◌, ◌/◌, ◌%◌, ◌^◌, ◌≤◌, ◌<◌, String, ◌≡◌, refl, sym, ap, ◌∙◌, subst, ◌≢◌,
  ◌↔◌, ◌⊎◌, inl, inr, Bool, true, false, not, ◌&&◌, ◌||◌, Option, none, some, List, [], ◌∷◌, ◌++◌,
  map, arith, ltb, leb, nat_eq, if◌then◌else◌, ltb→lt, ltb→ge, leb→le, leb→gt, nat_eq_iff, Eq, ◌==◌,
  nat_Eq, string_Eq, text_iff, text_refl, text_ne, Bool-cases, Option-cases, text-cases, is_some,
  length, any, all, length-append, Member, here, there, All, All-Member, Map, get, remove, put,
  keys, get-remove, get-put, map_laws, all-get, get_or, get-put_self, get-put_ne, Outcome, ok, err,
  ◌>>=◌, ◌>>◌, require, refuse, >>=-eq-ok, is_ok, is_ok-then, ok-injective, all-Member, all-append,
  is_nonempty, is_nonempty-append, tests, ℤ, pos, negsuc, lt_ℤ, int_Eq, int_iff, All-of_all,
  all-of_All, any_Member, any-false,
}
use tenara.Prelude.{
  then-ok, else-ok, find, select, count_where, update_where, find-holds, select-update_where_other,
  count_where-update_where_le, find-update_where,
}
use tenara.Bytes.{Bytes, codes, same, is_blank, is_space, trim_space}
use tenara.Orchestrator.Deploy.{State, Time, planned}
use tenara.Apps.{
  Organization, Application, ServiceRow, Environment, Deployment, RevisionRow, SavedRevision,
  AuditRow, DomainRow, SavedDomain, DatabaseRow, BindingRow, SavedDatabase, SavedBinding, Db,
  Conflict, Error, Result, App, AppWithSpec, not_found, plan_expired, not_enough_revisions,
  storage_error, quota_exceeded, conflict, invalid_digest, unsupported_kind, blank_name, name_used,
  creation_race, service_exists, bad_environment, environment_exists, corrupt_snapshot,
  plan_already, hostname_bound, not_verified, no_challenge, view, is_none, lives_in, is_app,
  found_app, get_app_at, get_app, get_app_with_spec, list_apps, newest_first, insert_newest,
  org_tier, tier_or_free, free_tier_max_apps, pro_tier_max_apps, max_apps_of, or_empty, for_app,
}
use tenara.AppSpec.Spec.{Spec, ServiceDef, validate, parse}
use tenara.Orchestrator.Plan.{Plan}
use tenara.Apps.Handlers.{
  Body, plan_body, deployment_body, Response, json, problem, status_only, Served,
}
use tenara.Apps.Planning.{handle_get_plan, plan_ttl}
use tenara.Apps.Plans.{NewIds}
use tenara.Apps.Deploying.{DeployInput, handle_deploy}
use tenara.Apps.PlanToDeploy.{IsDeployed, planned_deploys}
use tenara.Apps.Slug.{slugify}
use tenara.Apps.Create.{create_app, live_count}
use tenara.Apps.Plans.{awaiting, approve_plan, check_plan, record_approval}
use tenara.Apps.Creation.{
  create_ok_iff, get_app-create_app, is_good_name, has_room, organization_of, name_held,
  deleted_name_blocks,
}
use tenara.Apps.History.{
  Op, create_op, rename_op, delete_op, approve_op, rollback_op, database_op, spec_op, analysis_op,
  verify_op, Request, World, run,
}
use tenara.Apps.History.Seen.{run_isolated}
use tenara.Apps.History.Quota.{run_within_quota}
use tenara.Apps.Approval.{record_all, approve_once}
use tenara.Apps.Refusals.{refusal_changes_nothing}
use tenara.Apps.Refusals
use tenara.Apps.Releases.{RevisionInput, rollback_latest, revisions_of, input_of, save_revision}
use tenara.Apps.Releases.Restored.{rollback_undone}
use tenara.Apps.Domains.{require_verified_domain, Resolver}
use tenara.Apps.Domains.Challenge
use tenara.Apps.Databases.{request_database}
use tenara.Apps.Databases
use tenara.Apps.Databases.Merged.{Merged, request_database_merges}
use tenara.Apps.Deploying.{apply_bridge, AppEnvInput, env_of}
use tenara.Apps.Bindings.{EnvInput, handle_put_env, handle_reveal_secret}
use tenara.Apps.Bindings.Revealed.{put_then_revealed}
use tenara.Apps.Handlers.{value_body}
use tenara.Kms.{Aead}
use tenara.Secrets.{Store}

-- every text is an id
abbrev pub any_id : String → Option String
any_id s = some s

abbrev pub shop : Application
shop = record {
  id = "a1-b2";
  org_id = "o1";
  name = codes "Shop";
  slug = codes "shop";
  created_by = none;
  deleted_at = none;
  created_at = 5;
  current_spec = some (codes "{}");
}

abbrev pub shops : Db
shops = record {
  organizations = record { id = "o1"; tier = "free" } ∷ record { id = "o2"; tier = "pro" } ∷ [];
  applications = shop ∷ [];
  services = [];
  environments = [];
  deployments = [];
  revisions = [];
  domains = [];
  databases = [];
  database_bindings = [];
  audit_logs = [];
}

abbrev pub web : Spec
web = record {
  services =
      (
        "web",
        record {
          type = "frontend";
          runtime = "node";
          path = "apps/web";
          schedule = "";
          port = pos 3000;
        },
      )
      ∷ [];
  routing = [];
  database = none;
  version = "v1";
}

abbrev pub to_web : Bytes → Option Spec
to_web doc = some web

-- a snapshot that holds the expiry alone
abbrev pub write_expiry : Plan → Option Bytes
write_expiry p = some (p.expires_at ∷ [])

abbrev pub read_expiry : Bytes → Option Time
read_expiry [] = none
read_expiry (t ∷ s) = some t

expiry_agrees : (q : Plan) (s : Bytes) → write_expiry q ≡ some s → read_expiry s ≡ some q.expires_at
expiry_agrees q s h = let e : ◌≡◌ {A = Bytes} (q.expires_at ∷ []) s = cc in ap read_expiry (sym e)

abbrev pub new_ids : NewIds
new_ids = record { environment = "e1"; deployment = "d1"; plan = "p1" }

abbrev planned_shop : Served
planned_shop =
    handle_get_plan any_id to_web write_expiry "example.com" shops (some ("u1", "o1")) "a1-b2" 7
      new_ids

abbrev plan_in : Response → Plan
plan_in (json s (plan_body p)) = p
plan_in r = record {
  services = [];
  expires_at = 0;
  namespace_name = "";
  database_name = "";
  domain = "";
  plan_id = "";
}

abbrev image_input : DeployInput
image_input = record { plan_id = "p1"; image = codes "registry/shop:1"; git_url = ""; git_sha = "" }

planned_deploys_example : IsDeployed "o1" "a1-b2" "p1" "d1" (
    handle_deploy any_id read_expiry true planned_shop.0
      (some ("u2", "o1"))
      "a1-b2"
      9
      (some image_input))
unfolding handle_get_plan validate
planned_deploys_example =
    planned_deploys any_id to_web write_expiry read_expiry "example.com" true shops "u1" "u2" "o1"
      "a1-b2" "a1-b2" 7 9 new_ids image_input {p = plan_in planned_shop.1} expiry_agrees refl refl
      refl refl refl (omega arith)

create_ok_iff_example : is_ok (create_app shops "o1" (codes "Blog") "u1" "a3" 8).1 ≡ (
    is_good_name (codes "Blog")
    && has_room shops "o1" (organization_of shops "o1")
    && not (name_held shops "o1" (codes "Blog")))
create_ok_iff_example = create_ok_iff shops "o1" (codes "Blog") "u1" "a3" 8

abbrev with_blog : Result App
with_blog = create_app shops "o1" (codes "Blog") "u1" "a3" 8

get_app-create_app_example :
    (get_app any_id with_blog.0 "o1" "a3"
      ≡ ok (record { id = "a3"; name = codes "Blog"; slug = codes "blog"; created_at = 8 }))
    × (codes "blog" ≡ slugify (codes "Blog"))
    × (get_app any_id with_blog.0 "o2" "a3" ≡ get_app any_id shops "o2" "a3")
unfolding create_app same
get_app-create_app_example =
    get_app-create_app any_id shops "o1" "o2" (codes "Blog") "u1" "a3" 8 refl refl refl

-- the statements of other organizations
abbrev world : World
world = record {
  uuid = any_id;
  jsonb = λ raw. some raw;
  expires_of = read_expiry;
  id_lt = λ a b. false;
}

abbrev others : List Request
others =
    record { org = "o2"; now = 8; op = create_op (codes "Blog") "u9" "a9" }
    ∷ record { org = "o2"; now = 9; op = rename_op "a1-b2" (codes "Mine") }
    ∷ record { org = "o2"; now = 9; op = delete_op "a1-b2" }
    ∷ record { org = "o2"; now = 9; op = rollback_op "a9" }
    ∷ record { org = "o2"; now = 9; op = analysis_op "a1-b2" (codes "{}") }
    ∷ record { org = "o2"; now = 9; op = verify_op "a1-b2" "dom1" (λ name. none) }
    ∷ []

run_isolated_example :
    (get_app any_id (run world shops others) "o1" "a1-b2" ≡ get_app any_id shops "o1" "a1-b2")
    × (get_app_with_spec any_id (run world shops others) "o1" "a1-b2"
        ≡ get_app_with_spec any_id shops "o1" "a1-b2")
    × (list_apps (run world shops others) "o1" ≡ list_apps shops "o1")
run_isolated_example = run_isolated world shops others "o1" "a1-b2" refl

-- a fourth app of a free organization
abbrev many : List Request
many =
    record { org = "o1"; now = 8; op = create_op (codes "A") "u1" "a3" }
    ∷ record { org = "o1"; now = 8; op = create_op (codes "B") "u1" "a4" }
    ∷ record { org = "o1"; now = 8; op = create_op (codes "C") "u1" "a5" }
    ∷ record { org = "o1"; now = 9; op = spec_op "a3" (codes "{}") }
    ∷ []

run_within_quota_example : live_count (run world shops many) "o1" ≤ 3
unfolding find count_where
run_within_quota_example =
    run_within_quota world shops many "o1" (record { id = "o1"; tier = "free" }) refl (omega arith)

-- the plan awaits its approval
abbrev pub with_plan : Db
with_plan = record shops { deployments = awaiting "a1-b2" "e1" (20 ∷ []) "d1" "p1" ∷ [] }

-- the UPDATE of another approval comes between, and its own comes again
approve_once_example :
    is_ok
      (approve_plan any_id read_expiry
        (record_all (record_approval (record_all with_plan ("d7" ∷ [])) "d1") ("d1" ∷ []))
        "o1"
        "a1-b2"
        "p1"
        11).1
    ≡ false
unfolding check_plan
approve_once_example =
    approve_once any_id read_expiry with_plan "o1" "a1-b2" "p1" "d1" 10 11 ("d7" ∷ []) ("d1" ∷ [])
      refl
