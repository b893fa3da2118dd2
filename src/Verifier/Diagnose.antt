-- ===== src/Verifier/Diagnose.antt =====
-- verifier/internal/diagnose/diagnose.go: the classification of a failed deploy.
pub mod Sources
use tenara.Prelude.{
  ℕ, zero, suc, ◌+◌, ◌-◌, ◌*◌, ◌/◌, ◌%◌, ◌^◌, ◌≤◌, ◌<◌, String, ◌≡◌, refl, sym, ap, ◌∙◌, subst, ◌≢◌,
  ◌↔◌, ◌⊎◌, inl, inr, Bool, true, false, not, ◌&&◌, ◌||◌, Option, none, some, List, [], ◌∷◌, ◌++◌,
  map, arith, ltb, leb, nat_eq, if◌then◌else◌, ltb→lt, ltb→ge, leb→le, leb→gt, nat_eq_iff, Eq, ◌==◌,
  nat_Eq, string_Eq, text_iff, text_refl, text_ne, Bool-cases, Option-cases, text-cases, is_some,
  length, any, all, length-append, Member, here, there, All, All-Member, Map, get, remove, put,
  keys, get-remove, get-put, map_laws, all-get, get_or, get-put_self, get-put_ne, Outcome, ok, err,
  ◌>>=◌, ◌>>◌, require, refuse, >>=-eq-ok, is_ok, is_ok-then, ok-injective, all-Member, all-append,
  is_nonempty, is_nonempty-append, tests, ℤ, pos, negsuc, lt_ℤ, int_Eq, int_iff, All-of_all,
  all-of_All, any_Member, any-false,
}
use tenara.Bytes.{Bytes, codes, has_prefix, contains}
use tenara.Orchestrator.Deploy.{Time}
use tenara.Verifier.Report.{
  StepResult, Report, status_fail, outcome_of, outcome_running, outcome_degraded, aggregate,
}

abbrev class_missing_env_database_url : String
class_missing_env_database_url = "MISSING_ENV_DATABASE_URL"

abbrev class_crash_loop_back_off : String
class_crash_loop_back_off = "CRASH_LOOP_BACK_OFF"

abbrev class_oom_killed : String
class_oom_killed = "OOM_KILLED"

abbrev class_image_pull_back_off : String
class_image_pull_back_off = "IMAGE_PULL_BACK_OFF"

abbrev class_upstream_502 : String
class_upstream_502 = "UPSTREAM_502"

abbrev class_unclassified : String
class_unclassified = "UNCLASSIFIED"

pub record Bundle : Type 0 where
  pub generated_at : Time
  pub verify_report : Option Report
  pub build_log_tail : Bytes
  pub pod_events : Bytes
  pub container_logs : Bytes
  pub app_id : String

pub record Diagnosis : Type 0 where
  pub generated_at : Time
  pub failed_steps : List ℤ
  pub app_id : String
  pub classified : String
  pub hint : String

pub record PatternRule : Type 0 where
  pub class : String
  pub hint : String
  pub keywords : List Bytes

abbrev pub rules : List PatternRule
rules =
    record {
      class = class_missing_env_database_url;
      hint = "bind a mongo database so DATABASE_URL can be injected";
      keywords = codes "DATABASE_URL" ∷ [];
    }
    ∷ record {
      class = class_crash_loop_back_off;
      hint = "inspect container logs for a repeated startup crash";
      keywords = codes "CrashLoopBackOff" ∷ [];
    }
    ∷ record {
      class = class_oom_killed;
      hint = "trim memory usage or raise the plan quota";
      keywords = codes "OOMKilled" ∷ codes "out of memory" ∷ [];
    }
    ∷ record {
      class = class_image_pull_back_off;
      hint = "check the image digest exists in the registry";
      keywords = codes "ImagePullBackOff" ∷ codes "ErrImagePull" ∷ [];
    }
    ∷ record {
      class = class_upstream_502;
      hint = "backend is not answering on its declared port";
      keywords = codes "502 Bad Gateway" ∷ [];
    }
    ∷ []

-- the loop over the steps of the report
unfoldable pub failed_of : List StepResult → List ℤ
failed_of [] = []
failed_of (s ∷ steps) =
    let rest = failed_of steps in if s.status == status_fail then s.id ∷ rest else rest

abbrev failed_steps_of : Option Report → List ℤ
failed_steps_of none = []
failed_steps_of (some r) = failed_of r.steps

-- the two loops over the rules and their keywords: the first rule with a keyword in the haystack
unfoldable pub first_match : Bytes → List PatternRule → Option PatternRule
unfolding contains
first_match haystack [] = none
first_match haystack (rule ∷ rest) =
    let later = first_match haystack rest in
    if any (λ kw. contains haystack kw) rule.keywords then some rule else later

abbrev pub newline : ℕ
newline = 10

-- strings.Join of the three sources with "\n"
unfoldable pub haystack_of : Bundle → Bytes
haystack_of b = b.build_log_tail ++ newline ∷ (b.pod_events ++ newline ∷ b.container_logs)

abbrev pub class_of : Option PatternRule → String
class_of none = class_unclassified
class_of (some rule) = rule.class

abbrev pub hint_of : Option PatternRule → String
hint_of none = ""
hint_of (some rule) = rule.hint

unfoldable pub classify : Bundle → Diagnosis
unfolding first_match haystack_of
classify b =
    let match = first_match (haystack_of b) rules in
    record {
      generated_at = b.generated_at;
      failed_steps = failed_steps_of b.verify_report;
      app_id = b.app_id;
      classified = class_of match;
      hint = hint_of match;
    }
