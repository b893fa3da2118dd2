-- ===== src/Verifier/Tests.antt =====
-- A verification and a diagnosis at concrete inputs.
use tenara.Prelude.{String, ◌≡◌, none, List, [], ◌∷◌, ℤ, pos, string_Eq}
use tenara.Bytes.{codes}
use tenara.Verifier.Report.{StepResult, status_pass, status_fail}
use tenara.Verifier.Diagnose.{Bundle, class_of, hint_of, rules, classify}
use tenara.Verifier.Diagnose.Sources.{verdict, classify_by_sources}

abbrev result : ℤ × String → StepResult
result (id, name) = record {
  name = name;
  status = status_pass;
  detail = "";
  id = id;
  duration_ms = pos 5;
}

abbrev crash : Bundle
crash = record {
  generated_at = 7;
  verify_report = none;
  build_log_tail = codes "done";
  pod_events = codes "Back-off: CrashLoopBackOff";
  container_logs = codes "panic: DATABASE_URL is not set";
  app_id = "blog";
}

classify_by_sources_example :
    ((classify crash).classified ≡ class_of (verdict crash rules))
    × ((classify crash).hint ≡ hint_of (verdict crash rules))
classify_by_sources_example = classify_by_sources crash

abbrev two_steps : List StepResult
two_steps =
    result (pos 1, "deployment available")
    ∷ record {
      name = "dns resolves slug";
      status = status_fail;
      detail = "";
      id = pos 3;
      duration_ms = pos 9;
    }
    ∷ []
