-- ===== src/Drift/Tests.antt =====
-- A hardened container without drift.
use tenara.Prelude.{◌≡◌, refl, true, false, some, [], ◌∷◌, string_Eq}
use tenara.Drift.{
  SecurityContext, eq_bool, same_drops, caps_drop_equal, seccomp_equal, drifted_fields,
  security_drift, no_drift_hardened,
}

abbrev hardened : SecurityContext
hardened = record {
  run_as_non_root = some true;
  allow_privilege_escalation = some false;
  read_only_root_filesystem = some true;
  capabilities_drop = some ("ALL" ∷ []);
  seccomp_type = some "RuntimeDefault";
}

no_drift_hardened_example : hardened ≡ hardened
unfolding security_drift drifted_fields eq_bool caps_drop_equal same_drops seccomp_equal
no_drift_hardened_example = no_drift_hardened hardened hardened refl
