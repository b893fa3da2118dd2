-- ===== src/Drift.antt =====
-- controllers/internal/appenv/drift.go: what of the live state of an app differs from its rendered
-- spec.
pub mod Tests
use tenara.Prelude.{
  ℕ, zero, suc, ◌+◌, ◌-◌, ◌*◌, ◌/◌, ◌%◌, ◌^◌, ◌≤◌, ◌<◌, String, ◌≡◌, refl, sym, ap, ◌∙◌, subst, ◌≢◌,
  ◌↔◌, ◌⊎◌, inl, inr, Bool, true, false, not, ◌&&◌, ◌||◌, Option, none, some, List, [], ◌∷◌, ◌++◌,
  map, arith, ltb, leb, nat_eq, if◌then◌else◌, ltb→lt, ltb→ge, leb→le, leb→gt, nat_eq_iff, Eq, ◌==◌,
  nat_Eq, string_Eq, text_iff, text_refl, text_ne, Bool-cases, Option-cases, text-cases, is_some,
  length, any, all, length-append, Member, here, there, All, All-Member, Map, get, remove, put,
  keys, get-remove, get-put, map_laws, all-get, get_or, get-put_self, get-put_ne, Outcome, ok, err,
  ◌>>=◌, ◌>>◌, require, refuse, >>=-eq-ok, is_ok, is_ok-then, ok-injective, all-Member, all-append,
  is_nonempty, is_nonempty-append, tests, ℤ, pos, negsuc, lt_ℤ, int_Eq, int_iff, All-of_all,
  all-of_All, any_Member, any-false,
}
use tenara.Orchestrator.Deploy.{Time}

pub record DriftAction : Type 0 where
  pub name : String
  pub kind : String
  pub field : String
  pub desired : String

pub record DriftReport : Type 0 where
  pub audited_at : Time
  pub actions : List DriftAction
  pub app_id : String
  pub namespace : String
  pub actor_type : String

-- over the label of the managing tool and its value
unfoldable owned_by_us : String → String → Map String → Bool
owned_by_us label value labels = get_or labels label "" == value

unfoldable detect_replica_drift : ℤ → ℤ → Bool × ℤ
detect_replica_drift desired live =
    if not (live == desired) then (true, desired) else (false, desired)

-- The fields of a container's security context that are compared; `none` is nil.
pub record SecurityContext : Type 0 where
  pub run_as_non_root : Option Bool
  pub allow_privilege_escalation : Option Bool
  pub read_only_root_filesystem : Option Bool
  pub capabilities_drop : Option (List String)
  pub seccomp_type : Option String

abbrev same_bool : Bool → Bool → Bool
same_bool true b = b
same_bool false b = not b

unfoldable pub eq_bool : Option Bool → Option Bool → Bool
eq_bool none none = true
eq_bool none (some b) = false
eq_bool (some a) none = false
eq_bool (some a) (some b) = same_bool a b

unfoldable pub same_drops : List String → List String → Bool
same_drops [] [] = true
same_drops [] (l ∷ ls) = false
same_drops (d ∷ ds) [] = false
same_drops (d ∷ ds) (l ∷ ls) = d == l && same_drops ds ls

unfoldable pub caps_drop_equal : Option (List String) → Option (List String) → Bool
unfolding same_drops
caps_drop_equal none none = true
caps_drop_equal none (some l) = false
caps_drop_equal (some d) none = false
caps_drop_equal (some d) (some l) = same_drops d l

unfoldable pub seccomp_equal : Option String → Option String → Bool
seccomp_equal none none = true
seccomp_equal none (some l) = false
seccomp_equal (some d) none = false
seccomp_equal (some d) (some l) = d == l

abbrev add : String → Bool → List String → List String
add field equal drifted = if not equal then field ∷ drifted else drifted

-- the fields that differ, in the order of the checks
unfoldable pub drifted_fields : SecurityContext → SecurityContext → List String
unfolding eq_bool caps_drop_equal seccomp_equal
drifted_fields desired live =
    add "runAsNonRoot" (eq_bool desired.run_as_non_root live.run_as_non_root) (
      add "allowPrivilegeEscalation"
        (eq_bool desired.allow_privilege_escalation live.allow_privilege_escalation)
        (add "readOnlyRootFilesystem"
          (eq_bool desired.read_only_root_filesystem live.read_only_root_filesystem)
          (add "capabilities.drop"
            (caps_drop_equal desired.capabilities_drop live.capabilities_drop)
            (add "seccompProfile" (seccomp_equal desired.seccomp_type live.seccomp_type) []))))

unfoldable pub security_drift : Option SecurityContext → Option SecurityContext → List String
unfolding drifted_fields
security_drift none live = "securityContext" ∷ []
security_drift (some d) none = "securityContext" ∷ []
security_drift (some d) (some l) = drifted_fields d l

unfoldable missing_net_pols : List String → Map Bool → List String
unfolding get
missing_net_pols [] live_names = []
missing_net_pols (name ∷ expected) live_names =
    let rest = missing_net_pols expected live_names in
    if not (get_or live_names name false) then name ∷ rest else rest

unfoldable report_drift : String → String → List DriftAction → Time → DriftReport
report_drift app_id namespace actions at = record {
  audited_at = at;
  actions = actions;
  app_id = app_id;
  namespace = namespace;
  actor_type = "controller";
}

same_bool_iff : (a b : Bool) → (same_bool a b ≡ true) ↔ (a ≡ b)
same_bool_iff true true = (λ h. refl, λ h. refl)
same_bool_iff true false = (λ h. cc, λ h. cc)
same_bool_iff false true = (λ h. cc, λ h. cc)
same_bool_iff false false = (λ h. refl, λ h. refl)

eq_bool_lem : (a b : Option Bool) → eq_bool a b ≡ true → a ≡ b
unfolding eq_bool
eq_bool_lem none none h = refl
eq_bool_lem none (some b) h = cc
eq_bool_lem (some a) none h = cc
eq_bool_lem (some a) (some b) h = ap some ((same_bool_iff a b).0 h)

same_drops_lem : (d l : List String) → same_drops d l ≡ true → d ≡ l
unfolding same_drops
same_drops_lem [] [] h = refl
same_drops_lem [] (x ∷ l) h = cc
same_drops_lem (x ∷ d) [] h = cc
same_drops_lem (x ∷ d) (y ∷ l) h =
    let e : x ≡ y = ground (arith, text_iff x y) in
    let r : d ≡ l = same_drops_lem d l (ground arith) in cc

caps_lem : (d l : Option (List String)) → caps_drop_equal d l ≡ true → d ≡ l
unfolding caps_drop_equal
caps_lem none none h = refl
caps_lem none (some l) h = cc
caps_lem (some d) none h = cc
caps_lem (some d) (some l) h = ap some (same_drops_lem d l h)

seccomp_lem : (d l : Option String) → seccomp_equal d l ≡ true → d ≡ l
unfolding seccomp_equal
seccomp_lem none none h = refl
seccomp_lem none (some l) h = cc
seccomp_lem (some d) none h = cc
seccomp_lem (some d) (some l) h = ap some ((text_iff d l).0 h)

none_drifted :
    (a b c d e : Bool) (na nb nc nd ne : String)
    → add na a (add nb b (add nc c (add nd d (add ne e [])))) ≡ []
    → (a ≡ true) × (b ≡ true) × (c ≡ true) × (d ≡ true) × (e ≡ true)
none_drifted true true true true true na nb nc nd ne h = (refl, refl, refl, refl, refl)
none_drifted false b c d e na nb nc nd ne h = cc
none_drifted true false c d e na nb nc nd ne h = cc
none_drifted true true false d e na nb nc nd ne h = cc
none_drifted true true true false e na nb nc nd ne h = cc
none_drifted true true true true false na nb nc nd ne h = cc

context_eq :
    (d l : SecurityContext)
    → d.run_as_non_root ≡ l.run_as_non_root
    → d.allow_privilege_escalation ≡ l.allow_privilege_escalation
    → d.read_only_root_filesystem ≡ l.read_only_root_filesystem
    → d.capabilities_drop ≡ l.capabilities_drop
    → d.seccomp_type ≡ l.seccomp_type
    → d ≡ l
context_eq d l a b c e f = cc

-- A container in whose security context no drift is found has exactly the hardened fields that were
-- rendered.
pub no_drift_hardened :
    (desired live : SecurityContext)
    → security_drift (some desired) (some live) ≡ []
    → desired ≡ live
unfolding security_drift
no_drift_hardened desired live h =
    let (a, b, c, d, e) =
      none_drifted (eq_bool desired.run_as_non_root live.run_as_non_root)
        (eq_bool desired.allow_privilege_escalation live.allow_privilege_escalation)
        (eq_bool desired.read_only_root_filesystem live.read_only_root_filesystem)
        (caps_drop_equal desired.capabilities_drop live.capabilities_drop)
        (seccomp_equal desired.seccomp_type live.seccomp_type) _ _ _ _ _ h in
    context_eq desired live (eq_bool_lem _ _ a) (eq_bool_lem _ _ b) (eq_bool_lem _ _ c)
      (caps_lem _ _ d) (seccomp_lem _ _ e)
