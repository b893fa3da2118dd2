-- ===== src/Verifier/Diagnose/Sources.antt =====
-- Where the cause of a diagnosis is found, and what it says of the verification report.
use tenara.Prelude.{
  String, ◌≡◌, refl, ap, Bool, true, false, not, ◌||◌, Option, none, some, List, [], ◌∷◌, ◌++◌,
  arith, if◌then◌else◌, ◌==◌, nat_Eq, string_Eq, any, all, is_nonempty, ℤ, int_Eq,
}
use tenara.Bytes.{Bytes, has_prefix, contains}
use tenara.Orchestrator.Deploy.{Time}
use tenara.Verifier.Report.{StepResult, status_fail, outcome_of, outcome_degraded, aggregate}
use tenara.Verifier.Diagnose.{
  Bundle, PatternRule, rules, failed_of, first_match, newline, haystack_of, class_of, hint_of,
  classify,
}

-- a text of one line
abbrev one_line : Bytes → Bool
one_line kw = all (λ c. not (c == newline)) kw

-- A prefix of one line lies within the first line.
has_prefix-line :
    (kw a b : Bytes) → one_line kw ≡ true → has_prefix kw (a ++ newline ∷ b) ≡ has_prefix kw a
unfolding has_prefix
has_prefix-line [] a b h = refl
has_prefix-line (k ∷ kw) [] b h = ground arith
has_prefix-line (k ∷ kw) (c ∷ a) b h = ground (arith, has_prefix-line kw a b)

contains-line :
    (kw a b : Bytes)
    → one_line kw ≡ true
    → contains (a ++ newline ∷ b) kw ≡ (contains a kw || contains b kw)
unfolding contains
contains-line kw [] b h = ground (arith, has_prefix-line kw [] b h)
contains-line kw (c ∷ a) b h =
    ground (arith, has_prefix-line kw (c ∷ a) b h, contains-line kw a b h)

-- the keyword is in one of the three sources
in_sources : Bundle → Bytes → Bool
in_sources b kw =
    contains b.build_log_tail kw || contains b.pod_events kw || contains b.container_logs kw

haystack-sources :
    (b : Bundle) (kw : Bytes) → one_line kw ≡ true → contains (haystack_of b) kw ≡ in_sources b kw
unfolding haystack_of in_sources
haystack-sources b kw h = ground (
  arith,
  contains-line kw b.build_log_tail (b.pod_events ++ newline ∷ b.container_logs) h,
  contains-line kw b.pod_events b.container_logs h,
)

any-sources :
    (b : Bundle) (keywords : List Bytes)
    → all one_line keywords ≡ true
    → any (λ kw. contains (haystack_of b) kw) keywords ≡ any (in_sources b) keywords
any-sources b [] h = refl
any-sources b (kw ∷ keywords) h = ground (arith, haystack-sources b kw, any-sources b keywords)

-- The first rule that has a keyword in the bundle's own sources.
pub verdict : Bundle → List PatternRule → Option PatternRule
verdict b [] = none
verdict b (rule ∷ rest) =
    let later = verdict b rest in if any (in_sources b) rule.keywords then some rule else later

match-verdict :
    (b : Bundle) (rs : List PatternRule)
    → all (λ r. all one_line r.keywords) rs ≡ true
    → first_match (haystack_of b) rs ≡ verdict b rs
unfolding first_match verdict
match-verdict b [] h = refl
match-verdict b (r ∷ rs) h = ground (arith, any-sources b r.keywords, match-verdict b rs)

-- A diagnosis names the first rule of the table that has a keyword within one of the three
-- sources, with its hint, and stays unclassified without a hint if none has: joining the sources
-- makes no keyword and hides none.
pub classify_by_sources :
    (b : Bundle)
    → ((classify b).classified ≡ class_of (verdict b rules))
      × ((classify b).hint ≡ hint_of (verdict b rules))
unfolding classify
classify_by_sources b = let e = match-verdict b rules refl in (ap class_of e, ap hint_of e)

one_step :
    (failed : Bool) (outcome : String) (id : ℤ) (rest : List ℤ)
    → (outcome == outcome_degraded) ≡ is_nonempty rest
    → ((if failed then outcome_degraded else outcome) == outcome_degraded)
      ≡ is_nonempty (if failed then id ∷ rest else rest)
one_step true outcome id rest h = refl
one_step false outcome id rest h = h

outcome-failed :
    (steps : List StepResult)
    → (outcome_of steps == outcome_degraded) ≡ is_nonempty (failed_of steps)
unfolding outcome_of failed_of
outcome-failed [] = refl
outcome-failed (s ∷ steps) =
    one_step (s.status == status_fail) (outcome_of steps) s.id (failed_of steps)
      (outcome-failed steps)

-- The report and the diagnosis agree: a verification degrades an app exactly if the diagnosis of
-- its report has a failed step.
pub degraded_iff_failed :
    (b : Bundle) (app_id : String) (steps : List StepResult) (at : Time)
    → ((aggregate app_id steps at).outcome == outcome_degraded)
      ≡ is_nonempty
          (classify (record b { verify_report = some (aggregate app_id steps at) })).failed_steps
unfolding aggregate classify
degraded_iff_failed b app_id steps at = outcome-failed steps
