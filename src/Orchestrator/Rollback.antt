-- ===== src/Orchestrator/Rollback.antt =====
-- control-plane/internal/orchestrator/rollback.go: which revision a rollback goes to.
pub mod Newest
pub mod Target
use tenara.Prelude.{
  ℕ, zero, suc, ◌+◌, ◌-◌, ◌*◌, ◌/◌, ◌%◌, ◌^◌, ◌≤◌, ◌<◌, String, ◌≡◌, refl, sym, ap, ◌∙◌, subst, ◌≢◌,
  ◌↔◌, ◌⊎◌, inl, inr, Bool, true, false, not, ◌&&◌, ◌||◌, Option, none, some, List, [], ◌∷◌, ◌++◌,
  map, arith, ltb, leb, nat_eq, if◌then◌else◌, ltb→lt, ltb→ge, leb→le, leb→gt, nat_eq_iff, Eq, ◌==◌,
  nat_Eq, string_Eq, text_iff, text_refl, text_ne, Bool-cases, Option-cases, text-cases, is_some,
  length, any, all, length-append, Member, here, there, All, All-Member, Map, get, remove, put,
  keys, get-remove, get-put, map_laws, all-get, get_or, Outcome, ok, err, ◌>>=◌, ◌>>◌, require,
  refuse, >>=-eq-ok, is_ok, ok-injective, all-Member, tests, ℤ, pos, negsuc, lt_ℤ, int_Eq, int_iff,
  All-of_all, all-of_All, any_Member, any-false,
}
use tenara.Orchestrator.Deploy.{
  State, Time, AuditEvent, transition, rolling_back, running, degraded, actor_user, can_transition,
}
use tenara.Orchestrator.Deploy

-- Revision numbers are only compared, and start at 1.
pub record RevisionSnapshot : Type 0 where
  pub image_digest : String
  pub signature_ref : String
  pub number : ℕ
  pub config_rev : ℕ
  pub secret_rev : ℕ
  pub app_spec_ver : ℕ
  pub scan_passed : Bool

pub data Error : Type 0 where
  refused_move : Deploy.Error → Error
  revision_not_found : ℕ → Error
  scan_not_passed : ℕ → Error
  no_rollback_path : ℕ → Error

unfoldable pub eligible : RevisionSnapshot → Bool
eligible s = s.scan_passed && not (s.signature_ref == "")

unfoldable pub find_snapshot : List RevisionSnapshot → ℕ → Option RevisionSnapshot
find_snapshot [] number = none
find_snapshot (s ∷ revs) number = if s.number == number then some s else find_snapshot revs number

-- `!found || s.Number > best.Number`
abbrev improves : RevisionSnapshot → Option RevisionSnapshot → Bool
improves s none = true
improves s (some best) = ltb best.number s.number

-- one turn of the loop over the revisions
unfoldable pub next_best : RevisionSnapshot → ℕ → Option RevisionSnapshot → Option RevisionSnapshot
unfolding eligible
next_best s current best =
    if leb current s.number || not (eligible s)
    then best
    else if improves s best
    then some s
    else best

-- the loop; `best` is there exactly if the source's `found` is set
unfoldable pub pick_newest :
    List RevisionSnapshot → ℕ → Option RevisionSnapshot → Option RevisionSnapshot
pick_newest [] current best = best
pick_newest (s ∷ revs) current best = pick_newest revs current (next_best s current best)

unfoldable pub resolve_explicit : Option RevisionSnapshot → ℕ → ℕ → Outcome Error RevisionSnapshot
resolve_explicit none current n = err (revision_not_found n)
resolve_explicit (some s) current n =
    if leb current s.number
    then err (revision_not_found n)
    else if not (eligible s)
    then err (scan_not_passed n)
    else ok s

unfoldable pub or_no_path : Option RevisionSnapshot → ℕ → Outcome Error RevisionSnapshot
or_no_path none current = err (no_rollback_path current)
or_no_path (some best) current = ok best

unfoldable pub resolve_rollback_target :
    List RevisionSnapshot → ℕ → Option ℕ → Outcome Error RevisionSnapshot
unfolding find_snapshot pick_newest next_best resolve_explicit or_no_path
resolve_rollback_target revs current (some n) = resolve_explicit (find_snapshot revs n) current n
resolve_rollback_target revs current none = or_no_path (pick_newest revs current none) current

abbrev pub lift_move : Outcome Deploy.Error AuditEvent → Outcome Error AuditEvent
lift_move (ok ev) = ok ev
lift_move (err e) = err (refused_move e)

unfoldable pub plan_rollback :
    State
    → List RevisionSnapshot
    → ℕ
    → Option ℕ
    → Time
    → Outcome Error (AuditEvent × RevisionSnapshot)
plan_rollback from_state revs current target at = do
  ev ← lift_move (transition from_state rolling_back actor_user at)
  dest ← resolve_rollback_target revs current target
  ok (ev, dest)

abbrev pub from_some : Option ℕ → ℕ → ℕ
from_some none d = d
from_some (some n) d = n

pub none_ne : {s : RevisionSnapshot} → ◌≡◌ {A = Option RevisionSnapshot} none (some s) → ⊥
none_ne h = cc

-- A revision that a rollback may go to: behind the current one, and past both gates.
abbrev pub is_candidate : ℕ → RevisionSnapshot → Bool
is_candidate current s = ltb s.number current && eligible s
