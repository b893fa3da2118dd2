-- ===== src/Orchestrator/Delete.antt =====
-- control-plane/internal/orchestrator/delete_pipeline.go: the seven deletion steps in order, the
-- retention window and the restore window.
pub mod Order
use tenara.Prelude.{
  ℕ, zero, suc, ◌+◌, ◌-◌, ◌*◌, ◌/◌, ◌%◌, ◌^◌, ◌≤◌, ◌<◌, String, ◌≡◌, refl, sym, ap, ◌∙◌, subst, ◌≢◌,
  ◌↔◌, ◌⊎◌, inl, inr, Bool, true, false, not, ◌&&◌, ◌||◌, Option, none, some, List, [], ◌∷◌, ◌++◌,
  map, arith, ltb, leb, nat_eq, if◌then◌else◌, ltb→lt, ltb→ge, leb→le, leb→gt, nat_eq_iff, Eq, ◌==◌,
  nat_Eq, string_Eq, text_iff, text_refl, text_ne, Bool-cases, Option-cases, text-cases, is_some,
  length, any, all, length-append, Member, here, there, All, All-Member, Map, get, remove, put,
  keys, get-remove, get-put, map_laws, all-get, get_or, Outcome, ok, err, ◌>>=◌, ◌>>◌, require,
  refuse, >>=-eq-ok, is_ok, ok-injective, all-Member, tests, ℤ, pos, negsuc, lt_ℤ, int_Eq, int_iff,
  All-of_all, all-of_All, any_Member, any-false,
}
use tenara.Orchestrator.Deploy.{Time}

abbrev traffic_disabled : ℤ
traffic_disabled = pos 1

abbrev workload_stopped : ℤ
workload_stopped = pos 2

abbrev db_snapshotted : ℤ
db_snapshotted = pos 3

abbrev pub soft_deleted : ℤ
soft_deleted = pos 4

abbrev runtime_destroyed : ℤ
runtime_destroyed = pos 5

abbrev credential_destroyed : ℤ
credential_destroyed = pos 6

abbrev data_purged : ℤ
data_purged = pos 7

abbrev pub delete_step_order : List ℤ
delete_step_order =
    traffic_disabled ∷ workload_stopped ∷ db_snapshotted ∷ soft_deleted ∷ runtime_destroyed
    ∷ credential_destroyed ∷ data_purged ∷ []

pub data Error : Type 0 where
  unknown_step : ℤ → Error
  pipeline_complete : Error

-- `done[id]`, for the set of the ids that were marked
unfoldable pub done_has : List ℤ → ℤ → Bool
done_has [] id = false
done_has (c ∷ done) id = c == id || done_has done id

abbrev pub is_unknown : ℤ → Bool
is_unknown c = lt_ℤ c traffic_disabled || lt_ℤ data_purged c

-- the loop that marks the completed steps
unfoldable pub mark : List ℤ → List ℤ → Outcome Error (List ℤ)
mark [] done = ok done
mark (c ∷ completed) done =
    let rest = mark completed (c ∷ done) in if is_unknown c then err (unknown_step c) else rest

-- the loop that looks for the first step not marked
unfoldable pub first_undone : List ℤ → List ℤ → Outcome Error ℤ
unfolding done_has
first_undone done [] = err pipeline_complete
first_undone done (id ∷ order) = if not (done_has done id) then ok id else first_undone done order

unfoldable pub next_delete_step : List ℤ → Outcome Error ℤ
unfolding mark first_undone
next_delete_step completed = do done ← mark completed []; first_undone done delete_step_order

abbrev default_retention_days : ℕ
default_retention_days = 7

abbrev hour : ℕ
hour = 3600 * 10 ^ 9

-- `RetentionPeriod`, over the environment variable's text and `strconv.ParseFloat`, which gives the
-- hours as a signed number of nanoseconds, or nothing for a text that is no number.
unfoldable retention_period : (String → Option ℤ) → String → Option ℕ
retention_period parse_hours value =
    if value == "" then some (default_retention_days * 24 * hour) else elim (parse_hours value) [
      | none ↦ none
      | some h ↦ elim h [ pos n ↦ some n | negsuc n ↦ none ]
    ]

unfoldable soft_delete_until : Time → ℕ → Time
soft_delete_until deleted_at retention = deleted_at + retention

unfoldable purge_allowed : Time → Time → Bool
purge_allowed now retention_until = not (ltb now retention_until)

unfoldable pub restore_window_open : List ℤ → Bool
restore_window_open [] = true
restore_window_open (c ∷ completed) =
    if not (lt_ℤ c soft_deleted) then false else restore_window_open completed
