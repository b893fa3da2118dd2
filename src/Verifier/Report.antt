-- ===== src/Verifier/Report.antt =====
-- verifier/internal/verify: the catalog of the steps (steps.go) and the report (report.go).
use tenara.Prelude.{
  ℕ, suc, ◌+◌, String, ◌≡◌, refl, sym, ap, ◌∙◌, ◌↔◌, Bool, true, not, ◌&&◌, List, [], ◌∷◌, map,
  arith, if◌then◌else◌, nat_eq_iff, ◌==◌, nat_Eq, string_Eq, text_iff, length, Outcome, ok, err,
  is_ok, ℤ, pos, lt_ℤ, int_Eq, int_iff,
}
use tenara.Orchestrator.Deploy.{Time}

abbrev Status : Type 0
Status = String

abbrev pub status_pass : Status
status_pass = "pass"

abbrev pub status_fail : Status
status_fail = "fail"

abbrev pub outcome_running : String
outcome_running = "RUNNING"

abbrev pub outcome_degraded : String
outcome_degraded = "DEGRADED"

pub record StepResult : Type 0 where
  pub name : String
  pub status : Status
  pub detail : String
  pub id : ℤ
  pub duration_ms : ℤ

pub record Report : Type 0 where
  pub generated_at : Time
  pub app_id : String
  pub steps : List StepResult
  pub outcome : String

-- the catalog, with the identifiers 1 to 9
abbrev pub step_names : List (ℤ × String)
step_names =
    (pos 1, "deployment available")
    ∷ (pos 2, "service clusterip reachable")
    ∷ (pos 3, "dns resolves slug")
    ∷ (pos 4, "tls handshake")
    ∷ (pos 5, "get / returns 2xx")
    ∷ (pos 6, "get /api/health returns 2xx")
    ∷ (pos 7, "headless browser loads page")
    ∷ (pos 8, "console error count is zero")
    ∷ (pos 9, "failed request count is zero")
    ∷ []

abbrev step_order : List ℤ
step_order = pos 1 ∷ pos 2 ∷ pos 3 ∷ pos 4 ∷ pos 5 ∷ pos 6 ∷ pos 7 ∷ pos 8 ∷ pos 9 ∷ []

unfoldable name_in : List (ℤ × String) → ℤ → String
name_in [] id = ""
name_in ((i, name) ∷ names) id = if i == id then name else name_in names id

unfoldable step_name : ℤ → String
unfolding name_in
step_name id = name_in step_names id

unfoldable is_browser_step : ℤ → Bool
is_browser_step id = not (lt_ℤ id (pos 7)) && not (lt_ℤ (pos 9) id)

-- the loop of `Aggregate`
unfoldable pub outcome_of : List StepResult → String
outcome_of [] = outcome_running
outcome_of (s ∷ steps) = if s.status == status_fail then outcome_degraded else outcome_of steps

unfoldable pub aggregate : String → List StepResult → Time → Report
unfolding outcome_of
aggregate app_id steps at = record {
  generated_at = at;
  app_id = app_id;
  steps = steps;
  outcome = outcome_of steps;
}

pub data Error : Type 0 where
  wrong_count : ℕ → ℕ → Error
  misplaced : ℕ → ℤ → Error
  misnamed : ℤ → String → Error

-- the loop of `ValidateComplete`, from position `i`
unfoldable check_steps : ℕ → List StepResult → Outcome Error (Unit {0})
unfolding step_name
check_steps i [] = ok tt
check_steps i (s ∷ steps) =
    let rest = check_steps (i + 1) steps in
    if not (s.id == pos (i + 1))
    then err (misplaced (i + 1) s.id)
    else if not (s.name == step_name s.id)
    then err (misnamed s.id s.name)
    else rest

unfoldable pub validate_complete : List StepResult → Outcome Error (Unit {0})
unfolding check_steps
validate_complete steps =
    if not (length steps == length step_order)
    then err (wrong_count (length step_order) (length steps))
    else check_steps 0 steps

-- a step as the catalog writes it
abbrev pub row_of : StepResult → ℤ × String
row_of s = (s.id, s.name)

-- the rows stand at the positions from `i` on, under their names
abbrev placed : ℕ → List (ℤ × String) → Bool
placed i [] = true
placed i (r ∷ rows) = r.0 == pos (i + 1) && r.1 == step_name (pos (i + 1)) && placed (i + 1) rows

cons_eq {ℓ} :
    {A : Type ℓ} {x y : A} {xs ys : List A} → x ≡ y → xs ≡ ys → ◌≡◌ {A = List A} (x ∷ xs) (y ∷ ys)
cons_eq h k = cc

cons-injective {ℓ} :
    {A : Type ℓ} {x y : A} {xs ys : List A}
    → ◌≡◌ {A = List A} (x ∷ xs) (y ∷ ys)
    → (x ≡ y) × (xs ≡ ys)
cons-injective h = (cc, cc)

row_eq : (s : StepResult) (r : ℤ × String) → s.id ≡ r.0 → s.name ≡ r.1 → row_of s ≡ r
row_eq s (i, n) h k = cc

checked_rows :
    (i : ℕ) (steps : List StepResult) (rows : List (ℤ × String))
    → placed i rows ≡ true
    → length steps ≡ length rows
    → is_ok (check_steps i steps) ≡ true
    → map row_of steps ≡ rows
unfolding check_steps
checked_rows i [] [] p n h = refl
checked_rows i [] (r ∷ rows) p n h = absurd (omega arith)
checked_rows i (s ∷ steps) [] p n h = absurd (omega arith)
checked_rows i (s ∷ steps) (r ∷ rows) p n h =
    let a : s.id ≡ pos (i + 1) = ground (arith, int_iff s.id (pos (i + 1))) in
    let b : r.0 ≡ pos (i + 1) = ground (arith, int_iff r.0 (pos (i + 1))) in
    let c : s.name ≡ step_name s.id = ground (arith, text_iff s.name (step_name s.id)) in
    let d : r.1 ≡ step_name (pos (i + 1)) =
      ground (arith, text_iff r.1 (step_name (pos (i + 1)))) in
    let rest = checked_rows (i + 1) steps rows (ground arith) (omega arith) (ground arith) in
    cons_eq (row_eq s r (a ∙ sym b) (c ∙ ap step_name a ∙ sym d)) rest

rows_checked :
    (i : ℕ) (steps : List StepResult) (rows : List (ℤ × String))
    → placed i rows ≡ true
    → map row_of steps ≡ rows
    → is_ok (check_steps i steps) ≡ true
unfolding check_steps
rows_checked i [] rows p h = refl
rows_checked i (s ∷ steps) [] p h = cc
rows_checked i (s ∷ steps) (r ∷ rows) p h =
    let (e, k) = cons-injective h in
    let id : s.id ≡ r.0 = ap (λ q. q.0) e in
    let name : s.name ≡ r.1 = ap (λ q. q.1) e in
    let a : s.id ≡ pos (i + 1) = id ∙ (ground (arith, int_iff r.0 (pos (i + 1)))) in
    let b : s.name ≡ step_name (pos (i + 1)) =
      name ∙ (ground (arith, text_iff r.1 (step_name (pos (i + 1))))) in
    let rest = rows_checked (i + 1) steps rows (ground arith) k in
    ground (arith, int_iff s.id (pos (i + 1)), text_iff s.name (step_name s.id), ap step_name a)

length-map : (steps : List StepResult) → length steps ≡ length (map row_of steps)
length-map [] = refl
length-map (s ∷ steps) = ap suc (length-map steps)

-- The completeness check accepts exactly the nine steps of the catalog, each once, in its order and
-- under its name.
pub complete_iff :
    (steps : List StepResult)
    → (is_ok (validate_complete steps) ≡ true) ↔ (map row_of steps ≡ step_names)
unfolding validate_complete
complete_iff steps = (
  λ h.
      checked_rows 0 steps step_names refl (ground (arith, nat_eq_iff (length steps) 9))
        (ground arith),
  λ h.
      let n : length steps ≡ 9 = length-map steps ∙ ap length h in
      let c = rows_checked 0 steps step_names refl h in ground (arith, n, c),
)
