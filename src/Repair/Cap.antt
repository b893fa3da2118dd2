-- ===== src/Repair/Cap.antt =====
-- The attempt cap of the auto-repair loop: it ends, it asks for at most three patches, in order, and
-- what it returns.
use tenara.Prelude.{
  ℕ, zero, suc, ◌+◌, ◌≤◌, ◌<◌, String, ◌≡◌, refl, sym, ap, ◌∙◌, ◌⊎◌, inl, inr, Bool, true, false,
  not, ◌&&◌, Option, none, some, List, [], ◌∷◌, ◌++◌, arith, nat_eq, if◌then◌else◌, nat_Eq,
  string_Eq, is_some, int_Eq,
}
use tenara.Repair
use tenara.Repair.{
  Loop, Round, Call, Failure, Attempt, Refusal, stop, next, gate, unrecorded, joined, generated,
  applied, recorded, attempts_exhausted, out_of_range, can_trigger, attempt, round, rounds, run,
  join, max_attempts, verify, audit, settle, no_patch, or_gate,
}

-- the numbers of the attempts for which a patch was asked
pub attempts : List Call → List ℕ
attempts [] = []
attempts (generated n ∷ calls) = n ∷ attempts calls
attempts (applied n p ∷ calls) = attempts calls
attempts (recorded a ∷ calls) = attempts calls

abbrev pub count_up : ℕ → ℕ → List ℕ
count_up n zero = []
count_up n (suc k) = n ∷ count_up (suc n) k

attempts-append : (xs ys : List Call) → attempts (xs ++ ys) ≡ attempts xs ++ attempts ys
unfolding attempts
attempts-append [] ys = refl
attempts-append (generated n ∷ xs) ys = ap (◌∷◌ n) (attempts-append xs ys)
attempts-append (applied n p ∷ xs) ys = attempts-append xs ys
attempts-append (recorded a ∷ xs) ys = attempts-append xs ys

abbrev calls_of : Round → List Call
calls_of (stop e calls) = calls
calls_of (next calls) = calls

-- What ends the loop: success, the refusal of the fourth attempt, or an attempt that could not be
-- recorded.
abbrev pub is_final : Option Failure → Bool
is_final none = true
is_final (some (gate (attempts_exhausted n))) = nat_eq n (max_attempts + 1)
is_final (some (gate (out_of_range n))) = false
is_final (some (joined g v)) = false
is_final (some (unrecorded e)) = true

abbrev ends_well : Round → Bool
ends_well (stop e calls) = is_final e
ends_well (next calls) = true

audit-calls : (o : Option (ℕ → Option String)) (a : Attempt) → attempts (audit o a).1 ≡ []
unfolding attempts
audit-calls none a = refl
audit-calls (some f) a = refl

verify-calls :
    (o : Option (ℕ → Repair.Patch → Option String)) (n : ℕ) (p : Repair.Patch) (g : Option String)
    → attempts (verify o n p g).1 ≡ []
unfolding attempts
verify-calls none n p g = refl
verify-calls (some f) n p none = refl
verify-calls (some f) n p (some g) = refl

calls-settle : (r o : Option Failure) (done : List Call) → calls_of (settle r o done) ≡ done
calls-settle (some e) o done = refl
calls-settle none none done = refl
calls-settle none (some e) done = refl

attempt-calls : (l : Loop) (n : ℕ) → attempts (calls_of (attempt l n)) ≡ n ∷ []
unfolding attempt attempts
attempt-calls l n = rw (calls-settle, attempts-append, verify-calls, audit-calls) refl

attempt-ends_well : (l : Loop) (n : ℕ) → ends_well (attempt l n) ≡ true
unfolding attempt
attempt-ends_well l n = ground arith

fourth_row : Attempt
fourth_row = record { n = 4; patch = no_patch; attempt_err = some (gate (attempts_exhausted 4)) }

gate_final :
    (o : Option (ℕ → Option String)) (a : Attempt)
    → is_final (some (or_gate (audit o a).0 (attempts_exhausted 4))) ≡ true
gate_final none a = refl
gate_final (some f) a = ground arith

-- The fourth round asks for no patch and ends the loop.
round_refused :
    (l : Loop)
    → (e : Option Failure) × (calls : List Call) × (round l 4 ≡ stop e calls)
      × (attempts calls ≡ [])
      × (is_final e ≡ true)
unfolding round fourth_row
round_refused l = (
  some (or_gate (audit l.record_attempt fourth_row).0 (attempts_exhausted 4)),
  (audit l.record_attempt fourth_row).1,
  refl,
  audit-calls l.record_attempt fourth_row,
  gate_final l.record_attempt fourth_row,
)

round_allowed : (l : Loop) (n : ℕ) → 0 < n → n ≤ max_attempts → round l n ≡ attempt l n
unfolding round attempt
round_allowed l n h k =
    let e : can_trigger n ≡ none = unfold can_trigger in ground arith in rw (round, e) refl

rounds_stop :
    (fuel : ℕ) (l : Loop) (n : ℕ) {e : Option Failure} {calls : List Call}
    → round l n ≡ stop e calls
    → rounds (suc fuel) l n ≡ some (e, calls)
unfolding rounds
rounds_stop fuel l n h = rw (rounds, h) refl

rounds_next :
    (fuel : ℕ) (l : Loop) (n : ℕ) {e : Option Failure} {calls more : List Call}
    → round l n ≡ next calls
    → rounds fuel l (suc n) ≡ some (e, more)
    → rounds (suc fuel) l n ≡ some (e, calls ++ more)
unfolding rounds
rounds_next fuel l n h k = rw (rounds, h) (rw k refl)

Round-cases :
    (r : Round)
    → ((e : Option Failure) × (calls : List Call) × (r ≡ stop e calls))
      ⊎ ((calls : List Call) × (r ≡ next calls))
Round-cases (stop e calls) = inl (e, calls, refl)
Round-cases (next calls) = inr (calls, refl)

-- the rounds from the `n`th on, with fuel for all that the cap allows
rounds_total :
    (fuel : ℕ) (l : Loop) (n : ℕ)
    → 0 < n
    → fuel + n ≡ max_attempts + 2
    → 0 < fuel
    → (e : Option Failure) × (calls : List Call) × (k : ℕ) × (rounds fuel l n ≡ some (e, calls))
      × (attempts calls ≡ count_up n k)
      × (k + n ≤ max_attempts + 1)
      × (is_final e ≡ true)
rounds_total zero l n h s f = absurd (omega arith)
rounds_total (suc zero) l n h s f =
    let four : n ≡ 4 = omega arith in
    let (e, calls, ended, none_asked, final) = round_refused l in
    (e, calls, 0, rounds_stop 0 l n (rw four ended), none_asked, omega arith, final)
rounds_total (suc (suc fuel)) l n h s f =
    let allowed = round_allowed l n h (omega arith) in
    elim (Round-cases (attempt l n)) [
      | inl (e, calls, ended) ↦ (
        e,
        calls,
        1,
        rounds_stop (suc fuel) l n (allowed ∙ ended),
        sym (ap (λ r. attempts (calls_of r)) ended) ∙ attempt-calls l n,
        omega arith,
        sym (ap ends_well ended) ∙ attempt-ends_well l n,
      )
      | inr (calls, goes_on) ↦
          let (e, more, k, ran, asked, few, final) =
            rounds_total (suc fuel) l (suc n) (omega arith) (omega arith) (omega arith) in
          (
            e,
            calls ++ more,
            suc k,
            rounds_next (suc fuel) l n (allowed ∙ goes_on) ran,
            rw
                (
                  attempts-append,
                  sym (ap (λ r. attempts (calls_of r)) goes_on) ∙ attempt-calls l n,
                  asked,
                )
                refl,
            omega arith,
            final,
          )
    ]

-- The loop always ends, within four rounds. It asks for at most three patches, numbered from 1 in
-- order, and it returns success, the refusal of the fourth attempt, or the failure to record an
-- attempt: never the error of an attempt itself.
pub run_ends :
    (l : Loop)
    → (e : Option Failure) × (calls : List Call) × (k : ℕ) × (run l ≡ some (e, calls))
      × (attempts calls ≡ count_up 1 k)
      × (k ≤ max_attempts)
      × (is_final e ≡ true)
unfolding run
run_ends l =
    let (e, calls, k, ran, asked, few, final) =
      rounds_total (max_attempts + 1) l 1 (omega arith) refl (omega arith) in
    (e, calls, k, ran, asked, omega arith, final)

-- the error that an attempt records
pub last_err : Loop → ℕ → Option Failure
last_err l n =
    let (patch, gen_err) = l.generate_patch n in join gen_err (verify l.apply n patch gen_err).0

silent_audit : (o : Option (ℕ → Option String)) (a : Attempt) → o ≡ none → (audit o a).0 ≡ none
silent_audit none a h = refl
silent_audit (some f) a h = cc

abbrev failed : Round → Bool
failed (stop e calls) = is_some e
failed (next calls) = true

abbrev ended : Round → Bool
ended (stop e calls) = true
ended (next calls) = false

settle-failed :
    (r o : Option Failure) (done : List Call)
    → r ≡ none
    → (failed (settle r o done) ≡ is_some o) × (ended (settle r o done) ≡ not (is_some o))
settle-failed (some e) o done h = cc
settle-failed none none done h = (refl, refl)
settle-failed none (some e) done h = (refl, refl)

attempt-failed :
    (l : Loop) (n : ℕ)
    → l.record_attempt ≡ none
    → (failed (attempt l n) ≡ is_some (last_err l n))
      × (ended (attempt l n) ≡ not (is_some (last_err l n)))
unfolding attempt last_err
attempt-failed l n h = settle-failed _ _ _ (silent_audit l.record_attempt _ h)

abbrev failed_run : Option (Option Failure × List Call) → Bool
failed_run none = true
failed_run (some (e, calls)) = is_some e

rounds-failed :
    (fuel : ℕ) (l : Loop) (n : ℕ)
    → failed_run (rounds (suc fuel) l n)
      ≡ (if ended (round l n) then failed (round l n) else failed_run (rounds fuel l (suc n)))
unfolding rounds
rounds-failed fuel l n = ground arith

fourth_fails : (l : Loop) → failed_run (rounds 1 l 4) ≡ true
unfolding rounds round
fourth_fails l = refl

round_fails :
    (fuel : ℕ) (l : Loop) (n : ℕ)
    → l.record_attempt ≡ none
    → 0 < n
    → n ≤ max_attempts
    → failed_run (rounds (suc fuel) l n)
      ≡ (is_some (last_err l n) && failed_run (rounds fuel l (suc n)))
round_fails fuel l n h p k =
    let (fails, ends) = attempt-failed l n h in
    ground (arith, rounds-failed fuel l n, round_allowed l n p k, fails, ends)

-- With no auditor, the repair fails exactly if each of the first three attempts does.
run_fails_iff :
    (l : Loop)
    → l.record_attempt ≡ none
    → failed_run (run l)
      ≡ (is_some (last_err l 1) && is_some (last_err l 2) && is_some (last_err l 3))
unfolding run
run_fails_iff l h = ground (
  arith,
  round_fails 3 l 1 h (omega arith) (omega arith),
  round_fails 2 l 2 h (omega arith) (omega arith),
  round_fails 1 l 3 h (omega arith) (omega arith),
  fourth_fails l,
)
