-- ===== src/Repair.antt =====
-- control-plane/internal/repair/repair.go: the auto-repair loop under its attempt cap. The patch
-- source, the apply-and-verify step and the auditor are interfaces of the source: here they are
-- functions of the number of the attempt, so that each call may answer differently.
pub mod Cap
pub mod Tests
use mathlib.Core.Option
use tenara.Prelude.{
  ℕ, zero, suc, ◌+◌, ◌-◌, ◌*◌, ◌/◌, ◌%◌, ◌^◌, ◌≤◌, ◌<◌, String, ◌≡◌, refl, sym, ap, ◌∙◌, subst, ◌≢◌,
  ◌↔◌, ◌⊎◌, inl, inr, Bool, true, false, not, ◌&&◌, ◌||◌, Option, none, some, List, [], ◌∷◌, ◌++◌,
  map, arith, ltb, leb, nat_eq, if◌then◌else◌, ltb→lt, ltb→ge, leb→le, leb→gt, nat_eq_iff, Eq, ◌==◌,
  nat_Eq, string_Eq, text_iff, text_refl, text_ne, Bool-cases, Option-cases, text-cases, is_some,
  length, any, all, length-append, Member, here, there, All, All-Member, Map, get, remove, put,
  keys, get-remove, get-put, map_laws, all-get, get_or, get-put_self, get-put_ne, Outcome, ok, err,
  ◌>>=◌, ◌>>◌, require, refuse, >>=-eq-ok, is_ok, ok-injective, all-Member, tests, ℤ, pos, negsuc,
  lt_ℤ, int_Eq, int_iff, All-of_all, all-of_All, any_Member, any-false,
}

abbrev pub max_attempts : ℕ
max_attempts = 3

pub data Refusal : Type 0 where
  out_of_range : ℕ → Refusal
  attempts_exhausted : ℕ → Refusal

unfoldable pub can_trigger : ℕ → Option Refusal
can_trigger n =
    if ltb n 1
    then some (out_of_range n)
    else if ltb max_attempts n
    then some (attempts_exhausted n)
    else none

pub record Patch : Type 0 where
  pub description : String
  pub files : Map (List ℕ)

abbrev pub no_patch : Patch
no_patch = record { description = ""; files = [] }

-- What is recorded of an attempt, and what `Run` returns.
pub data Failure : Type 0 where
  gate : Refusal → Failure
  joined : Option String → Option String → Failure
  unrecorded : String → Failure

-- `errors.Join`: nil exactly if both are
abbrev pub join : Option String → Option String → Option Failure
join none none = none
join (some g) v = some (joined (some g) v)
join none (some v) = some (joined none (some v))

-- The interfaces: `generate_patch`, `apply` (nil in some setups), and the auditor (nil in some
-- setups), whose recording may fail.
pub record Loop : Type 0 where
  pub generate_patch : ℕ → Patch × Option String
  pub apply : Option (ℕ → Patch → Option String)
  pub record_attempt : Option (ℕ → Option String)

-- One row that was handed to the auditor.
pub record Attempt : Type 0 where
  pub n : ℕ
  pub patch : Patch
  pub attempt_err : Option Failure

-- the calls that `Run` makes, in order
pub data Call : Type 0 where
  generated : ℕ → Call
  applied : ℕ → Patch → Call
  recorded : Attempt → Call

abbrev audit : Option (ℕ → Option String) → Attempt → Option Failure × List Call
audit none a = (none, [])
audit (some f) a = (Option.map unrecorded (f a.n), recorded a ∷ [])

-- `if genErr == nil && l.Apply != nil`
abbrev verify :
    Option (ℕ → Patch → Option String) → ℕ → Patch → Option String → Option String × List Call
verify (some f) n p none = (f n p, applied n p ∷ [])
verify (some f) n p (some g) = (none, [])
verify none n p g = (none, [])

abbrev or_gate : Option Failure → Refusal → Failure
or_gate none g = gate g
or_gate (some e) g = e

-- The end of a round: it stops with a result, or the loop goes on.
pub data Round : Type 0 where
  stop : Option Failure → List Call → Round
  next : List Call → Round

-- the end of a round, from the errors of the recording and of the attempt
abbrev settle : Option Failure → Option Failure → List Call → Round
settle (some e) last_err done = stop (some e) done
settle none none done = stop none done
settle none (some e) done = next done

-- a round that the gate lets through
unfoldable pub attempt : Loop → ℕ → Round
attempt l n =
    let (patch, gen_err) = l.generate_patch n in
    let (verify_err, calls) = verify l.apply n patch gen_err in
    let last_err = join gen_err verify_err in
    let (rec_err, rows) =
      audit l.record_attempt (record { n = n; patch = patch; attempt_err = last_err }) in
    let done = generated n ∷ (calls ++ rows) in settle rec_err last_err done

-- one round of the loop
unfoldable pub round : Loop → ℕ → Round
unfolding can_trigger attempt
round l n = elim (can_trigger n) [
  | some g ↦
      let (rec_err, rows) =
        audit l.record_attempt (record { n = n; patch = no_patch; attempt_err = some (gate g) }) in
      stop (some (or_gate rec_err g)) rows
  | none ↦ attempt l n
]

-- The loop `for n := 1; ; n++`, with the rounds that it may still make as fuel; `none` means that
-- they ran out. The answer is the error that `Run` returns, with the calls that it made.
unfoldable pub rounds : ℕ → Loop → ℕ → Option (Option Failure × List Call)
rounds zero l n = none
rounds (suc fuel) l n = elim (round l n) [
  | stop e calls ↦ some (e, calls)
  | next calls ↦ elim (rounds fuel l (suc n)) [
    | none ↦ none
    | some (e, more) ↦ some (e, calls ++ more)
  ]
]

unfoldable pub run : Loop → Option (Option Failure × List Call)
run l = rounds (max_attempts + 1) l 1
