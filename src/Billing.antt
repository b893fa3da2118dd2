-- ===== src/Billing.antt =====
-- control-plane/internal/billing: the priced plans (plan.go), the invoice (invoice.go), and the
-- payment provider with the store of the tier (payment.go).
pub mod Charges
use tenara.Prelude.{
  ℕ, zero, suc, ◌+◌, ◌-◌, ◌*◌, ◌/◌, ◌%◌, ◌^◌, ◌≤◌, ◌<◌, String, ◌≡◌, refl, sym, ap, ◌∙◌, subst, ◌≢◌,
  ◌↔◌, ◌⊎◌, inl, inr, Bool, true, false, not, ◌&&◌, ◌||◌, Option, none, some, List, [], ◌∷◌, ◌++◌,
  map, arith, ltb, leb, nat_eq, if◌then◌else◌, ltb→lt, ltb→ge, leb→le, leb→gt, nat_eq_iff, Eq, ◌==◌,
  nat_Eq, string_Eq, text_iff, text_refl, text_ne, Bool-cases, Option-cases, text-cases, is_some,
  length, any, all, length-append, Member, here, there, All, All-Member, Map, get, remove, put,
  keys, get-remove, get-put, map_laws, all-get, get_or, get-put_self, get-put_ne, Outcome, ok, err,
  ◌>>=◌, ◌>>◌, require, refuse, >>=-eq-ok, is_ok, is_ok-then, ok-injective, all-Member, all-append,
  is_nonempty, is_nonempty-append, tests, ℤ, pos, negsuc, lt_ℤ, int_Eq, int_iff, All-of_all,
  all-of_All, any_Member, any-false,
}
use tenara.Bytes.{Bytes}
use tenara.Orchestrator.Deploy.{Time}
use Prim.Native.String

abbrev pub tier_free : String
tier_free = "free"

abbrev pub tier_pro : String
tier_pro = "pro"

-- A measured quantity, minutes or core-hours, in millionths.
abbrev pub Quantity : Type 0
Quantity = ℕ

abbrev pub million : ℕ
million = 10 ^ 6

pub record Plan : Type 0 where
  pub tier : String
  pub monthly_base_cents : ℕ
  pub included_build_minutes : Quantity
  pub included_cpu_core_hours : Quantity
  pub overage_cpu_cents_hour : ℕ
  pub max_build_concurrency : ℕ

abbrev pub catalog : Map Plan
catalog =
    (
      tier_free,
      record {
        tier = tier_free;
        monthly_base_cents = 0;
        included_build_minutes = 200 * million;
        included_cpu_core_hours = 10 * million;
        overage_cpu_cents_hour = 0;
        max_build_concurrency = 1;
      },
    )
    ∷ (
      tier_pro,
      record {
        tier = tier_pro;
        monthly_base_cents = 1900;
        included_build_minutes = 2000 * million;
        included_cpu_core_hours = 120 * million;
        overage_cpu_cents_hour = 8;
        max_build_concurrency = 4;
      },
    )
    ∷ []

pub data Error : Type 0 where
  unknown_tier : String → Error
  undecodable org_required : Error

abbrev pub priced : String → Option Plan → Outcome Error Plan
priced tier none = err (unknown_tier tier)
priced tier (some p) = ok p

unfoldable pub plan_for : String → Outcome Error Plan
unfolding get
plan_for tier = priced tier (get catalog tier)

-- A quantity on an invoice is in hundredths.
pub record InvoiceLine : Type 0 where
  pub kind : String
  pub quantity : ℕ
  pub unit_cents : ℕ
  pub amount_cents : ℕ

pub record Invoice : Type 0 where
  pub org_id : String
  pub period_start : Time
  pub period_end : Time
  pub lines : List InvoiceLine
  pub total_cents : ℕ

-- `round2` of a positive quantity, in hundredths: half a hundredth is rounded up
abbrev pub round_two : Quantity → ℕ
round_two q = (q + 5000) / 10000

abbrev base_line : Plan → InvoiceLine
base_line plan = record {
  kind = String.◌++◌ "base-" plan.tier;
  quantity = 100;
  unit_cents = plan.monthly_base_cents;
  amount_cents = plan.monthly_base_cents;
}

abbrev pub cpu_lines : Plan → Quantity → List InvoiceLine
cpu_lines plan cpu_core_hours =
    if ltb plan.included_cpu_core_hours cpu_core_hours && ltb 0 plan.overage_cpu_cents_hour
    then record {
      kind = "overage-cpu-core-hour";
      quantity = round_two (cpu_core_hours - plan.included_cpu_core_hours);
      unit_cents = plan.overage_cpu_cents_hour;
      amount_cents =
          round_two (cpu_core_hours - plan.included_cpu_core_hours)
          * plan.overage_cpu_cents_hour
          / 100;
    }
      ∷ []
    else []

abbrev pub minutes_lines : Plan → Quantity → List InvoiceLine
minutes_lines plan build_minutes =
    if ltb plan.included_build_minutes build_minutes
    then record {
      kind = "throttled-build-minutes";
      quantity = round_two (build_minutes - plan.included_build_minutes);
      unit_cents = 0;
      amount_cents = 0;
    }
      ∷ []
    else []

-- the loop that sums the lines
unfoldable pub total_of : ℕ → List InvoiceLine → ℕ
total_of total [] = total
total_of total (l ∷ lines) = total_of (total + l.amount_cents) lines

unfoldable pub aggregate_invoice : String → Plan → Time → Time → Quantity → Quantity → Invoice
unfolding total_of
aggregate_invoice org_id plan start end build_minutes cpu_core_hours =
    let lines =
      base_line plan ∷ (cpu_lines plan cpu_core_hours ++ minutes_lines plan build_minutes) in
    record {
      org_id = org_id;
      period_start = start;
      period_end = end;
      lines = lines;
      total_cents = total_of 0 lines;
    }

pub record TierChange : Type 0 where
  pub org_id : String
  pub from_tier : String
  pub to_tier : String

unfoldable pub create_checkout : String → String → Outcome Error String
unfolding plan_for
create_checkout org_id tier = do
  p ← plan_for tier
  ok (String.◌++◌ "mock-checkout-" (String.◌++◌ org_id (String.◌++◌ "-" tier)))

-- an empty `from` is the free tier
abbrev pub with_from : TierChange → TierChange
with_from ch = if ch.from_tier == "" then record ch { from_tier = tier_free } else ch

abbrev pub check_change : TierChange → Outcome Error TierChange
check_change ch =
    if ch.org_id == ""
    then err org_required
    else do p ← plan_for (with_from ch).to_tier; ok (with_from ch)

abbrev pub decoded_change : Option TierChange → Outcome Error TierChange
decoded_change none = err undecodable
decoded_change (some ch) = check_change ch

-- `HandleWebhook`, over the JSON decoder
unfoldable pub handle_webhook : (Bytes → Option TierChange) → Bytes → Outcome Error TierChange
unfolding plan_for
handle_webhook decode payload = decoded_change (decode payload)

-- The atomic value: nothing, until a tier is stored.
pub record TierStore : Type 0 where
  pub current : Option String

unfoldable new_tier_store : String → TierStore
new_tier_store initial = record { current = some initial }

unfoldable get_tier : TierStore → String
get_tier s = elim s.current [ none ↦ tier_free | some t ↦ t ]

unfoldable set_tier : TierStore → String → TierStore
set_tier s tier = record { current = some tier }
