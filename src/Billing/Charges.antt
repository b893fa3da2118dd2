-- ===== src/Billing/Charges.antt =====
-- What an invoice costs.
use tenara.Prelude.{
  ℕ, ◌+◌, ◌-◌, ◌*◌, ◌/◌, String, ◌≡◌, refl, ap, ◌∙◌, inl, inr, List, [], ◌∷◌, ◌++◌, arith, ltb,
  nat_Eq, string_Eq, Bool-cases, int_Eq,
}
use tenara.Orchestrator.Deploy.{Time}
use tenara.Billing.{
  Plan, Quantity, round_two, cpu_lines, minutes_lines, total_of, aggregate_invoice,
}

total-append : (t : ℕ) (xs ys : List _) → total_of t (xs ++ ys) ≡ total_of (total_of t xs) ys
unfolding total_of
total-append t [] ys = refl
total-append t (x ∷ xs) ys = total-append (t + x.amount_cents) xs ys

minutes_free : (t : ℕ) (plan : Plan) (q : Quantity) → total_of t (minutes_lines plan q) ≡ t
unfolding total_of
minutes_free t plan q = ground arith

no_rate : (t n rate : ℕ) → rate ≡ 0 → t ≡ t + n * rate / 100
no_rate t n rate z = rw z (omega arith)

within : (t extra rate : ℕ) → extra ≡ 0 → t ≡ t + round_two extra * rate / 100
within t extra rate z = rw z (omega arith)

cpu_cost :
    (t : ℕ) (plan : Plan) (q : Quantity)
    → total_of t (cpu_lines plan q)
      ≡ t + round_two (q - plan.included_cpu_core_hours) * plan.overage_cpu_cents_hour / 100
unfolding total_of
cpu_cost t plan q = elim (Bool-cases (ltb plan.included_cpu_core_hours q)) [
  | inl e ↦ elim (Bool-cases (ltb 0 plan.overage_cpu_cents_hour)) [
    | inl f ↦ rw (e, f) refl
    | inr f ↦
        rw (e, f)
          (no_rate t (round_two (q - plan.included_cpu_core_hours)) plan.overage_cpu_cents_hour
            (ground arith))
  ]
  | inr e ↦
      rw e (within t (q - plan.included_cpu_core_hours) plan.overage_cpu_cents_hour (ground arith))
]

plus_zero : (n : ℕ) → 0 + n ≡ n
plus_zero n = omega arith

-- An invoice costs the base of the plan and, for the CPU hours beyond the included ones, rounded to
-- hundredths, the plan's rate, cut to whole cents: build minutes never cost anything.
pub invoice_total :
    (org_id : String) (plan : Plan) (start end : Time) (build_minutes cpu_core_hours : Quantity)
    → (aggregate_invoice org_id plan start end build_minutes cpu_core_hours).total_cents
      ≡ plan.monthly_base_cents
        + round_two (cpu_core_hours - plan.included_cpu_core_hours)
          * plan.overage_cpu_cents_hour
          / 100
unfolding aggregate_invoice
invoice_total org_id plan start end build_minutes cpu_core_hours =
    ap (λ n. total_of n (cpu_lines plan cpu_core_hours ++ minutes_lines plan build_minutes))
      (plus_zero plan.monthly_base_cents)
    ∙ total-append plan.monthly_base_cents (cpu_lines plan cpu_core_hours)
        (minutes_lines plan build_minutes)
    ∙ minutes_free (total_of plan.monthly_base_cents (cpu_lines plan cpu_core_hours)) plan
        build_minutes
    ∙ cpu_cost plan.monthly_base_cents plan cpu_core_hours
