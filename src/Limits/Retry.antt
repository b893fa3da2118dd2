-- ===== src/Limits/Retry.antt =====
-- The wait that a refused call is told.
use tenara.Prelude.{
  ℕ, ◌+◌, ◌-◌, ◌*◌, ◌/◌, ◌≤◌, ◌<◌, ◌≡◌, sym, ap, ◌∙◌, ◌≢◌, inl, inr, true, false, arith, ltb,
  ltb→lt, ltb→ge, nat_Eq, string_Eq, Bool-cases, tests, int_Eq,
}
use tenara.Limits.Bucket.{Time, TokenBucket, minute, refill, take_token, allow}

wait_below : (d w r : ℕ) → 0 < r → w < d / r → w * r < d
wait_below d w r h k = grind arith

wait_above : (d w r : ℕ) → 0 < r → d / r < w → d ≤ w * r
wait_above d w r h k = grind arith

take_refused :
    (r : TokenBucket)
    → (take_token r).1 ≡ false
    → (r.tokens < minute) × (take_token r ≡ (r, false, (minute - r.tokens) / r.per_minute))
unfolding take_token
take_refused r h = ground arith

-- what a bucket that was refilled at `r.last_refill` answers to its next call
answer_sooner :
    (r : TokenBucket) (later : Time)
    → 0 < r.per_minute
    → r.tokens < minute
    → r.last_refill < later
    → later < r.last_refill + (minute - r.tokens) / r.per_minute
    → (allow r later).1 ≡ false
unfolding allow
answer_sooner r later p t l k =
    let short : (later - r.last_refill) * r.per_minute < minute - r.tokens =
      wait_below (minute - r.tokens) (later - r.last_refill) r.per_minute p (omega arith) in
    ground arith

answer_later :
    (r : TokenBucket) (later : Time)
    → 0 < r.per_minute
    → 0 < r.capacity
    → r.last_refill + (minute - r.tokens) / r.per_minute < later
    → (allow r later).1 ≡ true
unfolding allow
answer_later r later p c k =
    let enough : minute - r.tokens ≤ (later - r.last_refill) * r.per_minute =
      wait_above (minute - r.tokens) (later - r.last_refill) r.per_minute p (omega arith) in
    let room : minute ≤ r.capacity * minute = omega arith in ground arith

-- the instant and the settings that a refill leaves
refill_facts :
    (b : TokenBucket) (now : Time)
    → b.last_refill ≤ now
    → ((refill b now).last_refill ≡ now)
      × ((refill b now).per_minute ≡ b.per_minute)
      × ((refill b now).capacity ≡ b.capacity)
unfolding refill
refill_facts b now h = ground arith

next_answer :
    (r : TokenBucket) (now later : Time)
    → r.last_refill ≡ now
    → 0 < r.per_minute
    → 0 < r.capacity
    → r.tokens < minute
    → now < later
    → later ≢ now + (minute - r.tokens) / r.per_minute
    → (allow r later).1 ≡ ltb (now + (minute - r.tokens) / r.per_minute) later
next_answer r now later e p c t l n =
    elim (Bool-cases (ltb (now + (minute - r.tokens) / r.per_minute) later)) [
      | inl k ↦
          answer_later r later p c
            (omega (tests, ltb→lt (now + (minute - r.tokens) / r.per_minute) later k))
          ∙ sym k
      | inr k ↦
          answer_sooner r later p t (omega arith)
            (omega (tests, ltb→ge (now + (minute - r.tokens) / r.per_minute) later k))
          ∙ sym k
    ]

-- The retry hint is exact: after a refusal, the bucket refuses a next call that comes before the
-- hinted wait is over and admits one that comes after it. At the hinted instant itself, which is cut
-- to whole nanoseconds, it may do either.
pub retry_after_exact :
    (b : TokenBucket) (now later : Time)
    → 0 < b.per_minute
    → 0 < b.capacity
    → b.last_refill ≤ now
    → (allow b now).1 ≡ false
    → now < later
    → later ≢ now + (allow b now).2
    → (allow (allow b now).0 later).1 ≡ ltb (now + (allow b now).2) later
unfolding allow
retry_after_exact b now later p c o d l n =
    let (short, e) = take_refused (refill b now) d in
    let (last, rate, cap) = refill_facts b now o in
    rw e (
      next_answer (refill b now) now later last (rw rate p) (rw cap c) short l
        (λ q. n (q ∙ sym (ap (λ t. now + t.2) e))))
