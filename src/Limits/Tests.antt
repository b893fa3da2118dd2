-- ===== src/Limits/Tests.antt =====
-- The rate limits at concrete instants.
use tenara.Prelude.{◌+◌, ◌-◌, ◌*◌, ◌≤◌, ◌≡◌, refl, List, [], ◌∷◌, get, arith, string_Eq}
use tenara.Limits.Bucket.{Time, TokenBucket, minute, new_token_bucket}
use tenara.Limits.Limiter.{
  Request, new_rate_limiter, admitted_for, served_alone, times_of, limiter_refines_buckets,
  limiter_bound,
}
use tenara.Limits.Gate.{
  BuildGate, Op, acquire_op, release_op, new_build_gate, running, run, run_capped,
}

-- two tokens, one more each minute
abbrev bucket : TokenBucket
bucket = new_token_bucket 2 1 0

-- a burst of three, then one call after a minute
abbrev burst : List Time
burst = 1 ∷ 2 ∷ 3 ∷ (minute + 1) ∷ []

-- the bucket after the two tokens of the first instant were taken
abbrev empty_bucket : TokenBucket
empty_bucket = record { last_refill = 0; tokens = 0; capacity = 2; per_minute = 1 }

abbrev requests : List Request
requests =
    record { key = "a"; now = 1 }
    ∷ record { key = "b"; now = 2 }
    ∷ record { key = "a"; now = 3 }
    ∷ []

limiter_refines_buckets_example :
    admitted_for "a" (new_rate_limiter 2 1) requests
    ≡ served_alone 2 1 (get [] "a") (times_of "a" requests)
unfolding new_rate_limiter
limiter_refines_buckets_example = limiter_refines_buckets "a" (new_rate_limiter 2 1) requests

limiter_bound_example :
    admitted_for "a" (new_rate_limiter 2 1) requests * minute ≤ 2 * minute + (9 - 1) * 1
unfolding times_of
limiter_bound_example = limiter_bound "a" 2 1 requests 1 9 (3 ∷ []) refl refl

abbrev calls : List Op
calls = acquire_op "a" ∷ acquire_op "b" ∷ acquire_op "a" ∷ release_op "b" ∷ []

run_capped_example : running (run (new_build_gate 1) calls) "a" ≤ 1
unfolding new_build_gate get
run_capped_example = run_capped (new_build_gate 1) calls "a" (omega arith)

abbrev full_gate : BuildGate
full_gate = record { in_flight = ("a", 1) ∷ []; limit = 1 }
