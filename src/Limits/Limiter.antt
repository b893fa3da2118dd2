-- ===== src/Limits/Limiter.antt =====
-- control-plane/internal/limits/limits.go: `RateLimiter`, one bucket for each token or IP. The
-- mutex makes `Allow` atomic; the bucket behind the map's pointer is written back after the call.
use tenara.Prelude.{
  ℕ, suc, ◌+◌, ◌-◌, ◌*◌, ◌≤◌, String, ◌≡◌, refl, sym, ap, ◌∙◌, subst, inl, inr, Bool, true, false,
  ◌&&◌, Option, none, some, List, [], ◌∷◌, arith, if◌then◌else◌, ◌==◌, nat_Eq, string_Eq, text_refl,
  text-cases, Map, get, put, get-put_self, get-put_ne, int_Eq,
}
use tenara.Limits.Bucket
use tenara.Limits.Bucket.{
  Time, TokenBucket, minute, new_token_bucket, IsValid, serve, before, admitted_bound,
}

pub record RateLimiter : Type 0 where
  pub buckets : Map TokenBucket
  pub capacity : ℕ
  pub per_minute : ℕ

unfoldable pub new_rate_limiter : ℕ → ℕ → RateLimiter
new_rate_limiter capacity per_minute = record {
  buckets = [];
  capacity = capacity;
  per_minute = per_minute;
}

abbrev bucket_or_new : RateLimiter → Option TokenBucket → Time → TokenBucket
bucket_or_new r none now = new_token_bucket r.capacity r.per_minute now
bucket_or_new r (some b) now = b

unfoldable pub allow : RateLimiter → String → Time → RateLimiter × Bool × Time
allow r key now =
    let (b, admitted, wait) = Bucket.allow (bucket_or_new r (get r.buckets key) now) now in
    (record r { buckets = put r.buckets key b }, admitted, wait)

pub record Request : Type 0 where
  pub key : String
  pub now : Time

-- how many of the requests of one key are admitted, among those of all keys
pub admitted_for : String → RateLimiter → List Request → ℕ
admitted_for k r [] = 0
admitted_for k r (q ∷ requests) =
    let (r', admitted, _) = allow r q.key q.now in
    let n = admitted_for k r' requests in if q.key == k && admitted then suc n else n

-- the instants of the requests of one key
unfoldable pub times_of : String → List Request → List Time
times_of k [] = []
times_of k (q ∷ requests) =
    let rest = times_of k requests in if q.key == k then q.now ∷ rest else rest

-- what one bucket, created at its first request, admits alone
pub served_alone : ℕ → ℕ → Option TokenBucket → List Time → ℕ
served_alone capacity per_minute (some b) times = (serve b times).1
served_alone capacity per_minute none [] = 0
served_alone capacity per_minute none (t ∷ times) =
    (serve (new_token_bucket capacity per_minute t) (t ∷ times)).1

served_next :
    (r : RateLimiter) (o : Option TokenBucket) (now : Time) (times : List Time)
    → served_alone r.capacity r.per_minute o (now ∷ times) ≡ (
        if (Bucket.allow (bucket_or_new r o now) now).1
        then suc (serve (Bucket.allow (bucket_or_new r o now) now).0 times).1
        else (serve (Bucket.allow (bucket_or_new r o now) now).0 times).1)
unfolding served_alone serve
served_next r none now times = refl
served_next r (some b) now times = refl

served_none :
    (capacity per_minute : ℕ) (o : Option TokenBucket) → served_alone capacity per_minute o [] ≡ 0
unfolding served_alone serve
served_none c p none = refl
served_none c p (some b) = refl

-- what the requests after one of `key` find, at `key` and elsewhere
after_own :
    (r : RateLimiter) (key : String) (now : Time) (times : List Time)
    → served_alone
        (allow r key now).0.capacity
        (allow r key now).0.per_minute
        (get (allow r key now).0.buckets key)
        times
      ≡ (serve (Bucket.allow (bucket_or_new r (get r.buckets key) now) now).0 times).1
unfolding allow served_alone
after_own r key now times =
    ap (λ o. served_alone r.capacity r.per_minute o times) (get-put_self r.buckets key _)

after_other :
    (r : RateLimiter) (key k : String) (now : Time) (times : List Time)
    → (key == k) ≡ false
    → served_alone
        (allow r key now).0.capacity
        (allow r key now).0.per_minute
        (get (allow r key now).0.buckets k)
        times
      ≡ served_alone r.capacity r.per_minute (get r.buckets k) times
unfolding allow
after_other r key k now times h =
    ap (λ o. served_alone r.capacity r.per_minute o times) (get-put_ne r.buckets key k _ h)

answer_own :
    (r : RateLimiter) (key : String) (now : Time)
    → (allow r key now).1 ≡ (Bucket.allow (bucket_or_new r (get r.buckets key) now) now).1
unfolding allow
answer_own r key now = refl

-- The limiter agrees with the buckets on the requests of `k`.
abbrev Agrees : String → RateLimiter → List Request → Type 0
Agrees k r requests =
    admitted_for k r requests
    ≡ served_alone r.capacity r.per_minute (get r.buckets k) (times_of k requests)

Agrees-own :
    (r : RateLimiter) (q : Request) (requests : List Request)
    → Agrees q.key (allow r q.key q.now).0 requests
    → Agrees q.key r (q ∷ requests)
unfolding admitted_for times_of
Agrees-own r q requests ih = rw (
  text_refl q.key,
  served_next r (get r.buckets q.key) q.now (times_of q.key requests),
  answer_own r q.key q.now,
  ih ∙ after_own r q.key q.now (times_of q.key requests),
)

Agrees-other :
    (k : String) (r : RateLimiter) (q : Request) (requests : List Request)
    → (q.key == k) ≡ false
    → Agrees k (allow r q.key q.now).0 requests
    → Agrees k r (q ∷ requests)
unfolding admitted_for times_of
Agrees-other k r q requests n ih = rw n (ih ∙ after_other r q.key k q.now (times_of k requests) n)

-- Keys do not disturb one another: of the requests of a key, the limiter admits as many as a
-- bucket of that key's own would that saw no other request.
pub limiter_refines_buckets :
    (k : String) (r : RateLimiter) (requests : List Request)
    → admitted_for k r requests
      ≡ served_alone r.capacity r.per_minute (get r.buckets k) (times_of k requests)
unfolding admitted_for times_of
limiter_refines_buckets k r [] = sym (served_none r.capacity r.per_minute (get r.buckets k))
limiter_refines_buckets k r (q ∷ requests) = elim (text-cases q.key k) [
  | inl e ↦
      subst (λ j. Agrees j r (q ∷ requests)) e
        (Agrees-own r q requests (limiter_refines_buckets q.key (allow r q.key q.now).0 requests))
  | inr n ↦
      Agrees-other k r q requests n (limiter_refines_buckets k (allow r q.key q.now).0 requests)
]

new_bucket_IsValid :
    (capacity per_minute : ℕ) (now : Time) → IsValid (new_token_bucket capacity per_minute now)
unfolding new_token_bucket
new_bucket_IsValid capacity per_minute now = omega arith

alone_bound :
    (capacity per_minute : ℕ) (first bound : Time) (times : List Time)
    → first ≤ bound
    → before bound times ≡ true
    → served_alone capacity per_minute none (first ∷ times) * minute
      ≤ capacity * minute + (bound - first) * per_minute
unfolding served_alone new_token_bucket
alone_bound capacity per_minute first bound times h k =
    admitted_bound (new_token_bucket capacity per_minute first) (first ∷ times) bound
      (new_bucket_IsValid capacity per_minute first) h (ground arith)

-- The limit that a client meets: of a new limiter's requests with a key, the first of them at
-- `first` and none after `bound`, no more are admitted than the capacity and what the rate refills
-- between the two, whatever requests with other keys come between.
pub limiter_bound :
    (k : String) (capacity per_minute : ℕ) (requests : List Request) (first bound : Time)
    (later : List Time)
    → times_of k requests ≡ first ∷ later
    → before bound (times_of k requests) ≡ true
    → admitted_for k (new_rate_limiter capacity per_minute) requests * minute
      ≤ capacity * minute + (bound - first) * per_minute
unfolding new_rate_limiter get
limiter_bound k capacity per_minute requests first bound later e b =
    let all_before : before bound (first ∷ later) ≡ true = rw e at b in
    rw (limiter_refines_buckets k (new_rate_limiter capacity per_minute) requests, e)
      (alone_bound capacity per_minute first bound later (ground arith) (ground arith))
