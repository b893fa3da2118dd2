-- ===== src/Limits/Bucket.antt =====
-- control-plane/internal/limits/limits.go: `TokenBucket`. The source counts tokens in float64. Here a
-- token is `minute` ticks, so that a refill of `elapsed` nanoseconds at an integral rate per minute is
-- an exact number of ticks; the rounding of float64 is not modelled.
use tenara.Prelude.{
  ℕ, suc, ◌+◌, ◌-◌, ◌*◌, ◌/◌, ◌^◌, ◌≤◌, ◌≡◌, inl, inr, Bool, true, false, List, [], ◌∷◌, arith, ltb,
  leb, if◌then◌else◌, nat_Eq, string_Eq, Bool-cases, all, int_Eq,
}

-- an instant or a duration, in nanoseconds
abbrev pub Time : Type 0
Time = ℕ

-- time.Minute, and the ticks of one token
abbrev pub minute : ℕ
minute = 60 * 10 ^ 9

pub record TokenBucket : Type 0 where
  pub last_refill : Time
  pub tokens : ℕ
  pub capacity : ℕ
  pub per_minute : ℕ

unfoldable pub new_token_bucket : ℕ → ℕ → Time → TokenBucket
new_token_bucket capacity per_minute now = record {
  last_refill = now;
  tokens = capacity * minute;
  capacity = capacity;
  per_minute = per_minute;
}

abbrev capped : ℕ → ℕ → ℕ
capped limit t = if ltb limit t then limit else t

-- the `if elapsed > 0` block
unfoldable pub refill : TokenBucket → Time → TokenBucket
refill b now =
    if ltb b.last_refill now
    then record b {
      tokens = capped (b.capacity * minute) (b.tokens + (now - b.last_refill) * b.per_minute);
      last_refill = now;
    }
    else b

unfoldable pub take_token : TokenBucket → TokenBucket × Bool × Time
take_token b =
    if ltb b.tokens minute
    then (b, false, (minute - b.tokens) / b.per_minute)
    else (record b { tokens = b.tokens - minute }, true, 0)

unfoldable pub allow : TokenBucket → Time → TokenBucket × Bool × Time
unfolding refill take_token
allow b now = take_token (refill b now)

abbrev pub IsValid : TokenBucket → Type 0
IsValid b = b.tokens ≤ b.capacity * minute

-- A bucket never holds more than its capacity, and its capacity and rate never change.
allow-IsValid :
    (b : TokenBucket) (now : Time)
    → IsValid b
    → IsValid (allow b now).0
      × ((allow b now).0.capacity ≡ b.capacity)
      × ((allow b now).0.per_minute ≡ b.per_minute)
unfolding allow
allow-IsValid b now v = ground arith

-- the requests that a bucket admits, each at its instant
unfoldable pub serve : TokenBucket → List Time → TokenBucket × ℕ
serve b [] = (b, 0)
serve b (now ∷ times) =
    let (b', admitted, _) = allow b now in
    let (b'', n) = serve b' times in (b'', if admitted then suc n else n)

abbrev count_of : Bool → ℕ
count_of true = 1
count_of false = 0

-- A call pays for the token that it takes out of the refill since the last one.
allow_pays :
    (b : TokenBucket) (now : Time)
    → (count_of (allow b now).1 * minute + (allow b now).0.tokens
        ≤ b.tokens + ((allow b now).0.last_refill - b.last_refill) * b.per_minute)
      × (b.last_refill ≤ (allow b now).0.last_refill)
unfolding allow
allow_pays b now = elim (Bool-cases (ltb b.last_refill now)) [
  | inl e ↦ ground arith
  | inr e ↦ ground arith
]

span : (a b c r : ℕ) → a ≤ b → b ≤ c → (b - a) * r + (c - b) * r ≡ (c - a) * r
span a b c r h k = grind arith

paid_twice :
    (c n t₀ t₁ t₂ l₀ l₁ l₂ r : ℕ)
    → c * minute + t₁ ≤ t₀ + (l₁ - l₀) * r
    → l₀ ≤ l₁
    → n * minute + t₂ ≤ t₁ + (l₂ - l₁) * r
    → l₁ ≤ l₂
    → (c + n) * minute + t₂ ≤ t₀ + (l₂ - l₀) * r
paid_twice c n t₀ t₁ t₂ l₀ l₁ l₂ r p h q k = omega (arith, span l₀ l₁ l₂ r h k)

count_if : (b : Bool) (n : ℕ) → (if b then suc n else n) ≡ count_of b + n
count_if true n = omega arith
count_if false n = omega arith

allow_rate : (b : TokenBucket) (now : Time) → (allow b now).0.per_minute ≡ b.per_minute
unfolding allow
allow_rate b now = ground arith

-- all the instants lie before `bound`
abbrev pub before : Time → List Time → Bool
before bound times = all (λ t. leb t bound) times

serve_pays :
    (b : TokenBucket) (times : List Time)
    → ((serve b times).1 * minute + (serve b times).0.tokens
        ≤ b.tokens + ((serve b times).0.last_refill - b.last_refill) * b.per_minute)
      × (b.last_refill ≤ (serve b times).0.last_refill)
unfolding serve
serve_pays b [] = (omega arith, omega arith)
serve_pays b (now ∷ times) =
    let (paid, later) = allow_pays b now in
    let (rest, latest) = serve_pays (allow b now).0 times in
    (
      rw count_if (
          paid_twice (count_of (allow b now).1) (serve (allow b now).0 times).1 b.tokens
            (allow b now).0.tokens (serve (allow b now).0 times).0.tokens b.last_refill
            (allow b now).0.last_refill (serve (allow b now).0 times).0.last_refill b.per_minute
            paid later (rw allow_rate at rest) latest),
      omega arith,
    )

last-allow :
    (b : TokenBucket) (now bound : Time)
    → b.last_refill ≤ bound
    → now ≤ bound
    → (allow b now).0.last_refill ≤ bound
unfolding allow
last-allow b now bound h k = ground arith

last-serve :
    (b : TokenBucket) (times : List Time) (bound : Time)
    → b.last_refill ≤ bound
    → before bound times ≡ true
    → (serve b times).0.last_refill ≤ bound
unfolding serve
last-serve b [] bound h k = h
last-serve b (now ∷ times) bound h k =
    last-serve (allow b now).0 times bound (last-allow b now bound h (ground arith)) (ground arith)

-- The rate limit: whatever the instants of the calls, and also where the clock steps back, up to
-- any later instant a bucket admits no more than its capacity and what its rate refills in the
-- time since its last refill.
pub admitted_bound :
    (b : TokenBucket) (times : List Time) (bound : Time)
    → IsValid b
    → b.last_refill ≤ bound
    → before bound times ≡ true
    → (serve b times).1 * minute ≤ b.capacity * minute + (bound - b.last_refill) * b.per_minute
admitted_bound b times bound v h k =
    let (paid, later) = serve_pays b times in
    let last = last-serve b times bound h k in
    omega (arith, span b.last_refill (serve b times).0.last_refill bound b.per_minute later last)
