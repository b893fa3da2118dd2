-- ===== src/Limits/Gate.antt =====
-- control-plane/internal/limits/limits.go: `BuildGate`, which caps the builds of an organization
-- that run at once.
use tenara.Prelude.{
  ℕ, ◌+◌, ◌-◌, ◌*◌, ◌^◌, ◌≤◌, ◌<◌, String, ◌≡◌, refl, ◌∙◌, Bool, true, false, ◌&&◌, List, [], ◌∷◌,
  arith, ltb, leb, if◌then◌else◌, ◌==◌, nat_Eq, string_Eq, text_iff, text_refl, Map, put, get-put,
  get_or, int_Eq,
}

pub record BuildGate : Type 0 where
  pub in_flight : Map ℕ
  pub limit : ℕ

-- 30 s, in nanoseconds
abbrev build_retry_after : ℕ
build_retry_after = 30 * 10 ^ 9

unfoldable pub new_build_gate : ℕ → BuildGate
new_build_gate limit = record { in_flight = []; limit = limit }

-- g.inFlight[orgID], 0 for an organization that is not there
abbrev pub running : BuildGate → String → ℕ
running g org = get_or g.in_flight org 0

unfoldable try_acquire : BuildGate → String → BuildGate × Bool × ℕ
try_acquire g org =
    if leb g.limit (running g org)
    then (g, false, build_retry_after)
    else (record g { in_flight = put g.in_flight org (running g org + 1) }, true, 0)

unfoldable pub release : BuildGate → String → BuildGate
release g org =
    if ltb 0 (running g org)
    then record g { in_flight = put g.in_flight org (running g org - 1) }
    else g

pub data Op : Type 0 where
  acquire_op : String → Op
  release_op : String → Op

unfoldable pub step : BuildGate → Op → BuildGate
unfolding try_acquire release
step g (acquire_op org) = (try_acquire g org).0
step g (release_op org) = release g org

unfoldable pub run : BuildGate → List Op → BuildGate
run g [] = g
run g (o ∷ ops) = run (step g o) ops

-- The contract: for each organization a counter between 0 and the limit.
pub spec_step : ℕ → Op → String → ℕ → ℕ
spec_step limit (acquire_op org) k n = if org == k && ltb n limit then n + 1 else n
spec_step limit (release_op org) k n = if org == k then n - 1 else n

pub spec_run : ℕ → List Op → String → ℕ → ℕ
spec_run limit [] k n = n
spec_run limit (o ∷ ops) k n = spec_run limit ops k (spec_step limit o k n)

step-running :
    (g : BuildGate) (o : Op) (k : String)
    → (running (step g o) k ≡ spec_step g.limit o k (running g k)) × ((step g o).limit ≡ g.limit)
unfolding step spec_step
step-running g (acquire_op org) k =
    (ground (arith, get-put g.in_flight org k (running g org + 1), text_iff org k), ground arith)
step-running g (release_op org) k =
    (ground (arith, get-put g.in_flight org k (running g org - 1), text_iff org k), ground arith)

-- The gate refines the counters: after any calls, from any gate, each organization's running
-- builds are those of its own counter, whatever the other organizations did.
run-running :
    (g : BuildGate) (ops : List Op) (k : String)
    → running (run g ops) k ≡ spec_run g.limit ops k (running g k)
unfolding run spec_run
run-running g [] k = refl
run-running g (o ∷ ops) k =
    let (e, l) = step-running g o k in run-running (step g o) ops k ∙ rw (e, l) refl

spec_step-le : (limit n : ℕ) (o : Op) (k : String) → n ≤ limit → spec_step limit o k n ≤ limit
unfolding spec_step
spec_step-le limit n (acquire_op org) k h = ground arith
spec_step-le limit n (release_op org) k h = ground arith

spec_run-le :
    (limit n : ℕ) (ops : List Op) (k : String) → n ≤ limit → spec_run limit ops k n ≤ limit
unfolding spec_run
spec_run-le limit n [] k h = h
spec_run-le limit n (o ∷ ops) k h =
    spec_run-le limit (spec_step limit o k n) ops k (spec_step-le limit n o k h)

-- From a gate that respects its limit, no sequence of calls makes an organization run more builds
-- than the limit.
pub run_capped :
    (g : BuildGate) (ops : List Op) (k : String)
    → running g k ≤ g.limit
    → running (run g ops) k ≤ g.limit
run_capped g ops k h = rw run-running (spec_run-le g.limit (running g k) ops k h)

-- A refused build leaves the gate as it was and is told to come back in 30 s; a release of that
-- organization then makes room, if the limit is met and not zero.
refused_then_release :
    (g : BuildGate) (org : String)
    → 0 < g.limit
    → running g org ≤ g.limit
    → (try_acquire g org).1 ≡ false
    → (try_acquire g org ≡ (g, false, build_retry_after))
      × ((try_acquire (release g org) org).1 ≡ true)
unfolding try_acquire release
refused_then_release g org p v h =
    ground (arith, get-put g.in_flight org org (running g org - 1), text_refl org)
