-- ===== src/Repair/Tests.antt =====
-- The repair loop with concrete generators.
use tenara.Prelude.{ℕ, ◌≤◌, ◌≡◌, true, Option, none, some, List, ◌==◌, nat_Eq, if◌then◌else◌}
use tenara.Repair.{Loop, Failure, Call, no_patch, max_attempts, run}
use tenara.Repair.Cap.{attempts, count_up, is_final, run_ends}

-- a generator whose second patch is the first that verifies
abbrev second_works : Loop
second_works = record {
  generate_patch = λ n. (no_patch, none);
  apply = some (λ n p. if n == 2 then none else some "probe failed");
  record_attempt = none;
}

run_ends_example :
    (e : Option Failure) × (calls : List Call) × (k : ℕ) × (run second_works ≡ some (e, calls))
    × (attempts calls ≡ count_up 1 k)
    × (k ≤ max_attempts)
    × (is_final e ≡ true)
run_ends_example = run_ends second_works
