-- ===== src/Idempotency/Tests.antt =====
-- Claims of one key by two requests.
use tenara.Prelude.{◌≡◌, refl, false, none, List, [], ◌∷◌, arith, string_Eq}
use tenara.Bytes.{codes}
use tenara.Orchestrator.Deploy.{Time}
use tenara.Prelude.{some}
use tenara.Idempotency.{Table, Request, claim_idempotency, begin_idem}
use tenara.Idempotency.Once.{Op, claim_op, complete_op, cleanup_op, run, reaches_handler, idem_once}

abbrev empty_table : Table
empty_table = λ k o. none

-- a claim of another key, the completion of the first request, and a cleanup
abbrev between : List (Op × Time)
between =
    (claim_op "k-2" "acme" (codes "b"), 20)
    ∷ (complete_op "k-1" "acme" 201 (codes "{}"), 30)
    ∷ (cleanup_op, 40)
    ∷ []

abbrev post : Request
post = record {
  method = "POST";
  path = "/v1/apps";
  key = "k-1";
  org_id = some "acme";
  body = some (codes "a");
}

abbrev other_post : Request
other_post = record post { path = "/v1/apps/a1/deploy"; body = some (codes "c") }

idem_once_example :
    reaches_handler
      (begin_idem
        (λ s. s)
        (run (begin_idem (λ s. s) empty_table post 10).0 between)
        other_post
        50).1
    ≡ false
unfolding begin_idem claim_idempotency
idem_once_example =
    idem_once (λ s. s) empty_table post other_post 10 50 "k-1" "acme" between refl refl
      (omega arith) refl refl refl
