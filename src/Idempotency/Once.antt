-- ===== src/Idempotency/Once.antt =====
-- A key is claimed once until it expires, and its response is replayed.
use tenara.Prelude.{Outcome, ok, err, not, ◌||◌, ◌++◌}
use tenara.Prelude.{
  ℕ, ◌+◌, ◌<◌, String, ◌≡◌, refl, sym, ap, ◌∙◌, subst, inl, inr, Bool, true, false, ◌&&◌, Option,
  none, some, List, [], ◌∷◌, arith, ltb, leb, nat_eq, if◌then◌else◌, nat_eq_iff, ◌==◌, nat_Eq,
  string_Eq, text_iff, text_refl, Bool-cases, all, int_Eq,
}
use tenara.Bytes.{Bytes, codes, same}
use tenara.Orchestrator.Deploy.{Time}
use tenara.Idempotency.{
  Request, Begin, plain, claimed, replayed, refused, replay, begin_body, begin_org, begin_idem,
  is_mutating, Problem, load_idempotent_response,
}
use tenara.Idempotency.{
  Row, Table, set_row, unexpired, fresh_row, time_to_live, insert_row, claim_idempotency,
  complete_idempotency, completed, cleanup_expired_idempotency,
}

-- The statements of several requests, in the order in which the database runs them.
pub data Op : Type 0 where
  claim_op : String → String → Bytes → Op
  complete_op : String → String → ℕ → Bytes → Op
  cleanup_op : Op

unfoldable pub step : Table → Op → Time → Table
step t (claim_op key org hash) now = (claim_idempotency t key org hash now).0
step t (complete_op key org status body) now = complete_idempotency t key org status body
step t cleanup_op now = cleanup_expired_idempotency t now

unfoldable pub run : Table → List (Op × Time) → Table
run t [] = t
run t ((o, now) ∷ ops) = run (step t o now) ops

-- The row is there, holds the request and expires at `e`.
abbrev pub holds : Bytes → Time → Option Row → Bool
holds hash e none = false
holds hash e (some row) = same row.request_hash hash && nat_eq row.expires_at e

-- before the time a row does not expire
unexpired_keeps :
    (hash : Bytes) (e now : Time) (o : Option Row)
    → now < e
    → holds hash e o ≡ true
    → unexpired now o ≡ o
unexpired_keeps hash e now none n h = cc
unexpired_keeps hash e now (some row) n h = rw (lasts row.expires_at e now n (ground arith)) refl
  where
    lasts : (x e now : ℕ) → now < e → nat_eq x e ≡ true → leb x now ≡ false
    lasts x e now n h = ground arith

completed_keeps :
    (hash : Bytes) (e : Time) (status : ℕ) (body : Bytes) (o : Option Row)
    → holds hash e o ≡ true
    → holds hash e (completed status body o) ≡ true
completed_keeps hash e status body none h = cc
completed_keeps hash e status body (some row) h = h

insert_keeps :
    (t : Table) (key org k o : String) (hash h' : Bytes) (e now : Time) (row : Option Row)
    → holds hash e (t k o) ≡ true
    → (k == key && o == org) ≡ false
    → holds hash e ((insert_row t key org h' now row).0 k o) ≡ true
insert_keeps t key org k o hash h' e now none h d = rw d h
insert_keeps t key org k o hash h' e now (some row) h d = h

insert_there :
    (t : Table) (key org : String) (hash h' : Bytes) (e now : Time) (o : Option Row)
    → holds hash e o ≡ true
    → holds hash e (t key org) ≡ true
    → (holds hash e ((insert_row t key org h' now o).0 key org) ≡ true)
      × ((insert_row t key org h' now o).1 ≡ false)
insert_there t key org hash h' e now none h k = cc
insert_there t key org hash h' e now (some row) h k = (k, refl)

branch_holds :
    (b : Bool) (hash : Bytes) (e : Time) (x y : Option Row)
    → holds hash e x ≡ true
    → holds hash e y ≡ true
    → holds hash e (if b then x else y) ≡ true
branch_holds true hash e x y h k = h
branch_holds false hash e x y h k = k

-- A claim of a key whose row has not expired is refused and keeps the row.
claim_there :
    (t : Table) (key org : String) (hash h' : Bytes) (e now : Time)
    → now < e
    → holds hash e (t key org) ≡ true
    → (holds hash e ((claim_idempotency t key org h' now).0 key org) ≡ true)
      × ((claim_idempotency t key org h' now).1 ≡ false)
unfolding claim_idempotency
claim_there t key org hash h' e now n h =
    let u = unexpired_keeps hash e now (t key org) n h in
    let x : holds hash e (unexpired now (t key org)) ≡ true = ap (holds hash e) u ∙ h in
    insert_there (set_row t key org (unexpired now (t key org))) key org hash h' e now
      (unexpired now (t key org)) x
      (branch_holds (key == key && org == org) hash e (unexpired now (t key org)) (t key org) x h)

claim_other :
    (t : Table) (key org k o : String) (hash h' : Bytes) (e now : Time)
    → (k == key && o == org) ≡ false
    → holds hash e (t k o) ≡ true
    → holds hash e ((claim_idempotency t key org h' now).0 k o) ≡ true
unfolding claim_idempotency
claim_other t key org k o hash h' e now d h =
    insert_keeps (set_row t key org (unexpired now (t key org))) key org k o hash h' e now
      (unexpired now (t key org)) (rw d h) d

same_key : (k key o org : String) → (k == key && o == org) ≡ true → (key ≡ k) × (org ≡ o)
same_key k key o org h = (ground (arith, text_iff k key), ground (arith, text_iff o org))

step_keeps :
    (t : Table) (op : Op) (k o : String) (hash : Bytes) (e now : Time)
    → now < e
    → holds hash e (t k o) ≡ true
    → holds hash e (step t op now k o) ≡ true
unfolding step complete_idempotency cleanup_expired_idempotency
step_keeps t (claim_op key org h') k o hash e now n h = elim (Bool-cases (k == key && o == org)) [
  | inl s ↦
      let (a, b) = same_key k key o org s in
      subst (λ x. holds hash e ((claim_idempotency t x org h' now).0 k o) ≡ true) (sym a)
        (subst (λ y. holds hash e ((claim_idempotency t k y h' now).0 k o) ≡ true) (sym b)
          (claim_there t k o hash h' e now n h).0)
  | inr d ↦ claim_other t key org k o hash h' e now d h
]
step_keeps t (complete_op key org status body) k o hash e now n h =
    elim (Bool-cases (k == key && o == org)) [
      | inl s ↦
          let (a, b) = same_key k key o org s in
          rw s (
            subst (λ x. holds hash e (completed status body (t x org)) ≡ true) (sym a)
              (subst (λ y. holds hash e (completed status body (t k y)) ≡ true) (sym b)
                (completed_keeps hash e status body (t k o) h)))
      | inr d ↦ rw d h
    ]
step_keeps t cleanup_op k o hash e now n h =
    ap (holds hash e) (unexpired_keeps hash e now (t k o) n h) ∙ h

run_keeps :
    (t : Table) (ops : List (Op × Time)) (k o : String) (hash : Bytes) (e : Time)
    → all (λ q. ltb q.1 e) ops ≡ true
    → holds hash e (t k o) ≡ true
    → holds hash e (run t ops k o) ≡ true
unfolding run
run_keeps t [] k o hash e a h = h
run_keeps t ((op, now) ∷ ops) k o hash e a h =
    run_keeps (step t op now) ops k o hash e (ground arith)
      (step_keeps t op k o hash e now (ground arith) h)

same_refl : (s : Bytes) → same s s ≡ true
unfolding same
same_refl [] = refl
same_refl (c ∷ s) = ground (arith, same_refl s, nat_eq_iff c c)

fresh_holds :
    (hash : Bytes) (now : Time) → holds hash (now + time_to_live) (some (fresh_row hash now)) ≡ true
fresh_holds hash now =
    ground (arith, same_refl hash, nat_eq_iff (now + time_to_live) (now + time_to_live))

insert_first :
    (t : Table) (key org : String) (hash : Bytes) (now : Time) (o : Option Row)
    → (insert_row t key org hash now o).1 ≡ true
    → holds hash (now + time_to_live) ((insert_row t key org hash now o).0 key org) ≡ true
insert_first t key org hash now none h = rw (text_refl key, text_refl org) (fresh_holds hash now)
insert_first t key org hash now (some row) h = cc

claim_first :
    (t : Table) (key org : String) (hash : Bytes) (now : Time)
    → (claim_idempotency t key org hash now).1 ≡ true
    → holds hash (now + time_to_live) ((claim_idempotency t key org hash now).0 key org) ≡ true
unfolding claim_idempotency
claim_first t key org hash now h =
    insert_first (set_row t key org (unexpired now (t key org))) key org hash now
      (unexpired now (t key org)) h

claim_refused :
    (t : Table) (key org : String) (hash other : Bytes) (now later : Time) (ops : List (Op × Time))
    → (claim_idempotency t key org hash now).1 ≡ true
    → all (λ q. ltb q.1 (now + time_to_live)) ops ≡ true
    → later < now + time_to_live
    → (claim_idempotency (run (claim_idempotency t key org hash now).0 ops) key org other later).1
      ≡ false
claim_refused t key org hash other now later ops h a n =
    (claim_there (run (claim_idempotency t key org hash now).0 ops) key org hash other
      (now + time_to_live) later n
      (run_keeps (claim_idempotency t key org hash now).0 ops key org hash (now + time_to_live) a
        (claim_first t key org hash now h))).1

-- the request goes to the handler
abbrev pub reaches_handler : Begin → Bool
reaches_handler plain = true
reaches_handler (claimed key org) = true
reaches_handler (replayed status body) = false
reaches_handler (refused status) = false

answered_not_first :
    (first : Bool) (key org : String) (m : Outcome Problem (ℕ × Bytes))
    → first ≡ false
    → reaches_handler (if first then claimed key org else replay m) ≡ false
answered_not_first true key org m h = cc
answered_not_first false key org (ok (status, body)) h = refl
answered_not_first false key org (err p) h = refl

claimed_first :
    (first : Bool) (key org : String) (m : Outcome Problem (ℕ × Bytes)) {k o : String}
    → (if first then claimed key org else replay m) ≡ claimed k o
    → (first ≡ true) × (key ≡ k) × (org ≡ o)
claimed_first true key org m h = (refl, cc, cc)
claimed_first false key org (ok (status, body)) h = cc
claimed_first false key org (err p) h = cc

-- what a claim of `idem` has behind it: the claim of the key, and the table that it leaves
abbrev Claimed : Table → Time → String → String → Table → Type 0
Claimed t now key org t' =
    (hash : Bytes) × ((claim_idempotency t key org hash now).1 ≡ true)
    × (t' ≡ (claim_idempotency t key org hash now).0)

body_claimed :
    (digest : Bytes → Bytes) (t : Table) (r : Request) (now : Time) (o : String) (b : Option Bytes)
    {key org : String}
    → (begin_body digest t r now o b).1 ≡ claimed key org
    → (r.key ≡ key) × (o ≡ org) × Claimed t now key org (begin_body digest t r now o b).0
body_claimed digest t r now o none h = cc
body_claimed digest t r now o (some raw) {key} {org} h =
    let hash = digest (codes r.method ++ (codes r.path ++ raw)) in
    let t' = (claim_idempotency t r.key o hash now).0 in
    let (f, e, g) =
      claimed_first (claim_idempotency t r.key o hash now).1 r.key o
        (load_idempotent_response t' r.key o hash) h in
    (
      e,
      g,
      subst (λ k. Claimed t now k org t') e
          (subst (λ q. Claimed t now r.key q t') g (hash, f, refl)),
    )

org_claimed :
    (digest : Bytes → Bytes) (t : Table) (r : Request) (now : Time) (m : Option String)
    {key org : String}
    → (begin_org digest t r now m).1 ≡ claimed key org
    → (r.key ≡ key) × Claimed t now key org (begin_org digest t r now m).0
org_claimed digest t r now none h = cc
org_claimed digest t r now (some o) h =
    let (e, g, c) = body_claimed digest t r now o r.body h in (e, c)

begun :
    (digest : Bytes → Bytes) (t : Table) (r : Request) (now : Time) {key org : String}
    → (begin_idem digest t r now).1 ≡ claimed key org
    → ((key == "") ≡ false) × Claimed t now key org (begin_idem digest t r now).0
unfolding begin_idem
begun digest t r now {key} {org} h = by_test (not (is_mutating r.method)) (r.key == "") refl h
  where
    by_test :
        (b c : Bool)
        → (r.key == "") ≡ c
        → (if b || c then (t, plain) else begin_org digest t r now r.org_id).1 ≡ claimed key org
        → ((key == "") ≡ false)
          × Claimed t now key org
              (if b || c then (t, plain) else begin_org digest t r now r.org_id).0
    by_test true c k h = cc
    by_test false true k h = cc
    by_test false false k h =
        let (e, q) = org_claimed digest t r now r.org_id h in (ap (λ x. x == "") (sym e) ∙ k, q)

second_body :
    (digest : Bytes → Bytes) (t : Table) (r : Request) (later : Time) (org : String)
    (b : Option Bytes)
    → ((hash : Bytes) → (claim_idempotency t r.key org hash later).1 ≡ false)
    → reaches_handler (begin_body digest t r later org b).1 ≡ false
second_body digest t r later org none c = refl
second_body digest t r later org (some raw) c =
    let hash = digest (codes r.method ++ (codes r.path ++ raw)) in
    answered_not_first (claim_idempotency t r.key org hash later).1 r.key org
      (load_idempotent_response (claim_idempotency t r.key org hash later).0 r.key org hash)
      (c hash)

second_refused :
    (digest : Bytes → Bytes) (t : Table) (r : Request) (later : Time) (key org : String)
    → is_mutating r.method ≡ true
    → r.key ≡ key
    → (key == "") ≡ false
    → r.org_id ≡ some org
    → ((hash : Bytes) → (claim_idempotency t key org hash later).1 ≡ false)
    → reaches_handler (begin_idem digest t r later).1 ≡ false
unfolding begin_idem
second_refused digest t r later key org m k n o c =
    by_test (not (is_mutating r.method) || r.key == "") (rw (m, k) n) r.org_id o
  where
    by_test :
        (b : Bool)
        → b ≡ false
        → (q : Option String) → q ≡ some org
        → reaches_handler (if b then (t, plain) else begin_org digest t r later q).1 ≡ false
    by_test true e q o = cc
    by_test false e none o = cc
    by_test false e (some x) o =
        subst (λ y. reaches_handler (begin_body digest t r later y r.body).1 ≡ false)
          (sym (some_org o))
          (second_body digest t r later org r.body
            λ hash. ap (λ y. (claim_idempotency t y org hash later).1) k ∙ c hash)
      where
        some_org : {a b : String} → ◌≡◌ {A = Option String} (some a) (some b) → a ≡ b
        some_org h = cc

-- A request with an idempotency key runs once: if `idem` passes a request to the handler with its key
-- claimed, then whatever claims, completions and cleanups of any keys the database runs before the
-- key expires 24 hours later, `idem` passes no other mutating request with the same key and
-- organization to the handler until then, whatever its path and body.
pub idem_once :
    (digest : Bytes → Bytes) (t : Table) (r r' : Request) (now later : Time) (key org : String)
    (ops : List (Op × Time))
    → (begin_idem digest t r now).1 ≡ claimed key org
    → all (λ q. ltb q.1 (now + time_to_live)) ops ≡ true
    → later < now + time_to_live
    → is_mutating r'.method ≡ true
    → r'.key ≡ key
    → r'.org_id ≡ some org
    → reaches_handler (begin_idem digest (run (begin_idem digest t r now).0 ops) r' later).1 ≡ false
idem_once digest t r r' now later key org ops h a n mutating k o =
    let (nonempty, c) = begun digest t r now h in
    let (hash, first, left) = c in
    second_refused digest (run (begin_idem digest t r now).0 ops) r' later key org mutating k
      nonempty o
      λ other.
        ap (λ x. (claim_idempotency (run x ops) key org other later).1) left
        ∙ claim_refused t key org hash other now later ops first a n
