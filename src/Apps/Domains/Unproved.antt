-- ===== src/Apps/Domains/Unproved.antt =====
-- A custom domain stays unverified, and is bound to no route, until its challenge is answered.
use tenara.Prelude.{
  String, ◌≡◌, refl, sym, ap, ◌∙◌, inl, inr, Bool, true, false, not, ◌&&◌, ◌||◌, Option, none, some,
  List, [], ◌∷◌, ◌++◌, arith, if◌then◌else◌, ◌==◌, nat_Eq, string_Eq, text_iff, Bool-cases, any,
  all, Outcome, ok, err, is_ok, ok-injective, int_Eq,
}
use tenara.Prelude.{find, update_where, find-holds}
use tenara.Bytes.{Bytes, same}
use tenara.Orchestrator.Deploy.{Time}
use tenara.Apps.{
  DomainRow, SavedDomain, Db, Error, App, conflict, not_verified, no_challenge, get_app,
}
use tenara.Prelude.{all-find, all-update_where_of, not-false}
use tenara.Bytes.{same_iff, to_lower}
use tenara.Apps.Domains.{
  challenge_prefix, is_domain, found_domain, get_domain_at, get_domain, has_host, insert_domain,
  insert_domain_row, default_row, custom_row, allocate_default_domain, add_custom_domain,
  is_pending, verified_domain, mark_domain_verified, if_verified, require_verified_of,
  require_verified_domain, Resolver, answers, verify_found, verify_custom_domain,
}
use tenara.Apps.Domains.Challenge.{Call, default_call, custom_call, verify_call, perform, run}

-- a domain that waits for the answer to its challenge
pub record Wait : Type 0 where
  pub id : String
  pub host : Bytes
  pub token : String

-- the row is of another domain, or waits
abbrev pub waits : Wait → SavedDomain → Bool
waits u d =
    not (d.row.id == u.id)
    || (same d.row.hostname u.host && d.row.txt_challenge == u.token && not d.row.verified)

-- no resolver answers the token at the name of the host, and the id is given to no other row
abbrev pub is_unanswered : Wait → Time × Call → Bool
is_unanswered u (now, default_call app slug base id) = not (id == u.id)
is_unanswered u (now, custom_call app host token id) = not (id == u.id)
is_unanswered u (now, verify_call app domain resolver) =
    not (answers (resolver (challenge_prefix ++ u.host)) u.token)

module _ (u : Wait) where
  insert_waits :
      (db : Db) (d : DomainRow) (now : Time)
      → not (d.id == u.id) ≡ true
      → all (waits u) db.domains ≡ true
      → all (waits u) (insert_domain db d now).0.domains ≡ true
  unfolding insert_domain insert_domain_row
  insert_waits db d now k h = elim (Bool-cases (any (has_host (to_lower d.hostname)) db.domains)) [
    | inl e ↦ rw e h
    | inr e ↦ rw (e, k) h
  ]

  -- marking another domain
  mark_waits :
      (id : String) (ds : List SavedDomain)
      → (id == u.id) ≡ false
      → all (waits u) ds ≡ true
      → all (waits u) (update_where (is_pending id) verified_domain ds) ≡ true
  mark_waits id ds k h =
      all-update_where_of (waits u) (is_pending id) verified_domain ds (λ d w p. apart d w p) h
    where
      apart :
          (d : SavedDomain)
          → waits u d ≡ true
          → is_pending id d ≡ true
          → waits u (verified_domain d) ≡ true
      apart d w p = ground (arith, text_iff d.row.id id, text_iff d.row.id u.id, text_iff id u.id)

  -- what the table holds of a domain that was found
  found_waits :
      (uuid : String → Option String) (db : Db) (app domain : String) (d : DomainRow)
      → all (waits u) db.domains ≡ true
      → get_domain uuid db app domain ≡ ok d
      → (d.id == u.id) ≡ true
      → (d.hostname ≡ u.host) × (d.txt_challenge ≡ u.token) × (d.verified ≡ false)
  unfolding get_domain
  found_waits uuid db app domain d h g e = by_ids (uuid app) (uuid domain) g
    where
      of_row :
          (s : SavedDomain)
          → waits u s ≡ true
          → (s.row.id == u.id) ≡ true
          → (s.row.hostname ≡ u.host) × (s.row.txt_challenge ≡ u.token) × (s.row.verified ≡ false)
      of_row s w i = (
        (same_iff s.row.hostname u.host).0 (ground arith),
        (text_iff s.row.txt_challenge u.token).0 (ground arith),
        ground arith,
      )

      by_row :
          (a b : String) (o : Option SavedDomain)
          → find (is_domain a b) db.domains ≡ o
          → found_domain o ≡ ok d
          → (d.hostname ≡ u.host) × (d.txt_challenge ≡ u.token) × (d.verified ≡ false)
      by_row a b none f g = cc
      by_row a b (some s) f g =
          let q : s.row ≡ d = ok-injective g in
          let w = all-find (waits u) (is_domain a b) db.domains h f in
          let (x, y, z) = of_row s w (ap (λ r. r.id == u.id) q ∙ e) in
          (
            ap (λ r. r.hostname) (sym q) ∙ x,
            ap (λ r. r.txt_challenge) (sym q) ∙ y,
            ap (λ r. r.verified) (sym q) ∙ z,
          )

      by_ids :
          (o p : Option String)
          → get_domain_at db o p ≡ ok d
          → (d.hostname ≡ u.host) × (d.txt_challenge ≡ u.token) × (d.verified ≡ false)
      by_ids none p g = cc
      by_ids (some a) none g = cc
      by_ids (some a) (some b) g = by_row a b (find (is_domain a b) db.domains) refl g

  branch_waits :
      {A : Type 0} (b : Bool) (x y : Db × A)
      → all (waits u) x.0.domains ≡ true
      → all (waits u) y.0.domains ≡ true
      → all (waits u) (if b then x else y).0.domains ≡ true
  branch_waits true x y h k = h
  branch_waits false x y h k = k

  not_taken :
      {A : Type 0} (b : Bool) (x y : Db × A)
      → b ≡ false
      → all (waits u) y.0.domains ≡ true
      → all (waits u) (if b then x else y).0.domains ≡ true
  not_taken true x y e h = cc
  not_taken false x y e h = h

  verify_waits :
      (uuid : String → Option String) (resolver : Resolver) (db : Db) (app domain : String)
      (m : Outcome Error DomainRow)
      → not (answers (resolver (challenge_prefix ++ u.host)) u.token) ≡ true
      → all (waits u) db.domains ≡ true
      → get_domain uuid db app domain ≡ m
      → all (waits u) (verify_found uuid resolver db app m).0.domains ≡ true
  unfolding mark_domain_verified
  verify_waits uuid resolver db app domain (err e) n h g = h
  verify_waits uuid resolver db app domain (ok d) n h g = elim (Bool-cases (d.id == u.id)) [
    | inl e ↦
        let (x, y, z) = found_waits uuid db app domain d h g e in
        let silent : answers (resolver (challenge_prefix ++ d.hostname)) d.txt_challenge ≡ false =
          ap (λ s. answers (resolver (challenge_prefix ++ s)) d.txt_challenge) x
          ∙ ap (answers (resolver (challenge_prefix ++ u.host))) y
          ∙ not-false (answers (resolver (challenge_prefix ++ u.host)) u.token) n in
        branch_waits d.verified (db, ok d) _ h
          (branch_waits (d.txt_challenge == "") (db, err (conflict no_challenge)) _ h
            (not_taken (answers (resolver (challenge_prefix ++ d.hostname)) d.txt_challenge)
              (
                mark_domain_verified db d.id,
                get_domain uuid (mark_domain_verified db d.id) app d.id,
              )
              (db, ok d) silent h))
    | inr e ↦
        let k = mark_waits d.id db.domains e h in
        branch_waits d.verified (db, ok d) _ h
          (branch_waits (d.txt_challenge == "") (db, err (conflict no_challenge)) _ h
            (branch_waits (answers (resolver (challenge_prefix ++ d.hostname)) d.txt_challenge)
              (
                mark_domain_verified db d.id,
                get_domain uuid (mark_domain_verified db d.id) app d.id,
              )
              (db, ok d) k h))
  ]

  perform-waits :
      (uuid : String → Option String) (db : Db) (now : Time) (c : Call)
      → is_unanswered u (now, c) ≡ true
      → all (waits u) db.domains ≡ true
      → all (waits u) (perform uuid db now c).domains ≡ true
  unfolding perform allocate_default_domain add_custom_domain verify_custom_domain
  perform-waits uuid db now (default_call app slug base id) k h =
      insert_waits db (default_row app slug base id) now k h
  perform-waits uuid db now (custom_call app host none id) k h = h
  perform-waits uuid db now (custom_call app host (some token) id) k h =
      insert_waits db (custom_row app host token id) now k h
  perform-waits uuid db now (verify_call app domain resolver) k h =
      verify_waits uuid resolver db app domain (get_domain uuid db app domain) k h refl

  run-waits :
      (uuid : String → Option String) (db : Db) (cs : List (Time × Call))
      → all (is_unanswered u) cs ≡ true
      → all (waits u) db.domains ≡ true
      → all (waits u) (run uuid db cs).domains ≡ true
  unfolding run
  run-waits uuid db [] k h = h
  run-waits uuid db ((now, c) ∷ cs) k h =
      run-waits uuid (perform uuid db now c) cs (ground arith)
        (perform-waits uuid db now c (ground arith) h)

  no_binding :
      (uuid : String → Option String) (db : Db) (app domain : String) (m : Outcome Error App)
      → uuid domain ≡ some u.id
      → all (waits u) db.domains ≡ true
      → is_ok (require_verified_of uuid db app domain m) ≡ false
  unfolding get_domain
  no_binding uuid db app domain (err e) v h = refl
  no_binding uuid db app domain (ok a) v h = by_domain (get_domain uuid db app domain) refl
    where
      row_id :
          (o p : Option String) {d : DomainRow}
          → p ≡ some u.id
          → get_domain_at db o p ≡ ok d
          → (d.id == u.id) ≡ true
      row_id none p e g = cc
      row_id (some a) none e g = cc
      row_id (some a) (some b) {d} e g = by_row (find (is_domain a b) db.domains) refl g
        where
          by_row :
              (o : Option SavedDomain)
              → find (is_domain a b) db.domains ≡ o
              → found_domain o ≡ ok d
              → (d.id == u.id) ≡ true
          by_row none f g = cc
          by_row (some s) f g =
              let q : s.row ≡ d = ok-injective g in
              let k : (s.row.id == b && s.row.app_id == a) ≡ true =
                find-holds (is_domain a b) db.domains f in
              let i : s.row.id ≡ b = (text_iff s.row.id b).0 (ground arith) in
              let j : b ≡ u.id = cc in (text_iff d.id u.id).1 (ap (λ r. r.id) (sym q) ∙ i ∙ j)

      by_domain :
          (n : Outcome Error DomainRow)
          → get_domain uuid db app domain ≡ n
          → is_ok (if_verified n) ≡ false
      by_domain (err e) g = refl
      by_domain (ok d) g =
          let (x, y, z) =
            found_waits uuid db app domain d h g (row_id (uuid app) (uuid domain) v g) in
          unverified d.verified z
        where
          unverified :
              (b : Bool)
              → b ≡ false
              → is_ok (if not b then err (conflict not_verified) else ok d) ≡ false
          unverified true e = cc
          unverified false e = refl

-- the row of the domain
abbrev pub is_row : Wait → SavedDomain → Bool
is_row u d = d.row.id == u.id

-- it is there, with its host and its challenge, and not verified
abbrev pub is_unproved : Wait → SavedDomain → Bool
is_unproved u d =
    is_row u d && same d.row.hostname u.host && d.row.txt_challenge == u.token && not d.row.verified

any_marked :
    (u : Wait) (id : String) (ds : List SavedDomain)
    → any (is_row u) (update_where (is_pending id) verified_domain ds) ≡ any (is_row u) ds
unfolding update_where
any_marked u id [] = refl
any_marked u id (d ∷ ds) = ground (arith, any_marked u id ds)

insert_keeps_row :
    (u : Wait) (db : Db) (d : DomainRow) (now : Time)
    → any (is_row u) db.domains ≡ true
    → any (is_row u) (insert_domain db d now).0.domains ≡ true
unfolding insert_domain insert_domain_row
insert_keeps_row u db d now h = ground arith

verify_keeps_row :
    (u : Wait) (uuid : String → Option String) (resolver : Resolver) (db : Db) (app : String)
    (m : Outcome Error DomainRow)
    → any (is_row u) db.domains ≡ true
    → any (is_row u) (verify_found uuid resolver db app m).0.domains ≡ true
unfolding mark_domain_verified
verify_keeps_row u uuid resolver db app (err e) h = h
verify_keeps_row u uuid resolver db app (ok d) h =
    let k = any_marked u d.id db.domains in ground arith

perform_keeps_row :
    (u : Wait) (uuid : String → Option String) (db : Db) (now : Time) (c : Call)
    → any (is_row u) db.domains ≡ true
    → any (is_row u) (perform uuid db now c).domains ≡ true
unfolding perform allocate_default_domain add_custom_domain verify_custom_domain
perform_keeps_row u uuid db now (default_call app slug base id) h =
    insert_keeps_row u db (default_row app slug base id) now h
perform_keeps_row u uuid db now (custom_call app host none id) h = h
perform_keeps_row u uuid db now (custom_call app host (some token) id) h =
    insert_keeps_row u db (custom_row app host token id) now h
perform_keeps_row u uuid db now (verify_call app domain resolver) h =
    verify_keeps_row u uuid resolver db app (get_domain uuid db app domain) h

run_keeps_row :
    (u : Wait) (uuid : String → Option String) (db : Db) (cs : List (Time × Call))
    → any (is_row u) db.domains ≡ true
    → any (is_row u) (run uuid db cs).domains ≡ true
unfolding run
run_keeps_row u uuid db [] h = h
run_keeps_row u uuid db ((now, c) ∷ cs) h =
    run_keeps_row u uuid (perform uuid db now c) cs (perform_keeps_row u uuid db now c h)

row_unproved :
    (u : Wait) (ds : List SavedDomain)
    → all (waits u) ds ≡ true
    → any (is_row u) ds ≡ true
    → any (is_unproved u) ds ≡ true
row_unproved u [] h k = k
row_unproved u (d ∷ ds) h k = elim (Bool-cases (is_row u d)) [
  | inl e ↦ ground arith
  | inr e ↦ let r = row_unproved u ds (ground arith) (ground arith) in ground arith
]

-- A domain stays unproved until its challenge is answered: the row of a custom domain that waits with
-- its challenge is still there after every history of default domains, custom domains and
-- verifications in which no resolver answers the challenge's token at the name under its host and
-- no new row gets its id; it has the same host and the same token and is not verified, and
-- RequireVerifiedDomain refuses it for every organization and app.
pub unproved_stays :
    (u : Wait) (uuid : String → Option String) (db : Db) (cs : List (Time × Call))
    (org app domain : String)
    → any (is_row u) db.domains ≡ true
    → all (waits u) db.domains ≡ true
    → all (is_unanswered u) cs ≡ true
    → uuid domain ≡ some u.id
    → (any (is_unproved u) (run uuid db cs).domains ≡ true)
      × (all (waits u) (run uuid db cs).domains ≡ true)
      × (is_ok (require_verified_domain uuid (run uuid db cs) org app domain) ≡ false)
unfolding require_verified_domain
unproved_stays u uuid db cs org app domain there h k v =
    let w = run-waits u uuid db cs k h in
    (
      row_unproved u (run uuid db cs).domains w (run_keeps_row u uuid db cs there),
      w,
      no_binding u uuid (run uuid db cs) app domain (get_app uuid (run uuid db cs) org app) v w,
    )
