-- ===== src/Apps/Domains.antt =====
-- control-plane/internal/apps/domains.go: the domains of an app, and the challenge by which a custom
-- one is verified. Host names are ASCII here.
pub mod Challenge
pub mod Unproved
use tenara.Prelude.{
  ℕ, zero, suc, ◌+◌, ◌-◌, ◌*◌, ◌/◌, ◌%◌, ◌^◌, ◌≤◌, ◌<◌, String, ◌≡◌, refl, sym, ap, ◌∙◌, subst, ◌≢◌,
  ◌↔◌, ◌⊎◌, inl, inr, Bool, true, false, not, ◌&&◌, ◌||◌, Option, none, some, List, [], ◌∷◌, ◌++◌,
  map, arith, ltb, leb, nat_eq, if◌then◌else◌, ltb→lt, ltb→ge, leb→le, leb→gt, nat_eq_iff, Eq, ◌==◌,
  nat_Eq, string_Eq, text_iff, text_refl, text_ne, Bool-cases, Option-cases, text-cases, is_some,
  length, any, all, length-append, Member, here, there, All, All-Member, Map, get, remove, put,
  keys, get-remove, get-put, map_laws, all-get, get_or, get-put_self, get-put_ne, Outcome, ok, err,
  ◌>>=◌, ◌>>◌, require, refuse, >>=-eq-ok, is_ok, is_ok-then, ok-injective, all-Member, all-append,
  is_nonempty, is_nonempty-append, tests, ℤ, pos, negsuc, lt_ℤ, int_Eq, int_iff, All-of_all,
  all-of_All, any_Member, any-false,
}
use tenara.Prelude.{
  find, select, count_where, update_where, find-holds, select-update_where_other,
  count_where-update_where_le, find-update_where,
}
use tenara.Bytes.{Bytes, codes, same, is_blank, is_space, trim_space, to_lower}
use tenara.Orchestrator.Deploy.{State, Time, planned}
use tenara.Apps.{
  Organization, Application, ServiceRow, Environment, Deployment, RevisionRow, SavedRevision,
  AuditRow, DomainRow, SavedDomain, DatabaseRow, BindingRow, SavedDatabase, SavedBinding, Db,
  Conflict, Error, Result, App, AppWithSpec, not_found, plan_expired, not_enough_revisions,
  storage_error, quota_exceeded, conflict, invalid_digest, unsupported_kind, blank_name, name_used,
  creation_race, service_exists, bad_environment, environment_exists, corrupt_snapshot,
  plan_already, hostname_bound, not_verified, no_challenge, view, is_none, lives_in, is_app,
  found_app, get_app_at, get_app, get_app_with_spec, list_apps, newest_first, insert_newest,
  org_tier, tier_or_free, free_tier_max_apps, pro_tier_max_apps, max_apps_of, or_empty, for_app,
}

abbrev pub challenge_prefix : Bytes
challenge_prefix = codes "_tenara-challenge."

-- id = domain AND app_id = app
abbrev pub is_domain : String → String → SavedDomain → Bool
is_domain app_id id d = d.row.id == id && d.row.app_id == app_id

abbrev pub found_domain : Option SavedDomain → Outcome Error DomainRow
found_domain none = err not_found
found_domain (some d) = ok d.row

-- `getDomain`: both ids go into the statement as they are, so that a text that is no UUID fails there
abbrev pub get_domain_at : Db → Option String → Option String → Outcome Error DomainRow
get_domain_at db none id = err storage_error
get_domain_at db (some app_id) none = err storage_error
get_domain_at db (some app_id) (some id) = found_domain (find (is_domain app_id id) db.domains)

unfoldable pub get_domain :
    (String → Option String) → Db → String → String → Outcome Error DomainRow
unfolding find
get_domain uuid db app_id domain_id = get_domain_at db (uuid app_id) (uuid domain_id)

-- hostname is of type citext and UNIQUE in the schema. Host names are ASCII here, as DNS has them: of
-- other letters the case is not folded.
abbrev pub has_host : Bytes → SavedDomain → Bool
has_host host d = same (to_lower d.row.hostname) host

abbrev pub stored_domain : DomainRow → Time → SavedDomain
stored_domain d now = record { row = record d { hostname = to_lower d.hostname }; created_at = now }

-- the INSERT into the table, whose constraint on hostname is not of this file: nothing for a unique
-- violation
unfoldable pub insert_domain_row : Db → DomainRow → Time → Option Db
unfolding to_lower
insert_domain_row db d now =
    if any (has_host (to_lower d.hostname)) db.domains
    then none
    else some (record db { domains = stored_domain d now ∷ db.domains })

abbrev pub inserted_domain : Db → DomainRow → Option Db → Result DomainRow
inserted_domain db d none = (db, err (conflict hostname_bound))
inserted_domain db d (some db') = (db', ok d)

-- `insertDomain`: the row is stored with its host name in lower case, and answered as it was given
unfoldable pub insert_domain : Db → DomainRow → Time → Result DomainRow
unfolding insert_domain_row
insert_domain db d now = inserted_domain db d (insert_domain_row db d now)

abbrev pub default_row : String → Bytes → Bytes → String → DomainRow
default_row app_id slug base_domain id = record {
  id = id;
  app_id = app_id;
  hostname = slug ++ b'.' ∷ base_domain;
  verified = true;
  txt_challenge = "";
  cname_target = "";
  is_default = true;
}

unfoldable pub allocate_default_domain :
    Db → String → Bytes → Bytes → String → Time → Result DomainRow
unfolding insert_domain
allocate_default_domain db app_id slug base_domain id now =
    insert_domain db (default_row app_id slug base_domain id) now

abbrev pub custom_row : String → Bytes → String → String → DomainRow
custom_row app_id hostname token id = record {
  id = id;
  app_id = app_id;
  hostname = hostname;
  verified = false;
  txt_challenge = token;
  cname_target = "";
  is_default = false;
}

-- over the token that `newChallengeToken` draws, if the entropy can be read
unfoldable pub add_custom_domain :
    Db → String → Bytes → Option String → String → Time → Result DomainRow
unfolding insert_domain
add_custom_domain db app_id hostname none id now = (db, err storage_error)
add_custom_domain db app_id hostname (some token) id now =
    insert_domain db (custom_row app_id hostname token id) now

abbrev pub is_pending : String → SavedDomain → Bool
is_pending id d = d.row.id == id && not d.row.verified

abbrev pub verified_domain : SavedDomain → SavedDomain
verified_domain d = record d { row = record d.row { verified = true } }

unfoldable pub mark_domain_verified : Db → String → Db
unfolding update_where
mark_domain_verified db id = record db {
  domains = update_where (is_pending id) verified_domain db.domains;
}

-- ORDER BY is_default DESC, created_at
abbrev comes_before : SavedDomain → SavedDomain → Bool
comes_before d e =
    (d.row.is_default && not e.row.is_default)
    || (not (e.row.is_default && not d.row.is_default) && leb d.created_at e.created_at)

unfoldable pub insert_sorted : SavedDomain → List SavedDomain → List SavedDomain
insert_sorted d [] = d ∷ []
insert_sorted d (e ∷ ds) =
    let rest = insert_sorted d ds in if comes_before d e then d ∷ e ∷ ds else e ∷ rest

unfoldable pub sort_domains : List SavedDomain → List SavedDomain
unfolding insert_sorted
sort_domains [] = []
sort_domains (d ∷ ds) = insert_sorted d (sort_domains ds)

abbrev of_app : String → SavedDomain → Bool
of_app app_id d = d.row.app_id == app_id

abbrev domain_row : SavedDomain → DomainRow
domain_row d = d.row

unfoldable pub list_domains : Db → String → List DomainRow
unfolding select sort_domains
list_domains db app_id = map domain_row (sort_domains (select (of_app app_id) db.domains))

abbrev pub if_verified : Outcome Error DomainRow → Outcome Error DomainRow
if_verified (err e) = err e
if_verified (ok d) = if not d.verified then err (conflict not_verified) else ok d

abbrev pub require_verified_of :
    (String → Option String) → Db → String → String → Outcome Error App → Outcome Error DomainRow
require_verified_of uuid db app_id domain_id (err e) = err e
require_verified_of uuid db app_id domain_id (ok a) =
    if_verified (get_domain uuid db app_id domain_id)

unfoldable pub require_verified_domain :
    (String → Option String) → Db → String → String → String → Outcome Error DomainRow
unfolding get_app get_domain
require_verified_domain uuid db org app_id domain_id =
    require_verified_of uuid db app_id domain_id (get_app uuid db org app_id)

-- the records of the domain name system at a name; nothing if the lookup fails
abbrev pub Resolver : Type 0
Resolver = Bytes → Option (List String)

abbrev pub answers : Option (List String) → String → Bool
answers none token = false
answers (some records) token = any (λ r. r == token) records

abbrev pub verify_found :
    (String → Option String) → Resolver → Db → String → Outcome Error DomainRow → Result DomainRow
verify_found uuid resolver db app_id (err e) = (db, err e)
verify_found uuid resolver db app_id (ok d) =
    if d.verified
    then (db, ok d)
    else if d.txt_challenge == ""
    then (db, err (conflict no_challenge))
    else if answers (resolver (challenge_prefix ++ d.hostname)) d.txt_challenge
    then (mark_domain_verified db d.id, get_domain uuid (mark_domain_verified db d.id) app_id d.id)
    else (db, ok d)

unfoldable pub verify_custom_domain :
    (String → Option String) → Resolver → Db → String → String → Result DomainRow
unfolding get_domain mark_domain_verified
verify_custom_domain uuid resolver db app_id domain_id =
    verify_found uuid resolver db app_id (get_domain uuid db app_id domain_id)
