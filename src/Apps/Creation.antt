-- ===== src/Apps/Creation.antt =====
-- When an app is created, why it is not, and what is read back.
use tenara.Prelude.{
  ℕ, String, ◌≡◌, refl, sym, ap, ◌∙◌, inl, inr, Bool, true, false, not, ◌&&◌, ◌||◌, Option, none,
  some, List, [], ◌∷◌, arith, ltb, if◌then◌else◌, ltb→lt, ◌==◌, nat_Eq, string_Eq, text_refl,
  Bool-cases, length, any, ok, err, is_ok, int_Eq,
}
use tenara.Prelude.{then-ok, else-ok, find}
use tenara.Bytes.{Bytes, is_blank}
use tenara.Orchestrator.Deploy.{Time}
use tenara.Apps.{
  Organization, Application, Db, App, conflict, blank_name, creation_race, view, is_none, lives_in,
  is_app, found_app, get_app, max_apps_of,
}
use tenara.Bytes.{is_space}
use tenara.Prelude.{all, map, leb, err}
use tenara.Apps.Slug.{slugify, slug_char, trim_left_dashes, trim_right_dashes, glue_dash}
use tenara.Apps.Create.{
  has_name, live_count, classify_create_rejection, new_app, insert_app, create_for_tier, create_app,
}

-- a letter or digit of ASCII, or one of the two characters beyond it whose lower case is a letter of
-- ASCII: the Kelvin sign and the I with a dot
abbrev pub is_sluggable : ℕ → Bool
is_sluggable c =
    (leb 65 c && leb c 90)
    || (leb 97 c && leb c 122)
    || (leb 48 c && leb c 57)
    || c == 8490
    || c == 304

abbrev pub is_good_name : Bytes → Bool
is_good_name name = any is_sluggable name

-- the guard of CreateApp
abbrev pub has_slug : Bytes → Bool
has_slug name = not (length (slugify name) == 0 || is_blank name)

-- the organization, if it is there, has room for another app
abbrev pub has_room : Db → String → Option Organization → Bool
has_room db org none = false
has_room db org (some o) = ltb (live_count db org) (max_apps_of o.tier)

-- a row with the name, and one that is not deleted
abbrev pub name_held : Db → String → Bytes → Bool
name_held db org name = any (has_name org name) db.applications

abbrev pub name_held_live : Db → String → Bytes → Bool
name_held_live db org name = any (λ r. has_name org name r && is_none r.deleted_at) db.applications

abbrev pub organization_of : Db → String → Option Organization
organization_of db org = find (λ o. o.id == org) db.organizations

abbrev dashes : Bytes → Bool
dashes s = all (λ c. c == b'-') s

char_dash : (c : ℕ) → (slug_char c == b'-') ≡ not (is_sluggable c)
char_dash c = ground arith

dashes-map : (name : Bytes) → dashes (map slug_char name) ≡ not (any is_sluggable name)
dashes-map [] = refl
dashes-map (c ∷ name) = ground (arith, char_dash c, dashes-map name)

left_dashes : (s : Bytes) → dashes (trim_left_dashes s) ≡ dashes s
unfolding trim_left_dashes
left_dashes [] = refl
left_dashes (c ∷ s) = ground (arith, left_dashes s)

right_empty : (s : Bytes) → (length (trim_right_dashes s) == 0) ≡ dashes s
unfolding trim_right_dashes
right_empty [] = refl
right_empty (c ∷ s) = glued c (trim_right_dashes s) ∙ ap (λ b. c == b'-' && b) (right_empty s)
  where
    glued : (c : ℕ) (s : Bytes) → (length (glue_dash c s) == 0) ≡ (c == b'-' && (length s == 0))
    glued c [] = ground arith
    glued c (d ∷ s) = ground arith

-- the slug is empty exactly if no character of the name is kept
slug_empty : (name : Bytes) → (length (slugify name) == 0) ≡ not (is_good_name name)
unfolding slugify
slug_empty name =
    right_empty (trim_left_dashes (map slug_char name))
    ∙ left_dashes (map slug_char name)
    ∙ dashes-map name

blank_name_bad : (name : Bytes) → is_blank name ≡ true → is_good_name name ≡ false
unfolding is_blank
blank_name_bad [] h = refl
blank_name_bad (c ∷ name) h =
    let k = blank_name_bad name (ground arith) in
    let n : is_sluggable c ≡ false = not_space c (ground arith) in ground arith
  where
    not_space : (c : ℕ) → is_space c ≡ true → is_sluggable c ≡ false
    not_space c h = ground arith

refused_name :
    (name : Bytes) → (length (slugify name) == 0 || is_blank name) ≡ not (is_good_name name)
refused_name name = elim (Bool-cases (is_blank name)) [
  | inl e ↦ let k = blank_name_bad name e in ground arith
  | inr e ↦ ground (arith, slug_empty name)
]

insert_ok :
    (db : Db) (r : Application) (n : ℕ)
    → is_ok (insert_app db r n).1
      ≡ (ltb (live_count db r.org_id) n && not (name_held db r.org_id r.name))
unfolding insert_app
insert_ok db r n = ground arith

for_tier_ok :
    (db : Db) (org : String) (name : Bytes) (by id : String) (now : Time) (o : Option Organization)
    → is_ok (create_for_tier db (new_app org name by id now) o).1
      ≡ (has_room db org o && not (name_held db org name))
for_tier_ok db org name by id now none = refl
for_tier_ok db org name by id now (some o) =
    insert_ok db (new_app org name by id now) (max_apps_of o.tier)

-- CreateApp succeeds exactly if the name has a letter or a digit of ASCII (or the Kelvin sign or the I
-- with a dot, whose lower case is a letter of ASCII), the organization is there and below
-- the number of apps of its tier, and no row of the organization holds the name, a deleted app's
-- row included.
pub create_ok_iff :
    (db : Db) (org : String) (name : Bytes) (by id : String) (now : Time)
    → is_ok (create_app db org name by id now).1 ≡ (
        is_good_name name
        && has_room db org (organization_of db org)
        && not (name_held db org name))
unfolding create_app
create_ok_iff db org name by id now =
    by_guard (length (slugify name) == 0 || is_blank name) (refused_name name)
  where
    by_guard :
        (b : Bool)
        → b ≡ not (is_good_name name)
        → is_ok
            (if b
              then (db, err (conflict blank_name))
              else create_for_tier db (new_app org name by id now) (organization_of db org)).1
          ≡ (is_good_name name
              && has_room db org (organization_of db org)
              && not (name_held db org name))
    by_guard true e = ground arith
    by_guard false e =
        let k = for_tier_ok db org name by id now (organization_of db org) in
        let g : is_good_name name ≡ true = ground arith in rw g k

live_held :
    (org : String) (name : Bytes) (rs : List Application)
    → any (has_name org name) rs ≡ false
    → any (λ r. has_name org name r && is_none r.deleted_at) rs ≡ false
live_held org name [] h = refl
live_held org name (r ∷ rs) h = ground (arith, live_held org name rs)

race_found :
    (db : Db) (org : String) (name : Bytes) (by id : String) (now : Time) (o : Option Organization)
    → organization_of db org ≡ o
    → has_room db org o ≡ true
    → name_held db org name ≡ true
    → name_held_live db org name ≡ false
    → (create_for_tier db (new_app org name by id now) o).1 ≡ err (conflict creation_race)
unfolding insert_app classify_create_rejection
race_found db org name by id now none e r h l = cc
race_found db org name by id now (some o) e r h l =
    rw (h, l, e) (ground (arith, ltb→lt (live_count db org) (max_apps_of o.tier) r))

-- The name of a deleted app stays taken: with room in the organization and the name held by a deleted
-- app alone, CreateApp fails, and answers that a concurrent creation won the race.
pub deleted_name_blocks :
    (db : Db) (org : String) (name : Bytes) (by id : String) (now : Time)
    → is_good_name name ≡ true
    → has_room db org (organization_of db org) ≡ true
    → name_held db org name ≡ true
    → name_held_live db org name ≡ false
    → create_app db org name by id now ≡ (db, err (conflict creation_race))
unfolding create_app
deleted_name_blocks db org name by id now g r h l = rw (refused_name name ∙ ap not g) (
    unchanged (organization_of db org) refl
      (race_found db org name by id now (organization_of db org) refl r h l))
  where
    blocked : (n : ℕ) → (insert_app db (new_app org name by id now) n).0 ≡ db
    blocked n = rw (insert_app, h) (ground arith)

    unchanged :
        (o : Option Organization)
        → organization_of db org ≡ o
        → (create_for_tier db (new_app org name by id now) o).1 ≡ err (conflict creation_race)
        → create_for_tier db (new_app org name by id now) o ≡ (db, err (conflict creation_race))
    unchanged none e k = cc
    unchanged (some o) e k = let b = blocked (max_apps_of o.tier) in ground arith

inserted :
    (db : Db) (r : Application) (n : ℕ) {db' : Db} {a : App}
    → insert_app db r n ≡ (db', ok a)
    → (record db { applications = r ∷ db.applications } ≡ db') × (view r ≡ a)
unfolding insert_app
inserted db r n h =
    let (b, s, v) =
      then-ok (ltb (live_count db r.org_id) n && not (name_held db r.org_id r.name)) db
        (classify_create_rejection db r.org_id r.name) h in
    (s, v)

inserted_for :
    (db : Db) (r : Application) (o : Option Organization) {db' : Db} {a : App}
    → create_for_tier db r o ≡ (db', ok a)
    → (record db { applications = r ∷ db.applications } ≡ db') × (view r ≡ a)
inserted_for db r none h = cc
inserted_for db r (some o) h = inserted db r (max_apps_of o.tier) h

-- A creation that succeeds adds one row.
pub created :
    (db : Db) (org : String) (name : Bytes) (by id : String) (now : Time) {db' : Db} {a : App}
    → create_app db org name by id now ≡ (db', ok a)
    → (record db { applications = new_app org name by id now ∷ db.applications } ≡ db')
      × (view (new_app org name by id now) ≡ a)
unfolding create_app
created db org name by id now h =
    inserted_for db (new_app org name by id now) (organization_of db org)
      (else-ok (length (slugify name) == 0 || is_blank name) db (conflict blank_name) h).1

get_new :
    (uuid : String → Option String) (db : Db) (caller : String) (r : Application)
    → uuid r.id ≡ some r.id
    → get_app uuid (record db { applications = r ∷ db.applications }) caller r.id
      ≡ (if lives_in caller r then ok (view r) else get_app uuid db caller r.id)
unfolding get_app find
get_new uuid db caller r u = rw (u, text_refl r.id) (by_test (lives_in caller r))
  where
    by_test :
        (b : Bool)
        → found_app (if b then some r else find (is_app r.id caller) db.applications)
          ≡ (if b then ok (view r) else found_app (find (is_app r.id caller) db.applications))
    by_test true = refl
    by_test false = refl

-- An app that was created is there: its organization reads it back under its id as it was answered, with
-- the slug of its name, and every other organization reads what it read before.
pub get_app-create_app :
    (uuid : String → Option String) (db : Db) (org other : String) (name : Bytes) (by id : String)
    (now : Time) {db' : Db} {a : App}
    → uuid id ≡ some id
    → (org == other) ≡ false
    → create_app db org name by id now ≡ (db', ok a)
    → (get_app uuid db' org id ≡ ok a)
      × (a.slug ≡ slugify name)
      × (get_app uuid db' other id ≡ get_app uuid db other id)
get_app-create_app uuid db org other name by id now u d h =
    let (s, v) = created db org name by id now h in
    let r = new_app org name by id now in
    (
      ap (λ x. get_app uuid x org id) (sym s)
          ∙ get_new uuid db org r u
          ∙ rw (text_refl org) (ap ok v),
      ap (λ x. x.slug) (sym v),
      ap (λ x. get_app uuid x other id) (sym s) ∙ get_new uuid db other r u ∙ rw d refl,
    )
