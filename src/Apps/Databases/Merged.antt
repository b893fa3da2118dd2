-- ===== src/Apps/Databases/Merged.antt =====
-- A repeated request for a database finds the one that is there.
use tenara.Prelude.{text_iff, true, false, sym, if◌then◌else◌}
use tenara.Prelude.{
  suc, String, ◌≡◌, refl, sym, ap, ◌∙◌, subst, Bool, Option, none, some, List, [], ◌∷◌, nat_Eq,
  string_Eq, text_refl, length, Outcome, ok, err, int_Eq,
}
use tenara.Prelude.{find, update_where, find-update_where}
use tenara.Apps.{
  DatabaseRow, BindingRow, SavedDatabase, Db, Error, Result, App, is_app, found_app, get_app_at,
  get_app, for_app,
}
use tenara.Apps.Databases.{
  normalize_kind, isolation_or_shared, is_kind, has_id, with_isolation, of_database, found_binding,
  binding_for, NewIds, new_database, new_binding, repeated_row, with_binding, merge_request,
  request_kind, request_database,
}

-- there is a database of the kind with the id, and its binding
abbrev There : Db → String → String → String → Type 0
There db app type id =
    (s : SavedDatabase) × (b : BindingRow) × (find (is_kind app type) db.databases ≡ some s)
    × (s.row.id ≡ id)
    × (binding_for db id ≡ ok b)

new_There :
    (db : Db) (app type isolation : String) (ids : NewIds)
    → There (merge_request db app type isolation ids none).0 app type ids.database
unfolding find binding_for
new_There db app type isolation ids = (
  new_database app type isolation ids.database,
  (new_binding app ids).row,
  rw (text_refl app, text_refl type) refl,
  refl,
  rw (text_refl ids.database) refl,
)

-- the row of the kind after its isolation is set
updated :
    (db : Db) (app type isolation : String) (s : SavedDatabase)
    → find (is_kind app type) db.databases ≡ some s
    → find
        (is_kind app type)
        (update_where (has_id s.row.id) (with_isolation isolation) db.databases)
      ≡ some (with_isolation isolation s)
updated db app type isolation s f =
    find-update_where (has_id s.row.id) (is_kind app type) (with_isolation isolation) db.databases
      (λ x. refl)
    ∙ rw (f, text_refl s.row.id) refl

with_binding_ok :
    (db : Db) (d : DatabaseRow) (m : Outcome Error BindingRow) {db' : Db} {e : DatabaseRow}
    {b : BindingRow}
    → with_binding db d m ≡ (db', ok (e, b))
    → (db ≡ db') × (d ≡ e) × (m ≡ ok b)
with_binding_ok db d (err x) h = cc
with_binding_ok db d (ok y) h = (cc, cc, cc)

answered_row :
    {db db' : Db} {d e : DatabaseRow} {b c : BindingRow}
    → ◌≡◌ {A = Result (DatabaseRow × BindingRow)} (db, ok (d, b)) (db', ok (e, c))
    → d ≡ e
answered_row h = cc

merged_There :
    (db : Db) (app type isolation : String) (ids : NewIds) (o : Option SavedDatabase) {db' : Db}
    {d : DatabaseRow} {b : BindingRow}
    → find (is_kind app type) db.databases ≡ o
    → merge_request db app type isolation ids o ≡ (db', ok (d, b))
    → There db' app type d.id
merged_There db app type isolation ids none {db'} {d} {b} f h =
    let e : (merge_request db app type isolation ids none).0 ≡ db' = ap (λ r. r.0) h in
    let i : ids.database ≡ d.id = ap (λ r. r.id) (answered_row h) in
    subst (λ x. There db' app type x) i
      (subst (λ x. There x app type ids.database) e (new_There db app type isolation ids))
merged_There db app type isolation ids (some s) {db'} {d} {b} f h =
    let db0 : Db = record db {
      databases = update_where (has_id s.row.id) (with_isolation isolation) db.databases;
    } in
    let (e, q, k) = with_binding_ok db0 (repeated_row s isolation) (binding_for db0 s.row.id) h in
    let i : s.row.id ≡ d.id = ap (λ r. r.id) q in
    let t : There db0 app type s.row.id =
      (with_isolation isolation s, b, updated db app type isolation s f, refl, k) in
    subst (λ x. There db' app type x) i (subst (λ x. There x app type s.row.id) e t)

-- what a request does to a kind that is there
abbrev pub Merged : Db → String → String → Result (DatabaseRow × BindingRow) → Type 0
Merged db id isolation r =
    (d : DatabaseRow) × (b : BindingRow) × (r.1 ≡ ok (d, b))
    × (d.id ≡ id)
    × (d.isolation ≡ isolation_or_shared isolation)
    × ((s : SavedDatabase) × (find (has_id id) r.0.databases ≡ some s)
        × (s.row.isolation ≡ isolation_or_shared isolation))
    × (length r.0.databases ≡ length db.databases)
    × (r.0.database_bindings ≡ db.database_bindings)
    × (d.app_id ≡ "")
    × (d.type ≡ "")

update_length :
    (p : SavedDatabase → Bool) (f : SavedDatabase → SavedDatabase) (ds : List SavedDatabase)
    → length (update_where p f ds) ≡ length ds
unfolding update_where
update_length p f [] = refl
update_length p f (d ∷ ds) = ap suc (update_length p f ds)

-- a row that is there is found, or another one that is found too
found_again :
    (p q : SavedDatabase → Bool) (ds : List SavedDatabase) (t : SavedDatabase)
    → find q ds ≡ some t
    → p t ≡ true
    → (y : SavedDatabase) × (find p ds ≡ some y) × (p y ≡ true)
unfolding find
found_again p q [] t h k = cc
found_again p q (d ∷ ds) t h k = by_test (λ g. found_again p q ds t g k) (p d) refl (q d) refl h
  where
    some_same : {x y : SavedDatabase} → ◌≡◌ {A = Option SavedDatabase} (some x) (some y) → x ≡ y
    some_same h = cc

    by_test :
        (find q ds ≡ some t → (y : SavedDatabase) × (find p ds ≡ some y) × (p y ≡ true))
        → (b : Bool) → p d ≡ b
        → (c : Bool) → q d ≡ c
        → (if c then some d else find q ds) ≡ some t
        → (y : SavedDatabase) × ((if b then some d else find p ds) ≡ some y) × (p y ≡ true)
    by_test rest true e c g h = (d, refl, e)
    by_test rest false e true g h = absurd (true_false (sym (ap p (some_same h) ∙ k) ∙ e))
      where
        true_false : ◌≡◌ {A = Bool} true false → ⊥
        true_false h = cc
    by_test rest false e false g h = rest h

merge_Merged :
    (db : Db) (app type isolation id : String) (ids : NewIds) (o : Option SavedDatabase)
    → find (is_kind app type) db.databases ≡ o
    → There db app type id
    → Merged db id isolation (merge_request db app type (isolation_or_shared isolation) ids o)
unfolding binding_for
merge_Merged db app type isolation id ids none f (s, b, g, e, k) = cc
merge_Merged db app type isolation id ids (some t) f (s, b, g, e, k) =
    let iso = isolation_or_shared isolation in
    let same : t ≡ s = cc in
    let i : t.row.id ≡ id = ap (λ x. x.row.id) same ∙ e in
    let k' : found_binding (find (of_database t.row.id) db.database_bindings) ≡ ok b =
      ap (λ x. found_binding (find (of_database x) db.database_bindings)) i ∙ k in
    let r =
      answered
        (record db { databases = update_where (has_id t.row.id) (with_isolation iso) db.databases })
        (repeated_row t iso) k' in
    (
      repeated_row t iso,
      b,
      ap (λ x. x.1) r,
      i,
      refl,
      stored r,
      ap (λ x. length x.0.databases) r
          ∙ update_length (has_id t.row.id) (with_isolation iso) db.databases,
      ap (λ x. x.0.database_bindings) r,
      refl,
      refl,
    )
  where
    -- the row with the id is in the table, with the isolation asked for
    stored :
        {r : Result (DatabaseRow × BindingRow)} {d : DatabaseRow}
        → r ≡ (
          record db {
            databases =
                update_where
                  (has_id t.row.id)
                  (with_isolation (isolation_or_shared isolation))
                  db.databases;
          },
          ok (d, b),
        )
        → (x : SavedDatabase) × (find (has_id id) r.0.databases ≡ some x)
          × (x.row.isolation ≡ isolation_or_shared isolation)
    stored q =
        let ds = db.databases in
        let iso = isolation_or_shared isolation in
        let i : t.row.id ≡ id = ap (λ x. x.row.id) t_same ∙ e in
        let (y, g, z) =
          found_again (has_id id) (is_kind app type) ds t f ((text_iff t.row.id id).1 i) in
        let own : has_id t.row.id y ≡ true = subst (λ x. has_id x y ≡ true) (sym i) z in
        (
          with_isolation iso y,
          ap (λ r. find (has_id id) r.0.databases) q
              ∙ find-update_where (has_id t.row.id) (has_id id) (with_isolation iso) ds (λ x. refl)
              ∙ rw (g, own) refl,
          refl,
        )
      where
        t_same : t ≡ s
        t_same = cc

    answered :
        (db0 : Db) (d : DatabaseRow) {m : Outcome Error BindingRow}
        → m ≡ ok b
        → with_binding db0 d m ≡ (db0, ok (d, b))
    answered db0 d q = ap (with_binding db0 d) q

merge_kept :
    (db : Db) (app type isolation : String) (ids : NewIds) (o : Option SavedDatabase)
    → (merge_request db app type isolation ids o).0.applications ≡ db.applications
merge_kept db app type isolation ids none = refl
merge_kept db app type isolation ids (some s) = by_binding (repeated_row s isolation) (
    binding_for
      (record db {
        databases = update_where (has_id s.row.id) (with_isolation isolation) db.databases;
      })
      s.row.id)
  where
    by_binding :
        (d : DatabaseRow) (m : Outcome Error BindingRow)
        → (with_binding
            (record db {
              databases = update_where (has_id s.row.id) (with_isolation isolation) db.databases;
            })
            d
            m).0.applications
          ≡ db.applications
    by_binding d (err e) = refl
    by_binding d (ok b) = refl

-- Repeated requests merge: after a request for a database that was answered, another one of the same app and
-- the same kind, under any of its spellings, is answered too, with the id of the database that is
-- there; the row with that id has the isolation asked for, or `shared` for one that is unknown, no
-- database and no binding is added, and the answer has that isolation and an empty app_id and type.
pub request_database_merges :
    (uuid : String → Option String) (db : Db)
    (org app_id kind kind' isolation isolation' type : String) (ids ids' : NewIds) {db' : Db}
    {d : DatabaseRow} {b : BindingRow}
    → normalize_kind kind ≡ ok type
    → normalize_kind kind' ≡ ok type
    → request_database uuid db org app_id kind isolation ids ≡ (db', ok (d, b))
    → Merged db' d.id isolation' (request_database uuid db' org app_id kind' isolation' ids')
unfolding request_database get_app
request_database_merges uuid db org app_id kind kind' isolation isolation' type ids ids' {db'} {d}
      {b} n n' h =
    by_app (get_app uuid db org app_id) refl (
      subst
        (λ m.
          for_app db (get_app uuid db org app_id) (λ a. request_kind db a.id m isolation ids)
          ≡ (db', ok (d, b)))
        n h)
  where
    same_app :
        db'.applications ≡ db.applications
        → get_app uuid db' org app_id ≡ get_app uuid db org app_id
    same_app e = by_id (uuid app_id)
      where
        by_id : (o : Option String) → get_app_at db' org o ≡ get_app_at db org o
        by_id none = refl
        by_id (some id) = ap (λ rs. found_app (find (is_app id org) rs)) e

    by_app :
        (m : Outcome Error App)
        → get_app uuid db org app_id ≡ m
        → for_app db m (λ a. request_kind db a.id (ok type) isolation ids) ≡ (db', ok (d, b))
        → Merged db' d.id isolation' (
            for_app db'
              (get_app uuid db' org app_id)
              (λ a. request_kind db' a.id (normalize_kind kind') isolation' ids'))
    by_app (err e) g h = cc
    by_app (ok a) g h =
        let o = find (is_kind a.id type) db.databases in
        let t = merged_There db a.id type (isolation_or_shared isolation) ids o refl h in
        let k : db'.applications ≡ db.applications =
          ap (λ r. r.0.applications) (sym h)
          ∙ merge_kept db a.id type (isolation_or_shared isolation) ids o in
        let m =
          merge_Merged db' a.id type isolation' d.id ids' (find (is_kind a.id type) db'.databases)
            refl t in
        subst
          (λ x.
            Merged db' d.id isolation'
              (for_app db' x (λ a. request_kind db' a.id (normalize_kind kind') isolation' ids')))
          (sym (same_app k ∙ g))
          (subst (λ x. Merged db' d.id isolation' (request_kind db' a.id x isolation' ids'))
            (sym n') m)
