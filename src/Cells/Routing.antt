-- ===== src/Cells/Routing.antt =====
-- Where organizations are routed, in terms of what routing reads of each cell.
use tenara.Prelude.{
  String, ◌≡◌, refl, sym, ap, ◌∙◌, ◌≢◌, inl, inr, Bool, true, false, not, ◌&&◌, Option, none, some,
  List, [], ◌∷◌, ◌++◌, arith, if◌then◌else◌, ◌==◌, nat_Eq, string_Eq, text_ne, Bool-cases,
  Option-cases, text-cases, all, Map, get, put, get-put_self, get-put_ne, Outcome, ok, err, ◌>>=◌,
  int_Eq,
}
use mathlib.Core.Path.{fun_ext}
use mathlib.Core.Option
use tenara.Cells.{
  Cell, Registry, Target, Error, no_cell, nil_cell, assign, is_pinned, fall_back, route_from,
  route_for_org, target_of, target_for_org,
}

-- What the routing of an organization reads of a cell.
pub record View : Type 0 where
  pub target : Target
  pub pinned : Bool
  pub is_default : Bool

abbrev pub view : String → Cell → View
view org c = record { target = target_of c; pinned = is_pinned c org; is_default = c.is_default }

abbrev views : Registry → String → String → Option View
views r org name = Option.map (view org) (get r.cells name)

abbrev or_none : Option Target → Outcome Error Target
or_none none = err no_cell
or_none (some t) = ok t

abbrev fall_back_to : View → Option Target → Option Target
fall_back_to v none = if v.is_default then some v.target else none
fall_back_to v (some t) = some t

-- The routing rule, over the views of the cells.
choose : (String → Option View) → List String → Option Target → Outcome Error Target
choose at [] fallback = or_none fallback
choose at (name ∷ names) fallback = elim (at name) [
  | none ↦ err nil_cell
  | some v ↦
      let rest = choose at names (fall_back_to v fallback) in if v.pinned then ok v.target else rest
]

abbrev to_target : Outcome Error Cell → Outcome Error Target
to_target m = m >>= λ c. ok (target_of c)

map-fall_back :
    (c : Cell) (org : String) (fallback : Option Cell)
    → Option.map target_of (fall_back c fallback)
      ≡ fall_back_to (view org c) (Option.map target_of fallback)
map-fall_back c org none = elim (Bool-cases c.is_default) [ inl d ↦ rw d refl | inr d ↦ rw d refl ]
map-fall_back c org (some f) = refl

route-choose :
    (cells : Map Cell) (names : List String) (org : String) (fallback : Option Cell)
    → to_target (route_from cells names org fallback)
      ≡ choose (λ n. Option.map (view org) (get cells n)) names (Option.map target_of fallback)
unfolding route_from choose
route-choose cells [] org none = refl
route-choose cells [] org (some c) = refl
route-choose cells (name ∷ names) org fallback = elim (Option-cases (get cells name)) [
  | inl e ↦ rw (e, route_from, choose) refl
  | inr (c, e) ↦ elim (Bool-cases (is_pinned c org)) [
    | inl p ↦ rw (e, route_from, choose) (rw p refl)
    | inr p ↦
        rw (e, route_from, choose)
          (rw p (
            route-choose cells names org (fall_back c fallback)
            ∙ ap (choose (λ n. Option.map (view org) (get cells n)) names)
                (map-fall_back c org fallback)))
  ]
]

target-choose :
    (r : Registry) (org : String) → target_for_org r org ≡ choose (views r org) r.names none
unfolding target_for_org route_for_org
target-choose r org = route-choose r.cells r.names org none

assign_names : (r : Registry) (org name : String) → (assign r org name).0.names ≡ r.names
unfolding assign
assign_names r org name = ground arith

-- what an assignment changes of the views of an organization
assign-views_other :
    (r : Registry) (o org name : String)
    → (o == org) ≡ false
    → (n : String) → views (assign r o name).0 org n ≡ views r org n
unfolding assign
assign-views_other r o org name h n = elim (Option-cases (get r.cells name)) [
  | inl e ↦ rw e refl
  | inr (c, e) ↦ rw e (elim (text-cases name n) [
    | inl q ↦ rw (← q) (rw (get-put_self r.cells name _, e, get-put_ne c.orgs o org tt h) refl)
    | inr q ↦ rw (get-put_ne r.cells name n (record c { orgs = put c.orgs o tt }) q) refl
  ])
]

-- Assigning one organization moves no other: every other organization is routed to the same target
-- as before, and the refusals stay the same.
pub assign_moves_no_other :
    (r : Registry) (o org name : String)
    → o ≢ org
    → target_for_org (assign r o name).0 org ≡ target_for_org r org
assign_moves_no_other r o org name h =
    target-choose (assign r o name).0 org
    ∙ rw (fun_ext (assign-views_other r o org name (text_ne o org h)), assign_names r o name)
        (sym (target-choose r org))

-- The cell is there and does not hold the organization.
abbrev quiet : (String → Option View) → String → Bool
quiet at n = elim (at n) [ none ↦ false | some v ↦ not v.pinned ]

choose-pinned :
    (at : String → Option View) (before after : List String) (name : String)
    (fallback : Option Target) {v : View}
    → all (quiet at) before ≡ true
    → at name ≡ some v
    → v.pinned ≡ true
    → choose at (before ++ name ∷ after) fallback ≡ ok v.target
unfolding choose
choose-pinned at [] after name fallback h e p = rw e (rw p refl)
choose-pinned at (n ∷ before) after name fallback h e p = elim (Option-cases (at n)) [
  | inl k ↦ ground (arith, k)
  | inr (w, k) ↦
      let free : w.pinned ≡ false = ground (arith, k) in
      rw k
        (rw free (choose-pinned at before after name (fall_back_to w fallback) (ground arith) e p))
]

assign-views_self :
    (r : Registry) (o name : String) {c : Cell}
    → get r.cells name ≡ some c
    → views (assign r o name).0 o name
      ≡ some (record { target = target_of c; pinned = true; is_default = c.is_default })
unfolding assign
assign-views_self r o name {c} e =
    rw e (rw (get-put_self r.cells name _) (rw (get-put_self c.orgs o tt) refl))

assign-views_ne :
    (r : Registry) (o org name n : String)
    → (name == n) ≡ false
    → views (assign r o name).0 org n ≡ views r org n
unfolding assign
assign-views_ne r o org name n h = elim (Option-cases (get r.cells name)) [
  | inl e ↦ rw e refl
  | inr (c, e) ↦ rw e (rw (get-put_ne r.cells name n _ h) refl)
]

-- cells that neither hold the organization nor are `name`
abbrev passed_over : Registry → String → String → List String → Bool
passed_over r o name before = all (λ n. quiet (views r o) n && not (name == n)) before

still_quiet :
    (r : Registry) (o name : String) (before : List String)
    → passed_over r o name before ≡ true
    → all (quiet (views (assign r o name).0 o)) before ≡ true
still_quiet r o name [] h = refl
still_quiet r o name (n ∷ before) h =
    ground (arith, assign-views_ne r o o name n, still_quiet r o name before)

quiet_of_passed :
    (r : Registry) (o name : String) (before : List String)
    → passed_over r o name before ≡ true
    → all (quiet (views r o)) before ≡ true
quiet_of_passed r o name [] h = refl
quiet_of_passed r o name (n ∷ before) h = ground (arith, quiet_of_passed r o name before)

-- An organization that no earlier cell holds is routed to the cell that it is assigned to, though
-- an earlier cell be the default one.
pub assign_routes :
    (r : Registry) (o name : String) (before after : List String) {c : Cell}
    → r.names ≡ before ++ name ∷ after
    → get r.cells name ≡ some c
    → passed_over r o name before ≡ true
    → target_for_org (assign r o name).0 o ≡ ok (target_of c)
assign_routes r o name before after e g h =
    target-choose (assign r o name).0 o
    ∙ ap (λ ns. choose (views (assign r o name).0 o) ns none) (assign_names r o name ∙ e)
    ∙ choose-pinned (views (assign r o name).0 o) before after name none
        (still_quiet r o name before h) (assign-views_self r o name g) refl

-- An organization that a cell holds stays there when it is assigned to a cell that was registered
-- later: the first of its cells in the order of registration wins, not the last assignment.
pub reassign_keeps_first :
    (r : Registry) (o held name : String) (before after : List String) {v : View}
    → r.names ≡ before ++ held ∷ after
    → passed_over r o name before ≡ true
    → (name == held) ≡ false
    → views r o held ≡ some v
    → v.pinned ≡ true
    → (target_for_org r o ≡ ok v.target) × (target_for_org (assign r o name).0 o ≡ ok v.target)
reassign_keeps_first r o held name before after e h n g p = (
  target-choose r o
      ∙ ap (λ ns. choose (views r o) ns none) e
      ∙ choose-pinned (views r o) before after held none (quiet_of_passed r o name before h) g p,
  target-choose (assign r o name).0 o
      ∙ ap (λ ns. choose (views (assign r o name).0 o) ns none) (assign_names r o name ∙ e)
      ∙ choose-pinned (views (assign r o name).0 o) before after held none
          (still_quiet r o name before h) (assign-views_ne r o o name held n ∙ g) p,
)
