-- ===== src/Cells/Tests.antt =====
-- The routing at a concrete registry.
use tenara.Prelude.{
  String, ◌≡◌, ◌≢◌, refl, Bool, true, false, [], ◌∷◌, ok, string_Eq, get, text_iff,
}
use tenara.Cells.{
  Cell, Spec, Registry, assign, new_cell, target_for_org, target_of, fleet_by_cloud, affected_apps,
  assigned_orgs,
}
use tenara.Cells.Routing.{View, view, reassign_keeps_first}

abbrev cell_spec : String → Bool → Spec
cell_spec name is_default = record {
  name = name;
  cloud = "selfhosted";
  endpoint = "https://cell";
  region = "eu";
  is_default = is_default;
}

abbrev cell_a : Cell
cell_a = record (new_cell (cell_spec "a" false)) { orgs = ("acme", tt) ∷ [] }

abbrev cell_b : Cell
cell_b = new_cell (cell_spec "b" true)

-- `acme` is pinned to the first of two cells
abbrev two_cells : Registry
two_cells = record { cells = ("a", cell_a) ∷ ("b", cell_b) ∷ []; names = "a" ∷ "b" ∷ [] }

false_ne : ◌≡◌ {A = Bool} false true → ⊥
false_ne h = cc

other_org : ◌≢◌ {A = String} "acme" "zeta"
other_org e = false_ne ((text_iff "acme" "zeta").1 e)

abbrev held_view : View
held_view = view "acme" cell_a

reassign_keeps_first_example :
    (target_for_org two_cells "acme" ≡ ok (target_of cell_a))
    × (target_for_org (assign two_cells "acme" "b").0 "acme" ≡ ok (target_of cell_a))
unfolding get
reassign_keeps_first_example =
    reassign_keeps_first two_cells "acme" "a" "b" [] ("b" ∷ []) {v = held_view} refl refl refl refl
      refl

-- the cells of a cloud, and the apps and organizations of a cell, are listed in order
fleet_test : fleet_by_cloud two_cells ≡ ok (("selfhosted", "a" ∷ "b" ∷ []) ∷ [])
unfolding fleet_by_cloud
fleet_test = refl

affected_test :
    affected_apps (("shop", "b") ∷ ("blog", "b") ∷ ("mail", "a") ∷ []) "b" ≡ "blog" ∷ "shop" ∷ []
unfolding affected_apps
affected_test = refl

assigned_test : assigned_orgs cell_a ≡ "acme" ∷ []
unfolding assigned_orgs
assigned_test = refl
