-- ===== src/Orchestrator/Deploy/Table.antt =====
-- Facts about the transition table are evaluations over its entries, carried to every pair of
-- states by `table_sound`.
use tenara.Prelude.{
  ◌≡◌, refl, inl, inr, Bool, true, false, not, ◌||◌, [], arith, ◌==◌, nat_Eq, string_Eq, text_iff,
  text_refl, Option-cases, all, Map, get, all-get, get_or, int_Eq,
}
use tenara.Orchestrator.Deploy.{
  State, allowed_transitions, can_transition, verifying, running, deleting, deleted,
}

-- Every entry that the table approves satisfies `p`.
abbrev pub approved : (State → State → Bool) → Map (Map Bool) → Bool
approved p table = all (λ row. all (λ cell. not cell.1 || p row.0 cell.0) row.1) table

row_sound :
    (p : State → Bool) (row : Map Bool) (to : State)
    → all (λ cell. not cell.1 || p cell.0) row ≡ true
    → get_or row to false ≡ true
    → p to ≡ true
row_sound p row to h c = elim (Option-cases (get row to)) [
  | inl e ↦ ground (arith, e)
  | inr (b, e) ↦ ground (arith, e, all-get (λ k v. not v || p k) row to b h e)
]

rows_sound :
    (p : State → State → Bool) (table : Map (Map Bool)) (from to : State)
    → approved p table ≡ true
    → get_or (get_or table from []) to false ≡ true
    → p from to ≡ true
unfolding get
rows_sound p table from to h c = elim (Option-cases (get table from)) [
  | inl e ↦ ground (arith, e)
  | inr (row, e) ↦
      row_sound (p from) row to
        (all-get (λ k r. all (λ cell. not cell.1 || p k cell.0) r) table from row h e)
        (ground (arith, e, c))
]

pub table_sound :
    (p : State → State → Bool) (from to : State)
    → approved p allowed_transitions ≡ true
    → can_transition from to ≡ true
    → p from to ≡ true
unfolding can_transition
table_sound p from to h c = rows_sound p allowed_transitions from to h c

-- A state is entered from exactly the states of `p`, where the table approves no other entry and
-- approves each of these.
pub entered_from :
    (p : State → Bool) (s t : State)
    → approved (λ f u. not (u == t) || p f) allowed_transitions ≡ true
    → (p s ≡ true → can_transition s t ≡ true)
    → can_transition s t ≡ p s
entered_from p s t h into =
    ground (arith, table_sound (λ f u. not (u == t) || p f) s t h, into, text_refl t)

-- RUNNING is entered from VERIFYING alone.
to-running : (from : State) → can_transition from running ≡ true → from ≡ verifying
to-running from c =
    let h : (not (running == running) || from == verifying) ≡ true =
      table_sound (λ f t. not (t == running) || f == verifying) from running refl c in
    (text_iff from verifying).0 h

-- DELETED is entered from DELETING alone, and no move leaves it.
deleted_moves :
    (s : State)
    → (can_transition s deleted ≡ true → s ≡ deleting) × (can_transition deleted s ≡ false)
unfolding can_transition get
deleted_moves s = (
  λ c.
      (text_iff s deleting).0
        (table_sound (λ f t. not (t == deleted) || f == deleting) s deleted refl c),
  refl,
)
