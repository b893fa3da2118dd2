-- ===== src/Orchestrator/Rollback/Newest.antt =====
-- The loops of `findSnapshot` and `ResolveRollbackTarget`: what they find, and that nothing newer is
-- passed over.
use tenara.Prelude.{
  ℕ, ◌≤◌, ◌≡◌, subst, ◌⊎◌, inl, inr, true, false, not, ◌||◌, Option, none, some, List, [], ◌∷◌,
  arith, ltb, leb, nat_eq_iff, ◌==◌, nat_Eq, string_Eq, Bool-cases, Member, here, there, tests,
  int_Eq,
}
use tenara.Orchestrator.Rollback.{
  RevisionSnapshot, eligible, find_snapshot, next_best, pick_newest, is_candidate,
}

pub find-Member :
    (revs : List RevisionSnapshot) (n : ℕ) {s : RevisionSnapshot}
    → find_snapshot revs n ≡ some s
    → Member s revs × (s.number ≡ n)
unfolding find_snapshot
find-Member [] n h = cc
find-Member (r ∷ revs) n {s} h = elim (Bool-cases (r.number == n)) [
  | inl e ↦
      let q : r ≡ s = ground arith in
      subst (λ x. Member x (r ∷ revs) × (x.number ≡ n)) q (here, (nat_eq_iff r.number n).0 e)
  | inr e ↦ let (m, q) = find-Member revs n (ground arith) in (there m, q)
]

next_best-cases :
    (r : RevisionSnapshot) (current : ℕ) (best : Option RevisionSnapshot) {s : RevisionSnapshot}
    → next_best r current best ≡ some s
    → (best ≡ some s) ⊎ ((r ≡ s) × (is_candidate current s ≡ true))
unfolding next_best
next_best-cases r current none h = ground arith
next_best-cases r current (some b) h = ground arith

pub pick-Member :
    (revs : List RevisionSnapshot) (current : ℕ) (best : Option RevisionSnapshot)
    {s : RevisionSnapshot}
    → pick_newest revs current best ≡ some s
    → (best ≡ some s) ⊎ (Member s revs × (is_candidate current s ≡ true))
unfolding pick_newest
pick-Member [] current best h = inl h
pick-Member (r ∷ revs) current best {s} h =
    elim (pick-Member revs current (next_best r current best) h) [
      | inr (m, c) ↦ inr (there m, c)
      | inl e ↦ elim (next_best-cases r current best e) [
        | inl k ↦ inl k
        | inr (q, c) ↦ inr (subst (λ x. Member x (r ∷ revs)) q here, c)
      ]
    ]

-- Something is there, and it is no older than revision `n`.
abbrev pub AtLeast : ℕ → Option RevisionSnapshot → Type 0
AtLeast n none = ⊥
AtLeast n (some b) = n ≤ b.number

next_best_keeps :
    (r : RevisionSnapshot) (current n : ℕ) (best : Option RevisionSnapshot)
    → AtLeast n best
    → AtLeast n (next_best r current best)
unfolding next_best
next_best_keeps r current n none h = absurd h
next_best_keeps r current n (some b) h =
    elim (Bool-cases (leb current r.number || not (eligible r))) [
      | inl e ↦ rw e h
      | inr e ↦ elim (Bool-cases (ltb b.number r.number)) [
        | inl k ↦ rw (e, k) (omega tests)
        | inr k ↦ rw (e, k) h
      ]
    ]

next_best_takes :
    (r : RevisionSnapshot) (current : ℕ) (best : Option RevisionSnapshot)
    → is_candidate current r ≡ true
    → AtLeast r.number (next_best r current best)
unfolding next_best
next_best_takes r current none c =
    let e : (leb current r.number || not (eligible r)) ≡ false = ground arith in rw e (omega arith)
next_best_takes r current (some b) c =
    let e : (leb current r.number || not (eligible r)) ≡ false = ground arith in
    elim (Bool-cases (ltb b.number r.number)) [
      | inl k ↦ rw (e, k) (omega arith)
      | inr k ↦ rw (e, k) (omega tests)
    ]

pick_keeps :
    (revs : List RevisionSnapshot) (current n : ℕ) (best : Option RevisionSnapshot)
    → AtLeast n best
    → AtLeast n (pick_newest revs current best)
unfolding pick_newest
pick_keeps [] current n best h = h
pick_keeps (r ∷ revs) current n best h =
    pick_keeps revs current n (next_best r current best) (next_best_keeps r current n best h)

pub pick_covers :
    (current : ℕ) {r : RevisionSnapshot} (best : Option RevisionSnapshot)
    {revs : List RevisionSnapshot}
    → Member r revs
    → is_candidate current r ≡ true
    → AtLeast r.number (pick_newest revs current best)
unfolding pick_newest
pick_covers current {r} best (here {xs = revs}) c =
    pick_keeps revs current r.number (next_best r current best) (next_best_takes r current best c)
pick_covers current best (there {x = x} m) c = pick_covers current (next_best x current best) m c
