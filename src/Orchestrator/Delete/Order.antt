-- ===== src/Orchestrator/Delete/Order.antt =====
-- The order of the deletion pipeline: which step comes next, when it is complete, and how it meets
-- the restore window.
use tenara.Prelude.{
  ℕ, zero, suc, ◌≤◌, ◌≡◌, refl, ap, ◌∙◌, inl, inr, Bool, true, false, not, ◌&&◌, ◌||◌, List, [],
  ◌∷◌, arith, if◌then◌else◌, nat_Eq, string_Eq, Bool-cases, length, all, Member, here, there,
  Outcome, ok, err, ℤ, lt_ℤ, int_Eq, int_iff,
}
use tenara.Orchestrator.Delete.{
  delete_step_order, soft_deleted, Error, unknown_step, pipeline_complete, done_has, is_unknown,
  mark, first_undone, next_delete_step, restore_window_open,
}

-- the marks that a run of the loop with no refusal leaves
marked : List ℤ → List ℤ → List ℤ
marked [] done = done
marked (c ∷ completed) done = marked completed (c ∷ done)

mark_of_known :
    (completed done : List ℤ)
    → all (λ c. not (is_unknown c)) completed ≡ true
    → mark completed done ≡ ok (marked completed done)
unfolding mark marked
mark_of_known [] done h = refl
mark_of_known (c ∷ completed) done h = ground (arith, mark_of_known completed (c ∷ done))

has-marked :
    (completed done : List ℤ) (id : ℤ)
    → done_has (marked completed done) id ≡ (done_has completed id || done_has done id)
unfolding marked done_has
has-marked [] done id = refl
has-marked (c ∷ completed) done id = ground (arith, has-marked completed (c ∷ done) id)

-- The steps of the catalog that are not among the completed ones, in order.
unfoldable pub missing : List ℤ → List ℤ → List ℤ
missing completed [] = []
missing completed (id ∷ order) =
    let rest = missing completed order in if done_has completed id then rest else id ∷ rest

abbrev first_of : List ℤ → Outcome Error ℤ
first_of [] = err pipeline_complete
first_of (id ∷ rest) = ok id

first_undone-missing :
    (completed order : List ℤ)
    → first_undone (marked completed []) order ≡ first_of (missing completed order)
unfolding first_undone missing
first_undone-missing completed [] = refl
first_undone-missing completed (id ∷ order) =
    ground (arith, has-marked completed [] id, first_undone-missing completed order, no_marks id)
  where
    no_marks : (k : ℤ) → done_has [] k ≡ false
    no_marks k = refl

-- For completed steps that are all in the catalog, the next step is the first one that is missing,
-- and with none missing the pipeline is complete.
next_is_first_missing :
    (completed : List ℤ)
    → all (λ c. not (is_unknown c)) completed ≡ true
    → next_delete_step completed ≡ first_of (missing completed delete_step_order)
unfolding next_delete_step first_undone
next_is_first_missing completed h =
    next_of_marks completed (mark_of_known completed [] h)
    ∙ first_undone-missing completed delete_step_order
  where
    next_of_marks :
        (cs : List ℤ)
        → mark cs [] ≡ ok (marked cs [])
        → next_delete_step cs ≡ first_undone (marked cs []) delete_step_order
    next_of_marks cs e = rw (next_delete_step, e) refl

fails_closed_from :
    (completed done : List ℤ)
    → all (λ c. not (is_unknown c)) completed ≡ false
    → (c : ℤ) × (mark completed done ≡ err (unknown_step c))
      × Member c completed
      × (is_unknown c ≡ true)
unfolding mark
fails_closed_from [] done h = cc
fails_closed_from (c ∷ completed) done h = elim (Bool-cases (is_unknown c)) [
  | inl e ↦ (c, rw e refl, here, e)
  | inr e ↦
      let (d, refused, m, u) = fails_closed_from completed (c ∷ done) (ground arith) in
      (d, rw e refused, there m, u)
]

-- An id outside the catalog among the completed steps is refused, and the refusal names one.
pub fails_closed :
    (completed : List ℤ)
    → all (λ c. not (is_unknown c)) completed ≡ false
    → (c : ℤ) × (next_delete_step completed ≡ err (unknown_step c))
      × Member c completed
      × (is_unknown c ≡ true)
unfolding next_delete_step fails_closed_from
fails_closed completed h =
    let (c, e, m, u) = fails_closed_from completed [] h in (c, rw (next_delete_step, e) refl, m, u)

-- A step that comes next has not been completed, and every step of the catalog before it has.
pub next_in_order :
    (completed : List ℤ) (id : ℤ)
    → next_delete_step completed ≡ ok id
    → (done_has completed id ≡ false)
      × (all (λ k. not (lt_ℤ k id) || done_has completed k) delete_step_order ≡ true)
      × (all (λ c. not (is_unknown c)) completed ≡ true)
unfolding missing
next_in_order completed id h = elim (Bool-cases (all (λ c. not (is_unknown c)) completed)) [
  | inl e ↦
      let n = next_is_first_missing completed e in (ground (arith, n, h), ground (arith, n, h), e)
  | inr e ↦ let (c, n, _, _) = fails_closed completed e in absurd (cc (n, h))
]

-- The deletion loop: take the next step, record it, go on until the pipeline refuses.
unfoldable pub drain : ℕ → List ℤ → List ℤ
drain zero completed = []
drain (suc n) completed = elim (next_delete_step completed) [
  | ok id ↦ id ∷ drain n (id ∷ completed)
  | err e ↦ []
]

abbrev is_distinct : List ℤ → Bool
is_distinct [] = true
is_distinct (id ∷ order) = not (done_has order id) && is_distinct order

missing-other :
    (completed order : List ℤ) (id : ℤ)
    → done_has order id ≡ false
    → missing (id ∷ completed) order ≡ missing completed order
unfolding missing done_has
missing-other completed [] id h = refl
missing-other completed (k ∷ order) id h =
    ground (arith, int_iff k id, int_iff id k, missing-other completed order id)

missing-recorded :
    (completed order rest : List ℤ) (id : ℤ)
    → is_distinct order ≡ true
    → missing completed order ≡ id ∷ rest
    → missing (id ∷ completed) order ≡ rest
unfolding missing done_has
missing-recorded completed [] rest id d h = cc
missing-recorded completed (k ∷ order) rest id d h = ground (
  arith,
  int_iff id k,
  missing-recorded completed order rest id,
  missing-other completed order id,
)

missing_known :
    (completed order rest : List ℤ) (id : ℤ)
    → all (λ c. not (is_unknown c)) order ≡ true
    → missing completed order ≡ id ∷ rest
    → is_unknown id ≡ false
unfolding missing
missing_known completed [] rest id d h = cc
missing_known completed (k ∷ order) rest id d h =
    ground (arith, missing_known completed order rest id)

drain-missing :
    (n : ℕ) (completed left : List ℤ)
    → all (λ c. not (is_unknown c)) completed ≡ true
    → missing completed delete_step_order ≡ left
    → length left ≤ n
    → drain n completed ≡ left
unfolding drain done_has
drain-missing zero completed [] k h b = refl
drain-missing zero completed (id ∷ left) k h b = absurd (omega arith)
drain-missing (suc n) completed [] k h b =
    rw (next_is_first_missing completed k ∙ ap first_of h, drain) refl
drain-missing (suc n) completed (id ∷ left) k h b =
    rw (next_is_first_missing completed k ∙ ap first_of h, drain)
      (ap (◌∷◌ id) (
        drain-missing n (id ∷ completed) left
          (known (missing_known completed delete_step_order left id refl h))
          (missing-recorded completed delete_step_order left id refl h) (omega arith)))
  where
    known : is_unknown id ≡ false → all (λ c. not (is_unknown c)) (id ∷ completed) ≡ true
    known u = rw (u, k) refl

length-missing-le : (completed order : List ℤ) → length (missing completed order) ≤ length order
unfolding missing
length-missing-le completed [] = omega arith
length-missing-le completed (id ∷ order) = ground (arith, length-missing-le completed order)

-- From any completed steps of the catalog, in whatever order they were recorded, at most seven
-- more rounds finish the deletion: they take exactly the missing steps, in the catalog's order.
pub drain_finishes :
    (completed : List ℤ)
    → all (λ c. not (is_unknown c)) completed ≡ true
    → drain 7 completed ≡ missing completed delete_step_order
drain_finishes completed k =
    drain-missing 7 completed (missing completed delete_step_order) k refl
      (length-missing-le completed delete_step_order)

open_no_late :
    (completed : List ℤ)
    → restore_window_open completed ≡ true
    → done_has completed soft_deleted ≡ false
unfolding restore_window_open done_has
open_no_late [] h = refl
open_no_late (c ∷ completed) h = ground (arith, open_no_late completed, int_iff c soft_deleted)

-- While an app may still be restored, the next step is one of the first four: no destructive step
-- is taken before the soft deletion is recorded.
pub no_purge_while_restorable :
    (completed : List ℤ) (id : ℤ)
    → restore_window_open completed ≡ true
    → next_delete_step completed ≡ ok id
    → lt_ℤ soft_deleted id ≡ false
unfolding missing
no_purge_while_restorable completed id w h =
    elim (Bool-cases (all (λ c. not (is_unknown c)) completed)) [
      | inl e ↦
          let n = next_is_first_missing completed e in
          ground (arith, n, open_no_late completed w, h)
      | inr e ↦ let (c, n, _, _) = fails_closed completed e in cc (n, h)
    ]
