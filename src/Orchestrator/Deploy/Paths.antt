-- ===== src/Orchestrator/Deploy/Paths.antt =====
-- Sequences of accepted moves: which states they must pass, and where they can end.
use tenara.Prelude.{
  String, ◌≡◌, refl, Bool, true, false, not, ◌&&◌, ◌||◌, List, [], ◌∷◌, arith, if◌then◌else◌, ◌==◌,
  nat_Eq, string_Eq, text_iff, all, Member, ok, all-Member, int_Eq,
}
use tenara.Orchestrator.Deploy.{
  State, Time, AuditEvent, transition, allowed_transitions, can_transition, planned, building,
  deploying, verifying, running, degraded, failed, rolling_back, stopped, deleting, deleted,
}
use tenara.Orchestrator.Deploy.Table.{approved, table_sound}

-- Each state of the list is entered by a move that the table approves.
unfoldable pub walks : State → List State → Bool
walks s [] = true
walks s (t ∷ path) = can_transition s t && walks t path

unfoldable pub last : State → List State → State
last s [] = s
last s (t ∷ path) = last t path

unfoldable pub visits : State → List State → Bool
visits w [] = false
visits w (t ∷ path) = t == w || visits w path

-- A walk out of `p`, where no approved move but one into `w` leaves `p`, visits `w`.
must_visit :
    (p : State → Bool) (w s : State) (path : List State)
    → approved (λ f t. not (p f) || t == w || p t) allowed_transitions ≡ true
    → walks s path ≡ true
    → p s ≡ true
    → p (last s path) ≡ false
    → visits w path ≡ true
unfolding walks last visits
must_visit p w s [] h k a b = cc
must_visit p w s (t ∷ path) h k a b =
    ground (arith, table_sound (λ f u. not (p f) || u == w || p u) s t h, must_visit p w t path h)

-- The states in which no release of the app is being built or serves.
abbrev is_settled : State → Bool
is_settled s = s == planned || s == failed || s == stopped || s == deleting || s == deleted

-- From a state with nothing in flight, an app comes to RUNNING only through BUILDING, DEPLOYING
-- and VERIFYING.
pub running_passes_pipeline :
    (s : State) (path : List State)
    → is_settled s ≡ true
    → walks s path ≡ true
    → last s path ≡ running
    → (visits building path ≡ true)
      × (visits deploying path ≡ true)
      × (visits verifying path ≡ true)
running_passes_pipeline s path h k e = (
  must_visit is_settled building s path refl k h (rw e),
  must_visit (λ t. is_settled t || t == building) deploying s path refl k (rw h) (rw e),
  must_visit (λ t. is_settled t || t == building || t == deploying) verifying s path refl k (rw h)
      (rw e),
)

pub transition_ok :
    (s t : State) (actor : String) (at : Time) {e : AuditEvent}
    → transition s t actor at ≡ ok e
    → (can_transition s t ≡ true) × (e.from_state ≡ s) × (e.to_state ≡ t) × (e.actor_type ≡ actor)
unfolding transition
transition_ok s t actor at h = ground arith

-- A way to DELETED from each state of the machine.
exit_path : State → List State
exit_path s =
    if s == deleted
    then []
    else if s == deleting
    then deleted ∷ []
    else if can_transition s deleting
    then deleting ∷ deleted ∷ []
    else if can_transition s failed
    then failed ∷ deleting ∷ deleted ∷ []
    else building ∷ failed ∷ deleting ∷ deleted ∷ []

abbrev states : List State
states =
    planned ∷ building ∷ deploying ∷ verifying ∷ running ∷ degraded ∷ failed ∷ rolling_back
    ∷ stopped ∷ deleting ∷ deleted ∷ []

exits : all (λ s. walks s (exit_path s) && last s (exit_path s) == deleted) states ≡ true
unfolding walks last exit_path can_transition
exits = refl

-- From every state of the machine some sequence of approved moves ends in DELETED.
pub deleted_reachable :
    (s : State)
    → Member s states
    → (path : List State) × (walks s path ≡ true) × (last s path ≡ deleted)
deleted_reachable s m =
    let h = all-Member (λ r. walks r (exit_path r) && last r (exit_path r) == deleted) exits m in
    (exit_path s, ground arith, ground (arith, text_iff (last s (exit_path s)) deleted))
