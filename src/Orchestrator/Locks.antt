-- ===== src/Orchestrator/Locks.antt =====
-- control-plane/internal/orchestrator/deploy_state.go: `DeployLocks`, one slot for each app.
-- The mutex makes each method atomic, so a method is a step on the map.
use tenara.Prelude.{is_ok}
use tenara.Prelude.{
  String, ◌≡◌, refl, ap, ◌∙◌, Bool, true, false, not, ◌&&◌, ◌||◌, List, [], ◌∷◌, arith,
  if◌then◌else◌, ◌==◌, nat_Eq, string_Eq, text_iff, text_refl, any, Map, remove, put, get-remove,
  get-put, get_or, Outcome, ok, err, int_Eq,
}
use mathlib.Core.Path.{fun_ext}
use tenara.Orchestrator.Deploy.{Error, concurrent_deploy}

pub record DeployLocks : Type 0 where
  pub in_flight : Map Bool

unfoldable pub new_deploy_locks : DeployLocks
new_deploy_locks = record { in_flight = [] }

unfoldable pub acquire : DeployLocks → String → DeployLocks × Outcome Error (Unit {0})
acquire l app_id =
    if get_or l.in_flight app_id false
    then (l, err (concurrent_deploy app_id))
    else (record l { in_flight = put l.in_flight app_id true }, ok tt)

unfoldable pub release : DeployLocks → String → DeployLocks
release l app_id = record l { in_flight = remove l.in_flight app_id }

pub data Op : Type 0 where
  acquire_op : String → Op
  release_op : String → Op

unfoldable pub step : DeployLocks → Op → DeployLocks
unfolding acquire release
step l (acquire_op a) = (acquire l a).0
step l (release_op a) = release l a

unfoldable pub run : DeployLocks → List Op → DeployLocks
run l [] = l
run l (o ∷ ops) = run (step l o) ops

abbrev pub is_held : DeployLocks → String → Bool
is_held l a = get_or l.in_flight a false

-- The contract: a set of apps, to which an acquire adds and from which a release takes.
pub spec_step : (String → Bool) → Op → String → Bool
spec_step held (acquire_op a) k = a == k || held k
spec_step held (release_op a) k = not (a == k) && held k

pub spec_run : (String → Bool) → List Op → String → Bool
spec_run held [] = held
spec_run held (o ∷ ops) = spec_run (spec_step held o) ops

held-step :
    (l : DeployLocks) (o : Op) (k : String) → is_held (step l o) k ≡ spec_step (is_held l) o k
unfolding step spec_step
held-step l (acquire_op a) k = ground (arith, get-put l.in_flight a k true, text_iff a k)
held-step l (release_op a) k = ground (arith, get-remove l.in_flight a k, text_iff a k)

held_run :
    (ops : List Op) (l : DeployLocks) (k : String)
    → is_held (run l ops) k ≡ spec_run (is_held l) ops k
unfolding run spec_run
held_run [] l k = refl
held_run (o ∷ ops) l k =
    held_run ops (step l o) k ∙ ap (λ h. spec_run h ops k) (fun_ext (held-step l o))

-- what a caller learns: whether its acquire succeeded; a release answers nothing
unfoldable pub answer : DeployLocks → Op → Bool
unfolding acquire
answer l (acquire_op a) = is_ok (acquire l a).1
answer l (release_op a) = true

unfoldable pub answers : DeployLocks → List Op → List Bool
unfolding answer step
answers l [] = []
answers l (o ∷ ops) = answer l o ∷ answers (step l o) ops

-- an acquire is granted exactly if the app is not in the set
pub spec_answer : (String → Bool) → Op → Bool
spec_answer held (acquire_op a) = not (held a)
spec_answer held (release_op a) = true

pub spec_answers : (String → Bool) → List Op → List Bool
spec_answers held [] = []
spec_answers held (o ∷ ops) = spec_answer held o ∷ spec_answers (spec_step held o) ops

answer-step : (l : DeployLocks) (o : Op) → answer l o ≡ spec_answer (is_held l) o
unfolding answer acquire spec_answer
answer-step l (acquire_op a) = ground arith
answer-step l (release_op a) = refl

run_answers : (ops : List Op) (l : DeployLocks) → answers l ops ≡ spec_answers (is_held l) ops
unfolding answers spec_answers
run_answers [] l = refl
run_answers (o ∷ ops) l =
    ap (λ b. b ∷ answers (step l o) ops) (answer-step l o)
    ∙ ap (λ bs. spec_answer (is_held l) o ∷ bs)
        (run_answers ops (step l o) ∙ ap (λ h. spec_answers h ops) (fun_ext (held-step l o)))

-- The registry refines the set of held apps: from any registry, whatever acquires and releases of any
-- apps follow, every one is answered as the set answers it, an acquire being granted exactly if
-- the app is not held, and afterwards an app is in flight exactly if it is in the set.
pub locks_refine_set :
    (ops : List Op) (l : DeployLocks)
    → (answers l ops ≡ spec_answers (is_held l) ops)
      × ((k : String) → is_held (run l ops) k ≡ spec_run (is_held l) ops k)
locks_refine_set ops l = (run_answers ops l, λ k. held_run ops l k)

abbrev frees : String → Op → Bool
frees a (release_op b) = b == a
frees a (acquire_op b) = false

stays_held :
    (ops : List Op) (l : DeployLocks) (a : String)
    → any (frees a) ops ≡ false
    → is_held l a ≡ true
    → is_held (run l ops) a ≡ true
unfolding run spec_step
stays_held [] l a h k = k
stays_held (o ∷ ops) l a h k =
    stays_held ops (step l o) a (ground arith) (held-step l o a ∙ keep o (ground arith))
  where
    keep : (p : Op) → frees a p ≡ false → spec_step (is_held l) p a ≡ true
    keep (acquire_op b) n = ground arith
    keep (release_op b) n = ground arith

acquire_holds : (l : DeployLocks) (a : String) → is_held (acquire l a).0 a ≡ true
unfolding acquire
acquire_holds l a = ground (arith, get-put l.in_flight a a true, text_refl a)

acquire_released : (l : DeployLocks) (a : String) → (acquire (release l a) a).1 ≡ ok tt
unfolding acquire release
acquire_released l a = ground (arith, get-remove l.in_flight a a, text_refl a)

-- One deploy of an app at a time: after an acquire, and whatever calls for any apps
-- follow with no release of this one, a second acquire is refused and changes nothing; a release
-- makes the next acquire succeed.
pub acquire_exclusive :
    (l : DeployLocks) (a : String) (ops : List Op)
    → any (frees a) ops ≡ false
    → let l' = run (acquire l a).0 ops in
      (acquire l' a ≡ (l', err (concurrent_deploy a))) × ((acquire (release l' a) a).1 ≡ ok tt)
unfolding acquire
acquire_exclusive l a ops n = acquired (acquire l a).0 (acquire_holds l a)
  where
    refused : (m : DeployLocks) → is_held m a ≡ true → acquire m a ≡ (m, err (concurrent_deploy a))
    refused m e = rw (e, acquire)

    acquired :
        (m : DeployLocks)
        → is_held m a ≡ true
        → (acquire (run m ops) a ≡ (run m ops, err (concurrent_deploy a)))
          × ((acquire (release (run m ops) a) a).1 ≡ ok tt)
    acquired m e = (refused (run m ops) (stays_held ops m a n e), acquire_released (run m ops) a)
