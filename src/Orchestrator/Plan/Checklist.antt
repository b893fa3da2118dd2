-- ===== src/Orchestrator/Plan/Checklist.antt =====
-- Which specs have a plan, and what the plan depends on.
use tenara.Prelude.{
  sort, all-sort, Reordered, sort-Reordered, get-Reordered, String, ◌≡◌, refl, ap, ◌∙◌, Bool, true,
  false, not, ◌&&◌, Option, none, some, List, [], ◌∷◌, arith, nat_Eq, string_Eq, text_iff, is_some,
  all, Map, get, keys, Outcome, ok, err, ◌>>=◌, ◌>>◌, refuse, is_ok, int_Eq,
}
use tenara.AppSpec.Spec.{ServiceDef, is_http_type}
use tenara.Orchestrator.Plan.{
  Input, Plan, PlanService, ServiceResources, Error, incomplete, resource_by_type, found_type,
  type_of, listed, list_services, is_incomplete, plan_with, generate,
}

-- a service in front of the rest
abbrev listed_before :
    String → Option ServiceDef → Outcome Error (List PlanService) → Outcome Error (List PlanService)
listed_before name o c = do
  s ← listed name (get resource_by_type (found_type o)) (found_type o)
  rest ← c
  ok (s ∷ rest)

-- The services that a list of names gives, for two maps that read alike.
list_alike :
    (s t : Map ServiceDef) (names : List String)
    → ((k : String) → get s k ≡ get t k)
    → list_services s names ≡ list_services t names
unfolding list_services
list_alike s t [] h = refl
list_alike s t (name ∷ names) h =
    ap (λ o. listed_before name o (list_services s names)) (h name)
    ∙ ap (listed_before name (get t name)) (list_alike s t names h)

finish : Input → Outcome Error (List PlanService) → Outcome Error Plan
finish i c = do refuse (is_incomplete i) incomplete; services ← c; ok (plan_with i services)

-- The checklist is deterministic: it does not depend on the order in which the services of the
-- spec are visited.
pub generate-Reordered :
    (i : Input) (services : Map ServiceDef)
    → Reordered i.spec.services services
    → generate i ≡ generate (record i { spec = record i.spec { services = services } })
unfolding generate finish
generate-Reordered i services r = ap (finish i) (
    ap (list_services i.spec.services) (sort-Reordered r)
    ∙ list_alike i.spec.services services (sort (keys services)) (λ k. get-Reordered k r))

estimate_iff : (t : String) → is_some (get resource_by_type t) ≡ is_http_type t
unfolding get
estimate_iff t = ground (
  arith,
  text_iff t "frontend",
  text_iff t "backend",
  text_iff "frontend" t,
  text_iff "backend" t,
)

listed_ok : (name t : String) (o : Option ServiceResources) → is_ok (listed name o t) ≡ is_some o
listed_ok name t none = refl
listed_ok name t (some r) = refl

bind_ok {ℓ} :
    {E V W X : Type ℓ} (m : Outcome E V) (k : Outcome E W) (f : V → W → X)
    → is_ok (do v ← m; w ← k; ok (f v w)) ≡ (is_ok m && is_ok k)
bind_ok (ok v) (ok w) f = refl
bind_ok (ok v) (err e) f = refl
bind_ok (err e) k f = refl

list_ok :
    (services : Map ServiceDef) (names : List String)
    → is_ok (list_services services names) ≡ all (λ n. is_http_type (type_of services n)) names
unfolding list_services
list_ok services [] = refl
list_ok services (name ∷ names) =
    let t = type_of services name in
    bind_ok (listed name (get resource_by_type t) t) (list_services services names)
      (λ s rest. s ∷ rest)
    ∙ rw (listed_ok name t (get resource_by_type t), estimate_iff t, list_ok services names) refl

guard_ok {ℓ} :
    {E V W : Type ℓ} (b : Bool) (e : E) (c : Outcome E V) (f : V → W)
    → is_ok (do refuse b e; v ← c; ok (f v)) ≡ (not b && is_ok c)
guard_ok true e c f = refl
guard_ok false e (ok v) f = refl
guard_ok false e (err x) f = refl

finish_ok :
    (i : Input) (c : Outcome Error (List PlanService))
    → is_ok (finish i c) ≡ (not (is_incomplete i) && is_ok c)
unfolding finish
finish_ok i c = guard_ok (is_incomplete i) incomplete c (plan_with i)

-- A plan is generated exactly if the input is complete and each service of the spec is a frontend
-- or a backend: a spec with a worker or a cron job has no plan.
pub planned_iff :
    (i : Input)
    → is_ok (generate i) ≡ (
        not (is_incomplete i)
        && all (λ n. is_http_type (type_of i.spec.services n)) (keys i.spec.services))
unfolding generate finish
planned_iff i =
    finish_ok i (list_services i.spec.services (sort (keys i.spec.services)))
    ∙ ap (λ b. not (is_incomplete i) && b)
        (list_ok i.spec.services (sort (keys i.spec.services))
          ∙ all-sort (λ n. is_http_type (type_of i.spec.services n)) (keys i.spec.services))
