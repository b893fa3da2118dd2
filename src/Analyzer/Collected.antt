-- ===== src/Analyzer/Collected.antt =====
-- The services that are collected from the directories.
use tenara.Prelude.{
  all-put, String, ◌≡◌, refl, Bool, true, false, not, ◌&&◌, ◌||◌, List, [], ◌∷◌, ◌++◌, arith,
  if◌then◌else◌, ◌==◌, nat_Eq, string_Eq, all, Map, put, int_Eq,
}
use tenara.Bytes.{codes, is_blank}
use tenara.Analyzer.{
  ServiceFacts, ServiceDef, is_supported, is_frontend_framework, service_of, collect,
}

-- A supported service of a directory that is not blank.
abbrev pub is_good : ServiceDef → Bool
is_good s =
    (s.type == "frontend" || s.type == "backend")
    && is_supported s.runtime
    && not (is_blank (codes s.path))

abbrev pub not_blank : String → Bool
not_blank dir = not (is_blank (codes dir))

type_is_http :
    (b : Bool)
    → (◌==◌ {V = String} (if b then "frontend" else "backend") "frontend"
        || ◌==◌ {V = String} (if b then "frontend" else "backend") "backend")
      ≡ true
type_is_http true = refl
type_is_http false = refl

and_three : (a b c : Bool) → a ≡ true → b ≡ true → c ≡ true → (a && b && c) ≡ true
and_three a b c h k l = ground arith

service_good :
    (dir : String) (f : ServiceFacts)
    → not_blank dir ≡ true
    → is_supported f.runtime ≡ true
    → is_good (service_of dir f) ≡ true
service_good dir f h k =
    and_three ((service_of dir f).type == "frontend" || (service_of dir f).type == "backend")
      (is_supported f.runtime) (not_blank dir) (type_is_http (is_frontend_framework f.framework)) k
      h

pub head_true : (a b : Bool) → (a && b) ≡ true → (a ≡ true) × (b ≡ true)
head_true a b h = (ground arith, ground arith)

good_branch :
    (b : Bool) (m n : Map ServiceDef)
    → (b ≡ true → all (λ e. is_good e.1) m ≡ true)
    → all (λ e. is_good e.1) n ≡ true
    → all (λ e. is_good e.1) (if b then m else n) ≡ true
good_branch true m n h k = h refl
good_branch false m n h k = k

pub collect_good :
    (fs : Map ServiceFacts) (services : Map ServiceDef) (unsupported : List String)
    → all (λ e. not_blank e.0) fs ≡ true
    → all (λ e. is_good e.1) services ≡ true
    → all (λ e. is_good e.1) (collect fs services unsupported).0 ≡ true
unfolding collect
collect_good [] services unsupported h g = g
collect_good ((dir, f) ∷ fs) services unsupported h g =
    let (d, r) = head_true (not_blank dir) (all (λ e. not_blank e.0) fs) h in
    collect_good fs
      (if is_supported f.runtime then put services dir (service_of dir f) else services)
      (if is_supported f.runtime then unsupported else unsupported ++ dir ∷ []) r
      (good_branch (is_supported f.runtime) (put services dir (service_of dir f)) services
        (λ e. all-put is_good services dir (service_of dir f) (service_good dir f d e) g) g)
