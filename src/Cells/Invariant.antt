-- ===== src/Cells/Invariant.antt =====
-- What holds of a registry between two calls, and what it means for routing.
use tenara.Prelude.{
  String, ◌≡◌, refl, ◌∙◌, inl, inr, Bool, true, false, not, ◌&&◌, ◌||◌, Option, none, some, List,
  [], ◌∷◌, ◌++◌, arith, ◌==◌, nat_Eq, string_Eq, text_iff, text_refl, Bool-cases, Option-cases,
  is_some, all, Map, get, put, get-put, get-put_self, Outcome, ok, err, all-append, int_Eq,
}
use tenara.Cells.{
  Cell, Spec, Registry, Error, no_cell, new_registry, new_cell, register, is_known_cloud, assign,
  is_pinned, fall_back, route_from, route_for_org,
}

-- A cell that registration lets in, under its own name.
abbrev is_sound : String → Cell → Bool
is_sound n c = c.name == n && is_known_cloud c.cloud && not (c.endpoint == "")

pub record IsValid (r : Registry) : Type 0 where
  pub listed : all (λ n. is_some (get r.cells n)) r.names ≡ true
  pub sound : (n : String) (c : Cell) → get r.cells n ≡ some c → is_sound n c ≡ true

pub data Op : Type 0 where
  register_op : Spec → Op
  assign_op : String → String → Op

unfoldable pub step : Registry → Op → Registry
step r (register_op s) = (register r s).0
step r (assign_op org name) = (assign r org name).0

unfoldable pub run : Registry → List Op → Registry
run r [] = r
run r (o ∷ ops) = run (step r o) ops

all-put :
    (m : Map Cell) (k : String) (c : Cell) (names : List String)
    → all (λ n. is_some (get m n)) names ≡ true
    → all (λ n. is_some (get (put m k c) n)) names ≡ true
all-put m k c [] h = refl
all-put m k c (n ∷ names) h = ground (arith, get-put m k n c, all-put m k c names)

-- a write of a sound cell keeps every cell sound
sound-put :
    (m : Map Cell) (k : String) (d : Cell)
    → is_sound k d ≡ true
    → ((n : String) (c : Cell) → get m n ≡ some c → is_sound n c ≡ true)
    → (n : String) (c : Cell) → get (put m k d) n ≡ some c
    → is_sound n c ≡ true
sound-put m k d s h n c e = ground (arith, get-put m k n d, h n c, text_iff k n)

added : (r : Registry) (s : Spec) → Registry
added r s = record r { cells = put r.cells s.name (new_cell s); names = r.names ++ s.name ∷ [] }

added-IsValid :
    (r : Registry) (s : Spec)
    → is_sound s.name (new_cell s) ≡ true
    → IsValid r
    → IsValid (added r s)
unfolding added
added-IsValid r s h v = record {
  listed =
      all-append (λ n. is_some (get (added r s).cells n)) r.names (s.name ∷ [])
      ∙ ground (
        arith,
        all-put r.cells s.name (new_cell s) r.names v.listed,
        get-put_self r.cells s.name (new_cell s),
      );
  sound = sound-put r.cells s.name (new_cell s) h v.sound;
}

register-IsValid : (r : Registry) (s : Spec) → IsValid r → IsValid (register r s).0
unfolding register added
register-IsValid r s v = elim (Bool-cases (s.name == "" || s.endpoint == "")) [
  | inl a ↦ rw a v
  | inr a ↦ elim (Bool-cases (not (is_known_cloud s.cloud))) [
    | inl b ↦ rw (a, b) v
    | inr b ↦ elim (Bool-cases (is_some (get r.cells s.name))) [
      | inl c ↦ rw (a, b, c) v
      | inr c ↦ rw (a, b, c) (added-IsValid r s (ground (arith, text_refl s.name)) v)
    ]
  ]
]

assign-IsValid : (r : Registry) (org name : String) → IsValid r → IsValid (assign r org name).0
unfolding assign
assign-IsValid r org name v = elim (Option-cases (get r.cells name)) [
  | inl e ↦ rw e v
  | inr (c, e) ↦ rw e (record {
    listed = all-put r.cells name (record c { orgs = put c.orgs org tt }) r.names v.listed;
    sound =
        sound-put r.cells name (record c { orgs = put c.orgs org tt }) (v.sound name c e) v.sound;
  })
]

step-IsValid : (r : Registry) (o : Op) → IsValid r → IsValid (step r o)
unfolding step
step-IsValid r (register_op s) v = register-IsValid r s v
step-IsValid r (assign_op org name) v = assign-IsValid r org name v

run-IsValid : (r : Registry) (ops : List Op) → IsValid r → IsValid (run r ops)
unfolding run
run-IsValid r [] v = v
run-IsValid r (o ∷ ops) v = run-IsValid (step r o) ops (step-IsValid r o v)

new-IsValid : IsValid new_registry
unfolding new_registry get
new-IsValid = record { listed = refl; sound = λ n c e. cc }

-- An answer of the routing: a sound cell, or the refusal that no cell is routed.
abbrev pub good_answer : Outcome Error Cell → Bool
good_answer (ok c) = is_known_cloud c.cloud && not (c.endpoint == "")
good_answer (err no_cell) = true
good_answer (err e) = false

abbrev good_fallback : Option Cell → Bool
good_fallback none = true
good_fallback (some c) = is_known_cloud c.cloud && not (c.endpoint == "")

good_of :
    (c : Cell) (n : String)
    → is_sound n c ≡ true
    → (is_known_cloud c.cloud && not (c.endpoint == "")) ≡ true
good_of c n h = ground arith

keeps :
    (c : Cell) (fallback : Option Cell) (n : String)
    → is_sound n c ≡ true
    → good_fallback fallback ≡ true
    → good_fallback (fall_back c fallback) ≡ true
keeps c none n h f = elim (Bool-cases c.is_default) [
  | inl d ↦ rw d (good_of c n h)
  | inr d ↦ rw d refl
]
keeps c (some g) n h f = f

route_good :
    (r : Registry) (names : List String) (org : String) (fallback : Option Cell)
    → ((n : String) (c : Cell) → get r.cells n ≡ some c → is_sound n c ≡ true)
    → all (λ n. is_some (get r.cells n)) names ≡ true
    → good_fallback fallback ≡ true
    → good_answer (route_from r.cells names org fallback) ≡ true
unfolding route_from
route_good r [] org none s h f = refl
route_good r [] org (some c) s h f = f
route_good r (n ∷ names) org fallback s h f = elim (Option-cases (get r.cells n)) [
  | inl e ↦ ground (arith, e)
  | inr (c, e) ↦
      let ih =
        route_good r names org (fall_back c fallback) s (ground (arith, e))
          (keeps c fallback n (s n c e) f) in
      elim (Bool-cases (is_pinned c org)) [
        | inl p ↦ rw (e, route_from) (rw p (good_of c n (s n c e)))
        | inr p ↦ rw (e, route_from) (rw p ih)
      ]
]

-- After any registrations and assignments, on a registry that began empty, every organization is
-- routed to a cell of a known cloud with an endpoint, or refused because no cell is routed: the
-- lookup of a registered name never fails.
pub routing_answers :
    (ops : List Op) (org : String) → good_answer (route_for_org (run new_registry ops) org) ≡ true
unfolding route_for_org
routing_answers ops org =
    let v = run-IsValid new_registry ops new-IsValid in
    route_good (run new_registry ops) (run new_registry ops).names org none v.sound v.listed refl
