-- ===== src/Previews/Replay.antt =====
-- The replay guard: which deliveries it admits.
use tenara.Prelude.{
  ◌+◌, ◌≤◌, String, ◌≡◌, refl, Bool, true, false, not, ◌&&◌, [], ◌∷◌, arith, leb, ◌==◌, nat_Eq,
  string_Eq, text_refl, is_some, any, Map, get, put, int_Eq,
}
use tenara.Orchestrator.Deploy.{Time}
use tenara.Previews.{ReplayGuard, prune, allow}

-- a delivery that is remembered and not older than the TTL
abbrev is_recent : Time → String → Time → String × Time → Bool
is_recent ttl delivery now e = e.0 == delivery && leb now (e.1 + ttl)

get-any : (m : Map Time) (k : String) → is_some (get m k) ≡ any (λ e. e.0 == k) m
unfolding get
get-any [] k = refl
get-any ((j, v) ∷ m) k = ground (arith, get-any m k)

prune-recent :
    (ttl now : Time) (k : String) (m : Map Time)
    → any (λ e. e.0 == k) (prune ttl now m) ≡ any (is_recent ttl k now) m
unfolding prune
prune-recent ttl now k [] = refl
prune-recent ttl now k ((j, ts) ∷ m) = ground (arith, prune-recent ttl now k m)

-- A delivery is admitted exactly if it has an id and no delivery with that id was admitted within
-- the TTL before, as far as the guard remembers.
allow_iff :
    (g : ReplayGuard) (delivery : String) (now : Time)
    → (allow g delivery now).1
      ≡ (not (delivery == "") && not (any (is_recent g.ttl delivery now) g.seen))
unfolding allow
allow_iff g delivery now =
    ground
      (arith, get-any (prune g.ttl now g.seen) delivery, prune-recent g.ttl now delivery g.seen)

-- The guard remembers a delivery since `since`.
abbrev pub remembers : Time → String → Map Time → Bool
remembers since delivery m = any (λ e. e.0 == delivery && leb since e.1) m

prune_keeps :
    (ttl now since : Time) (k : String) (m : Map Time)
    → now ≤ since + ttl
    → remembers since k m ≡ true
    → remembers since k (prune ttl now m) ≡ true
unfolding prune
prune_keeps ttl now since k [] h r = r
prune_keeps ttl now since k ((j, ts) ∷ m) h r = ground (arith, prune_keeps ttl now since k m)

put_keeps :
    (since : Time) (k j : String) (now : Time) (m : Map Time)
    → is_some (get m j) ≡ false
    → remembers since k m ≡ true
    → remembers since k (put m j now) ≡ true
unfolding get put
put_keeps since k j now [] n r = cc
put_keeps since k j now ((i, ts) ∷ m) n r = ground (arith, put_keeps since k j now m)

remembered_some :
    (since : Time) (k : String) (m : Map Time)
    → remembers since k m ≡ true
    → is_some (get m k) ≡ true
unfolding get
remembered_some since k [] r = cc
remembered_some since k ((j, ts) ∷ m) r = ground (arith, remembered_some since k m)

put_new : (k : String) (now : Time) (m : Map Time) → remembers now k (put m k now) ≡ true
unfolding put
put_new k now [] = ground (arith, text_refl k)
put_new k now ((j, ts) ∷ m) = ground (arith, text_refl k, put_new k now m)

pub allow_keeps :
    (g : ReplayGuard) (since : Time) (k delivery : String) (now : Time)
    → now ≤ since + g.ttl
    → remembers since k g.seen ≡ true
    → (remembers since k (allow g delivery now).0.seen ≡ true)
      × ((allow g delivery now).0.ttl ≡ g.ttl)
unfolding allow
allow_keeps g since k delivery now h r =
    let p = prune_keeps g.ttl now since k g.seen h r in
    (ground (arith, p, put_keeps since k delivery now (prune g.ttl now g.seen)), ground arith)

pub admitted_remembered :
    (g : ReplayGuard) (k : String) (now : Time)
    → (allow g k now).1 ≡ true
    → (remembers now k (allow g k now).0.seen ≡ true) × ((allow g k now).0.ttl ≡ g.ttl)
unfolding allow
admitted_remembered g k now h =
    (ground (arith, put_new k now (prune g.ttl now g.seen)), ground arith)

pub remembered_refused :
    (g : ReplayGuard) (since : Time) (k : String) (now : Time)
    → now ≤ since + g.ttl
    → remembers since k g.seen ≡ true
    → (allow g k now).1 ≡ false
unfolding allow
remembered_refused g since k now h r =
    let p = prune_keeps g.ttl now since k g.seen h r in
    ground (arith, p, remembered_some since k (prune g.ttl now g.seen))
