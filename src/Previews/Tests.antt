-- ===== src/Previews/Tests.antt =====
-- The webhook at concrete deliveries.
use tenara.Prelude.{
  ℕ, String, ◌≡◌, refl, false, Option, none, some, [], ◌∷◌, pos, arith, get, string_Eq,
}
use tenara.Bytes.{Bytes, codes, has_prefix, same}
use tenara.Previews.{
  ReplayGuard, Handler, Request, PrPayload, new_replay_guard, allow, prune, verify_signature,
  serve_http,
}
use tenara.Previews.Delivery.{run, redelivery_refused}

-- one delivery remembered since 10, for 100
abbrev guard : ReplayGuard
guard = record { seen = ("d-1", 10) ∷ []; ttl = 100 }

abbrev first_id : String
first_id = "d-1"

-- a digest of two characters in place of the HMAC
abbrev digest : Bytes → Bytes → Bytes
digest secret payload = codes "ab"

abbrev decode : Bytes → Option PrPayload
decode body =
    some (record {
      action = "opened";
      number = pos 7;
      pull_request = some (record { merged = false });
    })

-- the creation of the preview fails
abbrev handler : Handler
handler = record {
  secret = codes "s";
  guard = new_replay_guard 100;
  hooks = record { on_open = some (λ n. some "cluster is full"); on_close = none };
}

abbrev delivered : ℕ → String → Request
delivered now delivery = record {
  body = some (codes "{}");
  signature = codes "sha256=ab";
  delivery = delivery;
  now = now;
}

redelivery_refused_example :
    (serve_http digest decode
      (run digest decode
        (serve_http digest decode handler (delivered 10 "d-2")).0
        (delivered 20 "d-3" ∷ []))
      (delivered 30 "d-2")).1
    ≡ (409, [])
unfolding allow prune verify_signature has_prefix same new_replay_guard get
redelivery_refused_example =
    redelivery_refused digest decode handler (delivered 10 "d-2") (delivered 30 "d-2")
      (delivered 20 "d-3" ∷ []) refl refl refl (omega arith) refl refl
