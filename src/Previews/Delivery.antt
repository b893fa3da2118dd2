-- ===== src/Previews/Delivery.antt =====
-- The webhook handler over sequences of requests.
use tenara.Prelude.{
  ◌+◌, ◌≤◌, String, ◌≡◌, sym, subst, Bool, true, false, Option, none, some, List, [], ◌∷◌, arith,
  leb, nat_Eq, string_Eq, all, is_nonempty, int_Eq,
}
use tenara.Bytes.{Bytes}
use tenara.Orchestrator.Deploy.{Time}
use tenara.Previews.{
  Handler, Request, PrPayload, max_payload_bytes, first_bytes, allow, verify_signature, serve_body,
  serve_read, serve_http,
}
use tenara.Previews.Replay.{remembers, allow_keeps, admitted_remembered, remembered_refused}

-- the part of the body that is read
abbrev payload_of : Bytes → Bytes
payload_of raw = first_bytes max_payload_bytes raw

-- The body is signed with the handler's secret.
abbrev signs : (Bytes → Bytes → Bytes) → Handler → Request → Option Bytes → Bool
signs hmac h r none = false
signs hmac h r (some raw) = verify_signature hmac h.secret (payload_of raw) r.signature

abbrev pub is_signed : (Bytes → Bytes → Bytes) → Handler → Request → Bool
is_signed hmac h r = signs hmac h r r.body

signed_of :
    (hmac : Bytes → Bytes → Bytes) (decode : Bytes → Option PrPayload) (h : Handler) (r : Request)
    (raw : Bytes)
    → is_nonempty (serve_body hmac decode h r (payload_of raw)).1.1 ≡ true
    → (verify_signature hmac h.secret (payload_of raw) r.signature ≡ true)
      × ((allow h.guard r.delivery r.now).1 ≡ true)
signed_of hmac decode h r raw c = ground arith

authentic_of :
    (hmac : Bytes → Bytes → Bytes) (decode : Bytes → Option PrPayload) (h : Handler) (r : Request)
    (o : Option Bytes)
    → is_nonempty (serve_read hmac decode h r o).1.1 ≡ true
    → (signs hmac h r o ≡ true) × ((allow h.guard r.delivery r.now).1 ≡ true)
authentic_of hmac decode h r none c = cc
authentic_of hmac decode h r (some raw) c = signed_of hmac decode h r raw c

-- A request calls a hook only if it is signed with the secret and its delivery is admitted.
pub calls_authentic :
    (hmac : Bytes → Bytes → Bytes) (decode : Bytes → Option PrPayload) (h : Handler) (r : Request)
    → is_nonempty (serve_http hmac decode h r).1.1 ≡ true
    → (is_signed hmac h r ≡ true) × ((allow h.guard r.delivery r.now).1 ≡ true)
unfolding serve_http
calls_authentic hmac decode h r c = authentic_of hmac decode h r r.body c

module _ (hmac : Bytes → Bytes → Bytes) (decode : Bytes → Option PrPayload) where
  unfoldable pub run : Handler → List Request → Handler
  run h [] = h
  run h (r ∷ requests) = run (serve_http hmac decode h r).0 requests

  -- The handler still has the secret and the TTL, and remembers the delivery since `since`.
  abbrev Remembers : Handler → Time → String → Handler → Type 0
  Remembers h since k h' =
      (remembers since k h'.guard.seen ≡ true)
      × (h'.guard.ttl ≡ h.guard.ttl)
      × (h'.secret ≡ h.secret)

  body_keeps :
      (h h' : Handler) (since : Time) (k : String) (r : Request) (body : Bytes)
      → r.now ≤ since + h.guard.ttl
      → Remembers h since k h'
      → Remembers h since k (serve_body hmac decode h' r body).0
  body_keeps h h' since k r body n m =
      let (seen, ttl, secret) = m in
      let (kept, same_ttl) = allow_keeps h'.guard since k r.delivery r.now (omega arith) seen in
      (ground (arith, kept, seen), ground (arith, same_ttl, ttl), ground (arith, secret))

  option_keeps :
      (h h' : Handler) (since : Time) (k : String) (r : Request) (o : Option Bytes)
      → r.now ≤ since + h.guard.ttl
      → Remembers h since k h'
      → Remembers h since k (serve_read hmac decode h' r o).0
  option_keeps h h' since k r none n m = m
  option_keeps h h' since k r (some raw) n m = body_keeps h h' since k r (payload_of raw) n m

  serve_keeps :
      (h h' : Handler) (since : Time) (k : String) (r : Request)
      → r.now ≤ since + h.guard.ttl
      → Remembers h since k h'
      → Remembers h since k (serve_http hmac decode h' r).0
  unfolding serve_http
  serve_keeps h h' since k r n m = option_keeps h h' since k r r.body n m

  run_keeps :
      (h h' : Handler) (since : Time) (k : String) (requests : List Request)
      → all (λ r. leb r.now (since + h.guard.ttl)) requests ≡ true
      → Remembers h since k h'
      → Remembers h since k (run h' requests)
  unfolding run
  run_keeps h h' since k [] a m = m
  run_keeps h h' since k (r ∷ requests) a m =
      run_keeps h (serve_http hmac decode h' r).0 since k requests (ground arith)
        (serve_keeps h h' since k r (ground arith) m)

  option-Remembers :
      (h : Handler) (r : Request) (o : Option Bytes)
      → signs hmac h r o ≡ true
      → (allow h.guard r.delivery r.now).1 ≡ true
      → Remembers h r.now r.delivery (serve_read hmac decode h r o).0
  option-Remembers h r none v f = cc
  option-Remembers h r (some raw) v f =
      let (seen, ttl) = admitted_remembered h.guard r.delivery r.now f in
      (ground (arith, seen, v), ground (arith, ttl, v), ground (arith, v))

  option_refused :
      (h h' : Handler) (since : Time) (k : String) (r : Request) (o : Option Bytes)
      → r.now ≤ since + h.guard.ttl
      → Remembers h since k h'
      → k ≡ r.delivery
      → signs hmac h r o ≡ true
      → (serve_read hmac decode h' r o).1 ≡ (409, [])
  option_refused h h' since k r none n m e v = cc
  option_refused h h' since k r (some raw) n m e v =
      let (seen, ttl, secret) = m in
      let no : (allow h'.guard r.delivery r.now).1 ≡ false =
        subst (λ d. (allow h'.guard d r.now).1 ≡ false) e
          (remembered_refused h'.guard since k r.now (omega arith) seen) in
      let signed : verify_signature hmac h'.secret (payload_of raw) r.signature ≡ true =
        subst (λ s. verify_signature hmac s (payload_of raw) r.signature ≡ true) (sym secret) v in
      ground (arith, no, signed)

  -- After a signed request whose delivery was admitted, whatever requests follow within the TTL, a
  -- signed request with the same delivery and within the TTL is answered 409 and calls no hook,
  -- though the hook of the first one may have failed.
  pub redelivery_refused :
      (h : Handler) (r again : Request) (between : List Request)
      → is_signed hmac h r ≡ true
      → (allow h.guard r.delivery r.now).1 ≡ true
      → all (λ q. leb q.now (r.now + h.guard.ttl)) between ≡ true
      → again.now ≤ r.now + h.guard.ttl
      → r.delivery ≡ again.delivery
      → is_signed hmac h again ≡ true
      → (serve_http hmac decode (run (serve_http hmac decode h r).0 between) again).1 ≡ (409, [])
  unfolding serve_http
  redelivery_refused h r again between v f a n e w =
      let first = option-Remembers h r r.body v f in
      let later = run_keeps h (serve_http hmac decode h r).0 r.now r.delivery between a first in
      option_refused h (run (serve_http hmac decode h r).0 between) r.now r.delivery again
        again.body n later e w
