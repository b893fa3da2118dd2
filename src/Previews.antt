-- ===== src/Previews.antt =====
-- control-plane/internal/previews/webhook.go: the GitHub webhook that opens and closes preview
-- environments.
pub mod Replay
pub mod Delivery
pub mod Tests
use tenara.Prelude.{
  ℕ, zero, suc, ◌+◌, ◌-◌, ◌*◌, ◌/◌, ◌%◌, ◌^◌, ◌≤◌, ◌<◌, String, ◌≡◌, refl, sym, ap, ◌∙◌, subst, ◌≢◌,
  ◌↔◌, ◌⊎◌, inl, inr, Bool, true, false, not, ◌&&◌, ◌||◌, Option, none, some, List, [], ◌∷◌, ◌++◌,
  map, arith, ltb, leb, nat_eq, if◌then◌else◌, ltb→lt, ltb→ge, leb→le, leb→gt, nat_eq_iff, Eq, ◌==◌,
  nat_Eq, string_Eq, text_iff, text_refl, text_ne, Bool-cases, Option-cases, text-cases, is_some,
  length, any, all, length-append, Member, here, there, All, All-Member, Map, get, remove, put,
  keys, get-remove, get-put, map_laws, all-get, get_or, get-put_self, get-put_ne, Outcome, ok, err,
  ◌>>=◌, ◌>>◌, require, refuse, >>=-eq-ok, is_ok, is_ok-then, ok-injective, all-Member, all-append,
  is_nonempty, is_nonempty-append, tests, ℤ, pos, negsuc, lt_ℤ, int_Eq, int_iff, All-of_all,
  all-of_All, any_Member, any-false,
}
use tenara.Bytes.{Bytes, codes, same, has_prefix}
use tenara.Orchestrator.Deploy.{Time}

abbrev pub max_payload_bytes : ℕ
max_payload_bytes = 2 ^ 20

abbrev action_open : String
action_open = "open"

abbrev action_close : String
action_close = "close"

abbrev action_ignore : String
action_ignore = "ignore"

unfoldable pub decide_pr_action : String → Bool → String
decide_pr_action action merged =
    if action == "opened" || action == "reopened"
    then action_open
    else if action == "closed"
    then action_close
    else action_ignore

abbrev prefix : Bytes
prefix = codes "sha256="

-- `VerifySignature`, over the hexadecimal HMAC-SHA256 of a payload under a secret.
unfoldable pub verify_signature : (Bytes → Bytes → Bytes) → Bytes → Bytes → Bytes → Bool
unfolding has_prefix same
verify_signature hmac secret payload sig_header =
    if not (has_prefix prefix sig_header)
    then false
    else same (prefix ++ hmac secret payload) sig_header

pub record ReplayGuard : Type 0 where
  pub seen : Map Time
  pub ttl : Time

unfoldable pub new_replay_guard : Time → ReplayGuard
new_replay_guard ttl = record { seen = []; ttl = ttl }

-- the loop that deletes what is older than the TTL
unfoldable pub prune : Time → Time → Map Time → Map Time
prune ttl now [] = []
prune ttl now ((id, ts) ∷ seen) =
    let rest = prune ttl now seen in if ltb (ts + ttl) now then rest else (id, ts) ∷ rest

-- `Allow` after the pruning
abbrev admit : ReplayGuard → String → Time → ReplayGuard × Bool
admit g delivery now =
    if is_some (get g.seen delivery)
    then (g, false)
    else (record g { seen = put g.seen delivery now }, true)

unfoldable pub allow : ReplayGuard → String → Time → ReplayGuard × Bool
unfolding prune
allow g delivery now =
    if delivery == ""
    then (g, false)
    else admit (record g { seen = prune g.ttl now g.seen }) delivery now

-- a hook for a number may fail, or not be set
pub record Hooks : Type 0 where
  pub on_open : Option (ℤ → Option String)
  pub on_close : Option (ℤ → Option String)

pub record Handler : Type 0 where
  pub secret : Bytes
  pub guard : ReplayGuard
  pub hooks : Hooks

pub record PullRequest : Type 0 where
  pub merged : Bool

pub record PrPayload : Type 0 where
  pub action : String
  pub number : ℤ
  pub pull_request : Option PullRequest

-- what the handler reads of a request: `none` for a body that cannot be read
pub record Request : Type 0 where
  pub body : Option Bytes
  pub signature : Bytes
  pub delivery : String
  pub now : Time

-- the hooks that were called
pub data Call : Type 0 where
  opened closed : ℤ → Call

-- the answer: the status and the calls
abbrev Answer : Type 0
Answer = ℕ × List Call

abbrev pub first_bytes : ℕ → Bytes → Bytes
first_bytes zero s = []
first_bytes (suc n) [] = []
first_bytes (suc n) (c ∷ s) = c ∷ first_bytes n s

abbrev run_hook : Option (ℤ → Option String) → Call → ℤ → Answer
run_hook none call n = (202, [])
run_hook (some hook) call n = if is_some (hook n) then (500, call ∷ []) else (202, call ∷ [])

-- the switch over the decision
unfoldable pub dispatch : Hooks → PrPayload → PullRequest → Answer
unfolding decide_pr_action
dispatch hooks p pr =
    let action = decide_pr_action p.action pr.merged in
    if action == action_open
    then run_hook hooks.on_open (opened p.number) p.number
    else if action == action_close
    then run_hook hooks.on_close (closed p.number) p.number
    else (202, [])

-- a payload that is not of the schema, has no pull request or no positive number is unsupported
abbrev handle_payload : Hooks → Option PrPayload → Answer
handle_payload hooks none = (400, [])
handle_payload hooks (some p) = elim p.pull_request [
  | none ↦ (400, [])
  | some pr ↦ if not (lt_ℤ (pos 0) p.number) then (400, []) else dispatch hooks p pr
]

-- the handler from the replay guard on
abbrev serve_signed : (Bytes → Option PrPayload) → Handler → Request → Bytes → Handler × Answer
serve_signed decode h r body =
    let (guard, fresh) = allow h.guard r.delivery r.now in
    let h' = record h { guard = guard } in
    if not fresh then (h', (409, [])) else (h', handle_payload h.hooks (decode body))

abbrev pub serve_body :
    (Bytes → Bytes → Bytes)
    → (Bytes → Option PrPayload)
    → Handler
    → Request
    → Bytes
    → Handler × Answer
serve_body hmac decode h r body =
    if not (verify_signature hmac h.secret body r.signature)
    then (h, (401, []))
    else serve_signed decode h r body

abbrev pub serve_read :
    (Bytes → Bytes → Bytes)
    → (Bytes → Option PrPayload)
    → Handler
    → Request
    → Option Bytes
    → Handler × Answer
serve_read hmac decode h r none = (h, (400, []))
serve_read hmac decode h r (some raw) =
    serve_body hmac decode h r (first_bytes max_payload_bytes raw)

-- `ServeHTTP`, over the HMAC and the JSON decoder
unfoldable pub serve_http :
    (Bytes → Bytes → Bytes) → (Bytes → Option PrPayload) → Handler → Request → Handler × Answer
unfolding allow verify_signature dispatch
serve_http hmac decode h r = serve_read hmac decode h r r.body
