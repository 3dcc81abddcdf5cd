-- ===== src/Gateway/Dispatch.antt =====
-- The request pipeline of internal/gateway/gateway.go: `dispatch`, with the readiness, budget and
-- credential tests that it calls. What the network and encoding/json answer is in `Arrival`, `Json`.
pub mod Gates
pub mod Models
use Prim.Native.Char.{code}
use inferbus.Base.{
  Bool, List, Option, String, [], false, if◌then◌else◌, nat_beq, none, not, some, true, ℕ, ℤ, ◌==◌,
  ◌||◌, ◌∷◌,
}
use inferbus.Base.{string_eq}
use inferbus.Dict.{Dict}
use inferbus.Text.{Text, codes}
use inferbus.Budget.{BudgetEntry}
use inferbus.Gateway.Iam.{
  KeyConfig, Resolution, key_id, kv_authenticate, kv_budget_exceeded, kv_resolve,
  static_authenticate, static_resolve,
}
use inferbus.Gateway.Admission.{AdmissionConfig, Cache, Reading, allow, retry_after}
use inferbus.Gateway.Params.{Json, Merged, body_not_object, marshal_failed, merge_params, merged}

pub data Kind : Type 0 where
  chat embed : Kind

-- The two implementations of `iamProvider`; `KVIAM` also says whether it is ready.
pub data Provider : Type 0 where
  static_iam : List KeyConfig → Dict String String → Provider
  kv_iam : Bool → Dict String KeyConfig → Dict Text Resolution → Dict String BudgetEntry → Provider

pub record Gateway : Type 0 where
  pub iam : Provider
  pub admission : Option AdmissionConfig
  pub hash_key : String → String
  pub json : Json

pub data Body : Type 0 where
  body_read : String → Body
  body_too_large body_unreadable : Body

-- One request, and what the world answers while it is handled.
pub record Arrival : Type 0 where
  pub authorization : String
  pub body : Body
  pub kind : Kind
  pub reading : Reading
  pub req_id : String
  pub deadline : ℕ
  pub listens : Bool
  pub acked : Option ℕ

-- Each error response of the pipeline.
pub data Refusal : Type 0 where
  not_ready invalid_api_key request_too_large unreadable_body no_model : Refusal
  no_streaming model_not_found model_forbidden budget_exhausted : Refusal
  overloaded : ℤ → Refusal
  not_an_object subscribe_failed publish_failed : Refusal

pub data Gated (A : Type 0) : Type 0 where
  pass : A → Gated A
  refuse : Refusal → Gated A

unfoldable pub and_then : {A B : Type 0} → Gated A → (A → Gated B) → Gated B
and_then (refuse r) f = refuse r
and_then (pass a) f = f a

unfoldable pub or_refuse : {A : Type 0} → Refusal → Option A → Gated A
or_refuse r none = refuse r
or_refuse r (some a) = pass a

unfoldable pub unless : Refusal → Bool → Gated (Unit {0})
unless r refused = if refused then refuse r else pass tt

-- `isReady`
unfoldable pub is_ready : Provider → Bool
is_ready (static_iam keys aliases) = true
is_ready (kv_iam ready keys aliases budgets) = ready

unfoldable pub authenticate_key : (String → String) → Provider → String → Option KeyConfig
authenticate_key hash_key (static_iam keys aliases) presented = static_authenticate keys presented
authenticate_key hash_key (kv_iam ready keys aliases budgets) presented =
    kv_authenticate hash_key keys presented

unfoldable pub resolve_alias : Provider → String → String → Option Resolution
resolve_alias (static_iam keys aliases) org name = static_resolve aliases name
resolve_alias (kv_iam ready keys aliases budgets) org name =
    kv_resolve aliases (codes org) (codes name)

-- `budgetExceeded`
unfoldable pub budget_exceeded : Provider → KeyConfig → Bool
budget_exceeded (static_iam keys aliases) key = false
budget_exceeded (kv_iam ready keys aliases budgets) key = kv_budget_exceeded budgets (key_id key)

-- What follows a prefix.
pub strip_prefix : String → String → Option String
strip_prefix String.[] s = some s
strip_prefix (String.◌∷◌ c p) String.[] = none
strip_prefix (String.◌∷◌ c p) (String.◌∷◌ d s) =
    if nat_beq (code c) (code d) then strip_prefix p s else none

pub bearer : Option String → Option String
bearer none = none
bearer (some token) = if token == "" then none else some token

with_token : (String → String) → Provider → Option String → Option KeyConfig
with_token hash_key iam none = none
with_token hash_key iam (some token) = authenticate_key hash_key iam token

-- `authenticate`
unfoldable pub authenticate : (String → String) → Provider → String → Option KeyConfig
unfolding with_token bearer strip_prefix
authenticate hash_key iam authorization =
    with_token hash_key iam (bearer (strip_prefix "Bearer " authorization))

-- `slices.Contains`
unfoldable pub contains : String → List String → Bool
contains x [] = false
contains x (y ∷ ys) = y == x || contains x ys

read_all : Body → Gated String
read_all (body_read body) = pass body
read_all body_too_large = refuse request_too_large
read_all body_unreadable = refuse unreadable_body

-- The body's model and stream fields.
pub parse_model : Option (String × Bool) → Gated (String × Bool)
parse_model none = refuse no_model
parse_model (some (model, stream)) = if model == "" then refuse no_model else pass (model, stream)

pub streams_wrongly : Kind → Bool → Bool
streams_wrongly chat stream = false
streams_wrongly embed stream = stream

-- What the gates before admission have found out.
pub record Checked : Type 0 where
  pub key : KeyConfig
  pub body : String
  pub alias : String
  pub stream : Bool
  pub resolution : Resolution

-- The gates from `checkReady` to `budgetExceeded`, in their order.
unfoldable pub checks : Gateway → Arrival → Gated Checked
unfolding read_all parse_model streams_wrongly
checks g a = and_then (unless not_ready (not (is_ready g.iam))) λ _.
    and_then (or_refuse invalid_api_key (authenticate g.hash_key g.iam a.authorization)) λ key.
      and_then (read_all a.body) λ body. and_then (parse_model (g.json.probe body)) λ req.
        and_then (unless no_streaming (streams_wrongly a.kind req.1)) λ _.
          and_then (or_refuse model_not_found (resolve_alias g.iam key.org req.0)) λ res.
            and_then (unless model_forbidden (not (contains req.0 key.allow))) λ _.
              and_then (unless budget_exhausted (budget_exceeded g.iam key)) λ _.
                pass (record {
                  key = key;
                  body = body;
                  alias = req.0;
                  stream = req.1;
                  resolution = res;
                })

-- `admission.allow` of a checker that may be nil.
unfoldable pub admit : Option AdmissionConfig → Reading → String → Cache → Gated (Unit {0}) × Cache
admit none r model cache = (pass tt, cache)
admit (some cfg) r model cache =
    let (verdict, cache') = allow cfg r model cache in
    (unless (overloaded (retry_after cfg)) (not verdict), cache')

-- `relay.Request`, and the sequence that the queue acknowledged it with.
pub record Published : Type 0 where
  pub model : String
  pub org : String
  pub project : String
  pub key : String
  pub alias : String
  pub req_id : String
  pub kind : Kind
  pub deadline : ℕ
  pub body : String
  pub seq : ℕ
  pub stream : Bool

merged_body : Merged → Gated String
merged_body (merged body) = pass body
merged_body body_not_object = refuse not_an_object
merged_body marshal_failed = refuse not_an_object

-- From `mergeParams` to `relay.Publish`.
unfoldable pub publish : Gateway → Arrival → Checked → Gated Published
unfolding merged_body
publish g a c = and_then (merged_body (merge_params g.json c.body c.resolution.params)) λ body.
    and_then (unless subscribe_failed (not a.listens)) λ _.
      and_then (or_refuse publish_failed a.acked) λ seq. pass (record {
        model = c.resolution.target;
        org = c.key.org;
        project = c.key.project;
        key = key_id c.key;
        alias = c.alias;
        req_id = a.req_id;
        kind = a.kind;
        deadline = a.deadline;
        body = body;
        seq = seq;
        stream = c.stream;
      })

dispatch_checked : Gateway → Arrival → Cache → Gated Checked → Gated Published × Cache
dispatch_checked g a cache (refuse r) = (refuse r, cache)
dispatch_checked g a cache (pass c) =
    let (verdict, cache') = admit g.admission a.reading c.resolution.target cache in
    (and_then verdict (λ _. publish g a c), cache')

-- `dispatch`: the response, and the admission cache afterwards.
unfoldable pub dispatch : Gateway → Arrival → Cache → Gated Published × Cache
unfolding dispatch_checked
dispatch g a cache = dispatch_checked g a cache (checks g a)

-- The status of each error response.
unfoldable pub status : Refusal → ℕ
status not_ready = 503
status invalid_api_key = 401
status request_too_large = 413
status unreadable_body = 400
status no_model = 400
status no_streaming = 400
status model_not_found = 404
status model_forbidden = 403
status budget_exhausted = 402
status (overloaded seconds) = 429
status not_an_object = 400
status subscribe_failed = 500
status publish_failed = 503
