-- ===== src/Gateway/Dispatch/Gates.antt =====
-- What it takes to get through `dispatch` of internal/gateway/gateway.go.
pub mod Order
pub mod Passed
use inferbus.Base.{
  Bool, Bool-cases, Option, String, arith, false, inl, inr, none, not, refl, some, subst, true,
  ◌==◌, ◌≡◌, ◌⊎◌,
}
use inferbus.Base.{string_eq}
use inferbus.Gateway.Iam.{KeyConfig, Resolution, key_id}
use inferbus.Gateway.Admission.{AdmissionConfig, Cache, Reading, allow, retry_after}
use inferbus.Gateway.Params.{Merged, body_not_object, marshal_failed, merge_params, merged}
use inferbus.Gateway.Dispatch.{
  Arrival, Body, Checked, Gated, Gateway, Kind, Published, Refusal, admit, and_then, authenticate,
  body_read, body_too_large, body_unreadable, budget_exceeded, budget_exhausted, chat, checks,
  contains, dispatch, dispatch_checked, embed, invalid_api_key, is_ready, merged_body,
  model_forbidden, model_not_found, no_streaming, not_ready, or_refuse, overloaded, parse_model,
  pass, publish, publish_failed, read_all, refuse, resolve_alias, streams_wrongly, subscribe_failed,
  unless,
}

-- What must hold of a request up to its alias's allowlist test.
pub record IsAllowed (g : Gateway) (a : Arrival) (c : Checked) : Type 0 where
  pub ready : is_ready g.iam ≡ true
  pub authentic : authenticate g.hash_key g.iam a.authorization ≡ some c.key
  pub whole : a.body ≡ body_read c.body
  pub probed : g.json.probe c.body ≡ some (c.alias, c.stream)
  pub named : (c.alias == "") ≡ false
  pub shaped : (a.kind ≡ chat) ⊎ (c.stream ≡ false)
  pub resolves : resolve_alias g.iam c.key.org c.alias ≡ some c.resolution
  pub listed : contains c.alias c.key.allow ≡ true

and_then_pass :
    {A B : Type 0}
    → {r : Gated A} → {f : A → Gated B} → {b : B} → and_then r f ≡ pass b
    → (a : A) × (r ≡ pass a) × (f a ≡ pass b)
unfolding and_then
and_then_pass {r = pass a} h = (a, refl, h)
and_then_pass {r = refuse x} h = ground (arith, h)

or_refuse_pass :
    {A : Type 0} → (x : Refusal) → {o : Option A} → {a : A} → or_refuse x o ≡ pass a → o ≡ some a
unfolding or_refuse
or_refuse_pass x {o = none} h = ground (arith, h)
or_refuse_pass x {o = some b} h = ground (arith, h)

unless_pass : (x : Refusal) {b : Bool} {u : Unit {0}} → unless x b ≡ pass u → b ≡ false
unfolding unless
unless_pass x {b = b} h = ground (arith, Bool-cases b)

pass_injective : {A : Type 0} → {x y : A} → pass x ≡ pass y → x ≡ y
pass_injective h = ground (arith, h)

read_all_pass : (b : Body) (body : String) → read_all b ≡ pass body → b ≡ body_read body
unfolding read_all
read_all_pass (body_read s) body h = ground (arith, h)
read_all_pass body_too_large body h = ground (arith, h)
read_all_pass body_unreadable body h = ground (arith, h)

parse_model_pass :
    (o : Option (String × Bool)) (req : String × Bool)
    → parse_model o ≡ pass req
    → (o ≡ some req) × ((req.0 == "") ≡ false)
unfolding parse_model
parse_model_pass none req h = ground (arith, h)
parse_model_pass (some (model, stream)) req h = ground (arith, h)

shaped_lem :
    (k : Kind) (stream : Bool) → streams_wrongly k stream ≡ false → (k ≡ chat) ⊎ (stream ≡ false)
unfolding streams_wrongly
shaped_lem chat stream h = inl refl
shaped_lem embed stream h = inr h

-- The gates up to the allowlist, each of them passed.
gates-IsAllowed :
    (g : Gateway) (a : Arrival) (u v w : Unit {0}) (key : KeyConfig) (body : String)
    (req : String × Bool) (res : Resolution)
    → unless not_ready (not (is_ready g.iam)) ≡ pass u
    → or_refuse invalid_api_key (authenticate g.hash_key g.iam a.authorization) ≡ pass key
    → read_all a.body ≡ pass body
    → parse_model (g.json.probe body) ≡ pass req
    → unless no_streaming (streams_wrongly a.kind req.1) ≡ pass v
    → or_refuse model_not_found (resolve_alias g.iam key.org req.0) ≡ pass res
    → unless model_forbidden (not (contains req.0 key.allow)) ≡ pass w
    → IsAllowed g a
        (record { key = key; body = body; alias = req.0; stream = req.1; resolution = res })
gates-IsAllowed g a u v w key body req res at_ready at_key at_body at_req at_shape at_res at_list =
    record {
      ready = ground (arith, unless_pass not_ready at_ready);
      authentic = or_refuse_pass invalid_api_key at_key;
      whole = read_all_pass a.body body at_body;
      probed = (parse_model_pass (g.json.probe body) req at_req).0;
      named = (parse_model_pass (g.json.probe body) req at_req).1;
      shaped = shaped_lem a.kind req.1 (unless_pass no_streaming at_shape);
      resolves = or_refuse_pass model_not_found at_res;
      listed = ground (arith, unless_pass model_forbidden at_list);
    }

pub checks-IsAllowed :
    (g : Gateway) (a : Arrival) (c : Checked)
    → checks g a ≡ pass c
    → IsAllowed g a c × (budget_exceeded g.iam c.key ≡ false)
unfolding checks
checks-IsAllowed g a c h =
    let (u, at_ready, h1) = and_then_pass h in
    let (key, at_key, h2) = and_then_pass h1 in
    let (body, at_body, h3) = and_then_pass h2 in
    let (req, at_req, h4) = and_then_pass h3 in
    let (v, at_shape, h5) = and_then_pass h4 in
    let (res, at_res, h6) = and_then_pass h5 in
    let (w, at_list, h7) = and_then_pass h6 in
    let (_, at_budget, h8) = and_then_pass h7 in
    subst (λ d. IsAllowed g a d × (budget_exceeded g.iam d.key ≡ false)) (pass_injective h8)
      (
        gates-IsAllowed g a u v w key body req res at_ready at_key at_body at_req at_shape at_res
            at_list,
        unless_pass budget_exhausted at_budget,
      )

merged_body_pass : (m : Merged) (body : String) → merged_body m ≡ pass body → m ≡ merged body
unfolding merged_body
merged_body_pass (merged b) body h = ground (arith, h)
merged_body_pass body_not_object body h = ground (arith, h)
merged_body_pass marshal_failed body h = ground (arith, h)

-- Admission does not stand in the way.
abbrev pub admits : Option AdmissionConfig → Reading → String → Cache → Bool
admits none r model cache = true
admits (some cfg) r model cache = (allow cfg r model cache).0

admit-admits :
    (o : Option AdmissionConfig) (r : Reading) (model : String) (cache : Cache) (u : Unit {0})
    → (admit o r model cache).0 ≡ pass u
    → admits o r model cache ≡ true
unfolding admit
admit-admits none r model cache u h = refl
admit-admits (some cfg) r model cache u h =
    ground (arith, unless_pass (overloaded (retry_after cfg)) h)

-- What is published for a request: the target and the merged body of its resolution, under its key.
pub record IsSent (g : Gateway) (a : Arrival) (c : Checked) (p : Published) : Type 0 where
  pub body : merge_params g.json c.body c.resolution.params ≡ merged p.body
  pub listening : a.listens ≡ true
  pub acked : a.acked ≡ some p.seq
  pub model : p.model ≡ c.resolution.target
  pub org : p.org ≡ c.key.org
  pub key : p.key ≡ key_id c.key
  pub alias : p.alias ≡ c.alias

publish-IsSent :
    (g : Gateway) (a : Arrival) (c : Checked) (p : Published)
    → publish g a c ≡ pass p
    → IsSent g a c p
unfolding publish
publish-IsSent g a c p h =
    let (body, at_body, h1) = and_then_pass h in
    let (_, at_listen, h2) = and_then_pass h1 in
    let (seq, at_ack, h3) = and_then_pass h2 in
    subst (IsSent g a c) (pass_injective h3) (record {
      body = merged_body_pass _ body at_body;
      listening = ground (arith, unless_pass subscribe_failed at_listen);
      acked = or_refuse_pass publish_failed at_ack;
      model = refl;
      org = refl;
      key = refl;
      alias = refl;
    })

dispatch_checked-IsSent :
    (g : Gateway) (a : Arrival) (cache : Cache) (p : Published) (r : Gated Checked)
    → checks g a ≡ r
    → (dispatch_checked g a cache r).0 ≡ pass p
    → (c : Checked) × IsAllowed g a c
      × (budget_exceeded g.iam c.key ≡ false)
      × (admits g.admission a.reading c.resolution.target cache ≡ true)
      × IsSent g a c p
unfolding dispatch_checked
dispatch_checked-IsSent g a cache p (refuse x) e s = ground (arith, s)
dispatch_checked-IsSent g a cache p (pass c) e s =
    let (allowed, in_budget) = checks-IsAllowed g a c e in
    let (u, verdict, at_publish) = and_then_pass s in
    (
      c,
      allowed,
      in_budget,
      admit-admits g.admission a.reading c.resolution.target cache u verdict,
      publish-IsSent g a c p at_publish,
    )

-- A request is published only if it went through every gate: the gateway is ready, the credential
-- authenticates a key, the body is whole and names a model, an embedding does not stream, the alias
-- resolves in the key's organisation and is on the key's allowlist, the key's budget is not
-- exceeded, and admission admits the alias's target. What is published is the body merged with the
-- alias's parameters, for that target, under that key.
pub dispatch-IsSent :
    (g : Gateway) (a : Arrival) (cache : Cache) (p : Published)
    → (dispatch g a cache).0 ≡ pass p
    → (c : Checked) × IsAllowed g a c
      × (budget_exceeded g.iam c.key ≡ false)
      × (admits g.admission a.reading c.resolution.target cache ≡ true)
      × IsSent g a c p
unfolding dispatch
dispatch-IsSent g a cache p h = dispatch_checked-IsSent g a cache p (checks g a) refl h
