-- ===== src/Gateway/Dispatch/Gates/Order.antt =====
-- The order of the gates in `dispatch` of internal/gateway/gateway.go.
use inferbus.Base.{
  Bool, Bool-cases, Option, String, arith, false, none, not, refl, some, true, ◌≡◌, ◌≢◌,
}
use inferbus.Base.{string_eq}
use inferbus.Gateway.Admission.{AdmissionConfig, Cache, Reading, allow, retry_after}
use inferbus.Gateway.Params.{Merged, body_not_object, marshal_failed, merged}
use inferbus.Gateway.Dispatch.{
  Arrival, Body, Checked, Gated, Gateway, Published, Refusal, admit, and_then, body_read,
  body_too_large, body_unreadable, budget_exceeded, budget_exhausted, checks, dispatch,
  dispatch_checked, invalid_api_key, merged_body, model_forbidden, model_not_found, no_streaming,
  not_ready, or_refuse, overloaded, parse_model, pass, publish, publish_failed, read_all, refuse,
  subscribe_failed, unless,
}
use inferbus.Gateway.Dispatch.Gates.{IsAllowed, checks-IsAllowed, gates-IsAllowed}

and_then_refuse :
    {A B : Type 0}
    → {r : Gated A} → {f : A → Gated B} → {x : Refusal} → r ≢ refuse x
    → and_then r f ≡ refuse x
    → (a : A) × (r ≡ pass a) × (f a ≡ refuse x)
unfolding and_then
and_then_refuse {r = pass a} other h = (a, refl, h)
and_then_refuse {r = refuse y} other h = absurd (other (ground (arith, h)))

unless_refuse : (x y : Refusal) (b : Bool) → unless x b ≡ refuse y → (x ≡ y) × (b ≡ true)
unfolding unless
unless_refuse x y b h = ground (arith, Bool-cases b)

or_refuse_refuse :
    {A : Type 0} → (x y : Refusal) → (o : Option A) → or_refuse x o ≡ refuse y → x ≡ y
unfolding or_refuse
or_refuse_refuse x y none h = ground (arith, h)
or_refuse_refuse x y (some a) h = ground (arith, h)

last_gate :
    {A : Type 0}
    → (x y : Refusal) → (b : Bool) → (f : Unit {0} → A)
    → and_then (unless x b) (λ u. pass (f u)) ≡ refuse y
    → b ≡ true
unfolding and_then unless
last_gate x y true f h = refl
last_gate x y false f h = ground (arith, h)

read_all_fine : (b : Body) → read_all b ≢ refuse budget_exhausted
unfolding read_all
read_all_fine (body_read s) h = ground (arith, h)
read_all_fine body_too_large h = ground (arith, h)
read_all_fine body_unreadable h = ground (arith, h)

parse_model_fine : (o : Option (String × Bool)) → parse_model o ≢ refuse budget_exhausted
unfolding parse_model
parse_model_fine none h = ground (arith, h)
parse_model_fine (some (model, stream)) h = ground (arith, h)

unless_fine : (x : Refusal) (b : Bool) → x ≢ budget_exhausted → unless x b ≢ refuse budget_exhausted
unless_fine x b other h = other (unless_refuse x budget_exhausted b h).0

or_refuse_fine :
    {A : Type 0}
    → (x : Refusal) → (o : Option A) → x ≢ budget_exhausted
    → or_refuse x o ≢ refuse budget_exhausted
or_refuse_fine x o other h = other (or_refuse_refuse x budget_exhausted o h)

checks-exhausted :
    (g : Gateway) (a : Arrival)
    → checks g a ≡ refuse budget_exhausted
    → (c : Checked) × IsAllowed g a c × (budget_exceeded g.iam c.key ≡ true)
unfolding checks
checks-exhausted g a h =
    let (u, at_ready, h1) = and_then_refuse (unless_fine not_ready _ (λ e. ground (arith, e))) h in
    let (key, at_key, h2) =
      and_then_refuse (or_refuse_fine invalid_api_key _ (λ e. ground (arith, e))) h1 in
    let (body, at_body, h3) = and_then_refuse (read_all_fine a.body) h2 in
    let (req, at_req, h4) = and_then_refuse (parse_model_fine (g.json.probe body)) h3 in
    let (v, at_shape, h5) =
      and_then_refuse (unless_fine no_streaming _ (λ e. ground (arith, e))) h4 in
    let (res, at_res, h6) =
      and_then_refuse (or_refuse_fine model_not_found _ (λ e. ground (arith, e))) h5 in
    let (w, at_list, h7) =
      and_then_refuse (unless_fine model_forbidden _ (λ e. ground (arith, e))) h6 in
    (
      _,
      gates-IsAllowed g a u v w key body req res at_ready at_key at_body at_req at_shape at_res
          at_list,
      last_gate budget_exhausted budget_exhausted _ _ h7,
    )

merged_body_fine : (m : Merged) → merged_body m ≢ refuse budget_exhausted
unfolding merged_body
merged_body_fine (merged b) h = ground (arith, h)
merged_body_fine body_not_object h = ground (arith, h)
merged_body_fine marshal_failed h = ground (arith, h)

publish_fine : (g : Gateway) (a : Arrival) (c : Checked) → publish g a c ≢ refuse budget_exhausted
unfolding publish
publish_fine g a c h =
    let (body, at_body, h1) = and_then_refuse (merged_body_fine _) h in
    let (_, at_listen, h2) =
      and_then_refuse (unless_fine subscribe_failed _ (λ e. ground (arith, e))) h1 in
    let (seq, at_ack, h3) =
      and_then_refuse (or_refuse_fine publish_failed _ (λ e. ground (arith, e))) h2 in
    ground (arith, h3)

admit_fine :
    (o : Option AdmissionConfig) (r : Reading) (model : String) (cache : Cache)
    → (admit o r model cache).0 ≢ refuse budget_exhausted
unfolding admit
admit_fine none r model cache h = ground (arith, h)
admit_fine (some cfg) r model cache h =
    unless_fine (overloaded (retry_after cfg)) (not (allow cfg r model cache).0)
      (λ e. ground (arith, e)) h

refuse_injective :
    {A : Type 0}
    → {r : Gated A} → {x y : Refusal} → r ≡ refuse x
    → (g : Gated Published) → g ≡ refuse x
    → g ≡ refuse y
    → r ≡ refuse y
refuse_injective e g is_x is_y = ground (arith, e, is_x, is_y)

exhausted :
    (g : Gateway) (a : Arrival) (cache : Cache) (r : Gated Checked)
    → checks g a ≡ r
    → (dispatch_checked g a cache r).0 ≡ refuse budget_exhausted
    → (c : Checked) × IsAllowed g a c × (budget_exceeded g.iam c.key ≡ true)
unfolding dispatch_checked
exhausted g a cache (refuse x) e s = checks-exhausted g a (refuse_injective e (refuse x) refl s)
exhausted g a cache (pass c) e s =
    let (_, _, at_publish) =
      and_then_refuse (admit_fine g.admission a.reading c.resolution.target cache) s in
    absurd (publish_fine g a c at_publish)

counted_in :
    (g : Gateway) (a : Arrival) (cache : Cache) (r : Gated Checked)
    → checks g a ≡ r
    → (dispatch_checked g a cache r).1 ≢ cache
    → (c : Checked) × IsAllowed g a c × (budget_exceeded g.iam c.key ≡ false)
unfolding dispatch_checked
counted_in g a cache (refuse x) e s = absurd (s refl)
counted_in g a cache (pass c) e s =
    let (allowed, in_budget) = checks-IsAllowed g a c e in (c, allowed, in_budget)

-- A 402 is answered only to a key whose budget is exceeded and that is allowed the alias it asks
-- for: a caller who is not learns nothing of the budget.
pub dispatch-exhausted :
    (g : Gateway) (a : Arrival) (cache : Cache)
    → (dispatch g a cache).0 ≡ refuse budget_exhausted
    → (c : Checked) × IsAllowed g a c × (budget_exceeded g.iam c.key ≡ true)
unfolding dispatch
dispatch-exhausted g a cache h = exhausted g a cache (checks g a) refl h

-- Admission changes its cache only for a request that went through every gate before it.
pub dispatch-cache :
    (g : Gateway) (a : Arrival) (cache : Cache)
    → (dispatch g a cache).1 ≢ cache
    → (c : Checked) × IsAllowed g a c × (budget_exceeded g.iam c.key ≡ false)
unfolding dispatch
dispatch-cache g a cache h = counted_in g a cache (checks g a) refl h
