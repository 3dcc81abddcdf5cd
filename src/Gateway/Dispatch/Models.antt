-- ===== src/Gateway/Dispatch/Models.antt =====
-- GET /v1/models and GET /readyz of internal/gateway/gateway.go, and the listing against `dispatch`.
use inferbus.Base.{
  Bool, Bool-cases, List, Option, Option-cases, String, [], arith, false, if◌then◌else◌, inl, inr,
  is_some, none, not, refl, some, str_eq_iff, true, ℕ, ◌&&◌, ◌==◌, ◌∷◌, ◌≡◌, ◌⊎◌,
}
use inferbus.Base.{string_eq}
use inferbus.Gateway.Iam.{Resolution}
use inferbus.Gateway.Dispatch.{
  Arrival, Checked, Gated, Gateway, Provider, and_then, authenticate, body_read, budget_exceeded,
  budget_exhausted, chat, checks, contains, invalid_api_key, is_ready, model_forbidden,
  model_not_found, not_ready, or_refuse, pass, read_all, refuse, resolve_alias, unless,
}
use inferbus.Gateway.Dispatch.Gates.Passed.{parse_fine, shape_fine}

-- The loop of `models`: of the aliases that the key may use, those that resolve.
unfoldable pub listed : Provider → String → List String → List String
listed iam org [] = []
listed iam org (alias ∷ allow) =
    let rest = listed iam org allow in
    if is_some (resolve_alias iam org alias) then alias ∷ rest else rest

-- `models`
unfoldable pub models : Gateway → String → Gated (List String)
models g authorization = and_then (unless not_ready (not (is_ready g.iam))) λ _.
    and_then (or_refuse invalid_api_key (authenticate g.hash_key g.iam authorization))
      λ key. pass (listed g.iam key.org key.allow)

-- `readyz`
unfoldable pub readyz : Provider → ℕ
readyz iam = if is_ready iam then 200 else 503

contains-listed :
    (iam : Provider) (org alias : String) (allow : List String)
    → contains alias (listed iam org allow)
      ≡ (is_some (resolve_alias iam org alias) && contains alias allow)
unfolding contains listed
contains-listed iam org alias [] = ground arith
contains-listed iam org alias (first ∷ allow) = elim (Bool-cases (first == alias)) [
  | inl same ↦
      let e : first ≡ alias = (str_eq_iff first alias).0 same in
      ground (arith, same, e, contains-listed iam org alias allow)
  | inr other ↦ ground (arith, other, contains-listed iam org alias allow)
]

-- A request for `alias` that is otherwise in order.
pub record Asks (g : Gateway) (a : Arrival) (alias : String) : Type 0 where
  pub body : String
  pub stream : Bool
  pub whole : a.body ≡ body_read body
  pub probed : g.json.probe body ≡ some (alias, stream)
  pub named : (alias == "") ≡ false
  pub shaped : (a.kind ≡ chat) ⊎ (stream ≡ false)

-- What the gates make of a request whose alias is listed, or is not.
abbrev pub Fits : Bool → Gated Checked → Type 0
Fits true (pass c) = Unit {0}
Fits true (refuse r) = r ≡ budget_exhausted
Fits false (pass c) = ⊥
Fits false (refuse r) = (r ≡ model_not_found) ⊎ (r ≡ model_forbidden)

last_gates :
    (o : Option Resolution) (in_allow exceeded : Bool) (k : Resolution → Checked)
    → Fits (is_some o && in_allow) (
        and_then (or_refuse model_not_found o) (λ res.
          and_then
            (unless model_forbidden (not in_allow))
            (λ _. and_then (unless budget_exhausted exceeded) (λ _. pass (k res)))))
unfolding and_then or_refuse unless
last_gates none in_allow exceeded k = inl refl
last_gates (some res) false exceeded k = inr refl
last_gates (some res) true true k = refl
last_gates (some res) true false k = tt

-- /v1/models lists to a key exactly the aliases that it can use: a request in order for an alias that
-- is listed passes every gate up to admission but that of the budget, and one for an alias that is
-- not listed is answered by 404 or 403.
pub models-Fits :
    (g : Gateway) (a : Arrival) (alias : String) {names : List String}
    → models g a.authorization ≡ pass names
    → Asks g a alias
    → Fits (contains alias names) (checks g a)
unfolding models and_then unless or_refuse checks read_all
models-Fits g a alias {names} h q = elim (Bool-cases (is_ready g.iam)) [
  | inr early ↦ absurd (ground (arith, h, early))
  | inl up ↦ elim (Option-cases (authenticate g.hash_key g.iam a.authorization)) [
    | inl unknown ↦ absurd (ground (arith, h, up, unknown))
    | inr (key, known) ↦
        let e : listed g.iam key.org key.allow ≡ names = ground (arith, h, up, known) in
        rw
          (
            up,
            known,
            q.whole,
            q.probed,
            parse_fine alias q.stream q.named,
            shape_fine a.kind q.stream q.shaped,
            ← e,
            contains-listed g.iam key.org alias key.allow,
          )
          (last_gates (resolve_alias g.iam key.org alias) (contains alias key.allow)
            (budget_exceeded g.iam key)
            (λ res. record {
              key = key;
              body = q.body;
              alias = alias;
              stream = q.stream;
              resolution = res;
            }))
  ]
]
