-- ===== src/Gateway/Params/Accepted.antt =====
-- The two lists of reserved parameters agree: internal/controlplane/alias/decider.go, which refuses
-- them, and internal/gateway/params.go, which skips them.
use mathlib.Core.Option
use inferbus.Base.{
  Bool-cases, List, Option, Option-cases, String, [], arith, false, if◌then◌else◌, inl, inr, none,
  refl, some, str_eq_iff, sym, true, ◌∙◌, ◌∷◌, ◌≡◌,
}
use inferbus.Base.{string_eq}
use inferbus.Dict.{Dict, Distinct, lookup}
use inferbus.Text.{codes}
use inferbus.Wire.Slug.{slug}
use inferbus.Alias.{Alias, Event, decide, decide_set, first_reserved_param_key, is_empty, ok, set}
use inferbus.Gateway.Params.{
  Json, fields_of, is_reserved_param, json_value, lookup-write_params, marshalled, merge_params,
  merge_parsed, merged, or_field, quoted_or_empty, write_params,
}

unreserved_given :
    (k v : String) (params : Dict String String)
    → first_reserved_param_key params ≡ none
    → lookup k params ≡ some v
    → is_reserved_param k ≡ false
unfolding first_reserved_param_key is_reserved_param lookup
unreserved_given k v [] none_reserved given = ground (arith, given)
unreserved_given k v ((j, w) ∷ params) none_reserved given =
    ground (arith, str_eq_iff j k, unreserved_given k v params)

decided_unreserved :
    (target : String) (params : Dict String String) (es : List Event) (o : Option String)
    → decide_set target params o ≡ ok es
    → o ≡ none
unfolding decide_set
decided_unreserved target params es none h = refl
decided_unreserved target params es (some k) h = ground (arith, h)

decide_unreserved :
    (s : Alias) (target : String) (params : Dict String String) (es : List Event)
    → decide s (set target params) ≡ ok es
    → first_reserved_param_key params ≡ none
unfolding decide
decide_unreserved s target params es accepted = ground (
  arith,
  Bool-cases (is_empty (slug (codes target))),
  decided_unreserved target params es (first_reserved_param_key params),
)

-- A reserved name is no parameter.
reserved_absent :
    (k : String) (o : Option String) (params : Dict String String)
    → first_reserved_param_key params ≡ none
    → lookup k params ≡ o
    → is_reserved_param k ≡ true
    → o ≡ none
reserved_absent k none params none_reserved e r = refl
reserved_absent k (some v) params none_reserved e r =
    absurd (cc (unreserved_given k v params none_reserved e, r))

accepted_fields :
    (json : Json) (params fields : Dict String String) (k : String)
    → first_reserved_param_key params ≡ none
    → Distinct params
    → lookup k (write_params json params fields)
      ≡ or_field (Option.map (json_value json) (lookup k params)) (lookup k fields)
accepted_fields json params fields k none_reserved d = elim (Bool-cases (is_reserved_param k)) [
  | inl r ↦ ground (
    arith,
    r,
    reserved_absent k (lookup k params) params none_reserved refl r,
    lookup-write_params json k params fields d,
  )
  | inr free ↦ ground (arith, free, lookup-write_params json k params fields d)
]

-- A parameter's value as it is to stand in the body: the text itself if it is JSON, and the text in
-- quotes otherwise.
abbrev in_quotes : Option String → String
in_quotes none = "\"\""
in_quotes (some quoted) = quoted

abbrev pub as_json : Json → String → String
as_json json v = if json.valid v then v else in_quotes (json.quote v)

json_value_lem :
    (json : Json) (o field : Option String)
    → or_field (Option.map (json_value json) o) field ≡ or_field (Option.map (as_json json) o) field
unfolding json_value quoted_or_empty
json_value_lem json none field = refl
json_value_lem json (some v) field =
    ground (arith, Bool-cases (json.valid v), Option-cases (json.quote v))

merged_marshals : (o : Option String) (sent : String) → marshalled o ≡ merged sent → o ≡ some sent
unfolding marshalled
merged_marshals none sent h = cc
merged_marshals (some body) sent h = cc

-- The body is what these fields marshal to: every parameter with its value as JSON, and otherwise the
-- fields of the client.
abbrev pub IsMergedBody : Json → Dict String String → Dict String String → String → Type 0
IsMergedBody json params fields sent =
    (out : Dict String String) × (json.marshal out ≡ some sent)
    × ((k : String)
        → lookup k out ≡ or_field (Option.map (as_json json) (lookup k params)) (lookup k fields))

-- When the control plane accepts an alias's parameters, of which there is one at least, each of them
-- is written into the body that the gateway makes of a client's object: the gateway skips none. The
-- other fields of the body are the client's.
pub decide-merge_params :
    (json : Json) (s : Alias) (target body sent : String) (p : String × String)
    (params fields : Dict String String) (es : List Event)
    → decide s (set target (p ∷ params)) ≡ ok es
    → Distinct (p ∷ params)
    → json.unmarshal body ≡ fields_of fields
    → merge_params json body (p ∷ params) ≡ merged sent
    → IsMergedBody json (p ∷ params) fields sent
unfolding merge_params merge_parsed
decide-merge_params json s target body sent p params fields es accepted d parsed sends =
    let out = write_params json (p ∷ params) fields in
    let marshals : merge_params json body (p ∷ params) ≡ marshalled (json.marshal out) =
      rw parsed refl in
    let free = decide_unreserved s target (p ∷ params) es accepted in
    (
      out,
      merged_marshals (json.marshal out) sent (sym marshals ∙ sends),
      λ k.
          accepted_fields json (p ∷ params) fields k free d
          ∙ json_value_lem json (lookup k (p ∷ params)) (lookup k fields),
    )
