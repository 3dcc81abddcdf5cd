-- ===== src/Gateway/Params.antt =====
-- Alias parameters in a request body: internal/gateway/params.go. What encoding/json does is the
-- record `Json`; a raw value is its text.
pub mod Accepted
use mathlib.Core.Option
use inferbus.Base.{
  Bool, Bool-cases, List, Option, String, [], arith, false, if◌then◌else◌, inl, inr, none, some,
  str_eq_iff, ◌||◌, ◌∷◌, ◌≡◌,
}
use inferbus.Base.{string_eq}
use inferbus.Dict.{Dict, Distinct, insert, lookup, lookup-insert}
use inferbus.Text.{codes, equal_fold}

-- How a body unmarshals into a map: not at all, into the nil map of a JSON null, or into fields.
pub data Parsed : Type 0 where
  not_object nil_map : Parsed
  fields_of : Dict String String → Parsed

pub record Json : Type 0 where
  pub unmarshal : String → Parsed
  pub marshal : Dict String String → Option String
  pub valid : String → Bool
  pub quote : String → Option String
  pub probe : String → Option (String × Bool)

abbrev reserved_params : List String
reserved_params = "model" ∷ "stream" ∷ []

folds_onto_any : String → List String → Bool
folds_onto_any k [] = false
folds_onto_any k (r ∷ rest) = equal_fold (codes k) (codes r) || folds_onto_any k rest

-- `isReservedParam`
unfoldable pub is_reserved_param : String → Bool
unfolding folds_onto_any
is_reserved_param k = folds_onto_any k reserved_params

quoted_or_empty : Option String → String
quoted_or_empty none = "\"\""
quoted_or_empty (some quoted) = quoted

-- `jsonValue`
unfoldable pub json_value : Json → String → String
unfolding quoted_or_empty
json_value json v = if json.valid v then v else quoted_or_empty (json.quote v)

-- The loop of `mergeParams` over the parameters.
unfoldable pub write_params : Json → Dict String String → Dict String String → Dict String String
write_params json [] fields = fields
write_params json ((k, v) ∷ params) fields =
    write_params json params
      (if is_reserved_param k then fields else insert k (json_value json v) fields)

pub data Merged : Type 0 where
  merged : String → Merged
  body_not_object marshal_failed : Merged

marshalled : Option String → Merged
marshalled none = marshal_failed
marshalled (some body) = merged body

merge_parsed : Json → Dict String String → Parsed → Merged
unfolding marshalled
merge_parsed json params not_object = body_not_object
merge_parsed json params nil_map = body_not_object
merge_parsed json params (fields_of fields) =
    marshalled (json.marshal (write_params json params fields))

-- `mergeParams`
unfoldable pub merge_params : Json → String → Dict String String → Merged
unfolding merge_parsed marshalled
merge_params json body [] = merged body
merge_params json body (p ∷ params) = merge_parsed json (p ∷ params) (json.unmarshal body)

abbrev pub or_field : Option String → Option String → Option String
or_field none field = field
or_field (some v) field = some v

-- After the loop a field that is not reserved holds the alias's value for it, if there is one; every
-- other field, and every field that folds onto a reserved name, is the client's. So the order in
-- which the map is walked does not matter.
pub lookup-write_params :
    (json : Json) (k : String) (params fields : Dict String String)
    → Distinct params
    → lookup k (write_params json params fields) ≡ (
        if is_reserved_param k
        then lookup k fields
        else or_field (Option.map (json_value json) (lookup k params)) (lookup k fields))
unfolding write_params lookup
lookup-write_params json k [] fields d = ground (arith, Bool-cases (is_reserved_param k))
lookup-write_params json k ((j, v) ∷ params) fields d = elim (Bool-cases (is_reserved_param j)) [
  | inl reserved ↦
      ground (arith, reserved, str_eq_iff j k, lookup-write_params json k params fields d.1)
  | inr free ↦ ground (
    arith,
    free,
    str_eq_iff j k,
    lookup-insert j k (json_value json v) fields,
    lookup-write_params json k params (insert j (json_value json v) fields) d.1,
  )
]
