-- ===== src/OpenAiHttp/Requests.antt =====
-- The body that internal/engine/openaihttp/openaihttp.go sends for a streaming request.
use inferbus.OpenAiHttp.{force_stream, marshalled, set_model, streaming_fields}
use inferbus.Base.{Option, String, arith, if◌then◌else◌, none, refl, some, str_eq_iff, ◌==◌, ◌≡◌}
use inferbus.Base.{string_eq}
use inferbus.Dict.{Dict, insert, lookup, lookup-insert}
use inferbus.Gateway.Params.{Json, fields_of}

abbrev pub options_or_default : Option String → String
options_or_default none = "{\"include_usage\":true}"
options_or_default (some options) = options

-- A field of the body sent, given that of the client's body and the quoted model.
abbrev pub asked_field : String → String → Option String → Option String
asked_field k quoted field =
    if "model" == k
    then some quoted
    else if "stream" == k
    then some "true"
    else if "stream_options" == k
    then some (options_or_default field)
    else field

lookup-streaming_fields :
    (json : Json) (model quoted k : String) (m : Dict String String)
    → json.quote model ≡ some quoted
    → lookup k (streaming_fields json model m) ≡ asked_field k quoted (lookup k m)
unfolding streaming_fields set_model
lookup-streaming_fields json model quoted k m e =
    let streaming = insert "stream" "true" m in
    let default : String = "{\"include_usage\":true}" in
    ground (
      arith,
      e,
      str_eq_iff "stream_options" k,
      lookup-insert "stream" k "true" m,
      lookup-insert "stream" "stream_options" "true" m,
      lookup-insert "stream_options" k default streaming,
      lookup-insert "model" k quoted streaming,
      lookup-insert "model" k quoted (insert "stream_options" default streaming),
    )

-- The streaming body names the model of the worker, asks for a stream, asks for the usage unless the
-- client has set the stream's options, and is otherwise the client's.
pub force_stream_lem :
    (json : Json) (body model quoted : String) (m : Dict String String)
    → json.unmarshal body ≡ fields_of m
    → json.quote model ≡ some quoted
    → (fields : Dict String String) × (force_stream json body model
        ≡ marshalled (json.marshal fields))
      × ((k : String) → lookup k fields ≡ asked_field k quoted (lookup k m))
unfolding force_stream
force_stream_lem json body model quoted m parsed e = (
  streaming_fields json model m,
  rw parsed refl,
  λ k. lookup-streaming_fields json model quoted k m e,
)
