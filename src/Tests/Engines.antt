-- ===== src/Tests/Engines.antt =====
-- A streaming request to an engine: internal/engine/openaihttp/openaihttp.go at work.
use inferbus.OpenAiHttp.{Lines, accepted, chat_stream, force_stream, set_model, streaming_fields}
use inferbus.OpenAiHttp.Requests.{asked_field}
use inferbus.OpenAiHttp.Streams.{RelaysOf, chat_stream-RelaysOf}
use inferbus.Base.{Option, String, [], if◌then◌else◌, none, pos, refl, some, true, ◌==◌, ◌∷◌, ◌≡◌}
use inferbus.Base.{string_eq}
use inferbus.Dict.{Dict, insert, lookup}
use inferbus.Wire.Types.{Usage}
use inferbus.Gateway.Params.{Json, fields_of}

-- A body stands for its model.
abbrev body_json : Json
body_json = record {
  unmarshal = λ body. fields_of (("model", body) ∷ ("temperature", "1") ∷ []);
  marshal = λ fields. lookup "model" fields;
  valid = λ v. true;
  quote = λ v. some v;
  probe = λ body. none;
}

abbrev answer_lines : Lines
answer_lines = record {
  lines = "data: a" ∷ "" ∷ ": ping" ∷ "data: b" ∷ "data: [DONE]" ∷ "data: c" ∷ [];
  error_at_end = some "reset";
  error_at_done = none;
}

abbrev usage_in : String → Option Usage
usage_in chunk =
    if chunk == "a"
    then some (record { prompt_tokens = pos 3; completion_tokens = pos 5; cached_tokens = pos 0 })
    else none

chat_stream-RelaysOf_example :
    ((fields : Dict String String) × (lookup "model" fields ≡ some "qwen")
      × ((k : String)
          → lookup k fields
            ≡ asked_field k "qwen" (lookup k (("model", "fast") ∷ ("temperature", "1") ∷ []))))
    × RelaysOf usage_in
        (λ n. none)
        answer_lines
        (chat_stream body_json usage_in (λ n. none) (λ sent. accepted answer_lines) "fast" "qwen")
unfolding force_stream streaming_fields set_model lookup insert
chat_stream-RelaysOf_example =
    chat_stream-RelaysOf body_json usage_in (λ n. none) (λ sent. accepted answer_lines) "fast"
      "qwen" "qwen" "qwen" (("model", "fast") ∷ ("temperature", "1") ∷ []) answer_lines refl refl
      refl refl
