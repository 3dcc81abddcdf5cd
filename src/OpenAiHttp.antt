-- ===== src/OpenAiHttp.antt =====
-- The adapter of OpenAI-compatible engines: internal/engine/openaihttp/openaihttp.go. encoding/json
-- and the HTTP exchange are parameters; the text of an error's message is one too.
pub mod Requests
pub mod Streams
use inferbus.Base.{
  Bool, List, Option, String, [], eq_int, if◌then◌else◌, is_some, leb, ltb, nat_beq, none, pos,
  some, suc, ℕ, ℤ, ◌&&◌, ◌==◌, ◌||◌, ◌∷◌,
}
use inferbus.Base.{string_eq}
use inferbus.Dict.{Dict, insert, lookup}
use inferbus.Wire.Types.{Usage, no_usage}
use inferbus.Worker.{EngineError, engine_error, other_error}
use inferbus.Gateway.Params.{Json, Parsed, fields_of, nil_map, not_object}
use inferbus.Gateway.Dispatch.{status, strip_prefix}

-- A request body made ready, refused, or a write into a nil map, which panics.
pub data Prepared : Type 0 where
  prepared : String → Prepared
  refused : EngineError → Prepared
  panics : Prepared

not_an_object : Prepared
not_an_object = refused (engine_error "bad_request" "request body is not a JSON object" (pos 400))

-- json.Marshal of the fields.
abbrev marshalled : Option String → Prepared
marshalled none = refused (other_error "json")
marshalled (some body) = prepared body

-- `setModel`
unfoldable pub set_model : Json → String → Dict String String → Dict String String
set_model json model m = elim (json.quote model) [
  | none ↦ m
  | some quoted ↦ insert "model" quoted m
]

-- `rewriteModel` on what `decodeObject` yields.
rewritten : Json → String → Parsed → Prepared
rewritten json model not_object = not_an_object
rewritten json model nil_map = elim (json.quote model) [
  | none ↦ prepared "null"
  | some quoted ↦ panics
]
rewritten json model (fields_of m) = marshalled (json.marshal (set_model json model m))

unfoldable pub rewrite_model : Json → String → String → Prepared
unfolding rewritten not_an_object
rewrite_model json body model = rewritten json model (json.unmarshal body)

-- The fields that `forceStream` sends.
unfoldable pub streaming_fields : Json → String → Dict String String → Dict String String
streaming_fields json model m =
    let streaming = insert "stream" "true" m in
    set_model json model (
      if is_some (lookup "stream_options" streaming)
      then streaming
      else insert "stream_options" "{\"include_usage\":true}" streaming)

forced : Json → String → Parsed → Prepared
forced json model not_object = not_an_object
forced json model nil_map = panics
forced json model (fields_of m) = marshalled (json.marshal (streaming_fields json model m))

-- `forceStream`
unfoldable pub force_stream : Json → String → String → Prepared
unfolding forced not_an_object
force_stream json body model = forced json model (json.unmarshal body)

-- The exchange: no response, or a status and a body, whose reading may fail.
pub data Exchange (B : Type 0) : Type 0 where
  no_response : String → Exchange B
  response : ℕ → B → Exchange B

-- The status that `post` reports for one that is not 2xx.
unfoldable pub upstream_status : ℕ → ℕ
upstream_status status =
    if nat_beq status 401 || (nat_beq status 403 || nat_beq status 404) then 502 else status

abbrev pub is_success : ℕ → Bool
is_success status = leb 200 status && ltb status 300

-- `post`; the message quotes the status and the start of the body.
pub data Posted (B : Type 0) : Type 0 where
  rejected : EngineError → Posted B
  accepted : B → Posted B

unfoldable pub post : {B : Type 0} → (ℕ → B → String) → Exchange B → Posted B
post message (no_response e) = rejected (other_error e)
post message (response status body) =
    if is_success status
    then accepted body
    else rejected
        (engine_error "upstream_error" (message status body) (pos (upstream_status status)))

-- What a call returns: a payload or the chunks it has emitted, the usage, and the error.
pub record Returned : Type 0 where
  pub payload : String
  pub chunks : List String
  pub usage : Usage
  pub error : Option EngineError

abbrev pub failing : EngineError → Returned
failing e = record { payload = ""; chunks = []; usage = no_usage; error = some e }

pub data Outcome : Type 0 where
  returned : Returned → Outcome
  panicked : Outcome

ran : {B : Type 0} → (B → Returned) → Posted B → Outcome
ran k (rejected e) = returned (failing e)
ran k (accepted body) = returned (k body)

unfoldable pub call : {B : Type 0} → (String → Posted B) → (B → Returned) → Prepared → Outcome
unfolding ran
call exchange k (prepared body) = ran k (exchange body)
call exchange k (refused e) = returned (failing e)
call exchange k panics = panicked

-- A body that is read as a whole, `none` if reading fails, and the usage that it reports.
abbrev whole : (String → Usage) → Option String → Returned
whole usage_of none = failing (other_error "read")
whole usage_of (some b) = record { payload = b; chunks = []; usage = usage_of b; error = none }

-- What json.Unmarshal finds of a usage in a body or a chunk; `usageOf` and `embedUsageOf`.
abbrev pub usage_of : (String → Option Usage) → String → Usage
usage_of probe b = elim (probe b) [ none ↦ no_usage | some u ↦ u ]

abbrev embed_usage_of : (String → Option ℤ) → String → Usage
embed_usage_of probe b = elim (probe b) [
  | none ↦ no_usage
  | some n ↦ record no_usage { prompt_tokens = n }
]

-- `Chat`
unfoldable pub chat :
    Json → (String → Option Usage) → (String → Posted (Option String)) → String → String → Outcome
chat json probe exchange body model =
    call exchange (whole (usage_of probe)) (rewrite_model json body model)

-- `Embed`
unfoldable pub embed :
    Json → (String → Option ℤ) → (String → Posted (Option String)) → String → String → Outcome
embed json probe exchange body model =
    call exchange (whole (embed_usage_of probe)) (rewrite_model json body model)

abbrev pub is_zero_usage : Usage → Bool
is_zero_usage u =
    eq_int u.prompt_tokens (pos 0)
    && (eq_int u.completion_tokens (pos 0) && eq_int u.cached_tokens (pos 0))

-- `if u != (wire.Usage{})`
abbrev pub later_usage : Usage → Usage → Usage
later_usage before u = if is_zero_usage u then before else u

-- The data of an event line.
abbrev pub event_of : String → Option String
event_of line = strip_prefix "data: " line

-- What bufio.Scanner brings: the lines, and its error at their end and where the loop breaks off.
pub record Lines : Type 0 where
  pub lines : List String
  pub error_at_end : Option String
  pub error_at_done : Option String

abbrev pub scan_error : Option String → Option EngineError
scan_error none = none
scan_error (some e) = some (other_error e)

stopped : Usage → Option EngineError → Returned
stopped u e = record { payload = ""; chunks = []; usage = u; error = e }

-- A chunk, how emitting it ends, and what the loop returns after it.
emitted : Option EngineError → String → Usage → Returned → Returned
emitted none chunk u r = record r { chunks = chunk ∷ r.chunks }
emitted (some e) chunk u r = stopped u (some e)

module _ (usage : String → Usage) (emit : ℕ → Option EngineError) (ls : Lines) where
  -- The loop of `ChatStream`; `emit` says whether the n-th chunk cannot be emitted.
  unfoldable pub scan : ℕ → Usage → List String → Returned
  unfolding stopped emitted
  scan n u [] = stopped u (scan_error ls.error_at_end)
  scan n u (line ∷ rest) = elim (event_of line) [
    | none ↦ scan n u rest
    | some chunk ↦
        let now = later_usage u (usage chunk) in
        let more = scan (suc n) now rest in
        if chunk == "[DONE]"
        then stopped u (scan_error ls.error_at_done)
        else emitted (emit n) chunk now more
  ]

-- `ChatStream`
unfoldable pub chat_stream :
    Json
    → (String → Option Usage)
    → (ℕ → Option EngineError)
    → (String → Posted Lines)
    → String
    → String
    → Outcome
chat_stream json probe emit exchange body model =
    call exchange (λ ls. scan (usage_of probe) emit ls 0 no_usage ls.lines)
      (force_stream json body model)
