-- ===== src/Tests/Workers.antt =====
-- internal/worker/worker.go and the answers of internal/gateway/gateway.go at work.
use inferbus.Base.{
  string_eq, Bool, List, Option, String, [], false, if◌then◌else◌, none, pos, refl, some, true,
  ◌==◌, ◌∷◌, ◌≡◌,
}
use inferbus.Wire.Types.{Usage, no_usage}
use inferbus.Relay.{Incoming, frame, undecodable}
use inferbus.Gateway.Responses.{cleanup, event, head, http_error, result_out, stream_out}
use inferbus.Gateway.Responses.Shape.{IsStream, stream_out-IsStream}
use inferbus.Worker.{
  EngineResult, ModelConfig, ReqMeta, Served, answered, asks_stream, chunk_frame, engine_error,
  expired, failed, handle, is_streaming, still_running,
}
use inferbus.Worker.Outcome.{IsSettled, handle-IsSettled}
use inferbus.Worker.Answer.{arriving, result_out-handle, stream_out-handle}

abbrev some_usage : Usage
some_usage = record { prompt_tokens = pos 7; completion_tokens = pos 2; cached_tokens = pos 0 }

abbrev chat_request : ReqMeta
chat_request = record {
  req_id = "r1";
  org = "acme";
  project = "web";
  key_id = "k1";
  alias = "fast";
  kind = "chat";
  reply = "ib.resp.g1.r1";
  deadline = some 900;
}

abbrev llama : ModelConfig
llama = record { name = "llama"; engine = ""; provider = "" }

abbrev served : Option Bool → List String → EngineResult → Served
served stream chunks result = record {
  now = 100;
  queue_millis = pos 1;
  ttft_millis = pos 2;
  duration_millis = pos 3;
  ts = 103;
  stream = stream;
  chunks = chunks;
  result = result;
}

abbrev streamed : Served
streamed = served (some true) ("a" ∷ "b" ∷ []) (answered "" some_usage)

abbrev refused_call : Served
refused_call =
    served none [] (failed (engine_error "overloaded" "try later" (pos 503)) no_usage still_running)

handle-IsSettled_example : IsSettled chat_request (handle "w1" chat_request llama streamed)
handle-IsSettled_example = handle-IsSettled "w1" chat_request llama streamed

-- Every text but one is JSON, and compact already.
abbrev compact : String → Option String
compact c = if c == "oops" then none else some c

abbrev cut_stream : Served
cut_stream = served (some true) ("1" ∷ "oops" ∷ "2" ∷ []) (answered "" some_usage)

stream_out-handle_example :
    stream_out false (arriving compact (handle "w1" chat_request llama cut_stream))
    ≡ head ∷ event "1" ∷ cleanup ∷ []
unfolding expired is_streaming asks_stream
stream_out-handle_example =
    stream_out-handle "w1" chat_request llama cut_stream false compact refl refl

result_out-handle_example :
    result_out false (arriving compact (handle "w1" chat_request llama refused_call))
    ≡ http_error (pos 503) "overloaded" "try later" ∷ []
unfolding expired is_streaming asks_stream
result_out-handle_example =
    result_out-handle "w1" chat_request llama refused_call false compact refl refl

-- A chunk, and then the client hangs up.
abbrev cut_short : List Incoming
cut_short = frame (chunk_frame 0 "a") ∷ undecodable ∷ []

stream_out-IsStream_example : IsStream false (stream_out true cut_short)
stream_out-IsStream_example = stream_out-IsStream true cut_short
