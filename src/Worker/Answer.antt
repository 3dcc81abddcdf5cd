-- ===== src/Worker/Answer.antt =====
-- The whole way of an answer: the frames of internal/worker/worker.go, numbered, marshalled and
-- published in order, read by internal/relay/relay.go and written to the client by
-- internal/gateway/gateway.go. NATS is taken to deliver each frame that is published, in order.
use inferbus.Base.{
  Bool, List, Option, String, [], ap, arith, false, if◌then◌else◌, length, nat_beq, none, pos, refl,
  some, true, ℕ, ◌++◌, ◌+◌, ◌==◌, ◌∙◌, ◌∷◌, ◌≡◌,
}
use inferbus.Base.{string_eq}
use inferbus.Wire.Types.{Message, Usage, WireError}
use inferbus.Relay.{
  Incoming, Listener, error_or_unknown, frame, next_response, receive, take_frame, undecodable,
}
use inferbus.Gateway.Responses.{
  Out, cleanup, done_mark, error_event, event, head, http_error, json_body, result_answer,
  result_gives_up, result_loop, result_out, stream_answer, stream_failed, stream_gives_up,
  stream_loop, stream_out,
}
use inferbus.Worker.{
  Effect, EngineError, EngineResult, ModelConfig, ReqMeta, Served, ack, answered, by_client,
  by_deadline, by_shutdown, call_effects, chunk_frame, chunk_frames, engine_error, error_frame,
  expired, failed, failed_effects, handle, is_streaming, meter, other_error, panic_effects,
  panic_message, panicked, publish_frame, publish_usage, still_running, stream_end, terminal_error,
  unsupported,
}

-- A frame that is marshalled by `publish`, which ignores the error, and unmarshalled by the listener.
-- `compact` is what encoding/json writes of a raw payload: compacted and escaped, or `none` if it is
-- not JSON, when an empty frame is published. An empty payload is left out.
carried_payload : Message → Option String → Incoming
carried_payload m none = undecodable
carried_payload m (some p) = frame (record m { payload = p })

unfoldable pub carried : (String → Option String) → Message → Incoming
unfolding carried_payload
carried compact m = carried_payload m (if m.payload == "" then some "" else compact m.payload)

-- What arrives at the listener.
abbrev pub arriving : (String → Option String) → List Effect → List Incoming
arriving compact [] = []
arriving compact (publish_frame m ∷ es) = carried compact m ∷ arriving compact es
arriving compact (ack ∷ es) = arriving compact es
arriving compact (publish_usage ev ∷ es) = arriving compact es

abbrev panic_error : String → WireError
panic_error r = record { code = "worker_panic"; message = panic_message r; http_status = pos 500 }

-- The error that the client is to see for an engine's.
abbrev engine_failure : EngineError → WireError
engine_failure (unsupported m) = record {
  code = "unsupported_kind";
  message = m;
  http_status = pos 400;
}
engine_failure (other_error m) = record {
  code = "worker_error";
  message = m;
  http_status = pos 502;
}
engine_failure (engine_error c m status) = record { code = c; message = m; http_status = status }

-- A payload as it arrives, `none` if it does not.
abbrev pub received : (String → Option String) → String → Option String
received compact p = if p == "" then some "" else compact p

-- The end of an answer of which something, or nothing, is out: an error, or no more frames.
abbrev pub ended_by : Bool → WireError → List Out
ended_by true e = error_event e.message e.code ∷ done_mark ∷ []
ended_by false e = http_error e.http_status e.code e.message ∷ []

abbrev pub cut_off : Bool → Bool → List Out
cut_off true wrote = cleanup ∷ []
cut_off false true = cleanup ∷ []
cut_off false false = cleanup ∷ http_error (pos 504) "timeout" "no response from worker" ∷ []

-- How a stream ends for the client, given whether its header is out.
abbrev pub stream_ending : Bool → Bool → EngineResult → List Out
stream_ending gone wrote (answered payload u) =
    if wrote then done_mark ∷ [] else head ∷ done_mark ∷ []
stream_ending gone wrote (failed e u still_running) = ended_by wrote (engine_failure e)
stream_ending gone wrote (failed e u by_client) = cut_off gone wrote
stream_ending gone wrote (failed e u by_deadline) = cut_off gone wrote
stream_ending gone wrote (failed e u by_shutdown) = cut_off gone wrote
stream_ending gone wrote (panicked r) = ended_by wrote (panic_error r)

abbrev next_event : Bool → Bool → Option String → List Out → List Out
next_event gone wrote none rest = cut_off gone wrote
next_event gone true (some p) rest = event p ∷ rest
next_event gone false (some p) rest = head ∷ event p ∷ rest

-- What the client of a stream sees: the header with the first chunk, the chunks in the order of the
-- engine, and the end; a chunk that is not JSON cuts the stream off.
abbrev pub stream_seen :
    (String → Option String) → Bool → Bool → List String → EngineResult → List Out
stream_seen compact gone wrote [] r = stream_ending gone wrote r
stream_seen compact gone wrote (c ∷ cs) r =
    next_event gone wrote (received compact c) (stream_seen compact gone true cs r)

abbrev whole_answer : Bool → Option String → List Out
whole_answer gone none = cut_off gone false
whole_answer gone (some p) = json_body p ∷ []

abbrev pub result_seen : (String → Option String) → Bool → EngineResult → List Out
result_seen compact gone (answered payload u) = whole_answer gone (received compact payload)
result_seen compact gone (failed e u still_running) = ended_by false (engine_failure e)
result_seen compact gone (failed e u by_client) = cut_off gone false
result_seen compact gone (failed e u by_deadline) = cut_off gone false
result_seen compact gone (failed e u by_shutdown) = cut_off gone false
result_seen compact gone (panicked r) = ended_by false (panic_error r)

abbrev waiting : ℕ → Listener
waiting n = record { next = n; done = false }

nat_beq_self : (n : ℕ) → nat_beq n n ≡ true
nat_beq_self n = ground arith

terminal_error_lem : (e : EngineError) → terminal_error e ≡ engine_failure e
unfolding terminal_error
terminal_error_lem (unsupported m) = refl
terminal_error_lem (other_error m) = refl
terminal_error_lem (engine_error c m status) = refl

stream_failed_lem : (wrote : Bool) (e : WireError) → stream_failed wrote e ≡ ended_by wrote e
unfolding stream_failed
stream_failed_lem true e = refl
stream_failed_lem false e = refl

stream_gives_up_lem : (gone wrote : Bool) → stream_gives_up gone wrote ≡ cut_off gone wrote
unfolding stream_gives_up
stream_gives_up_lem true wrote = refl
stream_gives_up_lem false true = refl
stream_gives_up_lem false false = refl

result_gives_up_lem : (gone : Bool) → result_gives_up gone ≡ cut_off gone false
unfolding result_gives_up
result_gives_up_lem true = refl
result_gives_up_lem false = refl

module _ (worker_id : String) (m : ReqMeta) (mc : ModelConfig) (v : Served) (gone : Bool)
    (compact : String → Option String) where
  ending_lem :
      (n : ℕ) (wrote : Bool) (r : EngineResult)
      → stream_loop gone (waiting n) (arriving compact (stream_end worker_id m mc v n r)) wrote
        ≡ stream_ending gone wrote r
  unfolding stream_loop next_response stream_answer receive take_frame stream_end failed_effects
      panic_effects error_frame meter error_or_unknown carried
  ending_lem n wrote (answered payload u) = rw (nat_beq_self n) refl
  ending_lem n wrote (failed e u still_running) =
      rw (nat_beq_self n)
        (stream_failed_lem wrote (terminal_error e) ∙ ap (ended_by wrote) (terminal_error_lem e))
  ending_lem n wrote (failed e u by_client) = stream_gives_up_lem gone wrote
  ending_lem n wrote (failed e u by_deadline) = stream_gives_up_lem gone wrote
  ending_lem n wrote (failed e u by_shutdown) = stream_gives_up_lem gone wrote
  ending_lem n wrote (panicked r) = rw (nat_beq_self n) (stream_failed_lem wrote (panic_error r))

  chunk_lem :
      (n : ℕ) (wrote : Bool) (c : String) (o : Option String) (rest : List Incoming)
      → stream_loop gone (waiting n) (carried_payload (chunk_frame n c) o ∷ rest) wrote
        ≡ next_event gone wrote o (stream_loop gone (waiting (n + 1)) rest true)
  unfolding stream_loop next_response stream_answer receive take_frame carried_payload
  chunk_lem n wrote c none rest = stream_gives_up_lem gone wrote
  chunk_lem n true c (some p) rest = rw (nat_beq_self n) refl
  chunk_lem n false c (some p) rest = rw (nat_beq_self n) refl

  whole_lem :
      (payload : String) (u : Usage) (o : Option String)
      → let m : Message = record {
        kind = "result";
        seq = pos 0;
        payload = payload;
        error = none;
        usage = some u;
      } in
        result_out gone (carried_payload m o ∷ []) ≡ whole_answer gone o
  unfolding result_loop next_response result_answer receive take_frame carried_payload
  whole_lem payload u none = result_gives_up_lem gone
  whole_lem payload u (some p) = refl

  seen_lem :
      (n k : ℕ) (wrote : Bool) (cs : List String) (r : EngineResult)
      → n + length cs ≡ k
      → stream_loop gone
          (waiting n)
          (arriving compact (chunk_frames worker_id m mc v n cs ++ stream_end worker_id m mc v k r))
          wrote
        ≡ stream_seen compact gone wrote cs r
  unfolding stream_loop next_response stream_answer receive take_frame chunk_frames carried
  seen_lem n k wrote [] r e =
      let at_end : n ≡ k = omega (arith, e) in rw at_end (ending_lem k wrote r)
  seen_lem n k wrote (c ∷ cs) r e =
      chunk_lem n wrote c (received compact c) (
        arriving compact
          (chunk_frames worker_id m mc v (n + 1) cs ++ stream_end worker_id m mc v k r))
      ∙ ap (next_event gone wrote (received compact c))
          (seen_lem (n + 1) k true cs r (omega (arith, e)))

  call_lem :
      (r : EngineResult)
      → result_out gone (arriving compact (call_effects worker_id m mc v r))
        ≡ result_seen compact gone r
  unfolding result_loop next_response result_answer receive take_frame call_effects failed_effects
      panic_effects error_frame meter error_or_unknown carried
  call_lem (answered payload u) = whole_lem payload u (received compact payload)
  call_lem (failed e u still_running) = ap (ended_by false) (terminal_error_lem e)
  call_lem (failed e u by_client) = result_gives_up_lem gone
  call_lem (failed e u by_deadline) = result_gives_up_lem gone
  call_lem (failed e u by_shutdown) = result_gives_up_lem gone
  call_lem (panicked r) = refl

  module _ (in_time : expired m.deadline v.now ≡ false) where
    -- A stream that is served in time reaches the client as it was produced: a header, every chunk
    -- in the engine's order, as encoding/json compacts it, and the end mark. If the engine fails or
    -- panics, its error is the HTTP response when there was no chunk, and an event before the end
    -- mark otherwise. The client is cut off at a chunk that is not JSON, and if the request's context
    -- has ended, after the last chunk.
    pub stream_out-handle :
        is_streaming worker_id m mc v ≡ true
        → stream_out gone (arriving compact (handle worker_id m mc v))
          ≡ stream_seen compact gone false v.chunks v.result
    unfolding handle
    stream_out-handle streams =
        rw (in_time, streams) (seen_lem 0 (length v.chunks) false v.chunks v.result (omega arith))

    -- So does an answer in one piece: the engine's payload as encoding/json compacts it, or its error
    -- as the HTTP response. Nothing arrives of a payload that is not JSON, or if the request's context
    -- has ended: the gateway then answers 504, unless the client is gone.
    pub result_out-handle :
        is_streaming worker_id m mc v ≡ false
        → result_out gone (arriving compact (handle worker_id m mc v))
          ≡ result_seen compact gone v.result
    unfolding handle
    result_out-handle whole = rw (in_time, whole) (call_lem v.result)
