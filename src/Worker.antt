-- ===== src/Worker.antt =====
-- The handling of one request by internal/worker/worker.go, and the errors of
-- internal/engine/engine.go. What the engine, the clock and the contexts do is `Served`.
pub mod Outcome
pub mod Answer
pub mod Discover
use inferbus.Base.{
  Bool, List, Option, String, [], eq_int, false, if◌then◌else◌, length, ltb, none, not, pos, some,
  true, ℕ, ℤ, ◌&&◌, ◌++◌, ◌+◌, ◌==◌, ◌∷◌,
}
use inferbus.Base.{string_eq}
use inferbus.Wire.Types.{Message, Usage, UsageEvent, WireError, no_usage}

-- `reqMeta`; the deadline is a time in nanoseconds, `none` for the zero time.
pub record ReqMeta : Type 0 where
  pub req_id : String
  pub org : String
  pub project : String
  pub key_id : String
  pub alias : String
  pub kind : String
  pub reply : String
  pub deadline : Option ℕ

-- `metaOf`: the headers of the message, and time.Parse, which yields the zero time on an error.
unfoldable pub meta_of : (String → String) → (String → Option ℕ) → ReqMeta
meta_of header parse_time = record {
  req_id = header "Ib-Req-Id";
  org = header "Ib-Org";
  project = header "Ib-Project";
  key_id = header "Ib-Key-Id";
  alias = header "Ib-Alias";
  kind = header "Ib-Kind";
  reply = header "Ib-Reply";
  deadline = parse_time (header "Ib-Deadline");
}

pub record ModelConfig : Type 0 where
  pub name : String
  pub engine : String
  pub provider : String

-- An engine's error: ErrUnsupported, an `engine.Error`, or any other.
pub data EngineError : Type 0 where
  unsupported other_error : String → EngineError
  engine_error : String → String → ℤ → EngineError

-- Why the request's context has ended, as `context.Cause` tells it.
pub data Cause : Type 0 where
  still_running by_client by_deadline by_shutdown : Cause

-- How a call of the engine ends; a stream that answers has no payload.
pub data EngineResult : Type 0 where
  answered : String → Usage → EngineResult
  failed : EngineError → Usage → Cause → EngineResult
  panicked : String → EngineResult

-- One request as it is served: the time at pickup, what was measured, the stream field of the body,
-- the chunks that the engine emits, and how it ends.
pub record Served : Type 0 where
  pub now : ℕ
  pub queue_millis : ℤ
  pub ttft_millis : ℤ
  pub duration_millis : ℤ
  pub ts : ℕ
  pub stream : Option Bool
  pub chunks : List String
  pub result : EngineResult

pub data Effect : Type 0 where
  publish_frame : Message → Effect
  ack : Effect
  publish_usage : UsageEvent → Effect

-- `terminalError`
unfoldable pub terminal_error : EngineError → WireError
terminal_error (unsupported message) = record {
  code = "unsupported_kind";
  message = message;
  http_status = pos 400;
}
terminal_error (other_error message) = record {
  code = "worker_error";
  message = message;
  http_status = pos 502;
}
terminal_error (engine_error code message status) = record {
  code = code;
  message = message;
  http_status = status;
}

unfoldable pub provider_of : ModelConfig → String
provider_of mc =
    if mc.provider == ""
    then (if mc.engine == "" then "openai_http" else mc.engine)
    else mc.provider

-- `expired`: the deadline had passed at pickup.
unfoldable pub expired : Option ℕ → ℕ → Bool
expired none now = false
expired (some deadline) now = ltb deadline now

append : String → String → String
append String.[] t = t
append (String.◌∷◌ c s) t = String.◌∷◌ c (append s t)

unfoldable pub panic_message : String → String
unfolding append
panic_message r = append "worker panicked: " r

-- The body asks for a stream: the field is there, and it is true.
unfoldable pub asks_stream : Option Bool → Bool
asks_stream none = false
asks_stream (some stream) = stream

abbrev pub chunk_frame : ℕ → String → Message
chunk_frame seq c = record {
  kind = "chunk";
  seq = pos seq;
  payload = c;
  error = none;
  usage = none;
}

module _ (worker_id : String) (m : ReqMeta) (mc : ModelConfig) (v : Served) where
  -- `meter`
  unfoldable pub meter : Usage → String → String → Bool → ℤ → ℤ → Effect
  meter u status error_code estimated ttft duration = publish_usage (record {
    req_id = m.req_id;
    org = m.org;
    project = m.project;
    key_id = m.key_id;
    alias = m.alias;
    model = mc.name;
    provider = provider_of mc;
    kind = m.kind;
    status = status;
    error_code = error_code;
    worker_id = worker_id;
    usage = u;
    ttft_millis = ttft;
    duration_millis = duration;
    queue_millis = v.queue_millis;
    estimated = estimated;
    ts = v.ts;
  })

  -- The frames that `publish` numbers from `seq` on.
  unfoldable pub chunk_frames : ℕ → List String → List Effect
  chunk_frames seq [] = []
  chunk_frames seq (c ∷ cs) = publish_frame (chunk_frame seq c) ∷ chunk_frames (seq + 1) cs

  error_frame : ℕ → WireError → Effect
  error_frame seq e =
      publish_frame
        (record { kind = "error"; seq = pos seq; payload = ""; error = some e; usage = none })

  -- A call that failed: the switch on the cause, which both branches of `handle` repeat.
  failed_effects : ℕ → ℤ → EngineError → Usage → Cause → List Effect
  unfolding error_frame
  failed_effects seq ttft e u by_client =
      ack ∷ meter u "canceled" "" true ttft v.duration_millis ∷ []
  failed_effects seq ttft e u by_deadline =
      ack ∷ meter u "canceled" "" true ttft v.duration_millis ∷ []
  failed_effects seq ttft e u by_shutdown =
      ack ∷ meter u "canceled" "worker_shutdown" true ttft v.duration_millis ∷ []
  failed_effects seq ttft e u still_running =
      let we = terminal_error e in
      error_frame seq we ∷ ack ∷ meter u "error" we.code true ttft v.duration_millis ∷ []

  -- The deferred recovery.
  panic_effects : ℕ → String → List Effect
  unfolding error_frame
  panic_effects seq r =
      error_frame seq
        (record { code = "worker_panic"; message = panic_message r; http_status = pos 500 })
      ∷ ack
      ∷ meter no_usage "error" "worker_panic" true (pos 0) v.duration_millis
      ∷ []

  is_no_usage : Usage → Bool
  is_no_usage u =
      eq_int u.prompt_tokens (pos 0)
      && (eq_int u.completion_tokens (pos 0) && eq_int u.cached_tokens (pos 0))

  -- The branch without streaming.
  call_effects : EngineResult → List Effect
  unfolding failed_effects panic_effects
  call_effects (answered payload u) =
      publish_frame
        (record { kind = "result"; seq = pos 0; payload = payload; error = none; usage = some u })
      ∷ ack
      ∷ meter u "ok" "" false (pos 0) v.duration_millis
      ∷ []
  call_effects (failed e u cause) = failed_effects 0 (pos 0) e u cause
  call_effects (panicked r) = panic_effects 0 r

  -- `ttft` is 0 if no chunk was emitted.
  ttft_of : List String → ℤ
  ttft_of [] = pos 0
  ttft_of (c ∷ cs) = v.ttft_millis

  -- The end of a stream that has published `seq` chunks.
  stream_end : ℕ → EngineResult → List Effect
  unfolding failed_effects panic_effects is_no_usage ttft_of
  stream_end seq (answered payload u) =
      publish_frame
        (record { kind = "done"; seq = pos seq; payload = ""; error = none; usage = some u })
      ∷ ack
      ∷ meter u "ok" "" (is_no_usage u) (ttft_of v.chunks) v.duration_millis
      ∷ []
  stream_end seq (failed e u cause) = failed_effects seq (ttft_of v.chunks) e u cause
  stream_end seq (panicked r) = panic_effects seq r

  unfoldable pub is_streaming : Bool
  is_streaming = not (m.kind == "embed") && asks_stream v.stream

  -- `handle`
  unfoldable pub handle : List Effect
  unfolding call_effects stream_end
  handle =
      if expired m.deadline v.now
      then ack ∷ meter no_usage "canceled" "" false (pos 0) (pos 0) ∷ []
      else if is_streaming
      then chunk_frames 0 v.chunks ++ stream_end (length v.chunks) v.result
      else call_effects v.result
