-- ===== src/OpenAiHttp/Streams.antt =====
-- What a streaming call of internal/engine/openaihttp/openaihttp.go asks the engine for and passes on.
use inferbus.OpenAiHttp.Requests.{asked_field, force_stream_lem}
use inferbus.OpenAiHttp.{
  Lines, Outcome, Posted, Returned, accepted, call, chat_stream, event_of, force_stream,
  later_usage, marshalled, panicked, prepared, ran, returned, scan, usage_of,
}
use inferbus.Base.{
  Bool, List, Option, Option-cases, String, [], arith, eq_int, false, if◌then◌else◌, inl, inr, none,
  pos, refl, some, suc, sym, ℕ, ◌&&◌, ◌==◌, ◌||◌, ◌∙◌, ◌∷◌, ◌≡◌,
}
use inferbus.Base.{string_eq}
use inferbus.Dict.{Dict, lookup}
use inferbus.Wire.Types.{Usage, no_usage}
use inferbus.Worker.{EngineError, other_error}
use inferbus.Gateway.Dispatch.{strip_prefix}
use inferbus.Gateway.Params.{Json, fields_of}

-- The data of the event lines, up to the end mark.
abbrev with_event : Option String → List String → List String
with_event none rest = rest
with_event (some chunk) rest = chunk ∷ rest

abbrev pub events : List String → List String
events [] = []
events (line ∷ lines) = with_event (strip_prefix "data: " line) (events lines)

abbrev pub before_done : List String → List String
before_done [] = []
before_done (chunk ∷ rest) = if chunk == "[DONE]" then [] else chunk ∷ before_done rest

abbrev pub is_done : List String → Bool
is_done [] = false
is_done (chunk ∷ rest) = chunk == "[DONE]" || is_done rest

-- A usage that a chunk reports, unless all of it is 0.
abbrev reported : Option Usage → Option Usage
reported none = none
reported (some u) =
    if eq_int u.prompt_tokens (pos 0)
      && (eq_int u.completion_tokens (pos 0) && eq_int u.cached_tokens (pos 0))
    then none
    else some u

abbrev or_earlier : Option Usage → Option Usage → Option Usage
or_earlier none earlier = earlier
or_earlier (some u) earlier = some u

-- What the last chunk that reports a usage reports.
abbrev pub last_reported : (String → Option Usage) → List String → Option Usage
last_reported probe [] = none
last_reported probe (chunk ∷ rest) = or_earlier (last_reported probe rest) (reported (probe chunk))

abbrev pub or_usage : Option Usage → Usage → Usage
or_usage none u = u
or_usage (some v) u = v

or_later :
    (o p : Option Usage) (u : Usage)
    → or_usage (or_earlier o (reported p)) u
      ≡ or_usage o (later_usage u (elim p [ none ↦ no_usage | some v ↦ v ]))
or_later none none u = refl
or_later none (some v) u = ground arith
or_later (some w) p u = refl

-- The chunks up to the first that cannot be emitted.
abbrev delivered : Option EngineError → String → List String → List String
delivered none chunk rest = chunk ∷ rest
delivered (some e) chunk rest = []

abbrev pub deliverable : (ℕ → Option EngineError) → ℕ → List String → List String
deliverable emit n [] = []
deliverable emit n (chunk ∷ rest) = delivered (emit n) chunk (deliverable emit (suc n) rest)

abbrev pub failure : Option String → Option EngineError
failure none = none
failure (some e) = some (other_error e)

module _ (usage : String → Usage) (emit : ℕ → Option EngineError) (ls : Lines) where
  scan-chunks :
      (n : ℕ) (u : Usage) (lines : List String)
      → (scan usage emit ls n u lines).chunks ≡ deliverable emit n (before_done (events lines))
  unfolding scan
  scan-chunks n u [] = refl
  scan-chunks n u (line ∷ lines) = elim (Option-cases (event_of line)) [
    | inl other ↦ ground (arith, other, scan-chunks n u lines)
    | inr (chunk, e) ↦
        ground
          (arith, e, Option-cases (emit n), scan-chunks (suc n) (later_usage u (usage chunk)) lines)
  ]

module _ (probe : String → Option Usage) (emit : ℕ → Option EngineError) (ls : Lines) where
  scan-end :
      ((n : ℕ) → emit n ≡ none)
      → (n : ℕ) (u : Usage) (lines : List String)
      → ((scan (usage_of probe) emit ls n u lines).usage
          ≡ or_usage (last_reported probe (before_done (events lines))) u)
        × ((scan (usage_of probe) emit ls n u lines).error
            ≡ failure (if is_done (events lines) then ls.error_at_done else ls.error_at_end))
  unfolding scan
  scan-end well n u [] = (refl, ground (arith, Option-cases ls.error_at_end))
  scan-end well n u (line ∷ lines) = elim (Option-cases (event_of line)) [
    | inl other ↦ ground (arith, other, scan-end well n u lines)
    | inr (chunk, e) ↦ ground (
      arith,
      e,
      well n,
      scan-end well (suc n) (later_usage u (usage_of probe chunk)) lines,
      or_later (last_reported probe (before_done (events lines))) (probe chunk) u,
      Option-cases ls.error_at_done,
    )
  ]

-- What the caller gets of a stream: the data of the event lines up to the end mark, in order and up
-- to the first that cannot be emitted; if all can, the last usage among them that is not zero, and
-- the error of the scanner.
abbrev pub Relays : (String → Option Usage) → (ℕ → Option EngineError) → Lines → Returned → Type 0
Relays probe emit ls r =
    let es = events ls.lines in
    (r.chunks ≡ deliverable emit 0 (before_done es))
    × (((n : ℕ) → emit n ≡ none)
        → (r.usage ≡ or_usage (last_reported probe (before_done es)) no_usage)
          × (r.error ≡ failure (if is_done es then ls.error_at_done else ls.error_at_end)))

abbrev pub RelaysOf : (String → Option Usage) → (ℕ → Option EngineError) → Lines → Outcome → Type 0
RelaysOf probe emit ls panicked = ⊥
RelaysOf probe emit ls (returned r) = Relays probe emit ls r

marshalled-prepared :
    (o : Option String) (sent : String) → marshalled o ≡ prepared sent → o ≡ some sent
marshalled-prepared none sent h = cc
marshalled-prepared (some body) sent h = cc

-- A streaming request whose body is an object and which the engine accepts: what is sent names the
-- model of the worker, asks for a stream, asks for the usage unless the client has set the stream's
-- options, and is otherwise the client's body; what is emitted are the data of the event lines up to
-- the end mark, in order and up to the first that cannot be emitted; and if all can, the usage
-- returned is the last one among them that is not zero, and the error is the scanner's.
pub chat_stream-RelaysOf :
    (json : Json) (probe : String → Option Usage) (emit : ℕ → Option EngineError)
    (exchange : String → Posted Lines) (body model quoted sent : String) (m : Dict String String)
    (ls : Lines)
    → json.unmarshal body ≡ fields_of m
    → json.quote model ≡ some quoted
    → force_stream json body model ≡ prepared sent
    → exchange sent ≡ accepted ls
    → ((fields : Dict String String) × (json.marshal fields ≡ some sent)
        × ((k : String) → lookup k fields ≡ asked_field k quoted (lookup k m)))
      × RelaysOf probe emit ls (chat_stream json probe emit exchange body model)
unfolding chat_stream call ran
chat_stream-RelaysOf json probe emit exchange body model quoted sent m ls parsed e ready accepts =
    let (fields, is_sent, asked) = force_stream_lem json body model quoted m parsed e in
    (
      (fields, marshalled-prepared (json.marshal fields) sent (sym is_sent ∙ ready), asked),
      rw (ready, accepts)
          (
            scan-chunks (usage_of probe) emit ls 0 no_usage ls.lines,
            λ well. scan-end probe emit ls well 0 no_usage ls.lines,
          ),
    )
