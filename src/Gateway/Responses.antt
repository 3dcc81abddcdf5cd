-- ===== src/Gateway/Responses.antt =====
-- The response half of the handlers of internal/gateway/gateway.go: streamOut and resultOut, with
-- what they write to the client. `gone` is clientDisconnected when an error of the listener is seen.
-- After the last thing listed, the request's deadline ends the wait.
pub mod Shape
use inferbus.Base.{Bool, List, String, [], false, if◌then◌else◌, pos, true, ℤ, ◌==◌, ◌||◌, ◌∷◌}
use inferbus.Base.{string_eq}
use inferbus.Wire.Types.{WireError}
use inferbus.Relay.{
  Incoming, Listener, Response, context_done, context_error, decode_error, eof, gap, listen,
  message, next_response, remote_error,
}

-- What goes out: the header of a stream, its events, its end mark, an error response, a JSON body,
-- and the two-phase cancel of cleanupDisconnected.
pub data Out : Type 0 where
  head done_mark cleanup : Out
  event : String → Out
  error_event : String → String → Out
  http_error : ℤ → String → String → Out
  json_body : String → Out

abbrev pub gateway_timeout : Out
gateway_timeout = http_error (pos 504) "timeout" "no response from worker"

-- `writeHead`
abbrev write_head : Bool → List Out → List Out
write_head wrote out = if wrote then out else head ∷ out

unfoldable pub stream_failed : Bool → WireError → List Out
stream_failed wrote e =
    if wrote
    then error_event e.message e.code ∷ done_mark ∷ []
    else http_error e.http_status e.code e.message ∷ []

-- The listener gave up, or the context ended.
unfoldable pub stream_gives_up : Bool → Bool → List Out
stream_gives_up gone wrote = if gone || wrote then cleanup ∷ [] else cleanup ∷ gateway_timeout ∷ []

-- What `streamOut` does with one answer of `Next`, and what it does after a frame.
unfoldable pub stream_answer : Bool → Bool → Response → (Bool → List Out) → List Out
stream_answer gone wrote eof next = write_head wrote (done_mark ∷ [])
stream_answer gone wrote (remote_error e) next = stream_failed wrote e
stream_answer gone wrote gap next = stream_gives_up gone wrote
stream_answer gone wrote context_error next = stream_gives_up gone wrote
stream_answer gone wrote decode_error next = stream_gives_up gone wrote
stream_answer gone wrote (message m) next =
    if m.kind == "chunk" then write_head wrote (event m.payload ∷ next true) else next wrote

-- The loop of `streamOut`.
unfoldable pub stream_loop : Bool → Listener → List Incoming → Bool → List Out
unfolding stream_answer
stream_loop gone l [] wrote = stream_answer gone wrote (next_response l context_done).0 (λ w. [])
stream_loop gone l (i ∷ is) wrote =
    let (r, l') = next_response l i in stream_answer gone wrote r (stream_loop gone l' is)

-- `streamOut`
abbrev pub stream_out : Bool → List Incoming → List Out
stream_out gone is = stream_loop gone listen is false

unfoldable pub result_gives_up : Bool → List Out
result_gives_up gone = if gone then cleanup ∷ [] else cleanup ∷ gateway_timeout ∷ []

unfoldable pub result_answer : Bool → Response → List Out → List Out
result_answer gone eof next =
    http_error (pos 502) "protocol_error" "stream ended without a result" ∷ []
result_answer gone (remote_error e) next = http_error e.http_status e.code e.message ∷ []
result_answer gone gap next = result_gives_up gone
result_answer gone context_error next = result_gives_up gone
result_answer gone decode_error next = result_gives_up gone
result_answer gone (message m) next = if m.kind == "result" then json_body m.payload ∷ [] else next

-- The loop of `resultOut`.
unfoldable pub result_loop : Bool → Listener → List Incoming → List Out
unfolding result_answer
result_loop gone l [] = result_answer gone (next_response l context_done).0 []
result_loop gone l (i ∷ is) =
    let (r, l') = next_response l i in
    let rest = result_loop gone l' is in result_answer gone r rest

-- `resultOut`
abbrev pub result_out : Bool → List Incoming → List Out
result_out gone is = result_loop gone listen is
