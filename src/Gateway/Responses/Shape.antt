-- ===== src/Gateway/Responses/Shape.antt =====
-- What a client can receive from streamOut and resultOut of internal/gateway/gateway.go.
use inferbus.Base.{Bool, Bool-cases, List, String, [], false, inl, inr, true, ℤ, ◌==◌, ◌∷◌}
use inferbus.Base.{string_eq}
use inferbus.Wire.Types.{WireError}
use inferbus.Relay.{
  Incoming, Listener, Response, context_error, decode_error, eof, gap, listen, message,
  next_response, remote_error,
}
use inferbus.Gateway.Responses.{
  Out, cleanup, done_mark, error_event, event, gateway_timeout, head, http_error, stream_answer,
  stream_failed, stream_gives_up, stream_loop, stream_out, write_head,
}

-- What is still to be written, given whether the header is out: at most one header, before any
-- event, one end, and no error response after the header.
pub data IsStream : Bool → List Out → Type 0 where
  opens : {out : List Out} → IsStream true out → IsStream false (head ∷ out)
  emits : {out : List Out} (p : String) → IsStream true out → IsStream true (event p ∷ out)
  ends : IsStream true (done_mark ∷ [])
  fails : (message code : String) → IsStream true (error_event message code ∷ done_mark ∷ [])
  refuses : (s : ℤ) (code message : String) → IsStream false (http_error s code message ∷ [])
  cut_off : (wrote : Bool) → IsStream wrote (cleanup ∷ [])
  times_out : IsStream false (cleanup ∷ gateway_timeout ∷ [])

with_head :
    (wrote : Bool) (out : List Out) → IsStream true out → IsStream wrote (write_head wrote out)
with_head true out s = s
with_head false out s = opens s

failed_lem : (wrote : Bool) (e : WireError) → IsStream wrote (stream_failed wrote e)
unfolding stream_failed
failed_lem true e = fails e.message e.code
failed_lem false e = refuses e.http_status e.code e.message

gives_up_lem : (gone wrote : Bool) → IsStream wrote (stream_gives_up gone wrote)
unfolding stream_gives_up
gives_up_lem true wrote = cut_off wrote
gives_up_lem false true = cut_off true
gives_up_lem false false = times_out

answer_lem :
    (gone wrote : Bool) (r : Response) (next : Bool → List Out)
    → ((w : Bool) → IsStream w (next w))
    → IsStream wrote (stream_answer gone wrote r next)
unfolding stream_answer
answer_lem gone wrote eof next h = with_head wrote _ ends
answer_lem gone wrote (remote_error e) next h = failed_lem wrote e
answer_lem gone wrote gap next h = gives_up_lem gone wrote
answer_lem gone wrote context_error next h = gives_up_lem gone wrote
answer_lem gone wrote decode_error next h = gives_up_lem gone wrote
answer_lem gone wrote (message m) next h = elim (Bool-cases (m.kind == "chunk")) [
  | inl chunk ↦ rw chunk (with_head wrote _ (emits m.payload (h true)))
  | inr other ↦ rw other (h wrote)
]

stream_loop-IsStream :
    (gone : Bool) (l : Listener) (is : List Incoming) (wrote : Bool)
    → IsStream wrote (stream_loop gone l is wrote)
unfolding stream_loop next_response
stream_loop-IsStream gone l [] wrote = elim (Bool-cases l.done) [
  | inl over ↦ rw over (with_head wrote _ ends)
  | inr open_still ↦ rw open_still (gives_up_lem gone wrote)
]
stream_loop-IsStream gone l (i ∷ is) wrote =
    answer_lem gone wrote (next_response l i).0 (stream_loop gone (next_response l i).1 is)
      (stream_loop-IsStream gone (next_response l i).1 is)

-- Whatever arrives and whenever the client hangs up, what a streaming client receives is a header,
-- events and one end mark; or one error response and no header; or it is cut off, and then the
-- request is cancelled and taken off the queue.
pub stream_out-IsStream : (gone : Bool) (is : List Incoming) → IsStream false (stream_out gone is)
stream_out-IsStream gone is = stream_loop-IsStream gone listen is false
