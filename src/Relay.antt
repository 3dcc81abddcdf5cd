-- ===== src/Relay.antt =====
-- The response listener of internal/relay/relay.go: `Listener.Next`, one call for each thing that
-- happens on the subscription's channel. A frame is what its JSON decodes to, a Message of
-- internal/wire/types.go; its kind is the text on the wire.
pub mod Frames
use inferbus.Wire.Types.{Message, WireError}
use inferbus.Base.{
  Bool, List, Option, [], eq_int, false, if◌then◌else◌, none, pos, some, true, ℕ, ◌+◌, ◌==◌, ◌||◌,
  ◌∷◌,
}
use inferbus.Base.{string_eq}

-- `next` is far below the bound of an int: it counts the frames of one response.
pub record Listener : Type 0 where
  pub next : ℕ
  pub done : Bool

-- `Listen`
abbrev pub listen : Listener
listen = record { next = 0; done = false }

-- What `Next` waits for: the context's end, bytes that do not decode, or a frame.
pub data Incoming : Type 0 where
  context_done undecodable : Incoming
  frame : Message → Incoming

pub data Response : Type 0 where
  message : Message → Response
  remote_error : WireError → Response
  eof gap context_error decode_error : Response

unfoldable pub error_or_unknown : Option WireError → WireError
error_or_unknown none = record { code = "unknown"; message = "worker error"; http_status = pos 502 }
error_or_unknown (some e) = e

-- A frame with the expected sequence number.
unfoldable pub take_frame : Listener → Message → Response × Listener
unfolding error_or_unknown
take_frame l m =
    let l' = record l { next = l.next + 1 } in
    if m.kind == "error"
    then (remote_error (error_or_unknown m.error), record l' { done = true })
    else if m.kind == "done" || m.kind == "result"
    then (message m, record l' { done = true })
    else (message m, l')

unfoldable pub receive : Listener → Incoming → Response × Listener
unfolding take_frame
receive l context_done = (context_error, l)
receive l undecodable = (decode_error, l)
receive l (frame m) = if eq_int m.seq (pos l.next) then take_frame l m else (gap, l)

-- `Next`
unfoldable pub next_response : Listener → Incoming → Response × Listener
unfolding receive
next_response l i = if l.done then (eof, l) else receive l i

-- Call after call.
unfoldable pub responses : Listener → List Incoming → List Response
responses l [] = []
responses l (i ∷ is) = let (r, l') = next_response l i in r ∷ responses l' is
