-- ===== src/Tests/Responses.antt =====
-- internal/relay/relay.go at work.
use inferbus.Base.{List, String, [], none, pos, ℕ, ◌∷◌}
use inferbus.Relay.{Incoming, frame, listen, responses, undecodable}
use inferbus.Relay.Frames.{InOrder, messages, responses-InOrder}

abbrev frame_of : ℕ → String → Incoming
frame_of n kind =
    frame (record { kind = kind; seq = pos n; payload = "{}"; error = none; usage = none })

abbrev channel : List Incoming
channel =
    frame_of 0 "chunk"
    ∷ frame_of 2 "chunk"
    ∷ undecodable
    ∷ frame_of 1 "done"
    ∷ frame_of 2 "chunk"
    ∷ []

responses-InOrder_example : InOrder 0 (messages (responses listen channel))
responses-InOrder_example = responses-InOrder channel
