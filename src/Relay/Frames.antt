-- ===== src/Relay/Frames.antt =====
-- The order of what internal/relay/relay.go hands out.
use inferbus.Wire.Types.{Message}
use inferbus.Base.{
  Bool, Bool-cases, List, [], eq_int, eq_int_eq, false, if◌then◌else◌, inl, inr, pos, refl, true, ℕ,
  ◌+◌, ◌==◌, ◌||◌, ◌∷◌, ◌≡◌,
}
use inferbus.Base.{string_eq}
use inferbus.Relay.{
  Incoming, Listener, Response, context_done, context_error, decode_error, eof, frame, gap, listen,
  message, next_response, receive, remote_error, responses, take_frame, undecodable,
}

-- The frames among the responses.
abbrev pub messages : List Response → List Message
messages [] = []
messages (message m ∷ rs) = m ∷ messages rs
messages (remote_error e ∷ rs) = messages rs
messages (eof ∷ rs) = messages rs
messages (gap ∷ rs) = messages rs
messages (context_error ∷ rs) = messages rs
messages (decode_error ∷ rs) = messages rs

-- Numbered from `n` on without a hole, and nothing after a frame that ends the response.
abbrev pub InOrder : ℕ → List Message → Type 0
InOrder n [] = Unit {0}
InOrder n (m ∷ ms) =
    (m.seq ≡ pos n)
    × (if m.kind == "done" || m.kind == "result" then ms ≡ [] else InOrder (n + 1) ms)

abbrev at : ℕ → Bool → Listener
at n done = record { next = n; done = done }

done_responses : (n : ℕ) (is : List Incoming) → messages (responses (at n true) is) ≡ []
unfolding responses next_response
done_responses n [] = refl
done_responses n (i ∷ is) = done_responses n is

open_responses : (n : ℕ) (is : List Incoming) → InOrder n (messages (responses (at n false) is))
unfolding responses next_response receive take_frame
open_responses n [] = tt
open_responses n (context_done ∷ is) = open_responses n is
open_responses n (undecodable ∷ is) = open_responses n is
open_responses n (frame m ∷ is) = elim (Bool-cases (eq_int m.seq (pos n))) [
  | inl expected ↦ elim (Bool-cases (m.kind == "error")) [
    | inl failed ↦ rw (expected, failed, done_responses (n + 1) is) tt
    | inr fine ↦ elim (Bool-cases (m.kind == "done" || m.kind == "result")) [
      | inl last ↦
          rw (expected, fine, last)
            (eq_int_eq m.seq (pos n) expected, rw last (done_responses (n + 1) is))
      | inr more ↦
          rw (expected, fine, more)
            (eq_int_eq m.seq (pos n) expected, rw more (open_responses (n + 1) is))
    ]
  ]
  | inr lost ↦ rw lost (open_responses n is)
]

-- Whatever arrives at a new listener, in whatever order, with the context ending and frames lost or
-- damaged between: the frames handed out are numbered from 0 on without a hole, and none follows one
-- that ends the response.
pub responses-InOrder : (is : List Incoming) → InOrder 0 (messages (responses listen is))
responses-InOrder is = open_responses 0 is
