-- ===== src/Tests/Delivered.antt =====
-- The loop of internal/controlplane/kvproj.go at work, over a projector that lists what it applied.
use inferbus.Base.{List, String, [], arith, if◌then◌else◌, nat_beq, none, some, ℕ, ◌==◌, ◌∷◌, ◌≡◌}
use inferbus.Base.{string_eq}
use inferbus.Projector.{Applied, Envelope, Fault, Projector, apply, undecodable}
use inferbus.Projector.Delivery.{Redelivers, again, apply-Redelivers, done, fresh}

abbrev at_position : ℕ → String → Envelope
at_position n stream_type = record {
  global_position = n;
  stream_type = stream_type;
  stream_id = "k1";
  event = record { type_url = ""; schema_version = 1; payload = n ∷ [] };
}

-- Position 3 cannot be applied.
abbrev collect : List ℕ → List Fault → Envelope → Applied (List ℕ)
collect seen faults e =
    if nat_beq e.global_position 3
    then (seen, faults, some undecodable)
    else (e.global_position ∷ seen, faults, none)

abbrev new_projector : Projector (List ℕ)
new_projector = record { store = []; pos = 0; failed = none; saved = 0; faults = [] }

abbrev first_event : Envelope
first_event = at_position 1 "apikey"

abbrev second_event : Envelope
second_event = at_position 2 "org"

abbrev third_event : Envelope
third_event = at_position 3 "apikey"

abbrev with_repeats : List Envelope
with_repeats = first_event ∷ first_event ∷ second_event ∷ []

repeats : Redelivers 0 with_repeats (first_event ∷ second_event ∷ [])
repeats = fresh (omega arith) (again (omega arith) (fresh (omega arith) (done 2)))

apply-Redelivers_example :
    apply (λ t. t == "apikey") collect new_projector with_repeats
    ≡ apply (λ t. t == "apikey") collect new_projector (first_event ∷ second_event ∷ [])
apply-Redelivers_example =
    apply-Redelivers (λ t. t == "apikey") collect new_projector with_repeats
      (first_event ∷ second_event ∷ []) repeats
