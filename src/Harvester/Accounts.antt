-- ===== src/Harvester/Accounts.antt =====
-- Where every message of internal/harvester/harvester.go is: held, in flight, or answered.
use inferbus.Base.{
  Bool, Bool-cases, List, String, [], arith, false, if◌then◌else◌, inl, inr, leb, length, nat_beq,
  none, refl, some, suc, true, ℕ, ◌++◌, ◌+◌, ◌==◌, ◌∷◌, ◌≡◌, ◌⊎◌,
}
use inferbus.Base.{string_eq}
use inferbus.Wire.Types.{UsageEvent}
use inferbus.Harvester.Dedup.{mark_firsts_new, mark_firsts_old}
use inferbus.Harvester.{
  Action, Harvester, HeldMsg, Input, ack_all, acked, arrives, do_flush, final_flush, flush_ends,
  flush_tick, handle_msg, heartbeat_held, heartbeat_tick, hold, insert_returns, inserted, is_empty,
  is_seen, mark_firsts, nak_all, naked, new_harvester, progress_all, progressed, reported,
  row_from_event, run, shutdown, take_input, term_invalid, termed, trigger_flush,
}

abbrev pub count_msg : ℕ → List HeldMsg → ℕ
count_msg id [] = 0
count_msg id (item ∷ items) = let n = count_msg id items in if nat_beq item.msg id then suc n else n

-- How often a message was acked, nak'd or terminated.
abbrev pub answers : ℕ → List Action → ℕ
answers id [] = 0
answers id (acked m ∷ rest) = let n = answers id rest in if nat_beq m id then suc n else n
answers id (naked m ∷ rest) = let n = answers id rest in if nat_beq m id then suc n else n
answers id (termed m ∷ rest) = let n = answers id rest in if nat_beq m id then suc n else n
answers id (progressed m ∷ rest) = answers id rest
answers id (inserted rows ∷ rest) = answers id rest
answers id (reported r ∷ rest) = answers id rest

-- How often it was delivered.
abbrev pub deliveries : ℕ → List Input → ℕ
deliveries id [] = 0
deliveries id (arrives m ev ∷ is) = let n = deliveries id is in if nat_beq m id then suc n else n
deliveries id (flush_tick ∷ is) = deliveries id is
deliveries id (heartbeat_tick ∷ is) = deliveries id is
deliveries id (insert_returns ok ∷ is) = deliveries id is

abbrev pub accounted : ℕ → Harvester → ℕ
accounted id h = count_msg id h.held + count_msg id h.in_flight + answers id h.log

-- Nothing is in flight unless a flush runs.
abbrev pub IsIdle : Harvester → Type 0
IsIdle h = (h.flushing ≡ true) ⊎ (h.in_flight ≡ [])

count_msg-append :
    (id : ℕ) (xs ys : List HeldMsg) → count_msg id (xs ++ ys) ≡ count_msg id xs + count_msg id ys
count_msg-append id [] ys = omega arith
count_msg-append id (x ∷ xs) ys = ground (arith, count_msg-append id xs ys)

answers-append :
    (id : ℕ) (xs ys : List Action) → answers id (xs ++ ys) ≡ answers id xs + answers id ys
answers-append id [] ys = omega arith
answers-append id (acked m ∷ xs) ys = ground (arith, answers-append id xs ys)
answers-append id (naked m ∷ xs) ys = ground (arith, answers-append id xs ys)
answers-append id (termed m ∷ xs) ys = ground (arith, answers-append id xs ys)
answers-append id (progressed m ∷ xs) ys = answers-append id xs ys
answers-append id (inserted rows ∷ xs) ys = answers-append id xs ys
answers-append id (reported r ∷ xs) ys = answers-append id xs ys

answers-nak_all : (id : ℕ) (b : List HeldMsg) → answers id (nak_all b) ≡ count_msg id b
unfolding nak_all
answers-nak_all id [] = refl
answers-nak_all id (item ∷ b) = ground (arith, answers-nak_all id b)

mark_nothing : (id : ℕ) (seen : List String) → answers id (ack_all (mark_firsts seen [])) ≡ 0
unfolding ack_all mark_firsts
mark_nothing id seen = refl

answers-ack_all :
    (id : ℕ) (seen : List String) (b : List HeldMsg)
    → answers id (ack_all (mark_firsts seen b)) ≡ count_msg id b
unfolding ack_all
answers-ack_all id seen [] = mark_nothing id seen
answers-ack_all id seen (item ∷ b) = elim (Bool-cases (is_seen item.row.req_id seen)) [
  | inl old ↦ ground (arith, mark_firsts_old seen item b old, answers-ack_all id seen b)
  | inr new ↦
      ground (arith, mark_firsts_new seen item b new, answers-ack_all id (item.row.req_id ∷ seen) b)
]

-- A flush answers every message of its batch, as often as it stands there.
answers-do_flush :
    (id : ℕ) (ok : Bool) (b : List HeldMsg) → answers id (do_flush ok b) ≡ count_msg id b
unfolding do_flush
answers-do_flush id true b = answers-ack_all id [] b
answers-do_flush id false b = answers-nak_all id b

deliveries_cons :
    (id : ℕ) (i : Input) (is : List Input)
    → deliveries id (i ∷ is) ≡ deliveries id (i ∷ []) + deliveries id is
deliveries_cons id (arrives m ev) is = ground arith
deliveries_cons id flush_tick is = omega arith
deliveries_cons id heartbeat_tick is = omega arith
deliveries_cons id (insert_returns ok) is = omega arith

trigger_lem :
    (id : ℕ) (h : Harvester)
    → IsIdle h
    → (accounted id (trigger_flush h) ≡ accounted id h) × IsIdle (trigger_flush h)
unfolding trigger_flush
trigger_lem id h idle = ground (arith, idle, Bool-cases (is_empty h.held), Bool-cases h.flushing)

flush_ends_lem :
    (id : ℕ) (ok : Bool) (h : Harvester)
    → IsIdle h
    → (accounted id (flush_ends ok h) ≡ accounted id h)
      × IsIdle (flush_ends ok h)
      × ((flush_ends ok h).in_flight ≡ [])
unfolding flush_ends
flush_ends_lem id ok h idle = ground (
  arith,
  idle,
  Bool-cases h.flushing,
  answers-append id h.log (do_flush ok h.in_flight),
  answers-do_flush id ok h.in_flight,
)

answers-progress_all : (id : ℕ) (b : List HeldMsg) → answers id (progress_all b) ≡ 0
unfolding progress_all
answers-progress_all id [] = refl
answers-progress_all id (item ∷ b) = answers-progress_all id b

delivered : ℕ → ℕ → ℕ
delivered id m = if nat_beq m id then 1 else 0

term_lem :
    (id msg : ℕ) (h : Harvester)
    → IsIdle h
    → (accounted id (term_invalid msg h) ≡ accounted id h + delivered id msg)
      × IsIdle (term_invalid msg h)
unfolding term_invalid delivered
term_lem id msg h idle = ground (arith, idle, answers-append id h.log (termed msg ∷ []))

hold_lem :
    (id batch_max msg : ℕ) (ev : UsageEvent) (h : Harvester)
    → IsIdle h
    → (accounted id (hold batch_max msg ev h) ≡ accounted id h + delivered id msg)
      × IsIdle (hold batch_max msg ev h)
unfolding hold delivered
hold_lem id batch_max msg ev h idle =
    let item : HeldMsg = record { row = row_from_event ev; msg = msg } in
    let h' = record h { held = h.held ++ (item ∷ []) } in
    ground (
      arith,
      idle,
      Bool-cases (leb batch_max (length h'.held)),
      count_msg-append id h.held (item ∷ []),
      trigger_lem id h' idle,
    )

input_lem :
    (id batch_max : ℕ) (h : Harvester) (i : Input)
    → IsIdle h
    → (accounted id (take_input batch_max h i) ≡ accounted id h + deliveries id (i ∷ []))
      × IsIdle (take_input batch_max h i)
unfolding take_input handle_msg heartbeat_held delivered
input_lem id batch_max h (arrives msg none) idle = ground (arith, term_lem id msg h idle)
input_lem id batch_max h (arrives msg (some ev)) idle = elim (Bool-cases (ev.req_id == "")) [
  | inl nameless ↦ ground (arith, nameless, term_lem id msg h idle)
  | inr named ↦ ground (arith, named, hold_lem id batch_max msg ev h idle)
]
input_lem id batch_max h flush_tick idle = ground (arith, trigger_lem id h idle)
input_lem id batch_max h heartbeat_tick idle = ground (
  arith,
  idle,
  answers-append id h.log (progress_all (h.held ++ h.in_flight)),
  answers-progress_all id (h.held ++ h.in_flight),
)
input_lem id batch_max h (insert_returns ok) idle = ground (arith, flush_ends_lem id ok h idle)

-- However messages arrive, flushes start and end, and heartbeats go out: at any time each message
-- delivered is held, in flight, or answered, and in one of these once for each delivery.
pub run-accounted :
    (id batch_max : ℕ) (h : Harvester) (is : List Input)
    → IsIdle h
    → (accounted id (run batch_max h is) ≡ accounted id h + deliveries id is)
      × IsIdle (run batch_max h is)
unfolding run
run-accounted id batch_max h [] idle = ground (arith, idle)
run-accounted id batch_max h (i ∷ is) idle =
    let one = input_lem id batch_max h i idle in
    ground (
      arith,
      one,
      deliveries_cons id i is,
      run-accounted id batch_max (take_input batch_max h i) is one.1,
    )

final_lem :
    (id : ℕ) (ok : Bool) (h : Harvester)
    → h.in_flight ≡ []
    → answers id (final_flush ok h).log ≡ accounted id h
unfolding final_flush is_empty
final_lem id ok h quiet = by_held h.held refl
  where
    by_held :
        (items : List HeldMsg) → h.held ≡ items → answers id (final_flush ok h).log ≡ accounted id h
    by_held [] e = ground (arith, e, quiet)
    by_held (item ∷ items) e = ground (
      arith,
      e,
      quiet,
      answers-append id h.log (do_flush ok h.held),
      answers-do_flush id ok h.held,
    )

-- After the shutdown every message that was delivered has been acked, nak'd or terminated, once for
-- each delivery, whether the last two insertions succeed or fail.
pub shutdown-answers :
    (id batch_max : ℕ) (is : List Input) (running_ok final_ok : Bool)
    → answers id (shutdown running_ok final_ok (run batch_max new_harvester is)).log
      ≡ deliveries id is
unfolding shutdown
shutdown-answers id batch_max is running_ok final_ok =
    let h = run batch_max new_harvester is in
    let (all, idle) = run-accounted id batch_max new_harvester is (inr refl) in
    let (kept, still, quiet) = flush_ends_lem id running_ok h idle in
    omega (arith, final_lem id final_ok (flush_ends running_ok h) quiet, kept, all)
