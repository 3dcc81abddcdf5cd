-- ===== src/Harvester.antt =====
-- The METERING consumer of internal/harvester/harvester.go, with the row of internal/harvester/sink.go.
-- A message is its handle, a number; what is done with the messages, the sink and OnRow is a log. What
-- happens concurrently is a list of inputs: each takes the mutex once, save that handleMsg appends its
-- message and then triggers the flush of a full batch, which a tick in between could only anticipate.
pub mod Dedup
pub mod Accounts
use inferbus.Base.{
  Bool, List, Option, String, [], add_int64, false, if◌then◌else◌, leb, length, none, some, true, ℕ,
  ℤ, ◌++◌, ◌==◌, ◌||◌, ◌∷◌,
}
use inferbus.Base.{string_eq}
use inferbus.Wire.Types.{UsageEvent}

pub record Row : Type 0 where
  pub req_id : String
  pub ts : ℕ
  pub org : String
  pub project : String
  pub key_id : String
  pub alias : String
  pub model : String
  pub provider : String
  pub kind : String
  pub status : String
  pub error_code : String
  pub worker_id : String
  pub prompt_tokens : ℤ  -- int64
  pub completion_tokens : ℤ  -- int64
  pub cached_tokens : ℤ  -- int64
  pub ttft_millis : ℤ
  pub duration_millis : ℤ
  pub queue_millis : ℤ
  pub estimated : Bool

-- `TotalTokens`
unfoldable pub total_tokens : Row → ℤ
total_tokens r = add_int64 r.prompt_tokens r.completion_tokens

-- `RowFromEvent`
unfoldable pub row_from_event : UsageEvent → Row
row_from_event ev = record {
  req_id = ev.req_id;
  ts = ev.ts;
  org = ev.org;
  project = ev.project;
  key_id = ev.key_id;
  alias = ev.alias;
  model = ev.model;
  provider = ev.provider;
  kind = ev.kind;
  status = ev.status;
  error_code = ev.error_code;
  worker_id = ev.worker_id;
  prompt_tokens = ev.usage.prompt_tokens;
  completion_tokens = ev.usage.completion_tokens;
  cached_tokens = ev.usage.cached_tokens;
  ttft_millis = ev.ttft_millis;
  duration_millis = ev.duration_millis;
  queue_millis = ev.queue_millis;
  estimated = ev.estimated;
}

-- `heldMsg`
pub record HeldMsg : Type 0 where
  pub row : Row
  pub msg : ℕ

pub data Action : Type 0 where
  acked naked termed progressed : ℕ → Action
  inserted : List Row → Action
  reported : Row → Action

-- `flushing` is true while a flush goroutine runs; `in_flight` is its batch.
pub record Harvester : Type 0 where
  pub held : List HeldMsg
  pub in_flight : List HeldMsg
  pub flushing : Bool
  pub log : List Action

abbrev pub new_harvester : Harvester
new_harvester = record { held = []; in_flight = []; flushing = false; log = [] }

abbrev pub is_seen : String → List String → Bool
is_seen id [] = false
is_seen id (j ∷ seen) = j == id || is_seen id seen

-- The first loop of `doFlush`: each item with `firstOccurrence`.
unfoldable pub mark_firsts : List String → List HeldMsg → List (HeldMsg × Bool)
mark_firsts seen [] = []
mark_firsts seen (item ∷ batch) = elim (is_seen item.row.req_id seen) [
  | true ↦ (item, false) ∷ mark_firsts seen batch
  | false ↦ (item, true) ∷ mark_firsts (item.row.req_id ∷ seen) batch
]

unfoldable pub first_rows : List (HeldMsg × Bool) → List Row
first_rows [] = []
first_rows ((item, first) ∷ marked) =
    let rest = first_rows marked in if first then item.row ∷ rest else rest

unfoldable pub nak_all : List HeldMsg → List Action
nak_all [] = []
nak_all (item ∷ batch) = naked item.msg ∷ nak_all batch

unfoldable pub ack_all : List (HeldMsg × Bool) → List Action
ack_all [] = []
ack_all ((item, first) ∷ marked) =
    let rest = ack_all marked in acked item.msg ∷ (if first then reported item.row ∷ rest else rest)

-- `doFlush`, given whether InsertBatch succeeds. On an error the sink has inserted nothing.
unfoldable pub do_flush : Bool → List HeldMsg → List Action
do_flush ok batch =
    let marked = mark_firsts [] batch in
    if ok then inserted (first_rows marked) ∷ ack_all marked else nak_all batch

is_empty : List HeldMsg → Bool
is_empty [] = true
is_empty (item ∷ items) = false

-- `triggerFlush`, up to the start of the goroutine.
unfoldable pub trigger_flush : Harvester → Harvester
unfolding is_empty
trigger_flush h =
    if is_empty h.held || h.flushing
    then h
    else record h { held = []; in_flight = h.held; flushing = true }

-- The end of the flush goroutine: InsertBatch has returned.
unfoldable pub flush_ends : Bool → Harvester → Harvester
flush_ends ok h =
    if h.flushing
    then record h { in_flight = []; flushing = false; log = h.log ++ do_flush ok h.in_flight }
    else h

hold : ℕ → ℕ → UsageEvent → Harvester → Harvester
hold batch_max msg ev h =
    let held = h.held ++ (record { row = row_from_event ev; msg = msg } ∷ []) in
    let h' = record h { held = held } in
    if leb batch_max (length held) then trigger_flush h' else h'

-- `termInvalid`
term_invalid : ℕ → Harvester → Harvester
term_invalid msg h = record h { log = h.log ++ (termed msg ∷ []) }

-- `handleMsg`; the event is `none` if the payload does not decode.
unfoldable pub handle_msg : ℕ → ℕ → Option UsageEvent → Harvester → Harvester
unfolding hold term_invalid
handle_msg batch_max msg none h = term_invalid msg h
handle_msg batch_max msg (some ev) h =
    if ev.req_id == "" then term_invalid msg h else hold batch_max msg ev h

progress_all : List HeldMsg → List Action
progress_all [] = []
progress_all (item ∷ items) = progressed item.msg ∷ progress_all items

-- `heartbeatHeld`
unfoldable pub heartbeat_held : Harvester → Harvester
unfolding progress_all
heartbeat_held h = record h { log = h.log ++ progress_all (h.held ++ h.in_flight) }

-- `finalFlush`
unfoldable pub final_flush : Bool → Harvester → Harvester
unfolding is_empty
final_flush ok h =
    if is_empty h.held
    then h
    else record h { held = []; in_flight = []; log = h.log ++ do_flush ok h.held }

pub data Input : Type 0 where
  arrives : ℕ → Option UsageEvent → Input
  flush_tick heartbeat_tick : Input
  insert_returns : Bool → Input

unfoldable pub take_input : ℕ → Harvester → Input → Harvester
take_input batch_max h (arrives msg ev) = handle_msg batch_max msg ev h
take_input batch_max h flush_tick = trigger_flush h
take_input batch_max h heartbeat_tick = heartbeat_held h
take_input batch_max h (insert_returns ok) = flush_ends ok h

-- The select loop of `Run` and the delivery goroutine, until the context ends.
unfoldable pub run : ℕ → Harvester → List Input → Harvester
run batch_max h [] = h
run batch_max h (i ∷ is) = run batch_max (take_input batch_max h i) is

-- The shutdown of `Run`: the consumer has stopped, the running flush ends, the rest is flushed.
unfoldable pub shutdown : Bool → Bool → Harvester → Harvester
shutdown running_ok final_ok h = final_flush final_ok (flush_ends running_ok h)
