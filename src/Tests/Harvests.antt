-- ===== src/Tests/Harvests.antt =====
-- internal/harvester/harvester.go at work.
use inferbus.Base.{List, String, [], false, none, pos, some, true, ℕ, ◌∷◌, ◌≡◌}
use inferbus.Base.{string_eq}
use inferbus.Wire.Types.{UsageEvent, no_usage}
use inferbus.Harvester.{
  HeldMsg, Input, arrives, heartbeat_tick, new_harvester, row_from_event, run, shutdown,
}
use inferbus.Harvester.Accounts.{answers, shutdown-answers}

abbrev usage_of : String → UsageEvent
usage_of id = record {
  req_id = id;
  org = "acme";
  project = "web";
  key_id = "k1";
  alias = "fast";
  model = "llama";
  provider = "openai_http";
  kind = "chat";
  status = "ok";
  error_code = "";
  worker_id = "w1";
  usage = no_usage;
  ttft_millis = pos 0;
  duration_millis = pos 0;
  queue_millis = pos 0;
  estimated = false;
  ts = 5;
}

abbrev held_as : ℕ → String → HeldMsg
held_as msg id = record { row = row_from_event (usage_of id); msg = msg }

-- The second message repeats the first.
abbrev batch : List HeldMsg
batch = held_as 1 "a" ∷ held_as 2 "a" ∷ held_as 3 "b" ∷ []

-- A full batch, a message that does not decode, and one more while the flush runs.
abbrev inputs : List Input
inputs =
    arrives 1 (some (usage_of "a"))
    ∷ arrives 2 (some (usage_of "a"))
    ∷ arrives 3 none
    ∷ heartbeat_tick
    ∷ arrives 4 (some (usage_of "b"))
    ∷ []

shutdown-answers_example : answers 4 (shutdown false true (run 2 new_harvester inputs)).log ≡ 1
shutdown-answers_example = shutdown-answers 4 2 inputs false true
