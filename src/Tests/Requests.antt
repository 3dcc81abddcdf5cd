-- ===== src/Tests/Requests.antt =====
-- internal/gateway at work: one organisation with one key and two aliases.
use mathlib.Core.Option
use inferbus.Base.{
  Bool, List, String, [], false, if◌then◌else◌, inl, none, pos, refl, some, true, ℕ, ◌==◌, ◌||◌,
  ◌∷◌, ◌≡◌,
}
use inferbus.Base.{string_eq}
use inferbus.Dict.{Dict, insert, lookup}
use inferbus.Text.{text_eq, Text, codes, equal_fold}
use inferbus.Wire.Slug.{slug}
use inferbus.Alias.{alias_set, decide, decide_set, first_reserved_param_key, initial}
use inferbus.Projector.StreamId.{alias_key}
use inferbus.Gateway.Iam.{
  KeyConfig, Resolution, key_id, kv_authenticate, kv_budget_exceeded, kv_resolve,
}
use inferbus.Gateway.Watch.{
  Update, connected, consume, consume-latest, drop_entry, has_replayed, last_touch, latest,
  or_before, put_entry, replayed,
}
use inferbus.Gateway.Admission.{
  AdmissionConfig, Reading, allow, cached, fresh_backlog, limit_for, retry_after, store,
}
use inferbus.Gateway.Params.{
  Json, fields_of, is_reserved_param, json_value, merge_params, not_object, write_params,
}
use inferbus.Gateway.Params.Accepted.{IsMergedBody, decide-merge_params}
use inferbus.Gateway.Dispatch.Models.{Asks, Fits, listed, models, models-Fits}
use inferbus.Gateway.Dispatch.{
  Arrival, Checked, Gateway, Published, admit, and_then, authenticate, authenticate_key, body_read,
  budget_exceeded, chat, checks, contains, dispatch, is_ready, kv_iam, or_refuse, pass, publish,
  resolve_alias, unless,
}
use inferbus.Gateway.Dispatch.Gates.{IsAllowed, IsSent, admits, dispatch-IsSent}
use inferbus.Gateway.Dispatch.Gates.Passed.{dispatch_passes, published}
use inferbus.Gateway.Dispatch.Gates.Order.{dispatch-exhausted}

-- Bodies are known by name: one has a model and a temperature.
abbrev json : Json
json = record {
  unmarshal = λ body.
      if body == "chat"
      then fields_of (("model", "\"fast\"") ∷ ("temperature", "1") ∷ [])
      else not_object;
  marshal = λ fields. some "merged";
  valid = λ v. v == "0";
  quote = λ v. some v;
  probe = λ body. if body == "chat" then some ("fast", false) else none;
}

abbrev pinned : Dict String String
pinned = ("temperature", "0") ∷ ("Stream", "true") ∷ []

abbrev cold : Dict String String
cold = ("temperature", "0") ∷ []

abbrev chat_fields : Dict String String
chat_fields = ("model", "\"fast\"") ∷ ("temperature", "1") ∷ []

-- A body is known by its temperature.
abbrev by_temperature : Json
by_temperature = record json { marshal = λ fields. lookup "temperature" fields }

decide-merge_params_example : IsMergedBody by_temperature cold chat_fields "0"
unfolding lookup decide slug first_reserved_param_key equal_fold decide_set merge_params
    write_params insert is_reserved_param json_value
decide-merge_params_example =
    decide-merge_params by_temperature initial "Qwen3" "chat" "0" ("temperature", "0") []
      chat_fields (alias_set "Qwen3" cold ∷ []) refl (refl, tt) refl refl

abbrev ci_key : KeyConfig
ci_key = record {
  key = "";
  id = "k1";
  name = "ci";
  org = "acme";
  project = "p1";
  allow = "fast" ∷ [];
}

abbrev aliases : Dict Text Resolution
aliases = (codes "acme/fast", record { target = "Qwen3"; params = cold }) ∷ []

abbrev admission : AdmissionConfig
admission = record {
  max_backlog = pos 5;
  retry_after_seconds = pos 0;
  overrides = ("tiny", pos 0) ∷ [];
}

abbrev with_budget : Bool → Gateway
with_budget exceeded = record {
  iam = kv_iam true (("h-secret", ci_key) ∷ []) aliases (
      ("k1", record { used = pos 9; budget = pos 9; exceeded = exceeded; month = "2024-05" }) ∷ []);
  admission = some admission;
  hash_key = λ s. if s == "secret" then "h-secret" else "";
  json = json;
}

abbrev backlog_now : Reading
backlog_now = record { now = 0; stored = 0; answer = some 3 }

abbrev request : Arrival
request = record {
  authorization = "Bearer secret";
  body = body_read "chat";
  kind = chat;
  reading = backlog_now;
  req_id = "r1";
  deadline = 300;
  listens = true;
  acked = some 17;
}

abbrev sent : Published
sent = record {
  model = "Qwen3";
  org = "acme";
  project = "p1";
  key = "k1";
  alias = "fast";
  req_id = "r1";
  kind = chat;
  deadline = 300;
  body = "merged";
  seq = 17;
  stream = false;
}

dispatch-IsSent_example :
    (c : Checked) × IsAllowed (with_budget false) request c
    × (budget_exceeded (with_budget false).iam c.key ≡ false)
    × (admits (with_budget false).admission request.reading c.resolution.target [] ≡ true)
    × IsSent (with_budget false) request c sent
unfolding dispatch checks and_then unless or_refuse is_ready authenticate authenticate_key
    kv_authenticate lookup resolve_alias kv_resolve alias_key contains budget_exceeded
    kv_budget_exceeded key_id admit allow cached fresh_backlog limit_for retry_after store publish
    merge_params write_params is_reserved_param equal_fold json_value insert
dispatch-IsSent_example = dispatch-IsSent (with_budget false) request [] sent refl

dispatch-exhausted_example :
    (c : Checked) × IsAllowed (with_budget true) request c
    × (budget_exceeded (with_budget true).iam c.key ≡ true)
unfolding dispatch checks and_then unless or_refuse is_ready authenticate authenticate_key
    kv_authenticate lookup resolve_alias kv_resolve alias_key contains budget_exceeded
    kv_budget_exceeded key_id admit allow cached fresh_backlog limit_for retry_after store publish
    merge_params write_params is_reserved_param equal_fold json_value insert
dispatch-exhausted_example = dispatch-exhausted (with_budget true) request [] refl

abbrev soon : Reading
soon = record { now = 500; stored = 600; answer = none }

abbrev updates : List (Update ℕ)
updates = put_entry "a" 1 ∷ put_entry "b" 2 ∷ replayed ∷ drop_entry "a" ∷ put_entry "b" 3 ∷ []

consume-latest_example :
    (Option.map (lookup "b") (latest (consume (connected false) updates).applied)
      ≡ (if has_replayed updates then some (or_before (last_touch "b" updates) none) else none))
    × ((consume (connected false) updates).ready ≡ (false || has_replayed updates))
consume-latest_example = consume-latest false updates "b"

abbrev through : Checked
through = record {
  key = ci_key;
  body = "chat";
  alias = "fast";
  stream = false;
  resolution = record { target = "Qwen3"; params = cold };
}

through-IsAllowed : IsAllowed (with_budget false) request through
unfolding is_ready authenticate authenticate_key kv_authenticate lookup resolve_alias kv_resolve
    alias_key contains
through-IsAllowed = record {
  ready = refl;
  authentic = refl;
  whole = refl;
  probed = refl;
  named = refl;
  shaped = inl refl;
  resolves = refl;
  listed = refl;
}

dispatch_passes_example :
    (dispatch (with_budget false) request []).0 ≡ pass (published request through "merged" 17)
unfolding lookup budget_exceeded kv_budget_exceeded key_id allow cached fresh_backlog limit_for
    merge_params
dispatch_passes_example =
    dispatch_passes (with_budget false) request [] through "merged" 17 through-IsAllowed refl refl
      refl refl refl

fast-Asks : Asks (with_budget true) request "fast"
fast-Asks = record {
  body = "chat";
  stream = false;
  whole = refl;
  probed = refl;
  named = refl;
  shaped = inl refl;
}

models-Fits_example : Fits (contains "fast" ("fast" ∷ [])) (checks (with_budget true) request)
unfolding models listed and_then unless or_refuse is_ready authenticate authenticate_key
    kv_authenticate lookup resolve_alias kv_resolve alias_key
models-Fits_example = models-Fits (with_budget true) request "fast" refl fast-Asks
