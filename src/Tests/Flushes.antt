-- ===== src/Tests/Flushes.antt =====
-- flushOne of internal/harvester/budget.go at work.
use inferbus.Base.{List, [], arith, false, none, pos, refl, some, true, ◌∷◌}
use inferbus.Base.{string_eq}
use inferbus.Dict.{lookup}
use inferbus.Budget.{Ledger, LedgerRow, empty_ledger}
use inferbus.Budget.Slot.{slot_of}
use inferbus.Budget.Flush.{
  Step, baseline, begins, ends_call, fine, finishes, key_missing, keys_snapshot, steps, unacked,
  uses,
}
use inferbus.Budget.Flush.Settled.{InBudgets, steps-InBudgets}
use inferbus.Projector.Keys.{KeyEntry}

abbrev budgeted_key : KeyEntry
budgeted_key = record {
  id = "k1";
  org = "acme";
  project = "p1";
  name = "ci";
  allow = [];
  rate_limit_rpm = pos 0;
  monthly_token_budget = pos 100;
  disabled = false;
}

-- Usage arrives between the snapshot and the `Put`, whose answer is lost, and the key goes away.
abbrev history : List Step
history =
    keys_snapshot "2024-05" (("h1", some budgeted_key) ∷ [])
    ∷ baseline "k1" "2024-05" (pos 40) true
    ∷ begins "k1"
    ∷ uses "k1" (pos 70)
    ∷ ends_call unacked
    ∷ finishes
    ∷ begins "k1"
    ∷ ends_call fine
    ∷ keys_snapshot "2024-05" []
    ∷ finishes
    ∷ begins "k1"
    ∷ ends_call key_missing
    ∷ finishes
    ∷ []

steps-InBudgets_example :
    let w = steps (record { ledger = empty_ledger; bucket = []; flight = none }) history in
    InBudgets (slot_of "k1" w.ledger) (lookup "k1" w.bucket)
unfolding lookup
steps-InBudgets_example =
    steps-InBudgets "k1" empty_ledger [] history (omega arith) (refl, (refl, (refl, tt))) refl

abbrev spent_row : LedgerRow
spent_row = record {
  budget = pos 100;
  used = pos 120;
  month = "2024-05";
  exceeded = true;
  baseline_loaded = true;
  to_delete = false;
  version = 3;
}

abbrev spent_ledger : Ledger
spent_ledger = record {
  month = "2024-05";
  entries = ("k1", spent_row) ∷ [];
  dirty = ("k1", true) ∷ [];
}

-- `k2` is exceeded and published already.
abbrev two_spent : Ledger
two_spent = record {
  month = "2024-05";
  entries = ("k1", spent_row) ∷ ("k2", spent_row) ∷ [];
  dirty = ("k1", true) ∷ [];
}
