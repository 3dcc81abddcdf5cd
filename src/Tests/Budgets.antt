-- ===== src/Tests/Budgets.antt =====
-- internal/harvester/budget.go at work: two keys in the snapshot, one of them on two hashes.
use inferbus.Base.{Option, String, [], false, none, pos, refl, some, true, ℤ, ◌∷◌, ◌≡◌}
use inferbus.Base.{string_eq}
use inferbus.Dict.{Dict, lookup}
use inferbus.Projector.Keys.{KeyEntry}
use inferbus.Budget.{Ledger, LedgerRow, check_month_rollover}
use inferbus.Budget.Keys.{KeyFold, reconcile_keys}
use inferbus.Budget.Keys.Rollover.{rollover-reconcile_stale}

abbrev entry_of : String → ℤ → KeyEntry
entry_of id budget = record {
  id = id;
  org = "acme";
  project = "p1";
  name = "ci";
  allow = [];
  rate_limit_rpm = pos 0;
  monthly_token_budget = budget;
  disabled = false;
}

abbrev snapshot : Dict String (Option KeyEntry)
snapshot =
    ("h1", some (entry_of "k1" (pos 100)))
    ∷ ("h2", some (entry_of "k1" (pos 500)))
    ∷ ("h3", none)
    ∷ []

abbrev old_row : LedgerRow
old_row = record {
  budget = pos 100;
  used = pos 120;
  month = "2024-05";
  exceeded = true;
  baseline_loaded = true;
  to_delete = false;
  version = 3;
}

abbrev ledger : Ledger
ledger = record { month = "2024-05"; entries = ("k1", old_row) ∷ ("k2", old_row) ∷ []; dirty = [] }

abbrev folded : Dict String KeyFold
folded = ("k1", record { budget = pos 500; diverged = true }) ∷ []

abbrev waiting_row : LedgerRow
waiting_row = record old_row { to_delete = true }

abbrev waiting_ledger : Ledger
waiting_ledger = record { month = "2024-05"; entries = ("k1", waiting_row) ∷ []; dirty = [] }

rollover-reconcile_stale_example :
    (live : LedgerRow) × (lookup "k1"
        (reconcile_keys "2024-06" folded (check_month_rollover "2024-06" waiting_ledger)).entries
      ≡ some live)
    × (live.to_delete ≡ false)
    × (live.budget ≡ pos 500)
    × (live.month ≡ "2024-05")
    × (live.used ≡ pos 120)
    × (live.baseline_loaded ≡ true)
unfolding lookup
rollover-reconcile_stale_example =
    rollover-reconcile_stale "2024-06" "2024-06" "k1" (record { budget = pos 500; diverged = true })
      folded waiting_row waiting_ledger refl refl (refl, tt) refl refl
