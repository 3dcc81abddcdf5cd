-- ===== src/Budget.antt =====
-- The budget ledger: internal/harvester/budget.go, with the budget entry of internal/cpkv/cpkv.go.
-- The ledger is a record; what holds the mutex is one function. The clock's month is an argument.
pub mod Keys
pub mod Slot
pub mod Flush
pub mod Watch
use inferbus.Base.{
  string_eq, Bool, List, Option, String, [], add_int64, eq_int, false, if◌then◌else◌, le_int, none,
  not, some, suc, true, ℕ, ℤ, ◌%◌, ◌&&◌, ◌+◌, ◌==◌, ◌^◌, ◌||◌, ◌∷◌,
}
use inferbus.Dict.{Dict, insert, lookup}

pub record BudgetEntry : Type 0 where
  pub used : ℤ
  pub budget : ℤ
  pub exceeded : Bool
  pub month : String

pub record LedgerRow : Type 0 where
  pub budget : ℤ  -- int64
  pub used : ℤ  -- int64
  pub month : String
  pub exceeded : Bool
  pub baseline_loaded : Bool
  pub to_delete : Bool
  pub version : ℕ  -- uint64

-- `month` is "" until it is first observed.
pub record Ledger : Type 0 where
  pub month : String
  pub entries : Dict String LedgerRow
  pub dirty : Dict String Bool

abbrev pub empty_ledger : Ledger
empty_ledger = record { month = ""; entries = []; dirty = [] }

-- `row.version++`
abbrev pub next_version : ℕ → ℕ
next_version v = (v + 1) % 2 ^ 64

abbrev pub mark : String → Dict String Bool → Dict String Bool
mark id dirty = insert id true dirty

-- `row.used >= row.budget`
abbrev pub is_exceeded : ℤ → ℤ → Bool
is_exceeded used budget = le_int budget used

-- What AddUsage does to the row of the key.
abbrev pub used_row : ℤ → LedgerRow → LedgerRow
used_row tokens row =
    let used = add_int64 row.used tokens in
    record row {
      used = used;
      exceeded = is_exceeded used row.budget;
      version = next_version row.version;
    }

add_usage_to : String → ℤ → Option LedgerRow → Ledger → Ledger
add_usage_to id tokens none l = l
add_usage_to id tokens (some row) l =
    if row.to_delete
    then l
    else record l { entries = insert id (used_row tokens row) l.entries; dirty = mark id l.dirty }

-- `AddUsage` for a row with this key id and this `TotalTokens()`.
unfoldable pub add_usage : String → ℤ → Ledger → Ledger
unfolding add_usage_to
add_usage id tokens l = if id == "" then l else add_usage_to id tokens (lookup id l.entries) l

-- `currentMonthLocked`: the month, and the ledger with it set.
unfoldable pub current_month_locked : String → Ledger → Ledger
current_month_locked now l = if l.month == "" then record l { month = now } else l

-- The first half of `loadBaseline`: the month to ask the sink for, if the row is still live.
month_wanted : Option LedgerRow → Option String
month_wanted none = none
month_wanted (some row) = if row.to_delete then none else some row.month

unfoldable pub baseline_begin : String → Ledger → Option String
unfolding month_wanted
baseline_begin id l = month_wanted (lookup id l.entries)

-- The value differs from what is recorded, or is the first to land.
abbrev pub baseline_changes : ℤ → LedgerRow → Bool
baseline_changes used row = not (eq_int row.used used) || not row.baseline_loaded

abbrev pub loaded_row : ℤ → LedgerRow → LedgerRow
loaded_row used row = record row {
  used = used;
  exceeded = is_exceeded used row.budget;
  baseline_loaded = true;
  version = if baseline_changes used row then next_version row.version else row.version;
}

load_into : String → String → ℤ → Bool → Option LedgerRow → Ledger → Ledger
load_into id month used force none l = l
load_into id month used force (some row) l =
    if row.to_delete || not (row.month == month) then l else record l {
      entries = insert id (loaded_row used row) l.entries;
      dirty = if baseline_changes used row || force then mark id l.dirty else l.dirty;
    }

-- The second half of `loadBaseline`, when the sink has answered for `month`. On a sink error nothing
-- is called.
unfoldable pub baseline_end : String → String → ℤ → Bool → Ledger → Ledger
unfolding load_into
baseline_end id month used force l = load_into id month used force (lookup id l.entries) l

-- The ids that `rebaselineAll` asks for.
unfoldable pub rebaseline_ids : Dict String LedgerRow → List String
rebaseline_ids [] = []
rebaseline_ids ((id, row) ∷ rows) =
    let rest = rebaseline_ids rows in
    if row.to_delete || not row.baseline_loaded then rest else id ∷ rest

-- The ids that `flushTick` has waiting for a baseline.
unfoldable pub pending_ids : Dict String LedgerRow → List String
pending_ids [] = []
pending_ids ((id, row) ∷ rows) =
    let rest = pending_ids rows in
    if not row.baseline_loaded && not row.to_delete then id ∷ rest else rest

-- `reportBudgetGauge`: how many live rows are not exceeded, and how many are.
unfoldable pub budget_gauge : Dict String LedgerRow → ℕ × ℕ
budget_gauge [] = (0, 0)
budget_gauge ((id, row) ∷ rows) =
    let (fine, over) = budget_gauge rows in
    if row.to_delete
    then (fine, over)
    else if row.exceeded
    then (fine, suc over)
    else (suc fine, over)

-- What a rollover does to a row.
abbrev pub rolled_row : String → LedgerRow → LedgerRow
rolled_row month row =
    if row.to_delete
    then row
    else record row { month = month; baseline_loaded = false; version = next_version row.version }

unfoldable pub roll_rows : String → Dict String LedgerRow → Dict String LedgerRow
roll_rows month [] = []
roll_rows month ((id, row) ∷ rows) = (id, rolled_row month row) ∷ roll_rows month rows

-- `checkMonthRollover`, up to the baselines that it then loads.
unfoldable pub check_month_rollover : String → Ledger → Ledger
check_month_rollover now l =
    if l.month == ""
    then record l { month = now }
    else if l.month == now
    then l
    else record l { month = now; entries = roll_rows now l.entries }
