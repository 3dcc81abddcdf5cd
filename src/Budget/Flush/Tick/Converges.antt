-- ===== src/Budget/Flush/Tick/Converges.antt =====
-- Two ticks of internal/harvester/budget.go bring BUDGETS up to date with the ledger.
use inferbus.Budget.Flush.Tick.{dirty_ids, flush_all, flush_tick}
use inferbus.Budget.Flush.Tick.Distinctness.{flush_tick-Distinct}
use inferbus.Budget.Flush.Tick.Seen.{
  Seen, flush_all-seen, flushed, listed-dirty_ids, listed-pending_ids, load_baselines-slot, seen,
  slot_asked, waits,
}
use inferbus.Budget.Flush.{Answer, World, entry_of, fine}
use inferbus.Budget.Flush.Settled.{InBudgets, row-Published}
use inferbus.Budget.Flush.Published.{PublishedRow, RowPublished}
use inferbus.Base.{
  Bool, Bool-cases, Option, String, ap, arith, false, if◌then◌else◌, inl, inr, is_some, le_int,
  none, pos, refl, some, str_eq_iff, subst, sym, true, ℤ, ◌∙◌, ◌≡◌,
}
use inferbus.Base.{string_eq}
use inferbus.Dict.{Distinct, lookup}
use inferbus.Budget.{BudgetEntry, LedgerRow, loaded_row, pending_ids}
use inferbus.Budget.Slot.{Slot, marked, slot_of}

-- A tick at one id.
abbrev pub ticked : (String → Option ℤ) → Seen → Seen
ticked sink s =
    let f = if s.dirty then flushed s else s in
    let k : Slot = record { row = f.row; dirty = f.dirty } in
    let t = if waits s.row then slot_asked sink true k else k in
    record { row = t.row; dirty = t.dirty; entry = f.entry }

pub flush_tick-seen :
    (answer : String → Answer) (sink : String → String → Option ℤ) (j : String) (w : World)
    → ((id : String) → answer id ≡ fine)
    → w.flight ≡ none
    → Distinct w.ledger.entries
    → (seen j (flush_tick answer sink w) ≡ ticked (sink j) (seen j w))
      × ((flush_tick answer sink w).flight ≡ none)
unfolding flush_tick
flush_tick-seen answer sink j w well h d =
    let ids = dirty_ids w.ledger.dirty in
    let first = flush_all-seen j answer ids w well h in
    (
      ground (
        arith,
        first.0,
        listed-dirty_ids j w.ledger.dirty,
        listed-pending_ids j w.ledger.entries d,
        load_baselines-slot sink (pending_ids w.ledger.entries) j (flush_all answer ids w).ledger,
      ),
      first.1,
    )

-- A live row has a positive budget, and the sink answers if the row waits for its baseline.
abbrev pub Answered : (String → Option ℤ) → Option LedgerRow → Type 0
Answered sink none = Unit {0}
Answered sink (some r) =
    r.to_delete ≡ false
    → (le_int r.budget (pos 0) ≡ false)
      × (r.baseline_loaded ≡ false → (used : ℤ) × (sink r.month ≡ some used))

-- The usage of the row, or the sink's if the row waits for it.
abbrev UsageOf : (String → Option ℤ) → Bool → LedgerRow → ℤ → Type 0
UsageOf sink true r used = used ≡ r.used
UsageOf sink false r used = sink r.month ≡ some used

abbrev EntryOf : (String → Option ℤ) → Bool → LedgerRow → Option BudgetEntry → Type 0
EntryOf sink true r e = e ≡ none
EntryOf sink false r e =
    (used : ℤ) × (e
      ≡ some (record {
        used = used;
        budget = r.budget;
        exceeded = le_int r.budget used;
        month = r.month;
      }))
    × UsageOf sink r.baseline_loaded r used

-- A live row has its entry; a retired one, or none, has no entry.
abbrev pub ShowsRow : (String → Option ℤ) → Option LedgerRow → Option BudgetEntry → Type 0
ShowsRow sink none e = e ≡ none
ShowsRow sink (some r) e = EntryOf sink r.to_delete r e

module _ (sink : String → Option ℤ) (r : LedgerRow) (dirty : Bool) (e : Option BudgetEntry) where
  twice : Seen
  twice = ticked sink (ticked sink (record { row = some r; dirty = dirty; entry = e }))

  twice_gone : r.to_delete ≡ true → dirty ≡ true → twice.entry ≡ none
  unfolding twice
  twice_gone gone marked = ground (arith, gone, marked)

  twice_loaded :
      r.to_delete ≡ false
      → le_int r.budget (pos 0) ≡ false
      → r.baseline_loaded ≡ true
      → (dirty ≡ false → e ≡ some (entry_of r))
      → twice.entry ≡ some (entry_of r)
  unfolding twice
  twice_loaded live given loaded shown = ground (arith, live, given, loaded, shown)

  twice_asked :
      (used : ℤ)
      → r.to_delete ≡ false
      → le_int r.budget (pos 0) ≡ false
      → r.baseline_loaded ≡ false
      → sink r.month ≡ some used
      → twice.entry ≡ some (entry_of (loaded_row used r))
  unfolding twice
  twice_asked used live given waiting u =
      ground (arith, live, given, waiting, u, (str_eq_iff r.month r.month).1 refl, Bool-cases dirty)

  twice_live :
      RowPublished r dirty e
      → r.to_delete ≡ false
      → Answered sink (some r)
      → EntryOf sink false r twice.entry
  twice_live h live a = elim (Bool-cases r.baseline_loaded) [
    | inl loaded ↦ (
      r.used,
      twice_loaded live (a live).0 loaded (h.shown live loaded)
          ∙ ap
              (λ x.
                some (record { used = r.used; budget = r.budget; exceeded = x; month = r.month }))
              h.exact.up_to_date,
      subst (λ b. UsageOf sink b r r.used) (sym loaded) refl,
    )
    | inr waiting ↦
        let (used, u) = (a live).1 waiting in
        (
          used,
          twice_asked used live (a live).0 waiting u,
          subst (λ b. UsageOf sink b r used) (sym waiting) u,
        )
  ]

ticked_twice :
    (sink : String → Option ℤ) (o : Option LedgerRow) (dirty : Bool) (e : Option BudgetEntry)
    → PublishedRow o dirty e
    → Answered sink o
    → ShowsRow sink o
        (ticked sink (ticked sink (record { row = o; dirty = dirty; entry = e }))).entry
unfolding twice
ticked_twice sink none dirty e h a = ground (arith, h)
ticked_twice sink (some r) dirty e h a = elim (Bool-cases r.to_delete) [
  | inl gone ↦
      subst (λ d. EntryOf sink d r (twice sink r dirty e).entry) (sym gone)
        (twice_gone sink r dirty e gone (h.retired_dirty gone))
  | inr live ↦
      subst (λ d. EntryOf sink d r (twice sink r dirty e).entry) (sym live)
        (twice_live sink r dirty e h live a)
]

-- Two ticks bring BUDGETS up to date for a key id if every call on BUDGETS succeeds, no flush is under
-- way, the invariant of steps-InBudgets holds of it (no entry without a row, the right one for a clean
-- live row with its baseline, a retired row dirty), its row, if it is live, has a positive budget, and
-- the sink answers if the row waits for its baseline: a live row has its entry, with its budget and month, the usage that
-- it had or that the sink gave, and exceeded exactly if that reaches the budget; a retired row, or
-- none, has no entry.
pub flush_tick_twice-ShowsRow :
    (answer : String → Answer) (sink : String → String → Option ℤ) (j : String) (w : World)
    → ((id : String) → answer id ≡ fine)
    → w.flight ≡ none
    → Distinct w.ledger.entries
    → InBudgets (slot_of j w.ledger) (lookup j w.bucket)
    → Answered (sink j) (lookup j w.ledger.entries)
    → ShowsRow
        (sink j)
        (lookup j w.ledger.entries)
        (lookup j (flush_tick answer sink (flush_tick answer sink w)).bucket)
flush_tick_twice-ShowsRow answer sink j w well h d p a =
    let first = flush_tick-seen answer sink j w well h d in
    let second =
      flush_tick-seen answer sink j (flush_tick answer sink w) well first.1
        (flush_tick-Distinct answer sink w d) in
    subst (ShowsRow (sink j) (lookup j w.ledger.entries))
      (sym (ap (λ s. s.entry) (second.0 ∙ ap (ticked (sink j)) first.0)))
      (ticked_twice (sink j) (lookup j w.ledger.entries) (is_some (lookup j w.ledger.dirty))
        (lookup j w.bucket)
        (row-Published (lookup j w.ledger.entries) (is_some (lookup j w.ledger.dirty))
          (lookup j w.bucket) p)
        a)
