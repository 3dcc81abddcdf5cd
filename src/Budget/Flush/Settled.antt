-- ===== src/Budget/Flush/Settled.antt =====
-- The ledger and the BUDGETS bucket through any interleaving of flushes, usage, baselines, rollovers
-- and KEYS snapshots: internal/harvester/budget.go.
use inferbus.Base.{
  Bool, Bool-cases, List, Option, String, [], ap, arith, false, inl, inr, is_some, le_int, length,
  none, refl, some, subst, suc, sym, true, ℕ, ◌+◌, ◌<◌, ◌^◌, ◌∙◌, ◌∷◌, ◌≡◌,
}
use inferbus.Base.{string_eq}
use inferbus.Dict.{Dict, lookup}
use inferbus.Budget.{BudgetEntry, Ledger, LedgerRow, add_usage, baseline_end, check_month_rollover}
use inferbus.Budget.Keys.{apply_keys_snapshot}
use inferbus.Budget.Slot.{Slot, slot_of}
use inferbus.Budget.Flush.{
  Answer, Flight, Step, World, baseline, begin_if_idle, begins, call_bucket, call_if_flying,
  ends_call, entry_of, finish_flight, finishes, flush_begin, flush_end, keys_snapshot, rolls_over,
  step, steps, uses,
}
use inferbus.Budget.Flush.Moves.{RowExact}
use inferbus.Budget.Flush.Moves.Ledgers.{
  add_usage-Moves, baseline_end-Moves, keys-Moves, rollover-Moves,
}
use inferbus.Budget.Flush.Published.{PublishedRow, published-RowExact}
use inferbus.Budget.Flush.Started.{Inv, flush_begin-Inv, move-Inv, same-Inv, world}
use inferbus.Budget.Flush.Called.{call_bucket-Inv, keeps_bucket}
use inferbus.Budget.Flush.Ended.{flush_end-Inv}

-- The bucket is not lost.
abbrev pub AllKeepBucket : List Step → Type 0
AllKeepBucket [] = Unit
AllKeepBucket (ends_call a ∷ ts) = (keeps_bucket a ≡ true) × AllKeepBucket ts
AllKeepBucket (uses id tokens ∷ ts) = AllKeepBucket ts
AllKeepBucket (baseline id month used force ∷ ts) = AllKeepBucket ts
AllKeepBucket (rolls_over now ∷ ts) = AllKeepBucket ts
AllKeepBucket (keys_snapshot now entries ∷ ts) = AllKeepBucket ts
AllKeepBucket (begins id ∷ ts) = AllKeepBucket ts
AllKeepBucket (finishes ∷ ts) = AllKeepBucket ts

module _ (n : ℕ) (j : String) where
  exact_row : (w : World) → Inv n j w → RowExact (lookup j w.ledger.entries)
  exact_row w h =
      published-RowExact (lookup j w.ledger.entries) (is_some (lookup j w.ledger.dirty))
        (lookup j w.bucket) h.published

  begins-Inv :
      (id : String) (l : Ledger) (bucket : Dict String BudgetEntry) (o : Option Flight)
      → Inv n j (world l bucket o)
      → Inv (suc n) j (begin_if_idle id o (world l bucket o))
  unfolding begin_if_idle flush_begin
  begins-Inv id l bucket (some f) h = same-Inv n j _ h
  begins-Inv id l bucket none h = elim (Bool-cases (is_some (lookup id l.dirty))) [
    | inl dirty ↦ rw dirty (flush_begin-Inv n id j l bucket (lookup id l.entries) refl dirty h)
    | inr clean ↦ rw clean (same-Inv n j (world l bucket none) h)
  ]

  calls-Inv :
      (a : Answer) (l : Ledger) (bucket : Dict String BudgetEntry) (o : Option Flight)
      → keeps_bucket a ≡ true
      → Inv n j (world l bucket o)
      → Inv (suc n) j (call_if_flying a o (world l bucket o))
  unfolding call_if_flying
  calls-Inv a l bucket none keeps h = same-Inv n j (world l bucket none) h
  calls-Inv a l bucket (some f) keeps h =
      let w : World = world l bucket (some f) in
      elim f.answer
        as (λ o. Inv (suc n) j (elim o as (λ x. World) [ none ↦ call_bucket a f w | some b ↦ w ])) [
          | none ↦ call_bucket-Inv n j a f l bucket keeps h
          | some b ↦ same-Inv n j w h
        ]

  ends-Inv :
      (l : Ledger) (bucket : Dict String BudgetEntry) (o : Option Flight)
      → n < 2 ^ 64
      → Inv n j (world l bucket o)
      → Inv (suc n) j (finish_flight o (world l bucket o))
  unfolding finish_flight
  ends-Inv l bucket none few h = same-Inv n j (world l bucket none) h
  ends-Inv l bucket (some f) few h =
      let w : World = world l bucket (some f) in
      let after = λ (o : Option Answer). elim o as (λ x. World) [
        | none ↦ w
        | some a ↦ world (flush_end f a l) bucket none
      ] in
      let ended : (o : Option Answer) → f.answer ≡ o → Inv (suc n) j (after o) = λ o.
        elim o as (λ b. f.answer ≡ b → Inv (suc n) j (after b)) [
          | none ↦ λ e. same-Inv n j w h
          | some a ↦ λ e. flush_end-Inv n j f a l bucket few e h
        ] in
      ended f.answer refl

  step-Inv :
      (w : World) (t : Step) (ts : List Step)
      → n < 2 ^ 64
      → AllKeepBucket (t ∷ ts)
      → Inv n j w
      → Inv (suc n) j (step w t)
  unfolding step
  step-Inv w (uses id tokens) ts few keeps h =
      move-Inv n j w (add_usage id tokens w.ledger)
        (add_usage-Moves j w.ledger (exact_row w h) id tokens) h
  step-Inv w (baseline id month used force) ts few keeps h =
      move-Inv n j w (baseline_end id month used force w.ledger)
        (baseline_end-Moves j w.ledger (exact_row w h) id month used force) h
  step-Inv w (rolls_over now) ts few keeps h =
      move-Inv n j w (check_month_rollover now w.ledger)
        (rollover-Moves j w.ledger (exact_row w h) now) h
  step-Inv w (keys_snapshot now entries) ts few keeps h =
      move-Inv n j w (apply_keys_snapshot now entries w.ledger)
        (keys-Moves j w.ledger (exact_row w h) now entries) h
  step-Inv w (begins id) ts few keeps h = begins-Inv id w.ledger w.bucket w.flight h
  step-Inv w (ends_call a) ts few keeps h = calls-Inv a w.ledger w.bucket w.flight keeps.0 h
  step-Inv w finishes ts few keeps h = ends-Inv w.ledger w.bucket w.flight few h

keeps_later : (t : Step) (ts : List Step) → AllKeepBucket (t ∷ ts) → AllKeepBucket ts
keeps_later (uses id tokens) ts k = k
keeps_later (baseline id month used force) ts k = k
keeps_later (rolls_over now) ts k = k
keeps_later (keys_snapshot now entries) ts k = k
keeps_later (begins id) ts k = k
keeps_later (ends_call a) ts k = k.1
keeps_later finishes ts k = k

steps-Inv :
    (n : ℕ) (j : String) (w : World) (ts : List Step)
    → n + length ts < 2 ^ 64
    → AllKeepBucket ts
    → Inv n j w
    → Inv (n + length ts) j (steps w ts)
unfolding steps
steps-Inv n j w [] few keeps h = subst (λ m. Inv m j w) (omega arith) h
steps-Inv n j w (t ∷ ts) few keeps h =
    subst (λ m. Inv m j (steps (step w t) ts)) (omega arith)
      (steps-Inv (suc n) j (step w t) ts (omega (arith, few)) (keeps_later t ts keeps)
        (step-Inv n j w t ts (omega (arith, few)) keeps h))

-- The entry that shows a row: exceeded says that the usage has reached the budget.
abbrev shown_entry : LedgerRow → BudgetEntry
shown_entry r = record {
  used = r.used;
  budget = r.budget;
  exceeded = le_int r.budget r.used;
  month = r.month;
}

-- A retired row is dirty, and a live row that has its baseline and is not dirty has its entry.
pub record RowInBudgets (r : LedgerRow) (dirty : Bool) (e : Option BudgetEntry) : Type 0 where
  pub up_to_date : r.exceeded ≡ le_int r.budget r.used
  pub in_range : r.version < 2 ^ 64
  pub retired_dirty : r.to_delete ≡ true → dirty ≡ true
  pub shown :
      r.to_delete ≡ false → r.baseline_loaded ≡ true → dirty ≡ false → e ≡ some (shown_entry r)

abbrev InRow : Option LedgerRow → Bool → Option BudgetEntry → Type 0
InRow none dirty e = e ≡ none
InRow (some r) dirty e = RowInBudgets r dirty e

-- A key id without a row has no entry.
abbrev pub InBudgets : Slot → Option BudgetEntry → Type 0
InBudgets s e = InRow s.row s.dirty e

entry_of_lem : (r : LedgerRow) → r.exceeded ≡ le_int r.budget r.used → entry_of r ≡ shown_entry r
entry_of_lem r e =
    ap (λ x. record { used = r.used; budget = r.budget; exceeded = x; month = r.month }) e

published-InRow :
    (o : Option LedgerRow) (dirty : Bool) (e : Option BudgetEntry)
    → PublishedRow o dirty e
    → InRow o dirty e
published-InRow none dirty e h = h
published-InRow (some r) dirty e h = record {
  up_to_date = h.exact.up_to_date;
  in_range = h.exact.in_range;
  retired_dirty = h.retired_dirty;
  shown =
      λ live loaded clean. h.shown live loaded clean ∙ ap some (entry_of_lem r h.exact.up_to_date);
}

pub row-Published :
    (o : Option LedgerRow) (dirty : Bool) (e : Option BudgetEntry)
    → InRow o dirty e
    → PublishedRow o dirty e
row-Published none dirty e h = h
row-Published (some r) dirty e h = record {
  exact = record { up_to_date = h.up_to_date; in_range = h.in_range };
  retired_dirty = h.retired_dirty;
  shown =
      λ live loaded clean. h.shown live loaded clean ∙ ap some (sym (entry_of_lem r h.up_to_date));
}

-- No update of the ledger is lost, however flushes of any ids, usage, baselines, rollovers and KEYS
-- snapshots interleave, and whichever calls on the bucket fail with or without their effect: if it
-- holds of a key id at the start, where no flush is under way, then it holds after fewer than 2 ^ 64
-- steps in which the bucket is not lost, that the id has no BUDGETS entry if it has no row, that its
-- row is dirty if it is retired, and that if its row is live, has its baseline and is not dirty, its
-- entry has the budget, usage and month of the row and is exceeded if the usage reaches the budget.
pub steps-InBudgets :
    (j : String) (l : Ledger) (bucket : Dict String BudgetEntry) (ts : List Step)
    → length ts < 2 ^ 64
    → AllKeepBucket ts
    → InBudgets (slot_of j l) (lookup j bucket)
    → let w = steps (record { ledger = l; bucket = bucket; flight = none }) ts in
      InBudgets (slot_of j w.ledger) (lookup j w.bucket)
steps-InBudgets j l bucket ts few keeps h =
    let w = steps (world l bucket none) ts in
    let end = steps-Inv 0 j (world l bucket none) ts (omega (arith, few)) keeps (record {
      published =
          row-Published (lookup j l.entries) (is_some (lookup j l.dirty)) (lookup j bucket) h;
      flying = tt;
    }) in
    published-InRow (lookup j w.ledger.entries) (is_some (lookup j w.ledger.dirty))
      (lookup j w.bucket) end.published
