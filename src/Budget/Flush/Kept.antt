-- ===== src/Budget/Flush/Kept.antt =====
-- The live rows of the ledger of internal/harvester/budget.go and their budgets: a KEYS snapshot
-- settles them, and no other step of Budget.Flush changes them.
use inferbus.Budget.Flush.{
  Answer, Flight, Step, World, baseline, begin_if_idle, begins, call_bucket, call_if_flying,
  ends_call, finish_flight, finishes, flush_begin, flush_end, flush_row, is_deleted, is_put,
  keys_snapshot, must_go, rolls_over, settle, step, undirty, untrack, uses,
}
use inferbus.Budget.Flush.Rows.{
  Enforces, gone-Enforces, rolled-Enforces, slot_loaded-Enforces, slot_reconciled-Enforces,
  slot_used-Enforces, wanted,
}
use inferbus.Budget.Flush.Moves.{if_either}
use inferbus.Budget.Flush.Moves.Ledgers.{add_usage_nameless, fold_keys-Distinct}
use inferbus.Base.{
  Bool, Bool-cases, Option, String, [], ap, arith, if◌then◌else◌, inl, inr, is_some, nat_beq, none,
  not, refl, some, str_eq_iff, subst, sym, ℤ, ◌&&◌, ◌==◌, ◌||◌, ◌∙◌, ◌≡◌,
}
use inferbus.Base.{string_eq}
use inferbus.Dict.{Dict, delete, lookup, lookup-delete}
use inferbus.Projector.Keys.{KeyEntry}
use inferbus.Budget.{Ledger, LedgerRow, add_usage, baseline_end, check_month_rollover, roll_rows}
use inferbus.Budget.Slot.{
  lookup-roll_rows, slot_loaded, slot_of, slot_of-add_usage, slot_of-baseline_end, slot_used,
}
use inferbus.Budget.Keys.{apply_keys_snapshot, fold_keys}
use inferbus.Budget.Keys.Pointwise.{month_of, slot_of-reconcile_keys}

module _ (j : String) (b : Option ℤ) where
  -- The ledger enforces it for this id.
  abbrev Holds : Ledger → Type 0
  Holds l = Enforces b (lookup j l.entries)

  add_usage-Holds :
      (id : String) (tokens : ℤ) (l : Ledger) → Holds l → Holds (add_usage id tokens l)
  add_usage-Holds id tokens l h = elim (Bool-cases (id == "")) [
    | inl nameless ↦ subst Holds (sym (add_usage_nameless id tokens l nameless)) h
    | inr named ↦
        subst (λ s. Enforces b s.row) (sym (slot_of-add_usage id j tokens l named))
          (if_either (λ s. Enforces b s.row) (id == j) (slot_used tokens (slot_of j l))
            (slot_of j l)
            (λ same. slot_used-Enforces b tokens (slot_of j l).dirty (lookup j l.entries) h)
            (λ other. h))
  ]

  baseline_end-Holds :
      (id month : String) (used : ℤ) (force : Bool) (l : Ledger)
      → Holds l
      → Holds (baseline_end id month used force l)
  baseline_end-Holds id month used force l h =
      subst (λ s. Enforces b s.row) (sym (slot_of-baseline_end id j month used force l))
        (if_either (λ s. Enforces b s.row) (id == j) (slot_loaded month used force (slot_of j l))
          (slot_of j l)
          (λ same.
            slot_loaded-Enforces b month used force (slot_of j l).dirty (lookup j l.entries) h)
          (λ other. h))

  rollover-Holds : (now : String) (l : Ledger) → Holds l → Holds (check_month_rollover now l)
  unfolding check_month_rollover
  rollover-Holds now l h =
      let rolled : Ledger = record l { month = now; entries = roll_rows now l.entries } in
      if_either Holds (l.month == "") (record l { month = now })
        (if l.month == now then l else rolled) (λ first. h)
        (λ later.
          if_either Holds (l.month == now) l rolled (λ same. h)
            (λ new.
              subst (Enforces b) (sym (lookup-roll_rows now j l.entries))
                (rolled-Enforces b now (lookup j l.entries) h)))

  flush_row-Holds :
      (id : String) (o : Option LedgerRow) (w : World)
      → Holds w.ledger
      → Holds (flush_row id o w).ledger
  unfolding flush_row
  flush_row-Holds id none w h = h
  flush_row-Holds id (some row) w h =
      if_either (λ v. Holds v.ledger) (not (must_go row) && not row.baseline_loaded) w _
        (λ waits. h) (λ starts. h)

  begin_if_idle-Holds :
      (id : String) (o : Option Flight) (w : World)
      → Holds w.ledger
      → Holds (begin_if_idle id o w).ledger
  unfolding begin_if_idle flush_begin
  begin_if_idle-Holds id (some f) w h = h
  begin_if_idle-Holds id none w h =
      if_either (λ v. Holds v.ledger) (is_some (lookup id w.ledger.dirty)) (flush_begin id w) w
        (λ dirty. flush_row-Holds id (lookup id w.ledger.entries) w h) (λ clean. h)

  call_if_flying-Holds :
      (a : Answer) (o : Option Flight) (w : World)
      → Holds w.ledger
      → Holds (call_if_flying a o w).ledger
  unfolding call_if_flying call_bucket
  call_if_flying-Holds a none w h = h
  call_if_flying-Holds a (some f) w h =
      elim f.answer
        as (λ o. Holds (elim o as (λ x. World) [ none ↦ call_bucket a f w | some b ↦ w ]).ledger) [
          | none ↦ h
          | some b ↦ h
        ]

  untrack-Holds :
      (f : Flight) (o : Option LedgerRow) (l : Ledger)
      → lookup f.id l.entries ≡ o
      → Holds l
      → Holds (untrack f o l)
  unfolding untrack
  untrack-Holds f none l e h = h
  untrack-Holds f (some row) l e h =
      if_either Holds (not (nat_beq row.version f.version) || not row.to_delete) l
        (record l { entries = delete f.id l.entries; dirty = delete f.id l.dirty }) (λ kept. h)
        (λ goes. elim (Bool-cases (f.id == j)) [
          | inl same ↦
              let own : Enforces b (some row) =
                subst (Enforces b)
                  (ap (λ k. lookup k l.entries) (sym ((str_eq_iff f.id j).0 same)) ∙ e) h in
              subst (Enforces b)
                (sym (
                  lookup-delete f.id j l.entries
                  ∙ ap (λ c. if c then none else lookup j l.entries) same))
                (gone-Enforces b row (ground (arith, goes)) own)
          | inr other ↦
              subst (Enforces b)
                (sym (
                  lookup-delete f.id j l.entries
                  ∙ ap (λ c. if c then none else lookup j l.entries) other))
                h
        ])

  settle-Holds : (f : Flight) (o : Option LedgerRow) (l : Ledger) → Holds l → Holds (settle f o l)
  unfolding settle
  settle-Holds f none l h = h
  settle-Holds f (some row) l h =
      if_either Holds (nat_beq row.version f.version) (undirty f.id l) l (λ same. h) (λ newer. h)

  flush_end-Holds : (f : Flight) (a : Answer) (l : Ledger) → Holds l → Holds (flush_end f a l)
  unfolding flush_end
  flush_end-Holds f a l h =
      let row = lookup f.id l.entries in
      if_either Holds f.deletes (if is_deleted a then untrack f row l else l)
        (if is_put a then settle f row l else l)
        (λ d.
          if_either Holds (is_deleted a) (untrack f row l) l (λ y. untrack-Holds f row l refl h)
            (λ n. h))
        (λ p. if_either Holds (is_put a) (settle f row l) l (λ y. settle-Holds f row l h) (λ n. h))

  finish_flight-Holds :
      (o : Option Flight) (w : World) → Holds w.ledger → Holds (finish_flight o w).ledger
  unfolding finish_flight
  finish_flight-Holds none w h = h
  finish_flight-Holds (some f) w h =
      elim f.answer
        as (λ o.
          Holds
            (elim o as (λ x. World) [
              | none ↦ w
              | some a ↦ record w { ledger = flush_end f a w.ledger; flight = none }
            ]).ledger) [ none ↦ h | some a ↦ flush_end-Holds f a w.ledger h ]

-- The step is no KEYS snapshot.
abbrev pub IsElsewhere : Step → Type 0
IsElsewhere (keys_snapshot now entries) = ⊥
IsElsewhere t = Unit {0}

module _ (j : String) where
  -- No other step changes what is enforced for an id.
  pub step-Enforces :
      (b : Option ℤ) (w : World) (t : Step)
      → IsElsewhere t
      → Enforces b (lookup j w.ledger.entries)
      → Enforces b (lookup j (step w t).ledger.entries)
  unfolding step
  step-Enforces b w (uses id tokens) _ h = add_usage-Holds j b id tokens w.ledger h
  step-Enforces b w (baseline id month used force) _ h =
      baseline_end-Holds j b id month used force w.ledger h
  step-Enforces b w (keys_snapshot now entries) e h = elim e [ ]
  step-Enforces b w (rolls_over now) _ h = rollover-Holds j b now w.ledger h
  step-Enforces b w (begins id) _ h = begin_if_idle-Holds j b id w.flight w h
  step-Enforces b w (ends_call a) _ h = call_if_flying-Holds j b a w.flight w h
  step-Enforces b w finishes _ h = finish_flight-Holds j b w.flight w h

  -- A snapshot enforces what it folds to, whatever was there.
  pub snapshot-Enforces :
      (now : String) (entries : Dict String (Option KeyEntry)) (w : World)
      → Enforces
          (wanted (lookup j (fold_keys entries [])))
          (lookup j (step w (keys_snapshot now entries)).ledger.entries)
  unfolding step apply_keys_snapshot
  snapshot-Enforces now entries w =
      let folded = fold_keys entries [] in
      subst (λ s. Enforces (wanted (lookup j folded)) s.row)
        (sym (slot_of-reconcile_keys now j folded w.ledger (fold_keys-Distinct entries [] tt)))
        (slot_reconciled-Enforces (month_of now w.ledger) (lookup j folded) (slot_of j w.ledger))
