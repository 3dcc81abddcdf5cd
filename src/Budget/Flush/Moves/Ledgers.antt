-- ===== src/Budget/Flush/Moves/Ledgers.antt =====
-- What each operation of internal/harvester/budget.go on the whole ledger does to one slot.
use inferbus.Base.{
  Bool, Bool-cases, Option, String, [], if◌then◌else◌, inl, inr, is_some, none, refl, some, subst,
  sym, true, ℤ, ◌==◌, ◌∷◌, ◌≡◌,
}
use inferbus.Base.{string_eq}
use inferbus.Dict.{Dict, Distinct, insert, insert-Distinct, lookup}
use inferbus.Projector.Keys.{KeyEntry}
use inferbus.Budget.{Ledger, add_usage, baseline_end, check_month_rollover, roll_rows}
use inferbus.Budget.Slot.{
  lookup-roll_rows, slot_loaded, slot_of, slot_of-add_usage, slot_of-baseline_end, slot_used,
}
use inferbus.Budget.Keys.{KeyFold, apply_keys_snapshot, fold_keys, joined}
use inferbus.Budget.Keys.Pointwise.{month_of, slot_of-reconcile_keys}
use inferbus.Budget.Flush.Moves.{
  Moves, RowExact, if_either, loaded-Moves, reconciled-Moves, rolled-Moves, stays, used-Moves,
}

pub fold_keys-Distinct :
    (entries : Dict String (Option KeyEntry)) (folded : Dict String KeyFold)
    → Distinct folded
    → Distinct (fold_keys entries folded)
unfolding fold_keys
fold_keys-Distinct [] folded d = d
fold_keys-Distinct ((hash, none) ∷ entries) folded d = fold_keys-Distinct entries folded d
fold_keys-Distinct ((hash, some row) ∷ entries) folded d =
    let new : KeyFold = joined row (lookup row.id folded) in
    if_either (λ m. Distinct (fold_keys entries m)) (row.id == "") folded (insert row.id new folded)
      (λ nameless. fold_keys-Distinct entries folded d)
      (λ named.
        fold_keys-Distinct entries (insert row.id new folded) (insert-Distinct row.id new folded d))

pub add_usage_nameless :
    (id : String) (tokens : ℤ) (l : Ledger) → (id == "") ≡ true → add_usage id tokens l ≡ l
unfolding add_usage
add_usage_nameless id tokens l e = rw e refl

module _ (j : String) (l : Ledger) (x : RowExact (lookup j l.entries)) where
  pub add_usage-Moves :
      (id : String) (tokens : ℤ) → Moves (slot_of j l) (slot_of j (add_usage id tokens l))
  add_usage-Moves id tokens = elim (Bool-cases (id == "")) [
    | inl nameless ↦
        subst (λ k. Moves (slot_of j l) (slot_of j k))
          (sym (add_usage_nameless id tokens l nameless)) (stays _)
    | inr named ↦ subst (Moves (slot_of j l)) (sym (slot_of-add_usage id j tokens l named)) (
        if_either (Moves (slot_of j l)) (id == j) (slot_used tokens (slot_of j l)) (slot_of j l)
          (λ same. used-Moves (slot_of j l).dirty tokens (lookup j l.entries)) (λ other. stays _))
  ]

  pub baseline_end-Moves :
      (id month : String) (used : ℤ) (force : Bool)
      → Moves (slot_of j l) (slot_of j (baseline_end id month used force l))
  baseline_end-Moves id month used force =
      subst (Moves (slot_of j l)) (sym (slot_of-baseline_end id j month used force l)) (
        if_either (Moves (slot_of j l)) (id == j) (slot_loaded month used force (slot_of j l))
          (slot_of j l)
          (λ same. loaded-Moves (slot_of j l).dirty month used force (lookup j l.entries) x)
          (λ other. stays _))

  pub rollover-Moves : (now : String) → Moves (slot_of j l) (slot_of j (check_month_rollover now l))
  unfolding check_month_rollover
  rollover-Moves now =
      let rolled : Ledger = record l { month = now; entries = roll_rows now l.entries } in
      let M = λ (k : Ledger). Moves (slot_of j l) (slot_of j k) in
      if_either M (l.month == "") (record l { month = now }) (if l.month == now then l else rolled)
        (λ first. stays _)
        (λ later.
          if_either M (l.month == now) l rolled (λ same. stays _)
            (λ new.
              subst
                (λ o. Moves (slot_of j l) (record { row = o; dirty = is_some (lookup j l.dirty) }))
                (sym (lookup-roll_rows now j l.entries))
                (rolled-Moves (slot_of j l).dirty now (lookup j l.entries) x)))

  pub keys-Moves :
      (now : String) (entries : Dict String (Option KeyEntry))
      → Moves (slot_of j l) (slot_of j (apply_keys_snapshot now entries l))
  unfolding apply_keys_snapshot
  keys-Moves now entries =
      let folded = fold_keys entries [] in
      subst (Moves (slot_of j l))
        (sym (slot_of-reconcile_keys now j folded l (fold_keys-Distinct entries [] tt)))
        (reconciled-Moves (slot_of j l).dirty (month_of now l) (lookup j folded)
          (lookup j l.entries) x)
