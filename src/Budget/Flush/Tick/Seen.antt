-- ===== src/Budget/Flush/Tick/Seen.antt =====
-- What the ticks of internal/harvester/budget.go do at one key id.
use inferbus.Budget.Flush.Tick.{
  asked, call_and_end, dirty_ids, flush_all, flush_one, load_baseline, load_baselines,
}
use inferbus.Budget.Flush.{
  Answer, World, call_bucket, entry_of, fine, flush_begin, flush_end, flush_row, must_go, settle,
  untrack,
}
use inferbus.Base.{
  Bool, Bool-cases, List, Option, Option-cases, String, [], ap, arith, eq_int_refl, false,
  if◌then◌else◌, inl, inr, is_some, none, not, refl, some, str_eq_iff, subst, sym, true, ℤ, ◌&&◌,
  ◌==◌, ◌||◌, ◌∷◌, ◌≡◌,
}
use inferbus.Base.{string_eq}
use inferbus.Dict.{Dict, Distinct, lookup, lookup-delete, lookup-insert}
use inferbus.Budget.{BudgetEntry, Ledger, LedgerRow, baseline_begin, month_wanted, pending_ids}
use inferbus.Budget.Slot.{Slot, slot_loaded, slot_of, slot_of-baseline_end}

-- The row of a key id, its dirty mark and its BUDGETS entry.
pub record Seen : Type 0 where
  pub row : Option LedgerRow
  pub dirty : Bool
  pub entry : Option BudgetEntry

abbrev pub seen : String → World → Seen
seen j w = record {
  row = lookup j w.ledger.entries;
  dirty = is_some (lookup j w.ledger.dirty);
  entry = lookup j w.bucket;
}

-- A flush whose call on BUDGETS succeeds.
abbrev pub flushed : Seen → Seen
flushed s = elim s.row [
  | none ↦ record s { dirty = false }
  | some r ↦
      if must_go r
      then (if r.to_delete
          then record { row = none; dirty = false; entry = none }
          else record s { entry = none })
      else if r.baseline_loaded
      then record { row = some r; dirty = false; entry = some (entry_of r) }
      else s
]

flushed_twice : (s : Seen) → flushed (flushed s) ≡ flushed s
flushed_twice s = ground arith

abbrev idle : Ledger → Dict String BudgetEntry → World
idle l bucket = record { ledger = l; bucket = bucket; flight = none }

abbrev flush_of : String → Option LedgerRow → Ledger → Dict String BudgetEntry → World
flush_of id o l bucket =
    let begun = flush_row id o (idle l bucket) in call_and_end fine begun.flight begun

flush_of-idle :
    (id : String) (o : Option LedgerRow) (l : Ledger) (bucket : Dict String BudgetEntry)
    → (flush_of id o l bucket).flight ≡ none
unfolding flush_row call_and_end
flush_of-idle id none l bucket = refl
flush_of-idle id (some r) l bucket = ground arith

flush_of-seen :
    (id j : String) (o : Option LedgerRow) (l : Ledger) (bucket : Dict String BudgetEntry)
    → lookup id l.entries ≡ o
    → seen j (flush_of id o l bucket)
      ≡ (if id == j then flushed (seen j (idle l bucket)) else seen j (idle l bucket))
unfolding flush_row call_and_end call_bucket flush_end untrack settle
flush_of-seen id j none l bucket e = ground (arith, e, str_eq_iff id j, lookup-delete id j l.dirty)
flush_of-seen id j (some r) l bucket e = ground (
  arith,
  e,
  str_eq_iff id j,
  lookup-delete id j l.dirty,
  lookup-delete id j l.entries,
  lookup-delete id j bucket,
  lookup-insert id j (entry_of r) bucket,
)

idle_lem : (w : World) → w.flight ≡ none → w ≡ idle w.ledger w.bucket
idle_lem w h = ap (λ f. record { ledger = w.ledger; bucket = w.bucket; flight = f }) h

flush_one-idle : (id : String) (w : World) → w.flight ≡ none → (flush_one fine id w).flight ≡ none
unfolding flush_one flush_begin
flush_one-idle id w h =
    subst (λ v. (flush_one fine id v).flight ≡ none) (sym (idle_lem w h))
      (flush_of-idle id (lookup id w.ledger.entries) w.ledger w.bucket)

flush_one-seen :
    (id j : String) (w : World)
    → w.flight ≡ none
    → seen j (flush_one fine id w) ≡ (if id == j then flushed (seen j w) else seen j w)
unfolding flush_one flush_begin
flush_one-seen id j w h =
    subst (λ v. seen j (flush_one fine id v) ≡ (if id == j then flushed (seen j w) else seen j w))
      (sym (idle_lem w h)) (flush_of-seen id j (lookup id w.ledger.entries) w.ledger w.bucket refl)

-- Whether the id is in the list.
abbrev pub listed : String → List String → Bool
listed j [] = false
listed j (id ∷ ids) = id == j || listed j ids

pub flush_all-seen :
    (j : String) (answer : String → Answer) (ids : List String) (w : World)
    → ((id : String) → answer id ≡ fine)
    → w.flight ≡ none
    → (seen j (flush_all answer ids w) ≡ (if listed j ids then flushed (seen j w) else seen j w))
      × ((flush_all answer ids w).flight ≡ none)
unfolding flush_all
flush_all-seen j answer [] w well h = (refl, h)
flush_all-seen j answer (id ∷ ids) w well h =
    let next = flush_one (answer id) id w in
    let first : (next.flight ≡ none)
        × (seen j next ≡ (if id == j then flushed (seen j w) else seen j w)) =
      subst
        (λ a.
          ((flush_one a id w).flight ≡ none)
          × (seen j (flush_one a id w) ≡ (if id == j then flushed (seen j w) else seen j w)))
        (sym (well id)) (flush_one-idle id w h, flush_one-seen id j w h) in
    let more = flush_all-seen j answer ids next well first.0 in
    (ground (arith, more.0, first.1, flushed_twice (seen j w)), more.1)

pub listed-dirty_ids :
    (j : String) (dirty : Dict String Bool) → listed j (dirty_ids dirty) ≡ is_some (lookup j dirty)
unfolding dirty_ids lookup
listed-dirty_ids j [] = refl
listed-dirty_ids j ((id, d) ∷ dirty) = ground (arith, listed-dirty_ids j dirty)

-- The row waits for its baseline.
abbrev pub waits : Option LedgerRow → Bool
waits none = false
waits (some r) = not r.baseline_loaded && not r.to_delete

pub listed-pending_ids :
    (j : String) (rows : Dict String LedgerRow)
    → Distinct rows
    → listed j (pending_ids rows) ≡ waits (lookup j rows)
unfolding pending_ids lookup
listed-pending_ids j [] d = refl
listed-pending_ids j ((id, r) ∷ rows) d =
    ground (arith, d, str_eq_iff id j, listed-pending_ids j rows d.1)

-- A baseline that the sink gives, or that fails.
abbrev pub slot_answered : String → Option ℤ → Bool → Slot → Slot
slot_answered month none force s = s
slot_answered month (some used) force s = slot_loaded month used force s

abbrev pub slot_asked : (String → Option ℤ) → Bool → Slot → Slot
slot_asked sink force s = elim s.row [
  | none ↦ s
  | some r ↦ if r.to_delete then s else slot_answered r.month (sink r.month) force s
]

slot_asked_twice :
    (sink : String → Option ℤ) (dirty : Bool) (o : Option LedgerRow)
    → let s : Slot = record { row = o; dirty = dirty } in
      slot_asked sink true (slot_asked sink true s) ≡ slot_asked sink true s
slot_asked_twice sink dirty none = refl
slot_asked_twice sink dirty (some r) = elim (Option-cases (sink r.month)) [
  | inl failed ↦ ground (arith, failed)
  | inr (used, e) ↦ ground (arith, e, eq_int_refl used)
]

asked-slot :
    (sink : String → String → Option ℤ) (id j : String) (force : Bool) (o : Option LedgerRow)
    (l : Ledger)
    → lookup id l.entries ≡ o
    → slot_of j (asked sink id force (month_wanted o) l)
      ≡ (if id == j then slot_asked (sink j) force (slot_of j l) else slot_of j l)
unfolding asked month_wanted
asked-slot sink id j force none l e = ground (arith, e, str_eq_iff id j)
asked-slot sink id j force (some r) l e = elim (Bool-cases r.to_delete) [
  | inl gone ↦ ground (arith, gone, e, str_eq_iff id j)
  | inr live ↦ elim (Option-cases (sink id r.month)) [
    | inl failed ↦ ground (arith, live, failed, e, str_eq_iff id j)
    | inr (used, u) ↦
        ground (arith, live, u, e, str_eq_iff id j, slot_of-baseline_end id j r.month used force l)
  ]
]

pub load_baselines-slot :
    (sink : String → String → Option ℤ) (ids : List String) (j : String) (l : Ledger)
    → slot_of j (load_baselines sink ids true l)
      ≡ (if listed j ids then slot_asked (sink j) true (slot_of j l) else slot_of j l)
unfolding load_baselines load_baseline baseline_begin
load_baselines-slot sink [] j l = refl
load_baselines-slot sink (id ∷ ids) j l = ground (
  arith,
  load_baselines-slot sink ids j (load_baseline sink id true l),
  asked-slot sink id j true (lookup id l.entries) l refl,
  slot_asked_twice (sink j) (slot_of j l).dirty (lookup j l.entries),
)
