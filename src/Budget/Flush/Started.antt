-- ===== src/Budget/Flush/Started.antt =====
-- What holds of one key id between the steps of internal/harvester/budget.go, and the start of a flush.
use inferbus.Base.{
  Bool-cases, Option, String, arith, false, inl, inr, is_some, none, not, refl, some, str_eq_iff,
  subst, suc, sym, true, ℕ, ◌&&◌, ◌==◌, ◌≡◌,
}
use inferbus.Base.{string_eq}
use inferbus.Dict.{Dict, delete, lookup, lookup-delete}
use inferbus.Budget.{BudgetEntry, Ledger, LedgerRow}
use inferbus.Budget.Slot.{Slot, slot_of}
use inferbus.Budget.Flush.{Flight, World, entry_of, flush_row, must_go, undirty}
use inferbus.Budget.Flush.Moves.{IsExact, Moves, RowExact, if_either, stays}
use inferbus.Budget.Flush.Published.{
  Flown, FlownRow, Published, PublishedRow, begun-Flown, move-Flown, move-Published,
  published-RowExact,
}

-- What is known of key id `j` of a flush for another id: nothing.
abbrev pub FlightFlown : ℕ → String → Option Flight → Slot → Option BudgetEntry → Type 0
FlightFlown n j none s e = Unit
FlightFlown n j (some f) s e = (f.id == j) ≡ true → Flown n f s e

pub record Inv (n : ℕ) (j : String) (w : World) : Type 0 where
  pub published : Published (slot_of j w.ledger) (lookup j w.bucket)
  pub flying : FlightFlown n j w.flight (slot_of j w.ledger) (lookup j w.bucket)

move-FlightFlown :
    (n : ℕ) (j : String) (o : Option Flight) (s t : Slot) (e : Option BudgetEntry)
    → Moves s t
    → FlightFlown n j o s e
    → FlightFlown (suc n) j o t e
move-FlightFlown n j none s t e m h = tt
move-FlightFlown n j (some f) s t e m h = λ own. move-Flown n f e s t m (h own)

pub move-Inv :
    (n : ℕ) (j : String) (w : World) (l : Ledger)
    → Moves (slot_of j w.ledger) (slot_of j l)
    → Inv n j w
    → Inv (suc n) j (record w { ledger = l })
move-Inv n j w l m h = record {
  published = move-Published (lookup j w.bucket) (slot_of j w.ledger) (slot_of j l) m h.published;
  flying =
      move-FlightFlown n j w.flight (slot_of j w.ledger) (slot_of j l) (lookup j w.bucket) m
        h.flying;
}

pub same-Inv : (n : ℕ) (j : String) (w : World) → Inv n j w → Inv (suc n) j w
same-Inv n j w h = move-Inv n j w w.ledger (stays _) h

-- A fact about every key id is shown for one id and for the others.
pub by_id : (P : String → Type 0) (id j : String) → P id → ((id == j) ≡ false → P j) → P j
by_id P id j own other = elim (Bool-cases (id == j)) [
  | inl same ↦ subst P (ground (arith, str_eq_iff id j, same)) own
  | inr apart ↦ other apart
]

abbrev pub world : Ledger → Dict String BudgetEntry → Option Flight → World
world l bucket o = record { ledger = l; bucket = bucket; flight = o }

-- What a step of one flush leaves of the slots of other ids.
pub other-slot :
    (id j : String) (l m : Ledger)
    → lookup j m.entries ≡ lookup j l.entries
    → lookup j m.dirty ≡ lookup j l.dirty
    → slot_of j m ≡ slot_of j l
other-slot id j l m rows marks = ground (arith, rows, marks)

module _ (n : ℕ) (id : String) (l : Ledger) (bucket : Dict String BudgetEntry) where
  -- A flush starts for an id without a row.
  absent-Inv :
      (j : String)
      → lookup id l.entries ≡ none
      → Inv n j (world l bucket none)
      → Inv (suc n) j (world (undirty id l) bucket none)
  absent-Inv j row =
      by_id (λ i. Inv n i (world l bucket none) → Inv (suc n) i (world (undirty id l) bucket none))
        id j
        (λ h. record {
          published =
              let e = lookup id bucket in
              subst (λ o. PublishedRow o (is_some (lookup id (delete id l.dirty))) e) (sym row)
                (subst (λ o. PublishedRow o (is_some (lookup id l.dirty)) e) row h.published);
          flying = tt;
        })
        (λ apart h. record {
          published =
              subst (λ s. Published s (lookup j bucket))
                (sym (
                  other-slot id j l (undirty id l) refl
                    (ground (arith, apart, lookup-delete id j l.dirty))))
                h.published;
          flying = tt;
        })

  -- A flush starts for a row.
  module _ (r : LedgerRow) (row : lookup id l.entries ≡ some r) where
    started : Flight
    started = record {
      id = id;
      version = r.version;
      deletes = must_go r;
      entry = entry_of r;
      answer = none;
    }

    begun-Inv :
        (j : String)
        → is_some (lookup id l.dirty) ≡ true
        → Inv n j (world l bucket none)
        → Inv (suc n) j (world l bucket (some started))
    unfolding started
    begun-Inv j dirty h = record {
      published = h.published;
      flying = λ own.
          subst
            (λ i.
              Inv n i (world l bucket none)
              → FlownRow (suc n) started (lookup i l.entries) (is_some (lookup i l.dirty))
                  (lookup i bucket))
            (ground (arith, str_eq_iff id j, own)) flown h;
    }
      where
        flown :
            Inv n id (world l bucket none)
            → FlownRow
                (suc n)
                started
                (lookup id l.entries)
                (is_some (lookup id l.dirty))
                (lookup id bucket)
        flown g =
            let exact : IsExact r = subst RowExact row (
              published-RowExact (lookup id l.entries) (is_some (lookup id l.dirty))
                (lookup id bucket) g.published) in
            rw (row, dirty) (begun-Flown (suc n) id r (lookup id bucket) exact)

pub flush_begin-Inv :
    (n : ℕ) (id j : String) (l : Ledger) (bucket : Dict String BudgetEntry) (o : Option LedgerRow)
    → lookup id l.entries ≡ o
    → is_some (lookup id l.dirty) ≡ true
    → Inv n j (world l bucket none)
    → Inv (suc n) j (flush_row id o (world l bucket none))
unfolding flush_row started
flush_begin-Inv n id j l bucket none row dirty h = absent-Inv n id l bucket j row h
flush_begin-Inv n id j l bucket (some r) row dirty h =
    if_either (Inv (suc n) j) (not (must_go r) && not r.baseline_loaded) (world l bucket none)
      (world l bucket (some (started n id l bucket r row)))
      (λ waits. same-Inv n j (world l bucket none) h)
      (λ goes. begun-Inv n id l bucket r row j dirty h)
