-- ===== src/Budget/Flush/Published.antt =====
-- One row of the ledger against its BUDGETS entry, while flushOne of internal/harvester/budget.go may
-- be under way for it.
use inferbus.Base.{
  Bool, Option, String, ap, arith, false, none, refl, some, subst, suc, sym, true, zero, ℕ, ◌%◌,
  ◌+◌, ◌<◌, ◌^◌, ◌∙◌, ◌≡◌, ◌≤◌,
}
use inferbus.Budget.{BudgetEntry, LedgerRow, next_version}
use inferbus.Budget.Slot.{Slot}
use inferbus.Budget.Flush.{Answer, Flight, entry_of, is_deleted, is_put, must_go}
use inferbus.Budget.Flush.Moves.{
  IsExact, Moves, RowExact, is_made, is_marked, is_touched, is_unloaded, stays,
}

-- A retired row is dirty, so that its entry will be deleted; a live row that has its baseline and is
-- not dirty has its entry in the bucket.
pub record RowPublished (r : LedgerRow) (dirty : Bool) (e : Option BudgetEntry) : Type 0 where
  pub exact : IsExact r
  pub retired_dirty : r.to_delete ≡ true → dirty ≡ true
  pub shown : r.to_delete ≡ false → r.baseline_loaded ≡ true → dirty ≡ false → e ≡ some (entry_of r)

abbrev pub PublishedRow : Option LedgerRow → Bool → Option BudgetEntry → Type 0
PublishedRow none dirty e = e ≡ none
PublishedRow (some r) dirty e = RowPublished r dirty e

-- A key id without a row has no entry.
abbrev pub Published : Slot → Option BudgetEntry → Type 0
Published s e = PublishedRow s.row s.dirty e

pub published-RowExact :
    (o : Option LedgerRow) (d : Bool) (e : Option BudgetEntry) → PublishedRow o d e → RowExact o
published-RowExact none d e h = tt
published-RowExact (some r) d e h = h.exact

pub move-Published :
    (e : Option BudgetEntry) (s t : Slot) → Moves s t → Published s e → Published t e
move-Published e _ _ (stays s) h = h
move-Published e _ _ (is_marked r d) h = record {
  exact = h.exact;
  retired_dirty = λ gone. refl;
  shown = λ live loaded clean. absurd (ground arith);
}
move-Published e _ _ (is_made r d exact live unloaded) h = record {
  exact = exact;
  retired_dirty = λ gone. absurd (ground (arith, live, gone));
  shown = λ l loaded clean. absurd (ground (arith, unloaded, loaded));
}
move-Published e _ _ (is_touched r t d exact new) h = record {
  exact = exact;
  retired_dirty = λ gone. refl;
  shown = λ live loaded clean. absurd (ground arith);
}
move-Published e _ _ (is_unloaded r t d exact new live unloaded) h = record {
  exact = exact;
  retired_dirty = λ gone. absurd (ground (arith, live, gone));
  shown = λ l loaded clean. absurd (ground (arith, unloaded, loaded));
}

-- The version after `k` changes.
abbrev bumped : ℕ → ℕ → ℕ
bumped zero v = v
bumped (suc k) v = next_version (bumped k v)

bumped_lem : (k v : ℕ) → v < 2 ^ 64 → bumped k v ≡ (v + k) % 2 ^ 64
bumped_lem zero v h = omega (arith, h)
bumped_lem (suc k) v h = omega (arith, bumped_lem k v h)

-- No version comes back within 2 ^ 64 changes.
not_bumped : (k v : ℕ) → v < 2 ^ 64 → k < 2 ^ 64 → bumped k v ≡ v → k ≡ 0
not_bumped k v h few same = omega (arith, bumped_lem k v h, same)

-- What a call of the bucket that has ended well has left there.
abbrev pub CallShown : Bool → BudgetEntry → Option Answer → Option BudgetEntry → Type 0
CallShown deletes entry none e = Unit
CallShown true entry (some a) e = is_deleted a ≡ true → e ≡ none
CallShown false entry (some a) e = is_put a ≡ true → e ≡ some entry

-- The row has changed `k` times since the flush took its snapshot, and is dirty.
pub record RowFlown (n : ℕ) (f : Flight) (r : LedgerRow) (d : Bool) (e : Option BudgetEntry)
    : Type 0 where
  pub k : ℕ
  pub few : k ≤ n
  pub counted : r.version ≡ bumped k f.version
  pub in_range : f.version < 2 ^ 64
  pub still_dirty : d ≡ true
  pub unchanged : k ≡ 0 → (f.entry ≡ entry_of r) × (f.deletes ≡ must_go r)
  pub called : CallShown f.deletes f.entry f.answer e

-- A flush is under way only for a row that is there.
abbrev pub FlownRow : ℕ → Flight → Option LedgerRow → Bool → Option BudgetEntry → Type 0
FlownRow n f none d e = false ≡ true
FlownRow n f (some r) d e = RowFlown n f r d e

abbrev pub Flown : ℕ → Flight → Slot → Option BudgetEntry → Type 0
Flown n f s e = FlownRow n f s.row s.dirty e

later-RowFlown :
    (n : ℕ) (f : Flight) (r : LedgerRow) (d : Bool) (e : Option BudgetEntry)
    → RowFlown n f r d e
    → RowFlown (suc n) f r true e
later-RowFlown n f r d e h = record {
  k = h.k;
  few = omega (arith, h.few);
  counted = h.counted;
  in_range = h.in_range;
  still_dirty = refl;
  unchanged = h.unchanged;
  called = h.called;
}

changed-RowFlown :
    (n : ℕ) (f : Flight) (r t : LedgerRow) (d : Bool) (e : Option BudgetEntry)
    → t.version ≡ next_version r.version
    → RowFlown n f r d e
    → RowFlown (suc n) f t true e
changed-RowFlown n f r t d e new h = record {
  k = suc h.k;
  few = omega (arith, h.few);
  counted = new ∙ ap next_version h.counted;
  in_range = h.in_range;
  still_dirty = refl;
  unchanged = λ none_yet. absurd (omega (arith, none_yet));
  called = h.called;
}

pub move-Flown :
    (n : ℕ) (f : Flight) (e : Option BudgetEntry) (s t : Slot)
    → Moves s t
    → Flown n f s e
    → Flown (suc n) f t e
move-Flown n f e _ _ (stays s) h = stays_flown s.row s.dirty h
  where
    stays_flown : (o : Option LedgerRow) (d : Bool) → FlownRow n f o d e → FlownRow (suc n) f o d e
    stays_flown none d g = g
    stays_flown (some r) d g =
        subst (λ b. RowFlown (suc n) f r b e) (sym g.still_dirty) (later-RowFlown n f r d e g)
move-Flown n f e _ _ (is_marked r d) h = later-RowFlown n f r d e h
move-Flown n f e _ _ (is_made r d exact live unloaded) h = absurd (ground arith)
move-Flown n f e _ _ (is_touched r t d exact new) h = changed-RowFlown n f r t d e new h
move-Flown n f e _ _ (is_unloaded r t d exact new live unloaded) h =
    subst (λ b. RowFlown (suc n) f t b e) (sym h.still_dirty) (changed-RowFlown n f r t d e new h)

-- A flush that starts for a dirty row.
pub begun-Flown :
    (n : ℕ) (id : String) (r : LedgerRow) (e : Option BudgetEntry)
    → IsExact r
    → RowFlown n
        (record {
          id = id;
          version = r.version;
          deletes = must_go r;
          entry = entry_of r;
          answer = none;
        })
        r
        true
        e
begun-Flown n id r e exact = record {
  k = 0;
  few = omega arith;
  counted = refl;
  in_range = exact.in_range;
  still_dirty = refl;
  unchanged = λ start. (refl, refl);
  called = tt;
}

-- A `Put` that succeeded is the end of it if the version is still the one of the snapshot.
pub settled-RowPublished :
    (n : ℕ) (f : Flight) (r : LedgerRow) (d : Bool) (e : Option BudgetEntry)
    → n < 2 ^ 64
    → IsExact r
    → RowFlown n f r d e
    → f.deletes ≡ false
    → e ≡ some f.entry
    → r.version ≡ f.version
    → RowPublished r false e
settled-RowPublished n f r d e few exact h puts there same =
    let untouched =
      not_bumped h.k f.version h.in_range (omega (arith, h.few, few)) (sym h.counted ∙ same) in
    let (entry, gone) = h.unchanged untouched in
    record {
      exact = exact;
      retired_dirty = λ retired. absurd (ground (arith, puts, gone, retired));
      shown = λ live loaded clean. there ∙ ap some entry;
    }
