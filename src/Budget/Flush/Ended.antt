-- ===== src/Budget/Flush/Ended.antt =====
-- The end of flushOne of internal/harvester/budget.go, after its second lock.
use inferbus.Base.{
  Bool, Option, String, arith, false, if◌then◌else◌, is_some, nat_beq, nat_beq_iff, none, not, refl,
  some, str_eq_iff, subst, suc, sym, true, ℕ, ◌<◌, ◌==◌, ◌^◌, ◌||◌, ◌≡◌,
}
use inferbus.Base.{string_eq}
use inferbus.Dict.{Dict, delete, lookup, lookup-delete, lookup-delete_self}
use inferbus.Budget.{BudgetEntry, Ledger, LedgerRow}
use inferbus.Budget.Slot.{slot_of}
use inferbus.Budget.Flush.{Answer, Flight, flush_end, is_deleted, is_put, settle, undirty, untrack}
use inferbus.Budget.Flush.Moves.{if_either}
use inferbus.Budget.Flush.Published.{
  CallShown, Flown, FlownRow, Published, PublishedRow, RowFlown, RowPublished, settled-RowPublished,
}
use inferbus.Budget.Flush.Started.{Inv, by_id, world}

-- The slots of other ids stay.
untrack-other :
    (f : Flight) (o : Option LedgerRow) (l : Ledger) (j : String)
    → (f.id == j) ≡ false
    → slot_of j (untrack f o l) ≡ slot_of j l
unfolding untrack
untrack-other f none l j apart = refl
untrack-other f (some r) l j apart =
    ground (arith, apart, lookup-delete f.id j l.entries, lookup-delete f.id j l.dirty)

settle-other :
    (f : Flight) (o : Option LedgerRow) (l : Ledger) (j : String)
    → (f.id == j) ≡ false
    → slot_of j (settle f o l) ≡ slot_of j l
unfolding settle
settle-other f none l j apart = refl
settle-other f (some r) l j apart = ground (arith, apart, lookup-delete f.id j l.dirty)

flush_end-other :
    (f : Flight) (a : Answer) (l : Ledger) (j : String)
    → (f.id == j) ≡ false
    → slot_of j (flush_end f a l) ≡ slot_of j l
unfolding flush_end
flush_end-other f a l j apart =
    let o = lookup f.id l.entries in
    let S = λ (m : Ledger). slot_of j m ≡ slot_of j l in
    if_either S f.deletes (if is_deleted a then untrack f o l else l)
      (if is_put a then settle f o l else l)
      (λ dels.
        if_either S (is_deleted a) (untrack f o l) l (λ well. untrack-other f o l j apart)
          (λ ill. refl))
      (λ puts.
        if_either S (is_put a) (settle f o l) l (λ well. settle-other f o l j apart) (λ ill. refl))

module _ (n : ℕ) (f : Flight) (l : Ledger) (e : Option BudgetEntry) (few : n < 2 ^ 64) where
  untrack-own :
      (o : Option LedgerRow)
      → lookup f.id l.entries ≡ o
      → e ≡ none
      → Published (slot_of f.id l) e
      → Published (slot_of f.id (untrack f o l)) e
  unfolding untrack
  untrack-own none row gone p = p
  untrack-own (some r) row gone p =
      let m : Ledger = record l { entries = delete f.id l.entries; dirty = delete f.id l.dirty } in
      if_either (λ k. Published (slot_of f.id k) e)
        (not (nat_beq r.version f.version) || not r.to_delete) l m (λ stale. p)
        (λ same. rw (lookup-delete_self f.id l.entries) gone)

  settle-own :
      (o : Option LedgerRow)
      → lookup f.id l.entries ≡ o
      → f.deletes ≡ false
      → e ≡ some f.entry
      → Published (slot_of f.id l) e
      → Flown n f (slot_of f.id l) e
      → Published (slot_of f.id (settle f o l)) e
  unfolding settle
  settle-own none row puts there p h = p
  settle-own (some r) row puts there p h =
      if_either (λ k. Published (slot_of f.id k) e) (nat_beq r.version f.version) (undirty f.id l) l
        (λ same.
          let d : Bool = is_some (lookup f.id l.dirty) in
          let exact : RowPublished r d e = subst (λ o. PublishedRow o d e) row p in
          let flown : RowFlown n f r d e = subst (λ o. FlownRow n f o d e) row h in
          rw (row, lookup-delete_self f.id l.dirty)
            (settled-RowPublished n f r d e few exact.exact flown puts there
              (ground (arith, same, nat_beq_iff r.version f.version))))
        (λ stale. p)

  called_shown :
      (o : Option LedgerRow) (d : Bool)
      → FlownRow n f o d e
      → CallShown f.deletes f.entry f.answer e
  called_shown none d h = absurd (ground (arith, h))
  called_shown (some r) d h = h.called

  end-own :
      (deletes : Bool) (a : Answer)
      → f.deletes ≡ deletes
      → CallShown deletes f.entry (some a) e
      → Published (slot_of f.id l) e
      → Flown n f (slot_of f.id l) e
      → Published
          (slot_of f.id (
            if deletes
            then (if is_deleted a then untrack f (lookup f.id l.entries) l else l)
            else (if is_put a then settle f (lookup f.id l.entries) l else l)))
          e
  end-own true a kind shown p h =
      if_either (λ k. Published (slot_of f.id k) e) (is_deleted a)
        (untrack f (lookup f.id l.entries) l) l
        (λ well. untrack-own (lookup f.id l.entries) refl (shown well) p) (λ ill. p)
  end-own false a kind shown p h =
      if_either (λ k. Published (slot_of f.id k) e) (is_put a) (settle f (lookup f.id l.entries) l)
        l (λ well. settle-own (lookup f.id l.entries) refl kind (shown well) p h) (λ ill. p)

pub flush_end-Inv :
    (n : ℕ) (j : String) (f : Flight) (a : Answer) (l : Ledger) (bucket : Dict String BudgetEntry)
    → n < 2 ^ 64
    → f.answer ≡ some a
    → Inv n j (world l bucket (some f))
    → Inv (suc n) j (world (flush_end f a l) bucket none)
unfolding flush_end
flush_end-Inv n j f a l bucket few ended =
    by_id
      (λ i. Inv n i (world l bucket (some f)) → Inv (suc n) i (world (flush_end f a l) bucket none))
      f.id j
      (λ h.
        let e = lookup f.id bucket in
        let flown = h.flying (ground (arith, str_eq_iff f.id f.id)) in
        let shown : CallShown f.deletes f.entry (some a) e =
          subst (λ b. CallShown f.deletes f.entry b e) ended
            (called_shown n f l e few (lookup f.id l.entries) (is_some (lookup f.id l.dirty))
              flown) in
        record {
          published = end-own n f l e few f.deletes a refl shown h.published flown;
          flying = tt;
        })
      (λ apart h. record {
        published =
            subst (λ s. Published s (lookup j bucket)) (sym (flush_end-other f a l j apart))
              h.published;
        flying = tt;
      })
