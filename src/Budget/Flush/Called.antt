-- ===== src/Budget/Flush/Called.antt =====
-- The call on the BUDGETS bucket in the middle of flushOne of internal/harvester/budget.go.
use inferbus.Base.{
  Bool, Option, String, arith, false, if◌then◌else◌, is_some, none, some, str_eq_iff, subst, suc,
  sym, true, ℕ, ◌==◌, ◌≡◌,
}
use inferbus.Base.{string_eq}
use inferbus.Dict.{
  Dict, lookup, lookup-delete, lookup-delete_self, lookup-insert, lookup-insert_self,
}
use inferbus.Budget.{BudgetEntry, Ledger, LedgerRow}
use inferbus.Budget.Slot.{slot_of}
use inferbus.Budget.Flush.{
  Answer, Flight, bucket_missing, call_bucket, deleted, fine, is_deleted, is_put, key_missing, put,
  refused, unacked,
}
use inferbus.Budget.Flush.Published.{CallShown, FlownRow, Published, PublishedRow}
use inferbus.Budget.Flush.Started.{Inv, by_id, world}

-- The call on the bucket ends, and the bucket is still there.
abbrev pub keeps_bucket : Answer → Bool
keeps_bucket fine = true
keeps_bucket key_missing = true
keeps_bucket bucket_missing = false
keeps_bucket refused = true
keeps_bucket unacked = true

after_call : Answer → Flight → Dict String BudgetEntry → Dict String BudgetEntry
after_call a f bucket = if f.deletes then deleted f.id a bucket else put f.id f.entry a bucket

after_call-other :
    (a : Answer) (f : Flight) (bucket : Dict String BudgetEntry) (j : String)
    → keeps_bucket a ≡ true
    → (f.id == j) ≡ false
    → lookup j (after_call a f bucket) ≡ lookup j bucket
unfolding after_call
after_call-other fine f bucket j keeps apart =
    ground (arith, apart, lookup-delete f.id j bucket, lookup-insert f.id j f.entry bucket)
after_call-other key_missing f bucket j keeps apart =
    ground (arith, apart, lookup-delete f.id j bucket)
after_call-other bucket_missing f bucket j keeps apart = absurd (ground (arith, keeps))
after_call-other refused f bucket j keeps apart = ground arith
after_call-other unacked f bucket j keeps apart =
    ground (arith, apart, lookup-delete f.id j bucket, lookup-insert f.id j f.entry bucket)

lookup-deleted :
    (a : Answer) (id : String) (bucket : Dict String BudgetEntry)
    → keeps_bucket a ≡ true
    → is_deleted a ≡ true
    → lookup id (deleted id a bucket) ≡ none
lookup-deleted fine id bucket keeps well = lookup-delete_self id bucket
lookup-deleted key_missing id bucket keeps well = lookup-delete_self id bucket
lookup-deleted bucket_missing id bucket keeps well = absurd (ground (arith, keeps))
lookup-deleted refused id bucket keeps well = absurd (ground (arith, well))
lookup-deleted unacked id bucket keeps well = absurd (ground (arith, well))

lookup-put :
    (a : Answer) (id : String) (entry : BudgetEntry) (bucket : Dict String BudgetEntry)
    → is_put a ≡ true
    → lookup id (put id entry a bucket) ≡ some entry
lookup-put fine id entry bucket well = lookup-insert_self id entry bucket
lookup-put key_missing id entry bucket well = absurd (ground (arith, well))
lookup-put bucket_missing id entry bucket well = absurd (ground (arith, well))
lookup-put refused id entry bucket well = absurd (ground (arith, well))
lookup-put unacked id entry bucket well = absurd (ground (arith, well))

after_call-own :
    (a : Answer) (f : Flight) (bucket : Dict String BudgetEntry)
    → keeps_bucket a ≡ true
    → CallShown f.deletes f.entry (some a) (lookup f.id (after_call a f bucket))
unfolding after_call
after_call-own a f bucket keeps = if_called f.deletes
  where
    if_called :
        (deletes : Bool)
        → CallShown deletes f.entry
            (some a)
            (lookup f.id (if deletes then deleted f.id a bucket else put f.id f.entry a bucket))
    if_called true = λ well. lookup-deleted a f.id bucket keeps well
    if_called false = λ well. lookup-put a f.id f.entry bucket well

-- What is known of the row stays, and the entry is what the call has left.
called-RowFlown :
    (n : ℕ) (f : Flight) (a : Answer) (o : Option LedgerRow) (d : Bool) (e e' : Option BudgetEntry)
    → CallShown f.deletes f.entry (some a) e'
    → PublishedRow o d e
    → FlownRow n f o d e
    → PublishedRow o d e' × FlownRow (suc n) (record f { answer = some a }) o d e'
called-RowFlown n f a none d e e' left p h = absurd (ground (arith, h))
called-RowFlown n f a (some r) d e e' left p h = (
  record {
    exact = p.exact;
    retired_dirty = p.retired_dirty;
    shown = λ live loaded clean. absurd (ground (arith, clean, h.still_dirty));
  },
  record {
    k = h.k;
    few = omega (arith, h.few);
    counted = h.counted;
    in_range = h.in_range;
    still_dirty = h.still_dirty;
    unchanged = h.unchanged;
    called = left;
  },
)

pub call_bucket-Inv :
    (n : ℕ) (j : String) (a : Answer) (f : Flight) (l : Ledger) (bucket : Dict String BudgetEntry)
    → keeps_bucket a ≡ true
    → Inv n j (world l bucket (some f))
    → Inv (suc n) j (call_bucket a f (world l bucket (some f)))
unfolding call_bucket after_call
call_bucket-Inv n j a f l bucket keeps =
    by_id
      (λ i.
        Inv n i (world l bucket (some f))
        → Inv (suc n) i (world l (after_call a f bucket) (some (record f { answer = some a }))))
      f.id j
      (λ h.
        let both =
          called-RowFlown n f a (lookup f.id l.entries) (is_some (lookup f.id l.dirty))
            (lookup f.id bucket) (lookup f.id (after_call a f bucket))
            (after_call-own a f bucket keeps) h.published
            (h.flying (ground (arith, str_eq_iff f.id f.id))) in
        record { published = both.0; flying = λ own. both.1 })
      (λ apart h. record {
        published =
            subst (Published (slot_of j l)) (sym (after_call-other a f bucket j keeps apart))
              h.published;
        flying = λ own. absurd (ground (arith, apart, own));
      })
