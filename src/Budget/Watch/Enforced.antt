-- ===== src/Budget/Watch/Enforced.antt =====
-- What the KEYS watch of internal/harvester/budget.go makes the ledger enforce.
use inferbus.Budget.Flush.{World}
use inferbus.Budget.Flush.Moves.{if_either}
use inferbus.Budget.Flush.Rows.{Enforces, wanted}
use inferbus.Budget.Flush.Kept.{IsElsewhere, snapshot-Enforces, step-Enforces}
use inferbus.Base.{
  Bool, Bool-cases, List, Option, String, [], ap, arith, false, if◌then◌else◌, inl, inr, le_int,
  le_int_trans, none, pos, refl, some, subst, sym, true, ℤ, ◌∙◌, ◌∷◌, ◌≡◌,
}
use inferbus.Base.{string_eq}
use inferbus.Dict.{Dict, delete, insert, lookup}
use inferbus.Projector.Keys.{KeyEntry}
use inferbus.Gateway.Watch.{
  Update, Watching, connected, consume, consume-latest, consume_one, drop_entry, has_replayed,
  last_touch, or_before, put_entry, replayed, working-consume,
}
use inferbus.Budget.{LedgerRow}
use inferbus.Budget.Keys.{KeyFold, fold_keys}
use inferbus.Budget.Keys.Fold.{
  IsAttained, IsBound, IsLargest, IsMissing, budget_of, fold_keys-IsLargest,
}
use inferbus.Budget.Watch.{
  KeysWatch, Occurrence, apply_once_synced, apply_working, consume_keys, delivers, meanwhile, occur,
  on_connect, updates,
}

-- The watch alone applies snapshots.
abbrev pub AllElsewhere : List Occurrence → Type 0
AllElsewhere [] = Unit {0}
AllElsewhere (delivers now u ∷ os) = AllElsewhere os
AllElsewhere (meanwhile t ∷ os) = IsElsewhere t × AllElsewhere os

-- The row of an id whose entries in KEYS are these: a live row has the largest of their budgets, which
-- is positive; without a live row none of their budgets is positive.
abbrev MeetsRow : String → Dict String (Option KeyEntry) → Bool → LedgerRow → Type 0
MeetsRow id es true row = IsBound id (pos 0) es
MeetsRow id es false row =
    (le_int row.budget (pos 0) ≡ false) × IsBound id row.budget es × IsAttained id row.budget es

abbrev pub Meets : String → Dict String (Option KeyEntry) → Option LedgerRow → Type 0
Meets id es none = IsBound id (pos 0) es
Meets id es (some row) = MeetsRow id es row.to_delete row

module _ (j : String) where
  -- Once synced, the ledger enforces what the working set folds to.
  abbrev Serves : KeysWatch → Type 0
  Serves s =
      s.synced ≡ true
      → Enforces (wanted (lookup j (fold_keys s.working []))) (lookup j s.world.ledger.entries)

  apply_once_synced-Serves : (now : String) (s : KeysWatch) → Serves (apply_once_synced now s)
  unfolding apply_once_synced apply_working
  apply_once_synced-Serves now s = elim (Bool-cases s.synced) [
    | inl up ↦
        if_either Serves s.synced (apply_working now s) s
          (λ _. λ e. snapshot-Enforces j now s.working s.world) (λ down. absurd (cc (up, down)))
    | inr down ↦
        if_either Serves s.synced (apply_working now s) s (λ up. absurd (cc (up, down)))
          (λ _. λ e. absurd (cc (e, down)))
  ]

  occur-Serves :
      (s : KeysWatch) (o : Occurrence) → AllElsewhere (o ∷ []) → Serves s → Serves (occur s o)
  unfolding occur apply_working
  occur-Serves s (delivers now (put_entry hash e)) a h =
      apply_once_synced-Serves now (record s { working = insert hash e s.working })
  occur-Serves s (delivers now (drop_entry hash)) a h =
      apply_once_synced-Serves now (record s { working = delete hash s.working })
  occur-Serves s (delivers now replayed) a h = λ e. snapshot-Enforces j now s.working s.world
  occur-Serves s (meanwhile t) a h = λ e. step-Enforces j _ s.world t a.0 (h e)

  consume_keys-Serves :
      (s : KeysWatch) (os : List Occurrence)
      → AllElsewhere os
      → Serves s
      → Serves (consume_keys s os)
  unfolding consume_keys
  consume_keys-Serves s [] a h = h
  consume_keys-Serves s (delivers now u ∷ os) a h =
      consume_keys-Serves (occur s (delivers now u)) os a (occur-Serves s (delivers now u) tt h)
  consume_keys-Serves s (meanwhile t ∷ os) a h =
      consume_keys-Serves (occur s (meanwhile t)) os a.1 (occur-Serves s (meanwhile t) (a.0, tt) h)

-- The watch sees what a gateway's watch of the same updates sees.
abbrev Agrees : KeysWatch → Watching (Option KeyEntry) → Type 0
Agrees s g = (s.working ≡ g.working) × (s.synced ≡ g.ready)

occur-Agrees :
    (s : KeysWatch) (g : Watching (Option KeyEntry)) (now : String) (u : Update (Option KeyEntry))
    → Agrees s g
    → Agrees (occur s (delivers now u)) (consume_one g u)
unfolding occur apply_once_synced apply_working consume_one
occur-Agrees s g now (put_entry hash e) h =
    ground (arith, h, Bool-cases s.synced, Bool-cases g.synced)
occur-Agrees s g now (drop_entry hash) h =
    ground (arith, h, Bool-cases s.synced, Bool-cases g.synced)
occur-Agrees s g now replayed h = ground (arith, h)

consume_keys-Agrees :
    (s : KeysWatch) (g : Watching (Option KeyEntry)) (os : List Occurrence)
    → Agrees s g
    → Agrees (consume_keys s os) (consume g (updates os))
unfolding consume_keys consume occur
consume_keys-Agrees s g [] h = h
consume_keys-Agrees s g (delivers now u ∷ os) h =
    consume_keys-Agrees (occur s (delivers now u)) (consume_one g u) os (occur-Agrees s g now u h)
consume_keys-Agrees s g (meanwhile t ∷ os) h = consume_keys-Agrees (occur s (meanwhile t)) g os h

IsBound-below :
    (id : String) (b c : ℤ) (es : Dict String (Option KeyEntry))
    → le_int b c ≡ true
    → IsBound id b es
    → IsBound id c es
IsBound-below id b c [] below h = tt
IsBound-below id b c ((hash, e) ∷ es) below h =
    (λ own. le_int_trans (budget_of e) b c (h.0 own) below, IsBound-below id b c es below h.1)

missing-IsBound :
    (id : String) (b : ℤ) (es : Dict String (Option KeyEntry)) → IsMissing id es → IsBound id b es
missing-IsBound id b [] h = tt
missing-IsBound id b ((hash, e) ∷ es) h =
    (λ own. absurd (cc (own, h.0)), missing-IsBound id b es h.1)

none-Meets :
    (id : String) (es : Dict String (Option KeyEntry)) (o : Option LedgerRow)
    → IsBound id (pos 0) es
    → Enforces none o
    → Meets id es o
none-Meets id es none h e = h
none-Meets id es (some row) h e = subst (λ b. MeetsRow id es b row) (sym e) h

live-Meets :
    (id : String) (es : Dict String (Option KeyEntry)) (b : ℤ) (o : Option LedgerRow)
    → le_int b (pos 0) ≡ false
    → IsBound id b es × IsAttained id b es
    → Enforces (some b) o
    → Meets id es o
live-Meets id es b none given h e = absurd e
live-Meets id es b (some row) given h e =
    subst (λ d. MeetsRow id es d row) (sym e.0)
      (subst (λ c. (le_int c (pos 0) ≡ false) × IsBound id c es × IsAttained id c es) (sym e.1)
        (given, h.0, h.1))

enforced-Meets :
    (id : String) (es : Dict String (Option KeyEntry)) (f : Option KeyFold) (o : Option LedgerRow)
    → IsLargest id es f
    → Enforces (wanted f) o
    → Meets id es o
enforced-Meets id es none o h e = none-Meets id es o (missing-IsBound id (pos 0) es h) e
enforced-Meets id es (some f) o h e = elim (Bool-cases (le_int f.budget (pos 0))) [
  | inl spent ↦
      none-Meets id es o (IsBound-below id f.budget (pos 0) es spent h.0)
        (subst (λ b. Enforces (if b then none else some f.budget) o) spent e)
  | inr given ↦
      live-Meets id es f.budget o given h
        (subst (λ b. Enforces (if b then none else some f.budget) o) given e)
]

-- Whatever KEYS delivers on a connection and whatever the other goroutines do to the ledger in
-- between: once the replay has ended, the row of each key id is live exactly if an entry of the id
-- in KEYS, as the updates have left them, has a positive budget, and then has the largest of these.
pub consume_keys-Meets :
    (w : World) (os : List Occurrence) (id : String)
    → AllElsewhere os
    → has_replayed (updates os) ≡ true
    → let s = consume_keys (on_connect w) os in
      Meets id s.working (lookup id s.world.ledger.entries)
      × ((hash : String) → lookup hash s.working ≡ or_before (last_touch hash (updates os)) none)
unfolding lookup
consume_keys-Meets w os id a replay =
    let s = consume_keys (on_connect w) os in
    let agree = consume_keys-Agrees (on_connect w) (connected false) os (refl, refl) in
    let up : s.synced ≡ true = agree.1 ∙ (consume-latest false (updates os) id).1 ∙ replay in
    let serves = consume_keys-Serves id (on_connect w) os a (λ e. absurd (cc e)) in
    (
      enforced-Meets id s.working (lookup id (fold_keys s.working []))
          (lookup id s.world.ledger.entries) (fold_keys-IsLargest id s.working) (serves up),
      λ hash. ap (lookup hash) agree.0 ∙ working-consume hash (connected false) (updates os),
    )
