-- ===== src/Budget/Keys/Fold.antt =====
-- The fold of a KEYS snapshot by key id: applyKeysSnapshot of internal/harvester/budget.go.
use mathlib.Core.Bool.{false≢true}
use inferbus.Base.{
  string_eq, Bool, Bool-cases, Option, String, [], arith, eq_int, eq_int_eq, false, inl, inr,
  le_int, le_int_refl, le_int_total, le_int_trans, none, not, pos, refl, some, str_eq_iff, subst,
  sym, true, ℤ, ◌&&◌, ◌==◌, ◌∙◌, ◌∷◌, ◌≡◌, ◌⊎◌,
}
use inferbus.Dict.{Dict, lookup, lookup-insert, lookup-insert_self}
use inferbus.Projector.Keys.{KeyEntry}
use inferbus.Budget.Keys.{KeyFold, fold_entry, fold_keys, joined}

-- The entry decodes, and has this (non-empty) id.
abbrev pub is_of : String → Option KeyEntry → Bool
is_of id none = false
is_of id (some row) = not (row.id == "") && row.id == id

abbrev pub budget_of : Option KeyEntry → ℤ
budget_of none = pos 0
budget_of (some row) = row.monthly_token_budget

-- `b` is at least every budget of the id's entries.
abbrev pub IsBound : String → ℤ → Dict String (Option KeyEntry) → Type 0
IsBound id b [] = Unit {0}
IsBound id b ((hash, e) ∷ es) =
    (is_of id e ≡ true → le_int (budget_of e) b ≡ true) × IsBound id b es

-- `b` is the budget of one of the id's entries.
abbrev pub IsAttained : String → ℤ → Dict String (Option KeyEntry) → Type 0
IsAttained id b [] = ⊥
IsAttained id b ((hash, e) ∷ es) = ((is_of id e ≡ true) × (budget_of e ≡ b)) ⊎ IsAttained id b es

-- No entry has the id.
abbrev pub IsMissing : String → Dict String (Option KeyEntry) → Type 0
IsMissing id [] = Unit {0}
IsMissing id ((hash, e) ∷ es) = (is_of id e ≡ false) × IsMissing id es

-- What the fold must hold for an id, after entries that were folded before into `m`.
abbrev Folded : String → Option KeyFold → Dict String (Option KeyEntry) → Option KeyFold → Type 0
Folded id start es none = (start ≡ none) × IsMissing id es
Folded id none es (some f) = IsBound id f.budget es × IsAttained id f.budget es
Folded id (some g) es (some f) =
    (le_int g.budget f.budget ≡ true)
    × IsBound id f.budget es
    × ((g.budget ≡ f.budget) ⊎ IsAttained id f.budget es)

-- The budget after one more entry of the id is the old one or the entry's, and neither is above it.
joined_cases :
    (row : KeyEntry) (f : KeyFold)
    → (((joined row (some f)).budget ≡ f.budget)
        × (le_int row.monthly_token_budget f.budget ≡ true))
      ⊎ (((joined row (some f)).budget ≡ row.monthly_token_budget)
          × (le_int f.budget row.monthly_token_budget ≡ true))
joined_cases row f = elim (Bool-cases (eq_int row.monthly_token_budget f.budget)) [
  | inl same ↦ inl (
    rw same,
    subst (λ b. le_int b f.budget ≡ true) (sym (eq_int_eq row.monthly_token_budget f.budget same))
        (le_int_refl f.budget),
  )
  | inr differ ↦ elim (Bool-cases (le_int row.monthly_token_budget f.budget)) [
    | inl below ↦ inl (rw (differ, below), below)
    | inr above ↦ inr (rw (differ, above), le_int_total row.monthly_token_budget f.budget above)
  ]
]

lookup-fold_entry :
    (id : String) (e : Option KeyEntry) (m : Dict String KeyFold)
    → is_of id e ≡ false
    → lookup id (fold_entry e m) ≡ lookup id m
lookup-fold_entry id none m h = refl
lookup-fold_entry id (some row) m h =
    ground (arith, lookup-insert row.id id (joined row (lookup row.id m)) m)

lookup-fold_entry_of :
    (id : String) (row : KeyEntry) (m : Dict String KeyFold)
    → is_of id (some row) ≡ true
    → lookup id (fold_entry (some row) m) ≡ some (joined row (lookup id m))
lookup-fold_entry_of id row m h =
    ground (arith, str_eq_iff row.id id, lookup-insert_self row.id (joined row (lookup row.id m)) m)

-- One entry of the id is taken in front of the rest.
Folded-step :
    (id hash : String) (row : KeyEntry) (o r : Option KeyFold) (es : Dict String (Option KeyEntry))
    → is_of id (some row) ≡ true
    → Folded id (some (joined row o)) es r
    → Folded id o ((hash, some row) ∷ es) r
Folded-step id hash row o none es own h = absurd (cc h.0)
Folded-step id hash row none (some f) es own (above, bound, attained) =
    ((λ e. above, bound), first attained)
  where
    first :
        (row.monthly_token_budget ≡ f.budget) ⊎ IsAttained id f.budget es
        → ((is_of id (some row) ≡ true) × (row.monthly_token_budget ≡ f.budget))
          ⊎ IsAttained id f.budget es
    first (inl e) = inl (own, e)
    first (inr a) = inr a
Folded-step id hash row (some g) (some f) es own (above, bound, attained) =
    elim (joined_cases row g) [
      | inl (old, le) ↦
          let up : le_int g.budget f.budget ≡ true =
            subst (λ b. le_int b f.budget ≡ true) old above in
          (
            up,
            (λ e. le_int_trans row.monthly_token_budget g.budget f.budget le up, bound),
            kept old attained,
          )
      | inr (new, le) ↦
          let up : le_int row.monthly_token_budget f.budget ≡ true =
            subst (λ b. le_int b f.budget ≡ true) new above in
          (
            le_int_trans g.budget row.monthly_token_budget f.budget le up,
            (λ e. up, bound),
            taken new attained,
          )
    ]
  where
    j : ℤ
    j = (joined row (some g)).budget

    Goal : Type 0
    Goal =
        (g.budget ≡ f.budget)
        ⊎ (((is_of id (some row) ≡ true) × (row.monthly_token_budget ≡ f.budget))
            ⊎ IsAttained id f.budget es)

    kept : j ≡ g.budget → (j ≡ f.budget) ⊎ IsAttained id f.budget es → Goal
    kept old (inl e) = inl (sym old ∙ e)
    kept old (inr a) = inr (inr a)

    taken : j ≡ row.monthly_token_budget → (j ≡ f.budget) ⊎ IsAttained id f.budget es → Goal
    taken new (inl e) = inr (inl (own, sym new ∙ e))
    taken new (inr a) = inr (inr a)

Folded-skip :
    (id hash : String) (e : Option KeyEntry) (o r : Option KeyFold)
    (es : Dict String (Option KeyEntry))
    → is_of id e ≡ false
    → Folded id o es r
    → Folded id o ((hash, e) ∷ es) r
Folded-skip id hash e o none es other h = (h.0, (other, h.1))
Folded-skip id hash e none (some f) es other h =
    ((λ own. absurd (false≢true (sym other ∙ own)), h.0), inr h.1)
Folded-skip id hash e (some g) (some f) es other h =
    (h.0, (λ own. absurd (false≢true (sym other ∙ own)), h.1), later h.2)
  where
    later :
        (g.budget ≡ f.budget) ⊎ IsAttained id f.budget es
        → (g.budget ≡ f.budget)
          ⊎ (((is_of id e ≡ true) × (budget_of e ≡ f.budget)) ⊎ IsAttained id f.budget es)
    later (inl x) = inl x
    later (inr a) = inr (inr a)

fold_keys-Folded :
    (id : String) (es : Dict String (Option KeyEntry)) (m : Dict String KeyFold)
    → Folded id (lookup id m) es (lookup id (fold_keys es m))
unfolding fold_keys
fold_keys-Folded id [] m = start (lookup id m)
  where
    start : (o : Option KeyFold) → Folded id o [] o
    start none = (refl, tt)
    start (some f) = (le_int_refl f.budget, tt, inl refl)
fold_keys-Folded id ((hash, e) ∷ es) m = one e (fold_keys-Folded id es (fold_entry e m))
  where
    one :
        (x : Option KeyEntry)
        → Folded id (lookup id (fold_entry x m)) es (lookup id (fold_keys es (fold_entry x m)))
        → Folded id (lookup id m) ((hash, x) ∷ es) (lookup id (fold_keys es (fold_entry x m)))
    one none h = Folded-skip id hash none (lookup id m) _ es refl h
    one (some row) h = elim (Bool-cases (is_of id (some row))) [
      | inl own ↦ Folded-step id hash row (lookup id m) _ es own (
          subst (λ o. Folded id o es (lookup id (fold_keys es (fold_entry (some row) m))))
            (lookup-fold_entry_of id row m own) h)
      | inr other ↦ Folded-skip id hash (some row) (lookup id m) _ es other (
          subst (λ o. Folded id o es (lookup id (fold_keys es (fold_entry (some row) m))))
            (lookup-fold_entry id (some row) m other) h)
    ]

-- What a snapshot's fold holds for a key id: nothing if no entry decodes to that id, and otherwise
-- the largest budget among the entries that do, in whatever order the map is ranged over.
abbrev pub IsLargest : String → Dict String (Option KeyEntry) → Option KeyFold → Type 0
IsLargest id es none = IsMissing id es
IsLargest id es (some f) = IsBound id f.budget es × IsAttained id f.budget es

Folded-IsLargest :
    (id : String) (es : Dict String (Option KeyEntry)) (r : Option KeyFold)
    → Folded id none es r
    → IsLargest id es r
Folded-IsLargest id es none h = h.1
Folded-IsLargest id es (some f) h = h

-- For every key id, the fold of a snapshot holds nothing if no entry decodes to that id, and
-- otherwise the largest monthly budget among the entries that do.
pub fold_keys-IsLargest :
    (id : String) (es : Dict String (Option KeyEntry))
    → IsLargest id es (lookup id (fold_keys es []))
unfolding lookup
fold_keys-IsLargest id es =
    Folded-IsLargest id es (lookup id (fold_keys es [])) (fold_keys-Folded id es [])
