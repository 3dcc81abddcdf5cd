-- ===== src/Projector/Keys/View.antt =====
-- The KEYS bucket against the apikey aggregates: internal/controlplane/kvproj.go after
-- internal/controlplane/apikey/decider.go. The states are a function of the stream id, the bucket
-- and `hashByID` functions of their keys.
use inferbus.Base.{
  string_eq, Bool, Bool-cases, Option, String, arith, false, if◌then◌else◌, inl, inr, none, not,
  some, str_eq_iff, subst, true, ◌&&◌, ◌==◌, ◌≡◌, ◌⊎◌,
}
use inferbus.ApiKey.{ApiKey, absent}
use inferbus.Projector.Keys.{KeyEntry}

-- The key can authenticate: it was created, and it is not disabled.
abbrev pub is_live : ApiKey → Bool
is_live s = not (absent s) && not s.disabled

-- What the gateway is to see of a live key.
abbrev pub view : String → ApiKey → KeyEntry
view id s = record {
  id = id;
  org = s.org;
  project = s.project;
  name = s.name;
  allow = s.allow;
  rate_limit_rpm = s.rate_limit_rpm;
  monthly_token_budget = s.monthly_token_budget;
  disabled = false;
}

-- Every live key has its entry under its hash, and every entry belongs to a live key.
pub record Agrees (state : String → ApiKey) (bucket : String → Option (Option KeyEntry))
    (hashes : String → Option String) : Type 0 where
  pub shown :
      (id : String)
      → is_live (state id) ≡ true
      → (hashes id ≡ some (state id).hash)
        × (bucket (state id).hash ≡ some (some (view id (state id))))
        × (((state id).hash == "") ≡ false)
  pub owned :
      (hash : String) (v : Option KeyEntry)
      → bucket hash ≡ some v
      → (id : String) × (is_live (state id) ≡ true)
        × ((state id).hash ≡ hash)
        × (v ≡ some (view id (state id)))

-- The key `id` goes to the state `t`; its old entry is dropped and its new one written.
pub record Moves (state : String → ApiKey) (bucket : String → Option (Option KeyEntry))
    (hashes : String → Option String) (id : String) (t : ApiKey) (state' : String → ApiKey)
    (bucket' : String → Option (Option KeyEntry)) (hashes' : String → Option String) : Type 0 where
  pub new_state : (j : String) → state' j ≡ (if id == j then t else state j)
  pub new_bucket :
      (h : String)
      → bucket' h ≡ (
          if is_live t && t.hash == h
          then some (some (view id t))
          else if is_live (state id) && (state id).hash == h
          then none
          else bucket h)
  pub new_hash : is_live t ≡ true → hashes' id ≡ some t.hash
  pub other_hashes : (j : String) → (id == j) ≡ false → hashes' j ≡ hashes j
  pub hash_given : is_live t ≡ true → (t.hash == "") ≡ false
  pub hash_free :
      is_live t ≡ true
      → (bucket t.hash ≡ none) ⊎ ((is_live (state id) ≡ true) × (t.hash ≡ (state id).hash))

module _ {state : String → ApiKey} {bucket : String → Option (Option KeyEntry)}
    {hashes : String → Option String} {id : String} {t : ApiKey} {state' : String → ApiKey}
    {bucket' : String → Option (Option KeyEntry)} {hashes' : String → Option String}
    (a : Agrees state bucket hashes)
    (m : Moves state bucket hashes id t state' bucket' hashes') where
  -- Two live keys do not share a hash.
  hash_of_one :
      (i j : String)
      → is_live (state i) ≡ true
      → is_live (state j) ≡ true
      → (state i).hash ≡ (state j).hash
      → i ≡ j
  hash_of_one i j hi hj e = ground (arith, a.shown i hi, a.shown j hj)

  shown_other :
      (j : String)
      → (id == j) ≡ false
      → is_live (state j) ≡ true
      → (hashes' j ≡ some (state j).hash)
        × (bucket' (state j).hash ≡ some (some (view j (state j))))
        × (((state j).hash == "") ≡ false)
  shown_other j other live = ground (
    arith,
    m.new_bucket (state j).hash,
    m.other_hashes j other,
    m.hash_free,
    a.shown j live,
    hash_of_one id j,
    str_eq_iff t.hash (state j).hash,
    str_eq_iff (state id).hash (state j).hash,
    str_eq_iff id j,
  )

  shown_moved :
      is_live t ≡ true
      → (hashes' id ≡ some t.hash)
        × (bucket' t.hash ≡ some (some (view id t)))
        × ((t.hash == "") ≡ false)
  shown_moved live =
      ground
        (arith, m.new_bucket t.hash, m.new_hash live, m.hash_given live, str_eq_iff t.hash t.hash)

  -- An entry of the new bucket is the moved key's, or another key's old one.
  owned_cases :
      (hash : String) (v : Option KeyEntry)
      → bucket' hash ≡ some v
      → ((is_live t ≡ true) × (t.hash ≡ hash) × (v ≡ some (view id t)))
        ⊎ ((bucket hash ≡ some v) × ((is_live (state id) && (state id).hash == hash) ≡ false))
  owned_cases hash v e = ground (arith, m.new_bucket hash, str_eq_iff t.hash hash)

  state'_self : state' id ≡ t
  state'_self = ground (arith, m.new_state id, str_eq_iff id id)

  state'_other : (j : String) → (id == j) ≡ false → state' j ≡ state j
  state'_other j h = ground (arith, m.new_state j)

  Owner : String → Option KeyEntry → Type 0
  Owner hash v =
      (j : String) × (is_live (state' j) ≡ true)
      × ((state' j).hash ≡ hash)
      × (v ≡ some (view j (state' j)))

  owned_moved : (hash : String) (v : Option KeyEntry) → bucket' hash ≡ some v → Owner hash v
  unfolding Owner
  owned_moved hash v e = elim (owned_cases hash v e) [
    | inl (live, same, shown) ↦ (id, rw state'_self live, rw state'_self same, rw state'_self shown)
    | inr (old, other) ↦ kept (a.owned hash v old) other
  ]
    where
      kept :
          ((j : String) × (is_live (state j) ≡ true)
            × ((state j).hash ≡ hash)
            × (v ≡ some (view j (state j))))
          → (is_live (state id) && (state id).hash == hash) ≡ false
          → Owner hash v
      kept (j, live, same, shown) other =
          let apart : (id == j) ≡ false =
            ground (arith, str_eq_iff id j, str_eq_iff (state id).hash hash) in
          (
            j,
            rw (state'_other j apart) live,
            rw (state'_other j apart) same,
            rw (state'_other j apart) shown,
          )

  -- The move keeps the agreement.
  pub Moves-Agrees : Agrees state' bucket' hashes'
  unfolding Owner
  Moves-Agrees = record {
    shown = λ j. elim (Bool-cases (id == j)) [
      | inl same ↦
          subst Shown ((str_eq_iff id j).0 same)
            (λ l. rw state'_self (shown_moved (rw state'_self at l)))
      | inr other ↦ rw (state'_other j other) (shown_other j other)
    ];
    owned = owned_moved;
  }
    where
      Shown : String → Type 0
      Shown j =
          is_live (state' j) ≡ true
          → (hashes' j ≡ some (state' j).hash)
            × (bucket' (state' j).hash ≡ some (some (view j (state' j))))
            × (((state' j).hash == "") ≡ false)
