-- ===== src/Projector/Aliases/View.antt =====
-- The ALIASES bucket against one alias aggregate: internal/controlplane/kvproj.go after
-- internal/controlplane/alias/decider.go.
use inferbus.Base.{
  string_eq, Bool-cases, List, Option, String, [], arith, false, if◌then◌else◌, inl, inr, none,
  refl, some, ◌==◌, ◌∷◌, ◌≡◌,
}
use inferbus.Dict.{
  Dict, lookup, lookup-delete, lookup-delete_self, lookup-insert, lookup-insert_self,
}
use inferbus.Text.{text_eq, Text, codes}
use inferbus.Wire.Slug.{slug}
use inferbus.Alias.{
  Alias, Command, Event, Result, after, decide, decide_set, delete_alias, err, evolve, evolve_all,
  first_reserved_param_key, handle, is_empty, ok, set, unset,
}
use inferbus.Alias.Liveness.{is_live, target_given}
use inferbus.Projector.Aliases.{AliasEntry, Aliases, apply_event}

-- What the gateway is to see of an alias: nothing unless it is live.
unfoldable pub shown : Alias → Option (Option AliasEntry)
shown s = if is_live s then some (some (record { target = s.target; params = s.params })) else none

-- The events of one alias, projected one after another with no fault.
unfoldable pub project : Text → List Event → Aliases → Aliases
project key [] bucket = bucket
project key (e ∷ es) bucket = project key es (apply_event key e bucket []).0

abbrev events_of : Result (List Event) → List Event
events_of (ok es) = es
events_of (err x) = []

-- Each command decided, folded into the aggregate, and its events projected.
unfoldable pub run_projected : Text → Alias × Aliases → List Command → Alias × Aliases
run_projected key (s, bucket) [] = (s, bucket)
run_projected key (s, bucket) (c ∷ cs) =
    run_projected key (handle s c, project key (events_of (decide s c)) bucket) cs

-- Key `key` shows the alias; every other key is as in `old`.
abbrev pub Shows : Text → Alias → Aliases → Aliases → Type 0
Shows key s old bucket =
    (lookup key bucket ≡ shown s)
    × ((other : Text) → (key == other) ≡ false → lookup other bucket ≡ lookup other old)

module _ (key : Text) (old : Aliases) where
  set-Shows :
      (s : Alias) (bucket : Aliases) (target : String) (params : Dict String String)
      (o : Option String)
      → first_reserved_param_key params ≡ o
      → is_empty (slug (codes target)) ≡ false
      → Shows key s old bucket
      → let r = decide_set target params o in
        Shows key (after s r) old (project key (events_of r) bucket)
  unfolding decide_set evolve evolve_all project apply_event shown
  set-Shows s bucket target params (some k) e good h = h
  set-Shows s bucket target params none e good h =
      let entry : Option AliasEntry = some (record { target = target; params = params }) in
      let given =
        target_given (record { target = target; params = params; deleted = false })
          (record { has_subject = good; unreserved = e }) in
      (
        ground (arith, given, lookup-insert_self key entry bucket),
        λ other apart. ground (arith, lookup-insert key other entry bucket, h.1 other apart),
      )

  delete-Shows :
      (s : Alias) (bucket : Aliases)
      → Shows key s old bucket
      → Shows key
          (handle s delete_alias)
          old
          (project key (events_of (decide s delete_alias)) bucket)
  unfolding handle decide evolve evolve_all project apply_event shown
  delete-Shows s bucket h = (
    ground (arith, h.0, lookup-delete_self key bucket),
    λ other apart. ground (arith, lookup-delete key other bucket, h.1 other apart),
  )

  handle-Shows :
      (s : Alias) (bucket : Aliases) (c : Command)
      → Shows key s old bucket
      → Shows key (handle s c) old (project key (events_of (decide s c)) bucket)
  unfolding handle decide project evolve_all
  handle-Shows s bucket (set target params) h = elim (Bool-cases (is_empty (slug (codes target)))) [
    | inl no_slug ↦ rw no_slug h
    | inr good ↦
        rw good (set-Shows s bucket target params (first_reserved_param_key params) refl good h)
  ]
  handle-Shows s bucket delete_alias h = delete-Shows s bucket h
  handle-Shows s bucket unset h = h

  -- If the bucket shows an alias, it still does after every list of commands whose events are
  -- projected without a fault: an entry with the target and the params if the alias is live, and no
  -- entry otherwise. No other key of the bucket changes.
  pub run_projected-Shows :
      (s : Alias) (bucket : Aliases) (cs : List Command)
      → Shows key s old bucket
      → let r = run_projected key (s, bucket) cs in Shows key r.0 old r.1
  unfolding run_projected
  run_projected-Shows s bucket [] h = h
  run_projected-Shows s bucket (c ∷ cs) h =
      run_projected-Shows (handle s c) (project key (events_of (decide s c)) bucket) cs
        (handle-Shows s bucket c h)
