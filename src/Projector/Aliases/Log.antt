-- ===== src/Projector/Aliases/Log.antt =====
-- The log that the aliases projector of internal/controlplane/kvproj.go replays, against the last
-- event of each alias in it.
use inferbus.Base.{
  Bool, Bool-cases, List, Option, String, [], ap, arith, if◌then◌else◌, inl, inr, none, refl, some,
  true, ℕ, ◌==◌, ◌∙◌, ◌∷◌, ◌≡◌,
}
use inferbus.Base.{string_eq}
use inferbus.Dict.{lookup, lookup-delete, lookup-insert}
use inferbus.Text.{Text, codes}
use inferbus.Text.{text_eq}
use inferbus.Wire.{Coded, coded, refused}
use inferbus.Alias.{Event, alias_deleted, alias_set, unset}
use inferbus.Alias.Codec.{Protos, decode}
use inferbus.Projector.{Envelope, Projector, deliver}
use inferbus.Projector.StreamId.{Split, alias_key, bad, scope_name, split_alias_stream_id}
use inferbus.Projector.Delivery.{apply-cons}
use inferbus.Projector.Quiet.{
  Ascends, IsQuiet, apply-nil, deliver-IsQuiet_other, deliver-IsQuiet_own, last_position,
}
use inferbus.Projector.Aliases.{
  AliasEntry, Aliases, aliases_apply, aliases_apply_one, apply_event, with_parts,
}

abbrev after_event : Event → Option (Option AliasEntry) → Option (Option AliasEntry)
after_event (alias_set target params) o = some (some (record { target = target; params = params }))
after_event alias_deleted o = none
after_event unset o = o

abbrev after_parts :
    Text → Split → Coded Event → Option (Option AliasEntry) → Option (Option AliasEntry)
after_parts key (scope_name scope name) (coded ev) o =
    if alias_key scope name == key then after_event ev o else o
after_parts key (scope_name scope name) (refused x) o = o
after_parts key (bad x) ev o = o

-- What the last alias event of the log that concerns `key` says of it; `o` if there is none.
unfoldable pub last_shown :
    Protos → Text → List Envelope → Option (Option AliasEntry) → Option (Option AliasEntry)
last_shown p key [] o = o
last_shown p key (e ∷ log) o = last_shown p key log (
    if e.stream_type == "alias"
    then after_parts key (split_alias_stream_id (codes e.stream_id)) (decode p e.event) o
    else o)

-- The stream id of an alias envelope splits, and its event decodes.
abbrev CanProject : Split → Coded Event → Type 0
CanProject (scope_name scope name) (coded ev) = Unit {0}
CanProject (scope_name scope name) (refused x) = ⊥
CanProject (bad x) ev = ⊥

abbrev pub IsReadable : Protos → List Envelope → Type 0
IsReadable p [] = Unit {0}
IsReadable p (e ∷ log) =
    ((e.stream_type == "alias") ≡ true
      → CanProject (split_alias_stream_id (codes e.stream_id)) (decode p e.event))
    × IsReadable p log

abbrev is_alias : String → Bool
is_alias t = t == "alias"

-- One readable envelope, on a bucket that answers: the new bucket, key by key.
event_shown :
    (key : Text) (ev : Event) (bucket : Aliases)
    → (bucket' : Aliases) × (apply_event key ev bucket [] ≡ (bucket', [], none))
      × ((k : Text)
          → lookup k bucket'
            ≡ (if key == k then after_event ev (lookup k bucket) else lookup k bucket))
unfolding apply_event
event_shown key (alias_set target params) bucket =
    (_, refl, λ k. lookup-insert key k (some (record { target = target; params = params })) bucket)
event_shown key alias_deleted bucket = (_, refl, λ k. lookup-delete key k bucket)
event_shown key unset bucket = (bucket, refl, λ k. ground arith)

parts_shown :
    (s : Split) (ev : Coded Event) (bucket : Aliases)
    → CanProject s ev
    → (bucket' : Aliases) × (with_parts s ev bucket [] ≡ (bucket', [], none))
      × ((k : Text) → lookup k bucket' ≡ after_parts k s ev (lookup k bucket))
unfolding with_parts
parts_shown (scope_name scope name) (coded ev) bucket c =
    event_shown (alias_key scope name) ev bucket
parts_shown (scope_name scope name) (refused x) bucket c = absurd c
parts_shown (bad x) ev bucket c = absurd c

one_shown :
    (p : Protos) (e : Envelope) (bucket : Aliases)
    → CanProject (split_alias_stream_id (codes e.stream_id)) (decode p e.event)
    → (bucket' : Aliases) × (aliases_apply_one p bucket [] e ≡ (bucket', [], none))
      × ((k : Text)
          → lookup k bucket'
            ≡ after_parts k
                (split_alias_stream_id (codes e.stream_id))
                (decode p e.event)
                (lookup k bucket))
unfolding aliases_apply_one
one_shown p e bucket c =
    parts_shown (split_alias_stream_id (codes e.stream_id)) (decode p e.event) bucket c

-- A replay of a readable log shows the last event of each alias.
pub aliases_apply-shown :
    (p : Protos) (n : ℕ) (log : List Envelope) (q : Projector Aliases)
    → IsReadable p log
    → Ascends n log
    → IsQuiet n q
    → IsQuiet (last_position n log) (aliases_apply p q log)
      × ((k : Text)
          → lookup k (aliases_apply p q log).store ≡ last_shown p k log (lookup k q.store))
unfolding aliases_apply last_shown
aliases_apply-shown p n [] q r asc v =
    rw (apply-nil is_alias (aliases_apply_one p) q) (v, λ k. refl)
aliases_apply-shown p n (e ∷ log) q r asc v = elim (Bool-cases (e.stream_type == "alias")) [
  | inl own ↦
      let (bucket', applied, shown) = one_shown p e q.store (r.0 own) in
      let (v', same) =
        deliver-IsQuiet_own is_alias (aliases_apply_one p) n q e v asc.0 bucket' own applied in
      let (quiet, later) =
        aliases_apply-shown p e.global_position log (deliver is_alias (aliases_apply_one p) q e) r.1
          asc.1 v' in
      rw (apply-cons is_alias (aliases_apply_one p) q e log v.running)
        (quiet, λ k. later k ∙ ap (last_shown p k log) (rw (own, same) (shown k)))
  | inr foreign ↦
      let (v', same) = deliver-IsQuiet_other is_alias (aliases_apply_one p) n q e v asc.0 foreign in
      let (quiet, later) =
        aliases_apply-shown p e.global_position log (deliver is_alias (aliases_apply_one p) q e) r.1
          asc.1 v' in
      rw (apply-cons is_alias (aliases_apply_one p) q e log v.running)
        (quiet, λ k. later k ∙ ap (last_shown p k log) (rw (foreign, same) refl))
]
