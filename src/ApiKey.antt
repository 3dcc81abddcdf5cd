-- ===== src/ApiKey.antt =====
-- The apikey aggregate: internal/controlplane/apikey/decider.go, over the messages of
-- api/controlplane/v1/apikey.pb.go. `unset` stands for a wrapper whose kind is nil. `Decide` never
-- returns a constraint, so its second result is left out; `Evolve`'s defensive copies of the
-- allowlist are the values themselves, since nothing here is mutated in place.
pub mod Lifecycle
pub mod Codec
use inferbus.Base.{string_eq, Bool, List, String, [], false, if◌then◌else◌, pos, true, ℤ, ◌==◌, ◌∷◌}

pub record ApiKey : Type 0 where
  pub id : String
  pub org : String
  pub project : String
  pub name : String
  pub hash : String
  pub allow : List String
  pub rate_limit_rpm : ℤ  -- int32
  pub monthly_token_budget : ℤ  -- int64
  pub disabled : Bool

-- `CreateKey`, and `KeyCreated`, which has the same fields.
pub record CreateKey : Type 0 where
  pub id : String
  pub org : String
  pub project : String
  pub name : String
  pub hash : String
  pub allow : List String
  pub rate_limit_rpm : ℤ
  pub monthly_token_budget : ℤ

pub data Command : Type 0 where
  create : CreateKey → Command
  rotate : String → Command
  disable : Command
  set_allowlist : List String → Command
  set_limits : ℤ → ℤ → Command
  unset : Command

-- `rotated` has the new hash and the previous one.
pub data Event : Type 0 where
  created : CreateKey → Event
  rotated : String → String → Event
  key_disabled : String → Event
  allowlist_changed : List String → Event
  limits_changed : ℤ → ℤ → Event
  unset : Event

pub data Error : Type 0 where
  already_exists not_found key_is_disabled unknown_command : Error

pub data Result {ℓ} (A : Type ℓ) : Type ℓ where
  ok : A → Result A
  err : Error → Result A

abbrev pub initial : ApiKey
initial = record {
  id = "";
  org = "";
  project = "";
  name = "";
  hash = "";
  allow = [];
  rate_limit_rpm = pos 0;
  monthly_token_budget = pos 0;
  disabled = false;
}

abbrev pub absent : ApiKey → Bool
absent s = s.id == ""

-- The two guards that every mutation of a key shares.
mutation : ApiKey → Event → Result (List Event)
mutation s e =
    if absent s then err not_found else if s.disabled then err key_is_disabled else ok (e ∷ [])

unfoldable pub decide : ApiKey → Command → Result (List Event)
unfolding mutation
decide s (create c) = if absent s then ok (created c ∷ []) else err already_exists
decide s (rotate new_hash) = mutation s (rotated new_hash s.hash)
decide s disable =
    if absent s then err not_found else if s.disabled then ok [] else ok (key_disabled s.hash ∷ [])
decide s (set_allowlist allow) = mutation s (allowlist_changed allow)
decide s (set_limits rpm budget) = mutation s (limits_changed rpm budget)
decide s unset = err unknown_command

unfoldable pub evolve : ApiKey → Event → ApiKey
evolve s (created c) = record {
  id = c.id;
  org = c.org;
  project = c.project;
  name = c.name;
  hash = c.hash;
  allow = c.allow;
  rate_limit_rpm = c.rate_limit_rpm;
  monthly_token_budget = c.monthly_token_budget;
  disabled = false;
}
evolve s (rotated new_hash previous) = record s { hash = new_hash }
evolve s (key_disabled hash) = record s { disabled = true }
evolve s (allowlist_changed allow) = record s { allow = allow }
evolve s (limits_changed rpm budget) = record s {
  rate_limit_rpm = rpm;
  monthly_token_budget = budget;
}
evolve s unset = s

unfoldable pub evolve_all : ApiKey → List Event → ApiKey
evolve_all s [] = s
evolve_all s (e ∷ es) = evolve_all (evolve s e) es

abbrev pub decided : Result (List Event) → List Event
decided (ok es) = es
decided (err _) = []

unfoldable pub handle : ApiKey → Command → ApiKey
handle s c = evolve_all s (decided (decide s c))

unfoldable pub run : ApiKey → List Command → ApiKey
run s [] = s
run s (c ∷ cs) = run (handle s c) cs
