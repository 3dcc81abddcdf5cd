-- ===== src/Alias.antt =====
-- The alias aggregate: internal/controlplane/alias/decider.go, over the messages of
-- api/controlplane/v1/alias.pb.go. `unset` stands for a wrapper whose kind is nil. A map is the list
-- of its entries in the order in which the code happens to range over it.
pub mod Liveness
pub mod Codec
use inferbus.Base.{
  string_eq, Bool, List, Option, String, [], false, if◌then◌else◌, none, some, true, ◌++◌, ◌==◌,
  ◌||◌, ◌∷◌,
}
use inferbus.Dict.{Dict}
use inferbus.Text.{Text, codes, equal_fold}
use inferbus.Wire.Slug.{slug}

pub record Alias : Type 0 where
  pub target : String
  pub params : Dict String String
  pub deleted : Bool

pub data Command : Type 0 where
  set : String → Dict String String → Command
  delete_alias : Command
  unset : Command

pub data Event : Type 0 where
  alias_set : String → Dict String String → Event
  alias_deleted : Event
  unset : Event

pub data Error : Type 0 where
  invalid_target unknown_command : Error
  reserved_param : String → Error

pub data Result {ℓ} (A : Type ℓ) : Type ℓ where
  ok : A → Result A
  err : Error → Result A

abbrev pub initial : Alias
initial = record { target = ""; params = []; deleted = false }

abbrev reserved_param_keys : List Text
reserved_param_keys = codes "model" ∷ codes "stream" ∷ []

any_fold : Text → List Text → Bool
any_fold k [] = false
any_fold k (reserved ∷ rest) = equal_fold k reserved || any_fold k rest

-- The first key that folds onto a reserved name.
unfoldable pub first_reserved_param_key : Dict String String → Option String
unfolding any_fold
first_reserved_param_key [] = none
first_reserved_param_key ((k, v) ∷ params) =
    if any_fold (codes k) reserved_param_keys then some k else first_reserved_param_key params

abbrev pub is_empty : Text → Bool
is_empty [] = true
is_empty (c ∷ s) = false

unfoldable pub decide_set : String → Dict String String → Option String → Result (List Event)
decide_set target params none = ok (alias_set target params ∷ [])
decide_set target params (some key) = err (reserved_param key)

unfoldable pub decide : Alias → Command → Result (List Event)
unfolding decide_set
decide s (set target params) =
    if is_empty (slug (codes target))
    then err invalid_target
    else decide_set target params (first_reserved_param_key params)
decide s delete_alias = if s.target == "" || s.deleted then ok [] else ok (alias_deleted ∷ [])
decide s unset = err unknown_command

unfoldable pub evolve : Alias → Event → Alias
evolve s (alias_set target params) = record { target = target; params = params; deleted = false }
evolve s alias_deleted = record s { deleted = true }
evolve s unset = s

unfoldable pub evolve_all : Alias → List Event → Alias
evolve_all s [] = s
evolve_all s (e ∷ es) = evolve_all (evolve s e) es

abbrev pub after : Alias → Result (List Event) → Alias
after s (ok es) = evolve_all s es
after s (err _) = s

unfoldable pub handle : Alias → Command → Alias
handle s c = after s (decide s c)

unfoldable pub run : Alias → List Command → Alias
run s [] = s
run s (c ∷ cs) = run (handle s c) cs

-- `StreamID`, the plain name of an alias.
unfoldable pub stream_id : Text → Text → Text
stream_id scope name = scope ++ (codes "/" ++ name)
