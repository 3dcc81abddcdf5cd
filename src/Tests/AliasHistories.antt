-- ===== src/Tests/AliasHistories.antt =====
-- internal/controlplane/alias and its projection at work.
use inferbus.Base.{List, String, [], arith, none, refl, some, ℕ, ◌∷◌, ◌≡◌}
use inferbus.Base.{string_eq}
use inferbus.Dict.{Dict, lookup}
use inferbus.Text.{text_eq, codes}
use inferbus.Wire.{EncodedEvent}
use inferbus.Alias.{Command, delete_alias, initial, set}
use inferbus.Alias.Codec.{Protos}
use inferbus.Projector.Aliases.{Aliases}
use inferbus.Projector.Aliases.View.{Shows, run_projected, run_projected-Shows, shown}

abbrev pinned : Dict String String
pinned = ("dimensions", "512") ∷ []

abbrev commands : List Command
commands = set "Qwen3" pinned ∷ delete_alias ∷ set "Qwen4" [] ∷ []

never : {M : Type 0} → (m : M) → (b : List ℕ) → none ≡ some b → none ≡ some m
never m b h = ground (arith, h)

abbrev alias_protos : Protos
alias_protos = record {
  set_proto = record { marshal = λ m. none; unmarshal = λ b. none; round_trip = never };
  deleted_proto = record {
    marshal = λ m. some [];
    unmarshal = λ b. some tt;
    round_trip = λ m b h. refl;
  };
}

abbrev deleted_event : EncodedEvent
deleted_event = record {
  type_url = "controlplane.v1.AliasDeleted";
  schema_version = 1;
  payload = [];
}

abbrev other_aliases : Aliases
other_aliases = (codes "acme/slow", some (record { target = "Qwen2"; params = [] })) ∷ []

run_projected-Shows_example :
    let r = run_projected (codes "acme/fast") (initial, other_aliases) commands in
    Shows (codes "acme/fast") r.0 other_aliases r.1
unfolding lookup shown
run_projected-Shows_example =
    run_projected-Shows (codes "acme/fast") other_aliases initial other_aliases commands
      (refl, λ other h. refl)
