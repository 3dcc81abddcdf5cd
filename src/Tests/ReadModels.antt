-- ===== src/Tests/ReadModels.antt =====
-- internal/controlplane/readmodel.go at work.
use inferbus.Base.{List, [], arith, pos, refl, ◌∷◌}
use inferbus.Base.{string_eq}
use inferbus.Dict.{insert, lookup}
use inferbus.Org as O
use inferbus.ApiKey as K
use inferbus.ReadModel.{new_mem_read_store}
use inferbus.ReadModel.Orgs.{RowsShow}
use inferbus.ReadModel.Orgs.Interleaved.{OrgStep, OrgWorld, org_step, org_steps, org_steps-RowsShow}
use inferbus.ReadModel.Keys.{KeyRowFollows, KeyStep, KeyWorld, key_steps, key_steps-KeyRowFollows}

nothing_shown : RowsShow "acme" new_mem_read_store O.initial new_mem_read_store
unfolding lookup
nothing_shown = record {
  org_shown = λ created. absurd (ground arith);
  members_shown = λ sub. refl;
  projects_shown = λ project. refl;
  ids_match = λ project p found. absurd (ground arith);
  others_kept = λ other apart. (refl, refl, refl);
}

-- The project is archived before its creation is projected.
abbrev org_schedule : List OrgStep
org_schedule =
    OrgStep.command (O.create (record { id = "acme"; name = "Acme"; owner_sub = "ann" }))
    ∷ OrgStep.command (O.create_project "web" "Web")
    ∷ OrgStep.project
    ∷ OrgStep.command (O.archive_project "web")
    ∷ OrgStep.command (O.upsert_member "bob" "viewer")
    ∷ OrgStep.project
    ∷ OrgStep.project
    ∷ OrgStep.project
    ∷ []

abbrev first_world : OrgWorld
first_world = record { org = O.initial; pending = []; rows = new_mem_read_store }

org_steps-RowsShow_example :
    RowsShow "acme" new_mem_read_store
      (org_steps "acme" first_world org_schedule).org
      (org_steps "acme" first_world org_schedule).rows
unfolding org_steps org_step O.decide O.handle O.evolve_all O.evolve lookup insert O.valid_roles
org_steps-RowsShow_example =
    org_steps-RowsShow "acme" new_mem_read_store O.initial new_mem_read_store org_schedule
      nothing_shown refl

abbrev key_schedule : List KeyStep
key_schedule =
    KeyStep.command (
      K.create (record {
        id = "k1";
        org = "acme";
        project = "web";
        name = "Web key";
        hash = "h1";
        allow = [];
        rate_limit_rpm = pos 0;
        monthly_token_budget = pos 9;
      }))
    ∷ KeyStep.command (K.rotate "h2")
    ∷ KeyStep.project
    ∷ KeyStep.command K.disable
    ∷ KeyStep.project
    ∷ KeyStep.project
    ∷ []

abbrev first_key_world : KeyWorld
first_key_world = record { key = K.initial; pending = []; rows = new_mem_read_store }

no_key_yet : KeyRowFollows "k1" new_mem_read_store first_key_world
no_key_yet = record {
  settled = λ none_left created. absurd (ground arith);
  others_kept = λ other apart. refl;
}

key_steps-KeyRowFollows_example :
    KeyRowFollows "k1" new_mem_read_store (key_steps "k1" first_key_world key_schedule)
key_steps-KeyRowFollows_example =
    key_steps-KeyRowFollows "k1" new_mem_read_store first_key_world key_schedule no_key_yet
