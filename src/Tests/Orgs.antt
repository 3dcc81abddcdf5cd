-- ===== src/Tests/Orgs.antt =====
-- internal/controlplane/org at work: one org with two owners.
use inferbus.Base.{
  List, String, [], arith, if◌then◌else◌, none, refl, some, str_eq_iff, true, ℕ, ◌==◌, ◌∷◌, ◌≡◌,
}
use inferbus.Base.{string_eq}
use inferbus.Dict.{lookup}
use inferbus.Wire.{EncodedEvent, Proto}
use inferbus.Org.{
  Command, Org, count_owners, create_project, owner_count, remove_member, run, upsert_member,
}
use inferbus.Org.Owners.{IsValid, run-IsValid}
use inferbus.Org.Codec.{Protos}

abbrev acme : Org
acme = record {
  id = "org-1";
  name = "Acme";
  members = ("ann", "owner") ∷ ("bob", "viewer") ∷ [];
  projects = ("p1", record { id = "p1"; name = "One"; archived = true }) ∷ [];
}

acme-IsValid : IsValid acme
unfolding lookup owner_count count_owners
acme-IsValid = record {
  distinct_members = (refl, (refl, tt));
  distinct_projects = (refl, tt);
  owned = λ h. omega arith;
}

abbrev changes : List Command
changes =
    upsert_member "bob" "owner"
    ∷ remove_member "ann"
    ∷ remove_member "bob"
    ∷ create_project "p1" "Again"
    ∷ []

run-IsValid_example : IsValid (run acme changes)
run-IsValid_example = run-IsValid acme changes acme-IsValid

only_text_lem :
    (s m : String) (b : List ℕ)
    → (if m == s then some (1 ∷ []) else none) ≡ some b
    → some s ≡ some m
only_text_lem s m b h = ground (arith, str_eq_iff m s, h)

never : {M : Type 0} → (m : M) → (b : List ℕ) → none ≡ some b → none ≡ some m
never m b h = ground (arith, h)

abbrev only_text : String → Proto String
only_text s = record {
  marshal = λ m. if m == s then some (1 ∷ []) else none;
  unmarshal = λ b. some s;
  round_trip = only_text_lem s;
}

abbrev refusing : {M : Type 0} → Proto M
refusing = record { marshal = λ m. none; unmarshal = λ b. none; round_trip = never }

abbrev org_protos : Protos
org_protos = record {
  created_proto = refusing;
  renamed_proto = only_text "Beta";
  member_upserted_proto = refusing;
  member_removed_proto = refusing;
  project_created_proto = refusing;
  project_archived_proto = refusing;
}

abbrev renamed_event : EncodedEvent
renamed_event = record {
  type_url = "controlplane.v1.OrgRenamed";
  schema_version = 1;
  payload = 1 ∷ [];
}
