-- ===== src/Org/Owners.antt =====
-- The owner rule of internal/controlplane/org/decider.go: `ErrLastOwner` and what it protects.
use inferbus.Base.{
  string_eq, List, Option, String, [], arith, false, if◌then◌else◌, leb, none, not, refl, some,
  str_eq_iff, true, ℕ, ◌&&◌, ◌+◌, ◌↔◌, ◌∷◌, ◌≡◌, ◌≤◌,
}
use inferbus.Dict.{
  Dict, Distinct, delete, delete-Distinct, delete_absent, insert, insert-Distinct, lookup,
}
use inferbus.Org.{
  Command, Org, Project, absent, after, archive_project, count_owners, create, create_project,
  decide, decide_archive, decide_remove, decide_upsert, err, evolve, evolve_all, handle,
  holds_owner, initial, is_owner, last_owner, member_upserted, ok, owner_count, remove_member,
  rename, run, unset, upsert_member, valid_roles,
}

-- One for an owner, nothing for any other.
abbrev owner_weight : Option String → ℕ
owner_weight none = 0
owner_weight (some role) = if is_owner role then 1 else 0

-- An insertion replaces the key's own share of the count.
count_owners-insert :
    (sub role : String) (m : Dict String String)
    → count_owners (insert sub role m) + owner_weight (lookup sub m)
      ≡ count_owners m + owner_weight (some role)
unfolding count_owners insert lookup
count_owners-insert sub role [] = ground arith
count_owners-insert sub role ((j, w) ∷ m) = ground (arith, count_owners-insert sub role m)

-- A deletion takes the key's share away.
count_owners-delete :
    (sub : String) (m : Dict String String)
    → Distinct m
    → count_owners (delete sub m) + owner_weight (lookup sub m) ≡ count_owners m
unfolding count_owners delete lookup
count_owners-delete sub [] d = ground arith
count_owners-delete sub ((j, w) ∷ m) d =
    ground (arith, str_eq_iff j sub, count_owners-delete sub m d.1, delete_absent sub m)

owner_weight-le :
    (sub : String) (m : Dict String String) → owner_weight (lookup sub m) ≤ count_owners m
unfolding count_owners lookup
owner_weight-le sub [] = ground arith
owner_weight-le sub ((j, w) ∷ m) = ground (arith, owner_weight-le sub m)

-- What holds of an org between two commands.
pub record IsValid (s : Org) : Type 0 where
  pub distinct_members : Distinct s.members
  pub distinct_projects : Distinct s.projects
  pub owned : absent s ≡ false → 1 ≤ owner_count s

initial-IsValid : IsValid initial
initial-IsValid = ground (arith, str_eq_iff "" "")

decide_upsert-IsValid :
    (s : Org) (sub role : String)
    → IsValid s
    → absent s ≡ false
    → IsValid (after s (decide_upsert s sub role))
unfolding decide_upsert evolve owner_count evolve_all
decide_upsert-IsValid s sub role v h = ground (
  arith,
  count_owners-insert sub role s.members,
  insert-Distinct sub role s.members v.distinct_members,
)

decide_remove-IsValid :
    (s : Org) (sub : String) (o : Option String)
    → lookup sub s.members ≡ o
    → IsValid s
    → absent s ≡ false
    → IsValid (after s (decide_remove s sub o))
unfolding decide_remove evolve owner_count evolve_all
decide_remove-IsValid s sub none e v h = v
decide_remove-IsValid s sub (some role) e v h = ground (
  arith,
  count_owners-delete sub s.members v.distinct_members,
  delete-Distinct sub s.members v.distinct_members,
)

decide_archive-IsValid :
    (s : Org) (id : String) (o : Option Project)
    → lookup id s.projects ≡ o
    → IsValid s
    → IsValid (after s (decide_archive id o))
unfolding decide_archive evolve owner_count evolve_all
decide_archive-IsValid s id none e v = v
decide_archive-IsValid s id (some p) e v =
    ground (arith, insert-Distinct id (record p { archived = true }) s.projects v.distinct_projects)

handle-IsValid : (s : Org) (c : Command) → IsValid s → IsValid (handle s c)
unfolding handle decide evolve owner_count evolve_all
handle-IsValid s (create c) v = ground (
  arith,
  count_owners-insert c.owner_sub "owner" s.members,
  owner_weight-le c.owner_sub s.members,
  str_eq_iff "owner" "owner",
  insert-Distinct c.owner_sub "owner" s.members v.distinct_members,
)
handle-IsValid s (rename name) v = ground arith
handle-IsValid s (upsert_member sub role) v = ground (arith, decide_upsert-IsValid s sub role v)
handle-IsValid s (remove_member sub) v =
    ground (arith, decide_remove-IsValid s sub (lookup sub s.members) refl v)
handle-IsValid s (create_project id name) v = ground (
  arith,
  insert-Distinct id (record { id = id; name = name; archived = false }) s.projects
      v.distinct_projects,
)
handle-IsValid s (archive_project id) v =
    ground (arith, decide_archive-IsValid s id (lookup id s.projects) refl v)
handle-IsValid s unset v = v

-- From any valid org, every list of commands leaves an org that exists with at least one owner, and
-- with no member and no project listed twice.
pub run-IsValid : (s : Org) (cs : List Command) → IsValid s → IsValid (run s cs)
unfolding run
run-IsValid s [] v = v
run-IsValid s (c ∷ cs) v = run-IsValid (handle s c) cs (handle-IsValid s c v)

-- In a valid org that exists, a removal is refused with `last_owner` exactly when
-- taking the member out would leave no owner.
pub remove-last_owner_iff :
    (s : Org) (sub : String)
    → IsValid s
    → absent s ≡ false
    → (decide s (remove_member sub) ≡ err last_owner) ↔ (count_owners (delete sub s.members) ≡ 0)
unfolding decide decide_remove owner_count
remove-last_owner_iff s sub v h =
    let total = count_owners-delete sub s.members v.distinct_members in
    rw h (by_member (lookup sub s.members) total)
  where
    by_member :
        (o : Option String)
        → count_owners (delete sub s.members) + owner_weight o ≡ count_owners s.members
        → (decide_remove s sub o ≡ err last_owner) ↔ (count_owners (delete sub s.members) ≡ 0)
    by_member none e = ground (arith, v.owned h)
    by_member (some role) e = ground (arith, v.owned h)

-- In a valid org that exists, giving a member one of the three roles is refused with `last_owner`
-- exactly when the members with that role written would have no owner.
pub upsert-last_owner_iff :
    (s : Org) (sub role : String)
    → IsValid s
    → absent s ≡ false
    → valid_roles role ≡ true
    → (decide s (upsert_member sub role) ≡ err last_owner)
      ↔ (count_owners (insert sub role s.members) ≡ 0)
unfolding decide decide_upsert owner_count
upsert-last_owner_iff s sub role v h valid =
    rw (h, valid) (by_member (lookup sub s.members) (count_owners-insert sub role s.members))
  where
    by_member :
        (o : Option String)
        → count_owners (insert sub role s.members) + owner_weight o
          ≡ count_owners s.members + owner_weight (some role)
        → ((if holds_owner o && (not (is_owner role) && leb (count_owners s.members) 1)
              then err last_owner
              else ok (member_upserted sub role ∷ []))
            ≡ err last_owner)
          ↔ (count_owners (insert sub role s.members) ≡ 0)
    by_member none e = ground (arith, v.owned h)
    by_member (some r) e = ground (arith, v.owned h)
