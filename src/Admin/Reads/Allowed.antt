-- ===== src/Admin/Reads/Allowed.antt =====
-- Who is shown what by the handlers of internal/controlplane/admin.go that read.
use inferbus.Admin.Reads.Shown.{
  IsAllowedAnswer, IsSafeRead, MayRead, interval-IsWindow, listed_aliases, listed_keys,
  project_responses-AsProjects,
}
use inferbus.Base.{
  Bool, Bool-cases, List, Option, Option-cases, String, arith, false, if◌then◌else◌, inl, inr, none,
  refl, some, subst, sym, true, ◌||◌, ◌∙◌, ◌≡◌,
}
use inferbus.Base.{string_eq}
use inferbus.Dict.{lookup}
use inferbus.Text.{codes, text_beq}
use inferbus.Org.{valid_roles}
use inferbus.Projector.StreamId.{global_scope}
use inferbus.ReadModel.{
  MemReadStore, OrgRow, get_org, member_rows, members_of, projects_of, rows_where, sort_by,
}
use inferbus.Wire.Types.{WorkerAd}
use inferbus.Admin.Sources.{
  Sources, UsageBucket, fetch_workers, org_usage, usage_window_interval, valid_usage_window,
}
use inferbus.Admin.{
  Admin, Identity, Verdict, authenticate, authorize, authorize_org_role, org_not_found,
  store_failed, unhealthy, valid_slug, verdict,
}
use inferbus.Admin.Authorized.{accepted}
use inferbus.Admin.Reads.{
  Answer, Read, aliases, authorize_read, detail, fleet, from_store, get_one_org, keys,
  list_all_orgs, list_all_workers, list_org_keys, list_scope_aliases, org, org_detail_from_rows,
  orgs, queried, read, read_for, read_request, refused, reported, usage_body, usage_of, workers,
}

module _ (a : Admin) (src : Sources) (id : Identity) where
  reads : (o : String) → authorize_org_role a id o "read" ≡ verdict true → MayRead a id o
  unfolding authorize valid_roles
  reads o h = elim (accepted a id o "read" h) [
    | inl p ↦ inl p
    | inr (role, fits, has) ↦ elim (Bool-cases id.platform_admin) [
      | inl p ↦ inl p
      | inr plain ↦ inr (role, ground (arith, plain, fits), has)
    ]
  ]

  authorize_read-IsAllowed :
      (r : Read) (v : Verdict) (answer : Answer)
      → (v ≡ verdict true → IsAllowedAnswer a src id r answer)
      → IsAllowedAnswer a src id r (authorize_read v answer)
  authorize_read-IsAllowed r unhealthy d h = tt
  authorize_read-IsAllowed r store_failed d h = tt
  authorize_read-IsAllowed r org_not_found d h = tt
  authorize_read-IsAllowed r (verdict true) d h = h refl
  authorize_read-IsAllowed r (verdict false) d h = tt

  from_store-IsAllowed :
      (r : Read) (o : Option MemReadStore) (k : MemReadStore → Answer)
      → ((s : MemReadStore) → IsAllowedAnswer a src id r (k s))
      → IsAllowedAnswer a src id r (from_store o k)
  from_store-IsAllowed r none k h = tt
  from_store-IsAllowed r (some s) k h = h s

  if-IsAllowed :
      (r : Read) (b : Bool) (x y : Answer)
      → (b ≡ true → IsAllowedAnswer a src id r x)
      → (b ≡ false → IsAllowedAnswer a src id r y)
      → IsAllowedAnswer a src id r (if b then x else y)
  if-IsAllowed r true x y h k = h refl
  if-IsAllowed r false x y h k = k refl

  detail-IsAllowed :
      (o : String) (s : MemReadStore) (found : Option OrgRow)
      → a.rows ≡ some s
      → lookup o s.orgs ≡ found
      → MayRead a id o
      → IsAllowedAnswer a src id (get_one_org o) (detail (get_org o s))
  unfolding detail get_org org_detail_from_rows
  detail-IsAllowed o s none from e h =
      let missing : get_org o s ≡ none = ground (arith, e) in
      subst (λ d. IsAllowedAnswer a src id (get_one_org o) (detail d)) (sym missing) tt
  detail-IsAllowed o s (some row) from e h =
      let members = sort_by (λ r. codes r.sub) (member_rows (members_of o s)) in
      let projects = sort_by (λ r. codes r.id) (rows_where (λ r. true) (projects_of o s)) in
      let found : get_org o s ≡ some (row, members, projects) = ground (arith, e) in
      subst (λ d. IsAllowedAnswer a src id (get_one_org o) (detail d)) (sym found)
        (
          h,
          record {
            store = s;
            row = row;
            read_from = from;
            found = e;
            id_shown = refl;
            name_shown = refl;
            members_shown = refl;
            projects_shown = project_responses-AsProjects projects;
          },
        )

  shown-IsAllowed :
      (o : String) (rows : Option MemReadStore)
      → a.rows ≡ rows
      → MayRead a id o
      → IsAllowedAnswer a src id (get_one_org o) (from_store rows (λ s. detail (get_org o s)))
  shown-IsAllowed o none e h = tt
  shown-IsAllowed o (some s) e h = detail-IsAllowed o s (lookup o s.orgs) e refl h

  fleet-IsAllowed :
      (o : Option (List WorkerAd))
      → id.platform_admin ≡ true
      → IsAllowedAnswer a src id list_all_workers (fleet o)
  fleet-IsAllowed none p = tt
  fleet-IsAllowed (some reports) p = p

  usage-IsAllowed :
      (o window : String) (u : Option (String → String → Option (List UsageBucket)))
      → src.usage ≡ u
      → MayRead a id o
      → IsAllowedAnswer a src id (usage_of o window) (reported o window u)
  unfolding org_usage
  usage-IsAllowed o window none wired h = tt
  usage-IsAllowed o window (some query) wired h =
      let Allowed = λ (buckets : Option (List UsageBucket)).
        IsAllowedAnswer a src id (usage_of o window) (queried o window buckets) in
      elim (Option-cases (usage_window_interval window)) [
        | inl unknown ↦
            let failed : org_usage query o window ≡ none = ground (arith, unknown) in
            subst Allowed (sym failed) tt
        | inr (interval, e) ↦
            let asks : org_usage query o window ≡ query o interval = ground (arith, e) in
            elim (Option-cases (query o interval)) [
              | inl failed ↦ subst Allowed (sym (asks ∙ failed)) tt
              | inr (buckets, q) ↦ subst Allowed (sym (asks ∙ q)) (
                h,
                refl,
                refl,
                record {
                  query = query;
                  interval = interval;
                  wired = wired;
                  in_window = interval-IsWindow window interval e;
                  asked = q;
                },
              )
            ]
      ]

  read_request-IsAllowed : (r : Read) → IsAllowedAnswer a src id r (read_request a src id r)
  unfolding read_request
  read_request-IsAllowed list_all_orgs =
      if-IsAllowed list_all_orgs id.platform_admin _ _
        (λ p. from_store-IsAllowed list_all_orgs a.rows _ (λ s. p)) (λ n. tt)
  read_request-IsAllowed (get_one_org o) =
      authorize_read-IsAllowed (get_one_org o) (authorize_org_role a id o "read") _
        (λ v. shown-IsAllowed o a.rows refl (reads o v))
  read_request-IsAllowed (list_org_keys o) =
      if-IsAllowed (list_org_keys o) (valid_slug o) _ _
        (λ y. authorize_read-IsAllowed (list_org_keys o) (authorize_org_role a id o "read") _ (λ v.
          from_store-IsAllowed (list_org_keys o) a.rows _ (λ s. (reads o v, listed_keys o s))))
        (λ n. tt)
  read_request-IsAllowed (list_scope_aliases scope) =
      let q = list_scope_aliases scope in
      let is_global = text_beq (codes scope) global_scope in
      if-IsAllowed q (is_global || valid_slug scope) _ _
        (λ y.
          if-IsAllowed q is_global _ _
            (λ g. from_store-IsAllowed q a.rows _ (λ s. (inl g, listed_aliases (codes scope) s)))
            (λ n. authorize_read-IsAllowed q (authorize_org_role a id scope "read") _ (λ v.
              from_store-IsAllowed q a.rows _
                (λ s. (inr (reads scope v), listed_aliases (codes scope) s)))))
        (λ n. tt)
  read_request-IsAllowed (usage_of o window) =
      if-IsAllowed (usage_of o window) (valid_slug o) _ _
        (λ y.
          authorize_read-IsAllowed (usage_of o window) (authorize_org_role a id o "read") _ (λ v.
            if-IsAllowed (usage_of o window) (valid_usage_window window) _ _
              (λ fine. usage-IsAllowed o window src.usage refl (reads o v)) (λ n. tt)))
        (λ n. tt)
  read_request-IsAllowed list_all_workers =
      if-IsAllowed list_all_workers id.platform_admin _ _
        (λ p. fleet-IsAllowed (fetch_workers src.models) p) (λ n. tt)

read_for-IsSafe :
    (a : Admin) (src : Sources) (authorization : String) (o : Option Identity) (r : Read)
    → authenticate a authorization ≡ o
    → IsSafeRead a src authorization r (read_for a src o r)
unfolding read_for
read_for-IsSafe a src authorization none r e = tt
read_for-IsSafe a src authorization (some id) r e =
    go (read_request a src id r) (read_request-IsAllowed a src id r)
  where
    go :
        (answer : Answer)
        → IsAllowedAnswer a src id r answer
        → IsSafeRead a src authorization r answer
    go (refused status kind) h = tt
    go (orgs rows) h = (id, e, h)
    go (org body) h = (id, e, h)
    go (keys rows) h = (id, e, h)
    go (aliases rows) h = (id, e, h)
    go (usage_body o w buckets) h = (id, e, h)
    go (workers reports) h = (id, e, h)

-- Whatever the request, the admin API shows something only to an authenticated caller who may see it:
-- the lists of orgs and of workers to platform admins; an org, its keys, its aliases and its usage to
-- these and to its owners, admins and viewers while the projections are healthy; global aliases to
-- everyone. What is shown of an org are its row, its members and its projects in the store; of its
-- usage, what the query answers for this org and the interval of the window, one of the three known.
-- Every key listed is one of this org, without a plaintext, and every alias one of this scope.
pub read-IsSafe :
    (a : Admin) (src : Sources) (authorization : String) (r : Read)
    → IsSafeRead a src authorization r (read a src authorization r)
unfolding read
read-IsSafe a src authorization r =
    read_for-IsSafe a src authorization (authenticate a authorization) r refl
