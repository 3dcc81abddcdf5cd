-- ===== src/Projector/Keys/Events.antt =====
-- What each event does when no bucket operation fails: `applyOne` of the keys projector,
-- internal/controlplane/kvproj.go.
use inferbus.Base.{string_eq, List, String, [], arith, false, none, some, ℤ, ◌==◌, ◌≡◌}
use inferbus.Dict.{delete, insert, lookup}
use inferbus.ApiKey.{CreateKey, allowlist_changed, created, key_disabled, limits_changed, rotated}
use inferbus.Projector.{no_entry}
use inferbus.Projector.Keys.{KeyEntry, Keys, apply_event, created_entry, done, stop}

module _ (id : String) (k : Keys) (quiet : k.faults ≡ []) where
  pub created_lem :
      (c : CreateKey)
      → apply_event id (created c) k
        ≡ done tt (record {
          bucket = insert c.hash (some (created_entry id c)) k.bucket;
          hash_by_id = insert id c.hash k.hash_by_id;
          faults = [];
        })
  unfolding apply_event
  created_lem c = rw quiet

  pub rotated_lem :
      (n previous : String) (entry : KeyEntry)
      → (previous == "") ≡ false
      → lookup previous k.bucket ≡ some (some entry)
      → apply_event id (rotated n previous) k
        ≡ done tt (record {
          bucket = delete previous (insert n (some (record entry { id = id })) k.bucket);
          hash_by_id = insert id n k.hash_by_id;
          faults = [];
        })
  unfolding apply_event
  rotated_lem n previous entry given found = ground (arith, quiet, given, found)

  -- Without an entry under the previous hash the projector stops.
  pub rotated_stops :
      (n previous : String)
      → lookup previous k.bucket ≡ none
      → apply_event id (rotated n previous) k ≡ stop no_entry k
  unfolding apply_event
  rotated_stops n previous missing = ground (arith, quiet, missing)

  pub disabled_lem :
      (hash : String)
      → (hash == "") ≡ false
      → apply_event id (key_disabled hash) k
        ≡ done tt (record k { bucket = delete hash k.bucket; faults = [] })
  unfolding apply_event
  disabled_lem hash given = ground (arith, quiet, given)

  module _ (hash : String) (known : lookup id k.hash_by_id ≡ some hash) where
    pub allowlist_lem :
        (allow : List String) (entry : KeyEntry)
        → lookup hash k.bucket ≡ some (some entry)
        → apply_event id (allowlist_changed allow) k
          ≡ done tt (record k {
            bucket = insert hash (some (record entry { id = id; allow = allow })) k.bucket;
            faults = [];
          })
    unfolding apply_event
    allowlist_lem allow entry found = ground (arith, quiet, known, found)

    pub limits_lem :
        (rpm budget : ℤ) (entry : KeyEntry)
        → lookup hash k.bucket ≡ some (some entry)
        → apply_event id (limits_changed rpm budget) k
          ≡ done tt (record k {
            bucket =
                insert hash
                  (some
                    (record entry { id = id; rate_limit_rpm = rpm; monthly_token_budget = budget }))
                  k.bucket;
            faults = [];
          })
    unfolding apply_event
    limits_lem rpm budget entry found = ground (arith, quiet, known, found)

    -- A change for a hash that has no entry stops the projector.
    pub allowlist_stops :
        (allow : List String)
        → lookup hash k.bucket ≡ none
        → apply_event id (allowlist_changed allow) k ≡ stop no_entry k
    unfolding apply_event
    allowlist_stops allow missing = ground (arith, quiet, known, missing)
