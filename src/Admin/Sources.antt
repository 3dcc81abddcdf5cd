-- ===== src/Admin/Sources.antt =====
-- What the admin API reads besides the read model: usage (internal/controlplane/usage.go), where the
-- answer of ClickHouse is an argument, and the workers (internal/controlplane/workers.go).
use inferbus.Base.{Bool, List, Option, String, [], if◌then◌else◌, is_some, none, some, ℤ, ◌==◌, ◌∷◌}
use inferbus.Base.{string_eq}
use inferbus.Text.{codes}
use inferbus.Wire.Types.{WorkerAd}
use inferbus.ReadModel.{sort_by}

pub record UsageBucket : Type 0 where
  pub model : String
  pub alias : String
  pub provider : String
  pub status : String
  pub requests : ℤ
  pub prompt_tokens : ℤ
  pub completion_tokens : ℤ

-- `usageWindowIntervals`
unfoldable pub usage_window_interval : String → Option String
usage_window_interval w =
    if w == "24h"
    then some "24 HOUR"
    else if w == "7d"
    then some "7 DAY"
    else if w == "30d"
    then some "30 DAY"
    else none

unfoldable pub valid_usage_window : String → Bool
unfolding usage_window_interval
valid_usage_window w = is_some (usage_window_interval w)

-- `OrgUsage`: the query for an org and an interval, `none` if it fails.
unfoldable pub org_usage :
    (String → String → Option (List UsageBucket)) → String → String → Option (List UsageBucket)
org_usage query org window = elim (usage_window_interval window) [
  | none ↦ none
  | some interval ↦ query org interval
]

-- One key of the listing, and what its Get brings.
pub data Found : Type 0 where
  expired get_failed malformed : Found
  found : WorkerAd → Found

-- The MODELS bucket. A bucket that was never made, or has no keys, is an empty fleet.
pub data Models : Type 0 where
  bucket_not_found bucket_failed no_keys_found list_failed : Models
  listed : List Found → Models

-- The loop: it ends at the first Get that fails.
unfoldable pub ads : List Found → Option (List WorkerAd)
ads [] = some []
ads (get_failed ∷ rest) = none
ads (expired ∷ rest) = ads rest
ads (malformed ∷ rest) = ads rest
ads (found ad ∷ rest) = elim (ads rest) [ none ↦ none | some more ↦ some (ad ∷ more) ]

-- `fetchWorkers`; `none` is an error.
unfoldable pub fetch_workers : Models → Option (List WorkerAd)
fetch_workers bucket_not_found = some []
fetch_workers no_keys_found = some []
fetch_workers bucket_failed = none
fetch_workers list_failed = none
fetch_workers (listed entries) = elim (ads entries) [
  | none ↦ none
  | some out ↦ some (sort_by (λ ad. codes ad.worker_id) out)
]

-- The read store is `Admin`'s; these two may be missing.
pub record Sources : Type 0 where
  pub usage : Option (String → String → Option (List UsageBucket))
  pub models : Models
