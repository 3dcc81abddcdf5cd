-- ===== src/Gateway/Iam.antt =====
-- The two IAM providers of internal/gateway/kviam.go, with the types of internal/gateway/config.go
-- they stand on. A snapshot of a bucket maps a key to its entry, `none` if it does not decode.
pub mod KeysBucket
use inferbus.Base.{
  Bool, List, Option, String, [], arith, false, if◌then◌else◌, none, some, str_eq_iff, ◌==◌, ◌∷◌,
  ◌≡◌,
}
use inferbus.Base.{string_eq}
use mathlib.Core.Option
use inferbus.Dict.{Dict, lookup}
use inferbus.Text.{text_eq, Text, text_beq}
use inferbus.Budget.{BudgetEntry}
use inferbus.Projector.StreamId.{alias_key, global_scope}
use inferbus.Projector.Keys.{KeyEntry}
use inferbus.Projector.Aliases.{AliasEntry}

pub record KeyConfig : Type 0 where
  pub key : String
  pub id : String
  pub name : String
  pub org : String
  pub project : String
  pub allow : List String

-- `Resolution`: the concrete model and the parameters that the alias pins.
pub record Resolution : Type 0 where
  pub target : String
  pub params : Dict String String

-- `keyID`
unfoldable pub key_id : KeyConfig → String
key_id k = if k.id == "" then k.name else k.id

-- `staticIAM.AuthenticateKey`
unfoldable pub static_authenticate : List KeyConfig → String → Option KeyConfig
static_authenticate [] presented = none
static_authenticate (k ∷ keys) presented =
    if k.key == presented then some k else static_authenticate keys presented

-- `staticIAM.ResolveAlias`
unfoldable pub static_resolve : Dict String String → String → Option Resolution
static_resolve aliases name =
    Option.map (λ t. record { target = t; params = [] }) (lookup name aliases)

abbrev pub key_config : KeyEntry → KeyConfig
key_config row = record {
  key = "";
  id = row.id;
  name = row.name;
  org = row.org;
  project = row.project;
  allow = row.allow;
}

-- What a snapshot of a bucket is turned into: the entries that do not decode are left out.
unfoldable pub keys_snapshot : Dict String (Option KeyEntry) → Dict String KeyConfig
keys_snapshot [] = []
keys_snapshot ((hash, none) ∷ entries) = keys_snapshot entries
keys_snapshot ((hash, some row) ∷ entries) = (hash, key_config row) ∷ keys_snapshot entries

unfoldable pub aliases_snapshot : Dict Text (Option AliasEntry) → Dict Text Resolution
aliases_snapshot [] = []
aliases_snapshot ((key, none) ∷ entries) = aliases_snapshot entries
aliases_snapshot ((key, some row) ∷ entries) =
    (key, record { target = row.target; params = row.params }) ∷ aliases_snapshot entries

unfoldable pub budgets_snapshot : Dict String (Option BudgetEntry) → Dict String BudgetEntry
budgets_snapshot [] = []
budgets_snapshot ((id, none) ∷ entries) = budgets_snapshot entries
budgets_snapshot ((id, some row) ∷ entries) = (id, row) ∷ budgets_snapshot entries

-- `KVIAM.AuthenticateKey`; the hash is cpkv.HashKey, a SHA-256.
unfoldable pub kv_authenticate :
    (String → String) → Dict String KeyConfig → String → Option KeyConfig
kv_authenticate hash_key keys presented = lookup (hash_key presented) keys

global_or_none : Dict Text Resolution → Text → Option Resolution → Option Resolution
global_or_none aliases name none = lookup (alias_key global_scope name) aliases
global_or_none aliases name (some res) = some res

-- `KVIAM.ResolveAlias`
unfoldable pub kv_resolve : Dict Text Resolution → Text → Text → Option Resolution
unfolding global_or_none
kv_resolve aliases org name =
    if text_beq org []
    then lookup (alias_key global_scope name) aliases
    else global_or_none aliases name (lookup (alias_key org name) aliases)

is_set : Option BudgetEntry → Bool
is_set none = false
is_set (some entry) = entry.exceeded

-- `KVIAM.BudgetExceeded`
unfoldable pub kv_budget_exceeded : Dict String BudgetEntry → String → Bool
unfolding is_set
kv_budget_exceeded budgets id = is_set (lookup id budgets)

-- A key of the configuration authenticates by its own text, the first of two that share it.
pub static_authenticate_sound :
    (keys : List KeyConfig) (presented : String) (k : KeyConfig)
    → static_authenticate keys presented ≡ some k
    → k.key ≡ presented
unfolding static_authenticate
static_authenticate_sound [] presented k h = ground arith
static_authenticate_sound (j ∷ keys) presented k h =
    ground (arith, str_eq_iff j.key presented, static_authenticate_sound keys presented k)
