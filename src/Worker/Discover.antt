-- ===== src/Worker/Discover.antt =====
-- The discovery of an engine's models: internal/worker/discover.go, with Defaults of
-- internal/worker/config.go. The HTTP answer is an argument.
pub mod Tokens
use inferbus.Base.{
  Bool, List, Option, [], if◌then◌else◌, is_some, le_int, leb, ltb, map, nat_beq, none, pos, some,
  ℕ, ℤ, ◌&&◌, ◌||◌, ◌∷◌,
}
use inferbus.Text.{Text, codes, text_beq}
use inferbus.Text.{text_eq}
use inferbus.Dict.{Dict, insert, lookup}
use inferbus.Wire.Slug.{slug}

-- The fields that an OpenAI-compatible engine uses.
pub record ModelConfig : Type 0 where
  pub name : Text
  pub engine : Text
  pub url : Text
  pub max_inflight : ℤ

pub record Config : Type 0 where
  pub worker_id : Text
  pub models : List ModelConfig

-- GET /v1/models: no response, or a status and the ids of a body that decodes.
pub data Response : Type 0 where
  unreachable : Response
  responded : ℕ → Option (List Text) → Response

skip_slash : ℕ → Text → Text
skip_slash c [] = if nat_beq c 47 then [] else c ∷ []
skip_slash c (d ∷ s) = c ∷ d ∷ s

-- strings.TrimRight for "/".
unfoldable pub trim_slashes : Text → Text
unfolding skip_slash
trim_slashes [] = []
trim_slashes (c ∷ s) = skip_slash c (trim_slashes s)

-- The id has no token, or its token is taken.
abbrev pub is_unusable : Dict Text Text → Text → Bool
is_unusable seen token = text_beq token [] || is_some (lookup token seen)

-- The loop over the listing; `seen` maps a token to the id that has claimed it.
unfoldable pub claims : Text → ℤ → Dict Text Text → List Text → List ModelConfig
claims url max_inflight seen [] = []
claims url max_inflight seen (id ∷ ids) =
    let token = slug id in
    let skip = is_unusable seen token in
    let rest = claims url max_inflight (if skip then seen else insert token id seen) ids in
    if skip
    then rest
    else record { name = id; engine = codes "openai_http"; url = url; max_inflight = max_inflight }
      ∷ rest

abbrev pub default_inflight : ModelConfig → ModelConfig
default_inflight m = if le_int m.max_inflight (pos 0) then record m { max_inflight = pos 4 } else m

-- `Defaults`; `fallback` is the host name with two random bytes.
unfoldable pub defaults : Text → Config → Config
defaults fallback c = record {
  worker_id = if text_beq c.worker_id [] then fallback else c.worker_id;
  models = map default_inflight c.models;
}

or_no_models : Text → List ModelConfig → Option Config
or_no_models fallback [] = none
or_no_models fallback (m ∷ ms) =
    some (defaults fallback (record { worker_id = []; models = m ∷ ms }))

-- `Discover`; `none` is an error.
unfoldable pub discover : Text → ℤ → Text → Response → Option Config
unfolding or_no_models
discover engine_url max_inflight fallback unreachable = none
discover engine_url max_inflight fallback (responded status none) = none
discover engine_url max_inflight fallback (responded status (some ids)) =
    if leb 200 status && ltb status 300
    then or_no_models fallback (claims (trim_slashes engine_url) max_inflight [] ids)
    else none
