-- ===== src/Projector/Aliases.antt =====
-- The ALIASES projector: aliasProjector of internal/controlplane/kvproj.go, and the alias entry of
-- internal/cpkv/cpkv.go. A bucket value is the entry that its bytes decode to, or `none`.
pub mod View
pub mod Log
use inferbus.Base.{string_eq, List, Option, String, none, some, ◌==◌}
use inferbus.Dict.{Dict, delete, insert}
use inferbus.Text.{text_eq, Text, codes}
use inferbus.Wire.{Coded, coded, refused}
use inferbus.Alias.{Event, alias_deleted, alias_set, unset}
use inferbus.Alias.Codec.{Protos, decode}
use inferbus.Projector.{
  Applied, Envelope, Fault, Projector, apply, bad_stream_id, fine, kv_failed, later_faults, lost,
  next_fault, unacked, undecodable,
}
use inferbus.Projector.StreamId.{Split, alias_key, bad, scope_name, split_alias_stream_id}

pub record AliasEntry : Type 0 where
  pub target : String
  pub params : Dict String String

abbrev pub Aliases : Type 0
Aliases = Dict Text (Option AliasEntry)

-- One bucket operation: `bucket'` is the bucket after it, if it has its effect.
abbrev operate : Aliases → Aliases → List Fault → Applied Aliases
operate bucket bucket' faults = elim (next_fault faults) [
  | fine ↦ (bucket', later_faults faults, none)
  | lost ↦ (bucket, later_faults faults, some kv_failed)
  | unacked ↦ (bucket', later_faults faults, some kv_failed)
]

-- The switch of `applyOne`, for the alias stored under `key`.
unfoldable pub apply_event : Text → Event → Aliases → List Fault → Applied Aliases
apply_event key (alias_set target params) bucket faults =
    operate bucket (insert key (some (record { target = target; params = params })) bucket) faults
apply_event key alias_deleted bucket faults = operate bucket (delete key bucket) faults
apply_event key unset bucket faults = (bucket, faults, none)

with_event : Text → Coded Event → Aliases → List Fault → Applied Aliases
with_event key (refused x) bucket faults = (bucket, faults, some undecodable)
with_event key (coded e) bucket faults = apply_event key e bucket faults

with_parts : Split → Coded Event → Aliases → List Fault → Applied Aliases
unfolding with_event
with_parts (bad x) e bucket faults = (bucket, faults, some bad_stream_id)
with_parts (scope_name scope name) e bucket faults =
    with_event (alias_key scope name) e bucket faults

-- `applyOne`: the stream id is split first, then the event decoded.
unfoldable pub aliases_apply_one : Protos → Aliases → List Fault → Envelope → Applied Aliases
unfolding with_parts
aliases_apply_one p bucket faults e =
    with_parts (split_alias_stream_id (codes e.stream_id)) (decode p e.event) bucket faults

unfoldable pub aliases_apply : Protos → Projector Aliases → List Envelope → Projector Aliases
aliases_apply p = apply (λ t. t == "alias") (aliases_apply_one p)
