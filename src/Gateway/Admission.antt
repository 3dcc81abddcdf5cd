-- ===== src/Gateway/Admission.antt =====
-- Admission control: internal/gateway/admission.go, with the configuration of
-- internal/gateway/config.go. A time is a count of nanoseconds on the monotonic clock; a `uint64` is
-- a number below 2 ^ 64.
use inferbus.Base.{
  Bool, Bool-cases, Option, Option-cases, String, arith, false, if◌then◌else◌, inl, inr, le_int,
  leb, ltb, negsuc, none, pos, residue, some, true, ℕ, ℤ, ◌%◌, ◌+◌, ◌-◌, ◌<◌, ◌^◌, ◌↔◌, ◌≡◌, ◌≤◌,
}
use inferbus.Base.{string_eq}
use inferbus.Dict.{Dict, delete, insert, lookup, lookup-insert_self}

pub record AdmissionConfig : Type 0 where
  pub max_backlog : ℤ
  pub retry_after_seconds : ℤ
  pub overrides : Dict String ℤ

pub record AdmissionEntry : Type 0 where
  pub backlog : ℕ
  pub fetched : ℕ

abbrev pub Cache : Type 0
Cache = Dict String AdmissionEntry

abbrev pub cache_ttl : ℕ
cache_ttl = 1000000000

-- `retryAfter`
unfoldable pub retry_after : AdmissionConfig → ℤ
retry_after cfg = if le_int cfg.retry_after_seconds (pos 0) then pos 2 else cfg.retry_after_seconds

or_default : ℤ → Option ℤ → ℤ
or_default d none = d
or_default d (some limit) = limit

-- `limitFor`
unfoldable pub limit_for : AdmissionConfig → String → ℤ
unfolding or_default
limit_for cfg model = or_default cfg.max_backlog (lookup model cfg.overrides)

-- A time before the reading counts as no time after it: `Sub` is negative there.
unfoldable pub fresh_backlog : ℕ → Option AdmissionEntry → Option ℕ
fresh_backlog now none = none
fresh_backlog now (some e) = if leb cache_ttl (now - e.fetched) then none else some e.backlog

-- `cached`
unfoldable pub cached : ℕ → String → Cache → Option ℕ
cached now model cache = fresh_backlog now (lookup model cache)

-- `store`
unfoldable pub store : ℕ → String → ℕ → Cache → Cache
store now model backlog cache = insert model (record { backlog = backlog; fetched = now }) cache

-- What the times and the fetch are for one call: the clock when the cache is read and when it is
-- written, and the backlog that the fetch returns, `none` on an error.
pub record Reading : Type 0 where
  pub now : ℕ
  pub stored : ℕ
  pub answer : Option ℕ

abbrev fetched_backlog : Option ℕ → ℕ
fetched_backlog none = 0
fetched_backlog (some backlog) = backlog

-- `uint64(limit)` of a positive limit.
abbrev pub limit_nat : ℤ → ℕ
limit_nat (pos n) = n
limit_nat (negsuc n) = 0

allow_reading : Reading → String → ℕ → Cache → Option ℕ → Bool × Cache
allow_reading r model limit cache (some backlog) = (ltb backlog limit, cache)
allow_reading r model limit cache none =
    let backlog = fetched_backlog r.answer in
    (ltb backlog limit, store r.stored model backlog cache)

-- `allow` of an enabled checker: the verdict, and the cache afterwards.
unfoldable pub allow : AdmissionConfig → Reading → String → Cache → Bool × Cache
unfolding allow_reading
allow cfg r model cache =
    let limit = limit_for cfg model in
    if le_int limit (pos 0)
    then (true, cache)
    else allow_reading r model (limit_nat limit) cache (cached r.now model cache)

pub record ConsumerInfo : Type 0 where
  pub num_pending : ℕ
  pub num_ack_pending : ℤ

-- `backlogOf`
unfoldable pub backlog_of : ConsumerInfo → ℕ
backlog_of info = (info.num_pending + residue info.num_ack_pending) % 2 ^ 64

module _ {H : Type 0} where
  refreshed : String → Dict String H → Option ConsumerInfo → Option ℕ × Dict String H
  refreshed model consumers none = (none, delete model consumers)
  refreshed model consumers (some info) = (some (backlog_of info), consumers)

  remembered : String → H → Dict String H → Option ConsumerInfo → Option ℕ × Dict String H
  remembered model cons consumers none = (none, consumers)
  remembered model cons consumers (some info) =
      (some (backlog_of info), insert model cons consumers)

  info_of : (H → Option ConsumerInfo) → H → Option ConsumerInfo → Option ConsumerInfo
  info_of info cons none = info cons
  info_of info cons (some cached_info) = some cached_info

  resolved :
      String
      → (H → Option ConsumerInfo)
      → Dict String H
      → Option (H × Option ConsumerInfo)
      → Option ℕ × Dict String H
  resolved model info consumers none = (none, consumers)
  resolved model info consumers (some (cons, cached_info)) =
      remembered model cons consumers (info_of info cons cached_info)

  by_handle :
      String
      → (H → Option ConsumerInfo)
      → Option (H × Option ConsumerInfo)
      → Dict String H
      → Option H
      → Option ℕ × Dict String H
  unfolding resolved refreshed
  by_handle model info resolve consumers (some cons) = refreshed model consumers (info cons)
  by_handle model info resolve consumers none = resolved model info consumers resolve

  -- `fetchBacklog`: `info` is what `Info` answers for a handle, `resolve` what `js.Consumer` answers,
  -- with the handle's cached info. The handles it has memoized are its state.
  unfoldable pub fetch_backlog :
      String
      → (H → Option ConsumerInfo)
      → Option (H × Option ConsumerInfo)
      → Dict String H
      → Option ℕ × Dict String H
  unfolding by_handle resolved refreshed remembered info_of
  fetch_backlog model info resolve consumers =
      by_handle model info resolve consumers (lookup model consumers)

-- The reading that counts: a fresh one in the cache, or else the one fetched.
abbrev pub counted : Option ℕ → Option ℕ → ℕ
counted none answer = fetched_backlog answer
counted (some backlog) answer = backlog

-- A request is rejected exactly when the model's limit is positive and the reading that counts, the
-- fresh one in the cache or else the one fetched, reaches it. An error of the fetch counts as 0.
pub allow-rejects_iff :
    (cfg : AdmissionConfig) (r : Reading) (model : String) (cache : Cache)
    → ((allow cfg r model cache).0 ≡ false) ↔ (
        (le_int (limit_for cfg model) (pos 0) ≡ false)
        × (limit_nat (limit_for cfg model) ≤ counted (cached r.now model cache) r.answer))
unfolding allow allow_reading
allow-rejects_iff cfg r model cache = elim (Option-cases (cached r.now model cache)) [
  | inl absent ↦ ground (arith, Bool-cases (le_int (limit_for cfg model) (pos 0)))
  | inr present ↦ ground (arith, Bool-cases (le_int (limit_for cfg model) (pos 0)))
]

-- A reading is served for a second: a call for the same model that reads the clock less than a
-- second after the call before it wrote its answer gives the same verdict, whatever a fetch would
-- say, and leaves the cache alone.
pub allow-allow :
    (cfg : AdmissionConfig) (r s : Reading) (model : String) (cache : Cache)
    → cached r.now model cache ≡ none
    → s.now < r.stored + cache_ttl
    → allow cfg s model (allow cfg r model cache).1
      ≡ ((allow cfg r model cache).0, (allow cfg r model cache).1)
unfolding allow allow_reading cached fresh_backlog store
allow-allow cfg r s model cache stale soon = ground (
  arith,
  stale,
  Bool-cases (le_int (limit_for cfg model) (pos 0)),
  lookup-insert_self model (record { backlog = fetched_backlog r.answer; fetched = r.stored })
      cache,
)
