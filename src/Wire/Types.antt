-- ===== src/Wire/Types.antt =====
-- The JSON structs of internal/wire/types.go. An `int` or `int64` is an integer, a time a count of
-- nanoseconds, a payload its text.
use inferbus.Base.{Bool, List, Option, String, pos, ℕ, ℤ}

pub record WireError : Type 0 where
  pub code : String
  pub message : String
  pub http_status : ℤ

pub record Usage : Type 0 where
  pub prompt_tokens : ℤ
  pub completion_tokens : ℤ
  pub cached_tokens : ℤ

abbrev pub no_usage : Usage
no_usage = record { prompt_tokens = pos 0; completion_tokens = pos 0; cached_tokens = pos 0 }

pub record Message : Type 0 where
  pub kind : String
  pub seq : ℤ
  pub payload : String
  pub error : Option WireError
  pub usage : Option Usage

pub record UsageEvent : Type 0 where
  pub req_id : String
  pub org : String
  pub project : String
  pub key_id : String
  pub alias : String
  pub model : String
  pub provider : String
  pub kind : String
  pub status : String
  pub error_code : String
  pub worker_id : String
  pub usage : Usage
  pub ttft_millis : ℤ
  pub duration_millis : ℤ
  pub queue_millis : ℤ
  pub estimated : Bool
  pub ts : ℕ

pub record WorkerAdModel : Type 0 where
  pub name : String
  pub engine : String
  pub max_inflight : ℤ

-- A worker's advertisement in the MODELS bucket.
pub record WorkerAd : Type 0 where
  pub worker_id : String
  pub models : List WorkerAdModel
  pub started_at : ℕ
  pub last_seen : ℕ
