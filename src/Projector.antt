-- ===== src/Projector.antt =====
-- The KV projectors: internal/controlplane/kvproj.go. This file has what both share: the faults of
-- a KV operation, envelopes, errors, and the loop of `apply`, which the two projectors repeat word
-- for word and which takes its `applyOne` here as a parameter.
pub mod StreamId
pub mod Delivery
pub mod Keys
pub mod Aliases
pub mod Quiet
pub mod Marker
pub mod Resync
use inferbus.Base.{
  string_eq, Bool, List, Option, String, [], if◌then◌else◌, is_some, leb, none, some, ℕ, ◌∷◌,
}
use inferbus.Wire.{EncodedEvent}

-- How the bucket answers one operation: it is done; it is refused and has no effect; or it has its
-- effect and the answer is an error all the same (a timeout).
pub data Fault : Type 0 where
  fine lost unacked : Fault

-- What the source reads of an `es.Envelope`.
pub record Envelope : Type 0 where
  pub global_position : ℕ  -- uint64
  pub stream_type : String
  pub stream_id : String
  pub event : EncodedEvent

pub data Error : Type 0 where
  kv_failed bad_stream_id undecodable undecodable_entry unknown_key no_entry marker_failed
        store_failed load_failed no_project :
      Error

-- The next fault of a schedule; past its end every operation is done.
abbrev pub next_fault : List Fault → Fault
next_fault [] = fine
next_fault (f ∷ fs) = f

abbrev pub later_faults : List Fault → List Fault
later_faults [] = []
later_faults (f ∷ fs) = fs

-- A projector over its store `S`: `pos`, the sticky `failed`, the position that the marker holds,
-- and the faults to come.
pub record Projector (S : Type 0) : Type 0 where
  pub store : S
  pub pos : ℕ
  pub failed : Option Error
  pub saved : ℕ
  pub faults : List Fault

-- What `applyOne` returns: the store, the faults left, and the error.
abbrev pub Applied : Type 0 → Type 0
Applied S = S × List Fault × Option Error

module _ {S : Type 0} (is_own : String → Bool)
    (apply_one : S → List Fault → Envelope → Applied S) where
  -- `p.pos = e.GlobalPosition` and `p.marker.Save`.
  advance : Projector S → Envelope → Projector S
  advance p e = elim (next_fault p.faults) [
    | fine ↦ record p {
      pos = e.global_position;
      saved = e.global_position;
      faults = later_faults p.faults;
    }
    | lost ↦ record p {
      pos = e.global_position;
      failed = some marker_failed;
      faults = later_faults p.faults;
    }
    | unacked ↦ record p {
      pos = e.global_position;
      saved = e.global_position;
      failed = some marker_failed;
      faults = later_faults p.faults;
    }
  ]

  after_one : Projector S → Envelope → Applied S → Projector S
  after_one p e (store, faults, none) = advance (record p { store = store; faults = faults }) e
  after_one p e (store, faults, some x) = record p {
    store = store;
    faults = faults;
    failed = some x;
  }

  -- One round of the loop.
  unfoldable pub deliver : Projector S → Envelope → Projector S
  unfolding advance after_one
  deliver p e =
      if leb e.global_position p.pos
      then p
      else if is_own e.stream_type
      then after_one p e (apply_one p.store p.faults e)
      else advance p e

  -- The loop, which returns at the first error.
  unfoldable pub deliver_all : Projector S → List Envelope → Projector S
  deliver_all p [] = p
  deliver_all p (e ∷ es) =
      let q = deliver p e in let rest = deliver_all q es in if is_some q.failed then q else rest

  -- `apply`: nothing is touched once an error is latched.
  unfoldable pub apply : Projector S → List Envelope → Projector S
  apply p es = if is_some p.failed then p else deliver_all p es
