-- ===== src/Projector/Quiet.antt =====
-- A projector of internal/controlplane/kvproj.go that runs with no fault to come, over a log whose
-- positions grow.
use inferbus.Base.{Bool, List, String, [], arith, false, none, true, ℕ, ◌<◌, ◌∷◌, ◌≡◌, ◌≤◌}
use inferbus.Projector.{Applied, Envelope, Fault, Projector, apply, deliver, deliver_all}

-- The positions grow, from `n` on.
abbrev pub Ascends : ℕ → List Envelope → Type 0
Ascends n [] = Unit {0}
Ascends n (e ∷ log) = (n < e.global_position) × Ascends e.global_position log

abbrev pub last_position : ℕ → List Envelope → ℕ
last_position n [] = n
last_position n (e ∷ log) = last_position e.global_position log

pub record IsQuiet {S : Type 0} (n : ℕ) (q : Projector S) : Type 0 where
  pub at : q.pos ≡ n
  pub marked : q.saved ≡ n
  pub running : q.failed ≡ none
  pub no_faults : q.faults ≡ []

last_position_le : (n : ℕ) (log : List Envelope) → Ascends n log → n ≤ last_position n log
last_position_le n [] asc = omega arith
last_position_le n (e ∷ log) asc =
    omega (arith, asc.0, last_position_le e.global_position log asc.1)

module _ {S : Type 0} (is_own : String → Bool)
    (apply_one : S → List Fault → Envelope → Applied S) where
  module _ (n : ℕ) (q : Projector S) (e : Envelope) (v : IsQuiet n q)
      (later : n < e.global_position) where
    -- Another stream's envelope moves the position and the marker only.
    pub deliver-IsQuiet_other :
        is_own e.stream_type ≡ false
        → IsQuiet e.global_position (deliver is_own apply_one q e)
          × ((deliver is_own apply_one q e).store ≡ q.store)
    unfolding deliver
    deliver-IsQuiet_other foreign = ground (arith, v.at, v.running, v.no_faults, later, foreign)

    pub deliver-IsQuiet_own :
        (s : S)
        → is_own e.stream_type ≡ true
        → apply_one q.store [] e ≡ (s, [], none)
        → IsQuiet e.global_position (deliver is_own apply_one q e)
          × ((deliver is_own apply_one q e).store ≡ s)
    unfolding deliver
    deliver-IsQuiet_own s own h = ground (arith, v.at, v.running, v.no_faults, later, own, h)

  pub apply-nil : (q : Projector S) → apply is_own apply_one q [] ≡ q
  unfolding apply deliver_all
  apply-nil q = ground arith

  -- What stands at or below the position is skipped.
  pub apply_old :
      (q : Projector S) (n : ℕ) (log : List Envelope)
      → q.failed ≡ none
      → Ascends n log
      → last_position n log ≤ q.pos
      → apply is_own apply_one q log ≡ q
  unfolding apply deliver_all deliver
  apply_old q n [] running asc reached = ground arith
  apply_old q n (e ∷ log) running asc reached = ground (
    arith,
    last_position_le e.global_position log asc.1,
    apply_old q e.global_position log running asc.1 reached,
  )
