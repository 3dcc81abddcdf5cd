-- ===== src/Runner/Health.antt =====
-- The health of internal/controlplane/runner.go over the relay, the projectors and the resyncs. Each
-- call of runProjectors makes a generation with a channel of its own; they are numbered from 1, and
-- 0 is the channel of newHealth, which is never closed.
pub mod Healthy
use inferbus.Base.{
  Bool, List, Option, [], false, if◌then◌else◌, not, suc, true, ℕ, ◌&&◌, ◌++◌, ◌<◌, ◌==◌, ◌||◌, ◌∷◌,
  ◌≤◌,
}
use inferbus.Base.{nat_eq}

pub data Ended : Type 0 where
  -- What RunRelay, RunKVProjectors or RunSQLProjector returns: nil, context.Canceled, or a real error.
  clean cancelled real_error : Ended

-- `closed` are the generations whose channel is closed, `launched` how many there have been, and
-- `installed` the one that `projFailed` points to. `running`: the projectors that `stop` refers to
-- have not been stopped.
pub record Process : Type 0 where
  pub relay_failed : Bool
  pub closed : List ℕ
  pub launched : ℕ
  pub installed : ℕ
  pub running : Bool

unfoldable pub contains : ℕ → List ℕ → Bool
contains g [] = false
contains g (h ∷ hs) = g == h || contains g hs

-- `newHealth`
abbrev pub new_health : Process
new_health = record {
  relay_failed = false;
  closed = [];
  launched = 0;
  installed = 0;
  running = false;
}

-- `ok`
unfoldable pub ok : Process → Bool
unfolding contains
ok p = not p.relay_failed && not (contains p.installed p.closed)

-- What happens in the process, in any order. `launches` and `installs` are the two statements with
-- which Run and resyncFn bring projectors up.
pub data Happening : Type 0 where
  relay_returns : Ended → Happening
  projector_returns : ℕ → Ended → Happening
  stops launches installs : Happening

abbrev pub is_real : Ended → Bool
is_real real_error = true
is_real cancelled = false
is_real clean = false

-- `watch`: the channel of the generation is closed by the first real error.
closed_by : ℕ → Ended → List ℕ → List ℕ
closed_by g e closed = if is_real e then g ∷ closed else closed

unfoldable pub happen : Process → Happening → Process
unfolding closed_by
happen p (relay_returns e) = record p { relay_failed = p.relay_failed || is_real e }
happen p (projector_returns g e) = record p { closed = closed_by g e p.closed }
happen p stops = record p { running = false }
happen p launches = record p { launched = suc p.launched; running = true }
happen p installs = record p { installed = p.launched }

unfoldable pub happen_all : Process → List Happening → Process
happen_all p [] = p
happen_all p (h ∷ hs) = happen_all (happen p h) hs

-- What `resyncFn` does; while ResyncKV runs, `during` happens. It returns the error of ResyncKV, and
-- brings the projectors up again whatever that is.
unfoldable pub resync : {E : Type 0} → List Happening → Option E → List Happening × Option E
resync during resync_err = (stops ∷ (during ++ (launches ∷ installs ∷ [])), resync_err)

-- Only a generation that has been launched returns.
abbrev pub CanHappen : Process → List Happening → Type 0
CanHappen p [] = Unit {0}
CanHappen p (projector_returns g e ∷ hs) =
    ((0 < g) × (g ≤ p.launched)) × CanHappen (happen p (projector_returns g e)) hs
CanHappen p (relay_returns e ∷ hs) = CanHappen (happen p (relay_returns e)) hs
CanHappen p (stops ∷ hs) = CanHappen (happen p stops) hs
CanHappen p (launches ∷ hs) = CanHappen (happen p launches) hs
CanHappen p (installs ∷ hs) = CanHappen (happen p installs) hs
