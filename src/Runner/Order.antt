-- ===== src/Runner/Order.antt =====
-- The order in which Run of internal/controlplane/runner.go starts and stops its parts.
use inferbus.Base.{
  Bool, List, Option, [], arith, false, if◌then◌else◌, none, not, refl, some, true, ◌&&◌, ◌∷◌, ◌≡◌,
}
use inferbus.Runner.{
  Effect, Exit, Outcome, World, close_pool, close_usage_reader, ctx_done, http_ended, open_pool,
  open_usage_reader, outcome, relay_failed, run, server_ended, shutdown_http, start_http,
  start_projectors, start_relay, stop_projectors, stop_relay,
}

-- Which parts are up.
pub record Parts : Type 0 where
  pub relay : Bool
  pub pool : Bool
  pub reader : Bool
  pub projectors : Bool
  pub http : Bool

abbrev pub all_down : Parts
all_down = record { relay = false; pool = false; reader = false; projectors = false; http = false }

abbrev given : Bool → Parts → Option Parts
given ok p = if ok then some p else none

-- One effect; `none` if it comes out of order. A part is started once, on top of the parts that it
-- needs, and stopped once, when nothing that needs it is up.
abbrev perform : Parts → Effect → Option Parts
perform p start_relay = given (not p.relay) (record p { relay = true })
perform p open_pool = given (not p.pool) (record p { pool = true })
perform p open_usage_reader = given (not p.reader) (record p { reader = true })
perform p start_projectors =
    given (not p.projectors && (p.relay && p.pool)) (record p { projectors = true })
perform p start_http = given (not p.http && p.projectors) (record p { http = true })
perform p shutdown_http = given p.http (record p { http = false })
perform p http_ended = given p.http (record p { http = false })
perform p stop_projectors = given (p.projectors && not p.http) (record p { projectors = false })
perform p stop_relay = given (p.relay && not p.projectors) (record p { relay = false })
perform p close_usage_reader = given (p.reader && not p.http) (record p { reader = false })
perform p close_pool = given (p.pool && not p.projectors) (record p { pool = false })

abbrev performed : Option Parts → List Effect → Option Parts
performed none es = none
performed (some p) [] = some p
performed (some p) (e ∷ es) = performed (perform p e) es

abbrev pub IsOrderly : Outcome → Type 0
IsOrderly (outcome es x) = performed (some all_down) es ≡ some all_down

-- However Run ends, it has stopped every part that it started, and only then returns: HTTP before the
-- projectors, the projectors before the relay and before the pool that they write to.
pub run-IsOrderly : (w : World) → IsOrderly (run w)
unfolding run
run-IsOrderly w = go w w.exit refl
  where
    go : (v : World) (x : Exit) → v.exit ≡ x → IsOrderly (run v)
    go v ctx_done e = ground (arith, e)
    go v relay_failed e = ground (arith, e)
    go v (server_ended x) e = ground (arith, e)
