-- ===== src/Runner.antt =====
-- The process of the control plane: internal/controlplane/runner.go. What Run starts and stops on
-- each way out, and the health that /readyz and the admin API read.
pub mod Order
pub mod Health
use inferbus.Base.{
  Bool, List, Option, String, [], if◌then◌else◌, none, not, some, ◌&&◌, ◌++◌, ◌==◌, ◌∷◌,
}
use inferbus.Base.{string_eq}

-- What the parts that Run brings up answer: `true` is an error.
pub data Exit : Type 0 where
  ctx_done relay_failed : Exit
  -- ListenAndServe returns; `some` is an error other than ErrServerClosed.
  server_ended : Option String → Exit

pub record World : Type 0 where
  pub stream_fails : Bool
  pub pool_fails : Bool
  pub read_store_fails : Bool
  pub has_usage_reader : Bool
  pub issuer : String  -- of `cfg.OIDC`
  pub verifier_fails : Bool
  pub exit : Exit
  pub ctx_error : Option String  -- `ctx.Err()` at the end

-- What Run does, in its order.
pub data Effect : Type 0 where
  start_relay stop_relay open_pool close_pool open_usage_reader close_usage_reader start_projectors
        stop_projectors start_http shutdown_http :
      Effect
  -- The server has stopped by itself.
  http_ended : Effect

pub data Outcome : Type 0 where
  outcome : List Effect → Option String → Outcome

abbrev after : List Effect → Outcome → Outcome
after es (outcome fs x) = outcome (es ++ fs) x

-- `defer c.Close()` of the usage reader, if there is one.
opened_reader : Bool → List Effect
opened_reader has = if has then open_usage_reader ∷ [] else []

closed_reader : Bool → List Effect
closed_reader has = if has then close_usage_reader ∷ [] else []

abbrev serve_failed : Option String → Option String → Option String
serve_failed none ctx_error = ctx_error
serve_failed (some x) ctx_error = some x

-- The `select`, up to the end of HTTP, and the error that Run returns.
served : World → Exit → Outcome
served w ctx_done = outcome (shutdown_http ∷ []) w.ctx_error
served w relay_failed = outcome (shutdown_http ∷ []) (some "relay failed")
served w (server_ended x) = outcome (http_ended ∷ []) (serve_failed x w.ctx_error)

-- "Shutdown reverses assembly order", and then the deferred calls.
taken_down : World → Outcome → Outcome
unfolding closed_reader
taken_down w (outcome es x) =
    outcome
      (es
        ++ (stop_projectors ∷ stop_relay ∷ (closed_reader w.has_usage_reader ++ (close_pool ∷ []))))
      x

-- Run from the projectors on.
assembled : World → Outcome
unfolding served taken_down closed_reader
assembled w =
    if not (w.issuer == "") && w.verifier_fails
    then outcome
        (start_projectors
          ∷ stop_projectors
          ∷ stop_relay
          ∷ (closed_reader w.has_usage_reader ++ (close_pool ∷ [])))
        (some "oidc verifier")
    else taken_down w (after (start_projectors ∷ start_http ∷ []) (served w w.exit))

-- `Run`
unfoldable pub run : World → Outcome
unfolding assembled opened_reader
run w =
    if w.stream_fails
    then outcome [] (some "ensure control stream")
    else if w.pool_fails
    then outcome (start_relay ∷ stop_relay ∷ []) (some "read store pool")
    else if w.read_store_fails
    then outcome (start_relay ∷ open_pool ∷ stop_relay ∷ close_pool ∷ []) (some "read store")
    else after (start_relay ∷ open_pool ∷ opened_reader w.has_usage_reader) (assembled w)
