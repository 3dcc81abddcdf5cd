-- ===== src/Lib.antt =====
-- inferbus: a gateway, a control plane and workers for inference requests over NATS JetStream.
--
-- The control plane (internal/controlplane) keeps orgs, API keys and aliases as event-sourced
-- aggregates. A decider turns a command into events, the event store (es-lite, not in this
-- repository) appends them, and two projectors write what the gateway needs into the KV buckets
-- KEYS and ALIASES. The harvester's budget ledger (internal/harvester/budget.go) watches KEYS, counts
-- usage and writes BUDGETS. The gateway (internal/gateway) watches the three buckets, decides on each
-- request, merges the alias's parameters into it and publishes it on a subject of internal/wire; the
-- frames of the answer come back through internal/relay. A worker (internal/worker) takes the request
-- off the queue, calls an engine, publishes the frames and one usage event, which the harvester
-- (internal/harvester/harvester.go) inserts into its sink in batches. For the admin API the SQL
-- projector (internal/controlplane/readmodel.go) keeps rows of the aggregates.
--
-- Files and sources:
-- - Base, Dict, Text: numbers of the machine, Go maps as association lists, text as code points.
-- - Wire, Wire.Slug: es-lite's encoded event and protobuf as a parameter; Slug, ReqSubject,
--   RespSubject, CancelSubject, Durable, UsageSubject of internal/wire/subjects.go.
-- - Wire.Types: the types of internal/wire/types.go.
-- - Org, ApiKey, Alias: `decide` and `evolve` are Decide and Evolve of
--   internal/controlplane/{org,apikey,alias}/decider.go, `run` folds a list of commands, and the
--   Codec modules are Encode and Decode of codec.go.
-- - Base62: base62Encode of internal/controlplane/keys.go, its loop on fuel 43, which is enough for 32
--   bytes.
-- - Projector: the loop of `apply` in internal/controlplane/kvproj.go. Projector.Keys and
--   Projector.Aliases are the two applyOne, every KV operation of which may fail with or without its
--   effect; Projector.StreamId is aliasStreamID (admin.go) and SplitAliasStreamID. Projector.Keys.World
--   runs commands and projection together. Projector.Marker is KVMarker with strconv's decimal numbers,
--   Projector.Resync is ResyncKV and the start of RunKVProjectors as a monad over the buckets, any step
--   of which may fail; Projector.Quiet, Projector.Keys.Replay, Projector.Keys.Log,
--   Projector.Keys.Rebuild and Projector.Aliases.Log replay a log onto emptied buckets.
-- - Runner: Run of internal/controlplane/runner.go as the list of what it starts and stops;
--   Runner.Health: health, and what resyncFn does to it.
-- - Budget, Budget.Keys: AddUsage, loadBaseline (split where the mutex is released), checkMonthRollover
--   and the KEYS snapshots of internal/harvester/budget.go. Budget.Slot and Budget.Keys.Pointwise see
--   the ledger at one key id. Budget.Flush: flushOne in three steps, between which any other operation
--   of the ledger may come. Budget.Flush.Tick: flushTick, loadBaselines and rebaselineAll without
--   interruption. Budget.Watch: consumeKeys, interleaved with these steps, and the retries of watchKeys.
-- - Gateway.Iam, Gateway.Watch: the two IAM providers, consumeKV and the backoff of watchKV in
--   internal/gateway/kviam.go. Gateway.Admission: admission.go. Gateway.Params: params.go.
--   Gateway.Dispatch: dispatch and the tests it calls in gateway.go; Gateway.Dispatch.Models: models
--   and readyz; Gateway.Responses: streamOut and resultOut.
-- - Relay: Listener.Next of internal/relay/relay.go.
-- - Worker: handle, terminalError, meter and metaOf of internal/worker/worker.go, as the list of what is
--   published and acked. Worker.Answer puts worker, relay and gateway together; its `carried` is a frame
--   through json.Marshal and json.Unmarshal. Worker.Discover:
--   Discover of discover.go, on the ids that the engine lists.
-- - OpenAiHttp: internal/engine/openaihttp/openaihttp.go, with the HTTP exchange as a function of the
--   body that is sent.
-- - Harvester: the consumer of internal/harvester/harvester.go with the row of sink.go; a delivery, a
--   tick, or the end of an insertion is an input, in any order.
-- - ReadModel: the rows and MemReadStore of readmodel.go; ReadModel.Apply: the SQL projector.
--   ReadModel.Sorted: the order of its lists. ReadModel.Orgs and ReadModel.Keys interleave commands and projection.
-- - Admin: Authenticate and Authorize of internal/controlplane/auth.go and the checks of admin.go;
--   Admin.Decisions: requests and answers; Admin.Handlers: the handlers that write, up to the command
--   that an aggregate is sent; Admin.Answers: what they answer afterwards; Admin.Reads: the handlers
--   that read, with usage.go and workers.go in Admin.Sources. Admin.Current puts the checks together
--   with the read model.
-- - Tests: the theorems at concrete inputs.
--
-- Bounds. int64 and uint64 arithmetic of the ledger and of the backlog wraps at 2 ^ 64. Counters that
-- cannot reach their bound (the frames of one response, durations in nanoseconds) are numbers. Every
-- loop is structural recursion over a list, but for that of Base62 and the decimal digits of
-- Projector.Marker, on fuel 20, which is enough for a uint64. A Go map is a
-- list of its entries in the order in which the code happens to range over it.
--
-- Parameters, not part of this repository's code: protobuf's Marshal and Unmarshal (records of type
-- Proto, with the law that what was marshalled unmarshals to the same message), encoding/json (the
-- record Json), SHA-256 (the function hash_key), the answers of NATS and of the clock (fields of
-- Arrival, Reading and Fault), the engine and the contexts of a request (the record Served), the
-- success of an insertion, what Runtime.Load answers (the record Loads), how a Handle ends (Handled),
-- what json.Marshal writes of a raw payload (the function compact), the rows of ClickHouse and the listing of MODELS (the record Sources), which of the calls of Run
-- fail (World), and token verification and es.NewStreamID (fields of Admin).
--
-- Not modelled: the tickers of the ledger, PgReadStore and the other SQL and ClickHouse statements, the
-- consumers of the projectors, the Bifrost engine, the consumers and heartbeats around a worker's
-- requests, configuration and metrics.
pub mod Base
pub mod Dict
pub mod Text
pub mod OpenAiHttp
pub mod Org
pub mod Wire
pub mod ApiKey
pub mod Admin
pub mod Alias
pub mod Projector
pub mod Base62
pub mod Budget
pub mod Gateway
pub mod ReadModel
pub mod Relay
pub mod Worker
pub mod Harvester
pub mod Runner
pub mod Tests
