-- ===== src/Lib.antt =====
-- A verification library of the gateway's core: the registry of attested sessions with its log on
-- disk, the canonical JSON that session ids are hashed from, the router that spreads requests over the
-- upstreams, and the service that verifies an upstream, forwards a request and signs its receipt.
--
-- The parts and the code they model:
--
-- - Canonical: src/aci/canonical.rs. `canonicalize` writes a JSON value (Json) with its fields in the
--   order of their keys' UTF-16 units; Canonical.Units is that order. Numbers are written by Number.
-- - Session: the records of src/aggregator/session.rs, `content_id`, `seal` and the check of the
--   evidence's digest. The id of a session is the hash of its canonical content.
-- - Session.Index: `SessionIndex` of src/aggregator/session_store.rs, the sessions by id and their
--   ids in buckets by deadline (Expiry). A method that changes the index returns the new one.
--   Session.Coherent states how the two maps agree, Session.Eviction what eviction drops, and
--   Session.Refinement compares histories of calls with a registry that never evicts.
-- - Session.Log: `JsonlSessionStore` of the same file: opening, which replays the log, appending and
--   compacting. A log is its bytes. Under it, Lines is about whole lines, Inserted about replayed
--   insertions, Recovery about appending, Compaction about compacting, Tamper about any bytes.
-- - Router: src/middleware/router.rs with the types of src/middleware/config.rs and
--   src/middleware/types.rs. Router.Pressure holds the load of a route, the order of routes and the
--   status codes; Router.Selection is `RouterState::select`; Router.Text the bounded routing text;
--   Router.Order the order in which routes are tried; Router.InFlight the guards that count running
--   requests. What is proved of them stands, beside Router.Order, in Least, Choice, Prefix, CommonPrefix,
--   History, Status and Accounting.
-- - Keyset: src/aggregator/keyset_epoch.rs and the list of src/aggregator/revocation_store.rs, from
--   which the launcher takes the epoch of the keyset it serves, and the keyset itself of
--   src/aci/types.rs with the digests of src/aci/identity.rs.
-- - Receipts: `InMemoryReceiptStore` of src/aggregator/service/receipt_store.rs with the receipt of
--   src/aci/types.rs; Receipts.Coherent is how its maps agree, Receipts.History what a read finds.
-- - Receipts.Builder: `ReceiptBuilder` of src/aci/receipt.rs, which the service calls while a request
--   passes, over the tree of Receipts.Tree (src/aci/types.rs) that Canonical writes; its names and
--   errors are in Receipts.Types. Calls is any list of its calls, Log and Events what the events then
--   are, Finalize the signing.
-- - Upstream: the configuration of src/aggregator/upstream_config/mod.rs. Upstream.Validation is
--   `validate_config` of validation.rs there, Upstream.Targets its verification targets and refresh
--   intervals, Upstream.Build the `build_state` of builders.rs, which fills the model router of
--   src/aci/upstream/router.rs (Upstream.Router). Upstream.Prepare is that router's `prepare` and
--   `forward`. Proofs: Build.Models, Build.Complete, Prepare.Same, Targets.Distinct.
-- - Streaming: `SseTransformStream` of src/middleware/stream_transform.rs, over any transform: the
--   queue is the list of all outputs, and a poll of the inner stream is an argument. Split, Drain and
--   Chunks are about its buffer. Streaming.Messages and its Handler are the transform
--   `openai_to_anthropic_messages_stream`, with Int64 for `i64` and Reads for the functions on texts;
--   `apply` there is what the adapter takes. Blocks, Whole, Tools and Stops are about its events.
--   Streaming.KeepAlive is `KeepAliveStream` of src/middleware/sse.rs.
-- - ErrorResponse: the statuses and the envelopes of src/middleware/errors.rs; ErrorResponse.Images its
--   search for an image of the request that the upstream could not fetch.
-- - Service: src/aggregator/service. Service.Errors has its errors (errors.rs). Service.Claims is
--   claims.rs: the claims of a verification event, with Instance for those of one Chutes instance.
--   Service.Sessions is how forward.rs seals, renews and cites the sessions of an event, over the
--   interface `SessionStore` that Session.Index fills (`in_memory`). Service.Forward is the gate of
--   forward.rs and its forward that verifies again, with the verifier and the upstream as operations on
--   a world. Service.Failover has the types of wire.rs and, with Prefix, Answer and Loop, the candidates of
--   `forward_chat_completion_for_middleware` in middleware.rs, which call all of these and begin a
--   receipt with Receipts.Builder. Service.Direct is `forward_chat_completion_request` of forward.rs,
--   which does all this for a request without a middleware. Service.Finalize ends the receipt and stores it, and
--   Service.SseChatId is `SseChatIdParser` of streaming.rs, which it reads a stream's ids with. Proofs:
--   Claims.Honest, Claims.Slice, Sessions.Content, Sessions.Hashed, Sessions.Live, Sessions.Origin,
--   Sessions.Cited, Forward.Gated, Failover.Bounded, Failover.Own, Failover.Attempts, Failover.Order,
--   Finalize.Disclosed, Direct.Receipted, Images.Named.
-- - Base, Base.Lists, Dict, Expiry: shared names, texts, lists, maps and buckets.
-- - Tests: concrete inputs.
--
-- How the code is read. A text is the list of its code points, and bytes are a list of numbers. A
-- number of the program is a natural number with its wrap-around written out; `Instant` and the
-- clock are numbers that the caller passes. A hash map is an association list. Methods under a lock
-- are functions of the state, so an interleaving is a list of calls or events.
--
-- Parameters, since their code is not in the repository: the JSON reader and writer of a log line
-- (`LineCodec`, with `RoundTrips` where a line must be read back) and of a request's body (`ReadsBack`,
-- up to floats, as Json.Alike says), the value that serde makes of a session's content, SHA-256 and
-- base64 (`Codecs`), the hex encoding, the lossy decoding of UTF-8, the milliseconds of the clock, and the arithmetic of floats (`Floats`). Of the
-- repository's own code that is not modelled, the key provider's keys and signatures, the building of a
-- provider's backend, of the verifier and of the configuration's digest, each of which may fail, the
-- upstream and its verifier, the encryption of a response and the new id
-- of a receipt are parameters too. A write to the log lands whole or breaks off after
-- some of its bytes; the disk's answer is an argument.
--
-- Bounds: the routing text has at most 16384 characters; counters have 64 bits, so the running
-- counts are followed for fewer than 2^64 events and a log for fewer than 2^64 lines. Loops are
-- recursions on lists; the loop of `drain_buffer` has as many rounds as its buffer has bytes, each of
-- which takes a delimiter out; the launcher's loop runs for the two rounds more than there are revocations
-- that the code gives it. The forward that verifies again has the two rounds of
-- CHANNEL_BINDING_REVERIFY_ATTEMPTS, as a number that goes down.
--
-- Not modelled: the file lock, the HTTP application, the metrics and other I/O, and the parts that
-- PROJECT.json lists as such: encryption, verifiers, what a backend does on the wire and the files of
-- the configuration. Of the service, the streamed forward of a request without a middleware, the wrappers of
-- a response stream, its keyset and its attestation report. Of the middleware, the transforms of
-- request and response bodies and of streams of Anthropic events, and completion.rs.
pub mod Base
pub mod Dict
pub mod Expiry
pub mod Json
pub mod Number
pub mod Canonical
pub mod Session
pub mod Router
pub mod Keyset
pub mod Upstream
pub mod Streaming
pub mod ErrorResponse
pub mod Receipts
pub mod Service
mod Tests
