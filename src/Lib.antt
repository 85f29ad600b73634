-- ===== src/Lib.antt =====
-- Verification library of the game telemetry collector, a Go service that takes game telemetry over
-- gRPC, authenticated by bearer tokens, and stores it in several backends.
--
-- An event comes in by a handler of pkg/service/telemetry.go, which checks the request, reads the
-- user id from the token and calls `Submit` of the processor of its kind. `Submit` (pkg/processor/
-- processor.go) asks the deduplicator (pkg/dedup) and sends the event on a channel; each worker
-- receives events into a batcher of its own (pkg/processor/batcher.go), which flushes by size or by
-- time; `processBatch` then hands the batch to every storage plugin, in a goroutine for each (pkg/storage/plugins).
--
-- Prelude.antt: shared helpers: Boolean tests, lists over the native numbers, byte texts, integers,
-- results.
-- Runtime.antt: contexts and buffered channels of Go.
-- Batcher.antt: pkg/processor/batcher.go. `add`, `flush`, `timeout_flush`, `flush_all` and `size` are
-- `Add`, `flush`, `timeoutFlush`, `Flush` and `Size`; the flush function's argument is a result.
-- Processor.antt: pkg/processor/processor.go, the state that the goroutines share. `submit` goes through
-- the stages of `Submit`; `write_to_plugin`, `shutdown` and `stats` are the
-- methods of these names.
-- System.antt: the goroutines of one processor, callers of `Submit`, workers, timers and `Shutdown`, as
-- a step relation: `step` takes an action, `run` a schedule. The send of an
-- event and its count are two actions, and so are the writes of a batch to each plugin and their
-- end; a call of `Submit` that returns without a send counts that in the action that decides it. The
-- context is cancelled only after the channel is closed, as in `Shutdown`. A panic is `crash`.
-- Dedup.antt: pkg/dedup, with the memory and the Redis deduplicator in modules below it.
-- Storage.antt: pkg/storage, the plugin contract and the retry policy.
-- Plugins.antt: pkg/storage/plugins, a module for each backend. The three copies of a backend, one for
-- each kind of event, are one definition over an `EventKind`.
-- Events.antt: pkg/events, the deduplication keys and documents of the three kinds.
-- Service.antt: pkg/service/telemetry.go, with the base64 decoding of tokens.
-- Settings.antt: pkg/config/config.go, and the processor's settings of internal/bootstrap/processor.go.
-- Auth.antt: pkg/common/authServerInterceptor.go, the interceptors that come before the handlers.
-- Server.antt: internal/server/grpc.go, the chain of interceptors: `through` takes a call along it to the
-- handler. Server/Creation.antt creates the server from the environment.
-- Server/Gateway.antt is internal/server/gateway.go with pkg/common/gateway.go: `serve` is
-- what the HTTP server does with a path. Server/Transcoding.antt is pkg/pb/service.pb.gw.go: a route's
-- handler reads the body of a request and calls the gRPC server with it, and `serve_http` is the
-- HTTP server before them. Server/Observability.antt is the little logic of
-- internal/server/telemetry.go and pkg/common/tracerProvider.go.
-- Bootstrap.antt: internal/bootstrap/deduplicator.go and plugins.go. The values of the two interface types
-- are sums there, `AnyDeduplicator` and `Backend`, whose methods go to those of the modules above.
-- App.antt: internal/app/app.go and main.go, with the rest of internal/bootstrap: `new`, `run_servers`,
-- `shutdown` and `main`. App/Wiring.antt is `New` to its end, with the gRPC server and the service
-- behind it. A `Plan` says what the goroutines do while a processor is shut down.
--
-- Interfaces: `StoragePlugin` and `Deduplicator` are records of methods over a state, taken by the
-- processor as parameters. `Journals` (Processor/Fanout) and `Remembers` (Dedup) are what a client
-- may ask of an implementation; the Kafka and MongoDB plugins fill the first while their servers
-- acknowledge every write (the modules Journal of Plugins), also behind the interface type
-- (Processor/Embedding), and the memory deduplicator the second. `Recalls` (Processor/Once)
-- asks for a set of keys; the deduplicators that Bootstrap chooses for "memory" and "redis" fill it.
--
-- Bounds: the counters are 64-bit words and wrap. Strings are lists of bytes, and trimming knows ASCII
-- white space only. Times are in the unit of the source, as natural numbers or integers. Loops are
-- structural recursion, and `submit` takes four steps, which is as many as `Submit` has stages.
--
-- Parameters stand for code of other packages: SHA-256, JSON, the Redis, SQL, S3, Kafka and
-- MongoDB clients, the protobuf registry, the gRPC gateway's library, the token validator, and the clock. A backend's plugin is
-- used only after `Initialize` has succeeded, as internal/bootstrap/plugins.go does; the nil
-- pointers of an uninitialised plugin are no part of the model. `IsDuplicate` and `Mark` are separate
-- steps, as in the source.
--
-- The HTTP server's paths are such as `path.Clean` leaves alone, and its base path begins with a slash
-- and has no brace, so that ServeMux takes the patterns as they are.
--
-- Not modelled: logging and metrics; the options of the gRPC
-- server and its health service; what a worker writes after the plugins are
-- closed; the encodings of pkg/pb, and its
-- handlers that call a server without a connection, which nothing uses.
pub mod Prelude
pub mod Runtime
pub mod Storage
pub mod Batcher
pub mod Dedup
pub mod Processor
pub mod System
pub mod Events
pub mod Service
pub mod Plugins
pub mod Settings
pub mod Auth
pub mod Bootstrap
pub mod Server
pub mod App
