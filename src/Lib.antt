-- ===== src/Lib.antt =====
-- The verification library of shepard, an HTTP gateway in front of providers of language models.
-- A client asks for a model by its alias. The gateway admits the request against rate and
-- concurrency limits, waits in a bounded queue where a limit is reached, rewrites the request for
-- a provider, and sends it to the model's targets in turn until one gives a response to relay.
--
-- The parts, and the files that model them:
--   Base      tests and signed integers (Base/Tests), lists (Base/Lists), maps with string keys
--             (Base/Maps) and Go's string functions (Base/Text, with laws in Base/Order and
--             Base/Prefixes), which the other files share.
--   Json      decoded JSON, for request payloads and overrides.
--   Config    internal/config/config.go: the records (Config/Types), `defaults`
--             (Config/Defaults, Config/Idempotence), and `Validate` (Config/Validation) with what
--             a valid configuration guarantees (Config/Entries, Config/Validity) and what
--             exactly is accepted (Config/ModelAcceptance, Config/ProviderAcceptance,
--             Config/Acceptance). Config/Samples
--             has the configurations of the tests.
--   Queue     internal/gateway/queue.go: `requestQueue`. One call of `wait` is Queue/Wait,
--             and that it returns Queue/Returns; any number of goroutines that share the queue is
--             Queue/Sharing.
--   Limiter   internal/gateway/limiter.go: `limitStore`. When `admit` admits is Limiter/Decision;
--             what a request holds is Limiter/Holds; the interleavings of calls, releases and
--             reloads are Limiter/Traffic and Limiter/Capacity; the token bucket over time is
--             Limiter/Rate.
--   Admission internal/gateway/gateway.go, `admitWithQueue`: the queue's wait around the limiter,
--             what it takes (Admission/Balance), and how time brings a waiting request nearer to
--             its admission (Admission/Due, Admission/Progress).
--   Payload   internal/gateway/gateway.go: overrides (Payload/Overrides, Payload/Protected), the
--             adapters of protocols (Payload/Compatibility), system prompts (Payload/Prompts).
--   Headers   internal/gateway/gateway.go and logging.go: forwarded, provider and logged headers.
--   Acl       internal/gateway/acl.go: client networks and the address behind trusted proxies
--             (Acl/Boundary), and what validation says about their creation (Acl/Creation).
--   Identity  internal/gateway/gateway.go (`authorized`) and limiter.go (`clientIdentity`).
--   Failover  internal/gateway/gateway.go, the target loop of `proxy`: the loop at one target
--             (Failover/Retry) and over the targets (Failover/Targets). Failover/Rules has the
--             loops' rules and Failover/Passes what one pass does; Order, Slots, Tally, Counters and
--             Ending apply them. Failover/Conditions, Failover/Delivery and Failover/Availability
--             follow the loops when nothing ends the request.
--   Discovery internal/gateway/discovery.go: the store of listed models, the request for a
--             listing (Discovery/Caching), the resolution of an alias (Discovery/Resolution), and the
--             survey of all providers (Discovery/Members, Discovery/Completeness).
--   Usage     internal/gateway/usage.go: `recordAt` on the two tables (Usage/Ledger), the reports
--             (Usage/Reports), `extractUsage` (Usage/Extraction, Usage/Counting), and
--             `newUsageStore` (Usage/Opening).
--   Proxy     internal/gateway/gateway.go, `proxy`: the handler around the target loop, which
--             composes Admission, Discovery, Payload, Failover, Headers, Buffers and Usage.
--             Proxy/State has what it reads and changes; Proxy/Flow and Proxy/Frame have its
--             rules; Accounting, Recording, Slots and Ending apply them. Proxy/Availability follows a
--             request that can be served.
--   Catalog   internal/gateway/gateway.go: `models` and `opencodeConfig`.
--   Gateway   internal/gateway/gateway.go: `New` and `Reload` (Gateway/Reloading), and the routes of
--             `ServeHTTP` (Gateway/Routing). Gateway/Responses has the responses, and
--             Gateway/Serving the whole of `ServeHTTP` with its handlers; Gateway/Frame and
--             Gateway/Answers are about one request, Gateway/History and Gateway/Accounts about
--             sequences of requests and reloads.
--   Readiness internal/gateway/readiness.go: the cache, its interleavings with reloads
--             (Readiness/Freshness), what the probes report (Readiness/Results, Readiness/Probes), and
--             the handler with its waits (Readiness/Handling, Readiness/Honesty).
--   Upstream  internal/gateway/gateway.go (`upstreamURL`, `doUpstreamRequest`) and readiness.go
--             (`checkProvider`): the requests to a provider.
--   Logging   internal/gateway/logging.go: the entries of requests and responses (Logging/Content).
--   Metrics   internal/gateway/metrics.go: the text of the counters, and what they sum to
--             (Metrics/Balance).
--   Server    cmd/shepard/main.go with `Load` of internal/config/config.go: the start and the
--             reload signals (Server/Running), the settings of the HTTP server and the process's
--             status (Server/Process).
--   Streaming internal/gateway/gateway.go, `flushWriter`: the writes of an event stream.
--   Timing    internal/gateway/gateway.go: the deadlines of contexts, and the delays of
--             `waitForRetry`.
--   Buffers   internal/gateway/gateway.go (`tailBuffer`) and logging.go (`logBodyBuffer`).
--
-- How the code is modelled. An operation that a lock makes atomic is a function from the state to
-- a result and the new state; goroutines are an explicit sequence of such steps. A select is a
-- list of wake-ups (`Round`), each with what other goroutines did before it. The provider's reply,
-- the contexts, and what others do during a request and a backoff are a value (`Attempt`) for each
-- target and attempt, over which the theorems quantify. The clock only moves when an argument
-- says so, and counts nanoseconds.
--
-- What does not depend on the gateway's own state comes to an end: the read of a body, a call or a probe of a
-- provider, a discovery, a backoff and the relay of a response each return, with the result that the
-- environment gives.
-- A provider or a client that hangs for ever cannot be written down. In `wait`, the first try and
-- `enter` are one step, with no other goroutine between them.
--
-- One call of `proxy` meets a `ProxyEnv`: the rounds of its waits, the answers to discovery and to
-- its attempts, and what others do to the queue and the limiter meanwhile. Its counters, the usage
-- tables and the discovery store are shown as this request alone changes them. A handler that is
-- still in a wait when its rounds run out says so (`waiting_for`). A deferred function is applied
-- to what the rest of the handler returns. `Reload`, which stores several pointers one after the
-- other, is one step. The usage tables are rows, a transaction is one step, and the statement that
-- fails is an argument (`Faults`).
--
-- Numbers. A duration, an int and an int64 are signed integers without a bound: the code compares
-- them and adds small numbers. `requests_per_minute`, a float64, is given in thousandths, and a
-- bucket counts parts of a token (`token` of them are one), so that a refill is exact; the rounding
-- of float64 is not modelled. By it the source may find a little less than a token where a bucket
-- holds exactly one, and admit a tick later. The columns of the usage tables have no bound, where
-- SQLite's have 63 bits.
-- An instant carries its date as text, which the code formats from it. A burst below 0, which
-- `Validate` refuses, counts as 0 in a bucket.
--
-- Loops. No loop has fuel: the loops over scopes, targets and overrides go over lists, that over
-- attempts over the number of retries, and the queue's wait over its wake-ups. A wait whose list
-- runs out still waits, and says so in its result.
--
-- Maps are association lists in which the first match counts; where the source ranges over a map,
-- the list's order stands for an order that Go leaves open.
--
-- Parameters: the address parsers of the configuration (`Parsers`), the package net (`Net`) with
-- the test for an unspecified address, net/url and path (`Urls`), the YAML decoder (`decode`), the
-- JSON package in `Codec` and `UsageJson`, the start of a SHA-256 (`digest`), the formats of
-- numbers and times (`Formats`), the canonical spelling of header names
-- (`canonical`), and the environment (`getenv`).
--
-- Not modelled: flags, the listener, and the shutdown but for the status of the process
-- (cmd/shepard/main.go); the decoding of YAML and of durations (config.go); the driver of the usage
-- database, and its statements but for their order (usage.go); the encoding of JSON to bytes; the
-- escapes of a quoted model name in an error; and log lines other than those of logging.go. All of
-- these are input and output.
pub mod Base
pub mod Json
pub mod Config
pub mod Queue
pub mod Limiter
pub mod Logging
pub mod Admission
pub mod Metrics
pub mod Payload
pub mod Headers
pub mod Acl
pub mod Failover
pub mod Readiness
pub mod Buffers
pub mod Upstream
pub mod Usage
pub mod Discovery
pub mod Identity
pub mod Proxy
pub mod Catalog
pub mod Gateway
pub mod Server
pub mod Timing
pub mod Streaming
