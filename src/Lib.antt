-- ===== src/Lib.antt =====
-- haprovider, a reverse proxy that spreads JSON-RPC requests of blockchain clients over several
-- providers: a model of its core in Go, and what is proved of it.
--
-- The program. An endpoint has a list of providers, in the order of the configuration. A worker for
-- each provider runs health checks and marks it healthy or unhealthy. A client's request goes
-- through the allowlist of its chain, and then from provider to provider until one serves it; what
-- comes back decides whether the provider is kept, skipped for a method, held back, or lost. Equal
-- read-only requests share one call. A TRON endpoint forwards the paths of its HTTP API too. A
-- WebSocket client is bound to one provider, and connections are counted for a graceful shutdown.
-- Method names become metric labels.
--
-- The files, with the code that they model:
-- * Rpc (internal/rpc): Rpc/Id is ID and FormatRawBody, Rpc/Error the error values, Rpc/Message a
--   Request and a Response, Rpc/Batch the decoding and encoding of batches. Rpc/Json is the
--   interface to encoding/json, a parameter of all that uses it.
-- * Core (internal/core): Core/Provider and Core/Endpoint are the two records, with one function for
--   each method (mark_unhealthy is MarkUnhealthy); Core/Time has times, durations and strconv.Atoi.
-- * Chain (internal/chain and its four packages): Chain/Methods has the allowlists, Chain/Errors the
--   HandleError methods, Chain/Reject is RejectDisallowed, Chain/Hex ParseHexNumber. Chain/Nodes has
--   the Healthcheck methods, one file for each chain and their dispatch in Chain/Nodes/Ask, and
--   Chain/Config the ValidateConfig methods.
-- * Healthcheck (internal/healthcheck): run, run_once and worker_round are Run, runOnce and one round
--   of the loop of Worker; the result of the chain's Healthcheck is an argument of theirs, and
--   Healthcheck/Full puts the two together.
-- * Httpx (internal/httpx): send_rpc_batch_request is SendRPCBatchRequest, Httpx/Forward is
--   ForwardHTTPRequest, Httpx/ClientIp has ClientIP and
--   the X-Forwarded-For chain, and Httpx/Headers the headers of JSON-RPC calls and of WebSocket dials.
-- * Failover (internal/http.go): Failover/Visit is the body of the loop of forwardWithFailover,
--   Failover/Loop the loop and what follows it, Failover/Attribution is responseMethods.
-- * Metrics (internal/metrics/labels.go): Metrics/Labels is AdmitMethod and methodLabel, and
--   Metrics/Labels/Interleaving the same code as the atomic steps of several goroutines.
-- * Server (three places): a client's request. Server/Dispatch is requestHandler (cmd/haprovider/main.go),
--   Server/Auth internal/auth.go, and the rest internal/http.go: Server/Handler is
--   IncomingHttpRpcHandler, Server/Coalesce coalesceRequest, Server/Reply the functions that write an
--   answer, Server/HttpApi the paths of the TRON HTTP API and Server/HttpApi/Loop
--   IncomingHTTPAPIHandler. Server/Serve is a whole request, requestHandler with its handlers.
-- * Ws (internal/ws): Ws/Tracker is the tracker of shutdown.go, its method done is `release`;
--   Ws/Client is the connection of core.go with the steps of its goroutines; Ws/Pump has the cases of
--   pumpProvider and pumpClient for a message, Ws/Proxy the two pumps with their channels and the loop
--   of the handler as steps, Ws/Dial is DialProvider and DialAnyProvider, and Ws/Handler is
--   IncomingWebsocketHandler (ws.go).
-- * Redact (internal/redact): URL, String and Attr, with the pattern urlRe.
-- * Config (internal/config.go): load_config is LoadConfig, from the decoded YAML on.
-- * Startup (cmd/haprovider/main.go): the settings from flags, environment and configuration;
--   Startup/Round is the first round of health checks as the steps of its goroutines.
-- * Prelude has what the modules share: numbers, lists, byte strings, maps, and code that may panic.
-- * Examples has concrete runs.
--
-- State and effects. A method that changes an object returns the new one. Code that may panic is an
-- `Outcome`, an error is a value of `Error`, a nil pointer is `none`. A method that holds a mutex is
-- one step. A map is an association list. Times are nanoseconds since the zero time, and a function
-- that reads the clock takes what it reads, one reading for a call; Retry-After, the int64 limit of
-- a body and the uint64 sum of a block height and its tolerance keep their wrap-around. In
-- forwardWithFailover, `Visit.provider` is the state of the provider when the loop reaches it, and
-- `Visit.during` any change that other goroutines make to it while it is called. The requests are
-- not nil there: RejectDisallowed has read the method of each before. Loops are structural recursion;
-- the decimal digits of n take n + 1 rounds at most, and the matches of urlRe in a text no more rounds
-- than it has bytes; there is no other fuel.
--
-- A handler's answer is a value: what it has written when it returns. Functions of other packages
-- (encoding/json, net/url, singleflight, gorilla/websocket, os.Expand) are parameters, and what a
-- theorem relies on of them is a hypothesis of that theorem.
--
-- Not modelled: logging and the Prometheus collectors, which only reach logs and metrics; contexts
-- other than the tests after a call; the texts of encoding/json errors; the Unicode part of ToLower,
-- of TrimSpace and of the case folding in urlRe; the control frames that gorilla/websocket writes by
-- itself; the messages of a provider before its WebSocket client is upgraded, in Ws/Proxy; flag
-- parsing, YAML decoding, the servers and the signals.
pub mod Prelude
pub mod Rpc
pub mod Core
pub mod Chain
pub mod Healthcheck
pub mod Httpx
pub mod Failover
pub mod Metrics
pub mod Ws
pub mod Config
pub mod Redact
pub mod Server
pub mod Startup
pub mod Examples
