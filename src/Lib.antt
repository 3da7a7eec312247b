-- ===== src/Lib.antt =====
-- A verification library for the services of a benchmark platform for trading exchanges. Bots send
-- orders to an exchange under test; what it answers goes over Kafka to the telemetry service, which
-- checks the fills, keeps the figures of each session and stores the events; the scoring service makes
-- the leaderboard of these figures; the orchestrator hands the bots of a session out to the workers;
-- the submission service builds and starts the exchanges; gateways stand before the services.
--
-- The files, and the code they model:
--
-- * Telemetry (services/telemetry-service/main.go). Telemetry/Event has TelemetryEvent;
--   Telemetry/Book has OrderBook with AddOrder (add_order), insertBid, insertAsk, RemoveOrder,
--   BestBid and BestAsk; Telemetry/Validator has getBook and Validate; Telemetry/Metrics has
--   SessionMetrics with Record (record_order), Percentile and TPS, and the publisher's tick;
--   Telemetry/Writer has TSWriter with Add and Flush, whose copies run while events are added;
--   Telemetry/Consumer has the loop of Consumer.Run, which calls the three.
-- * Orchestrator (services/bot-orchestrator/main.go). Orchestrator/State has the maps of
--   Orchestrator; Orchestrator/Sessions has StartSession, dispatchToWorkers and StopSession;
--   Orchestrator/Workers has RegisterWorker, UpdateWorkerHeartbeat, a round of reconcileLoop
--   (reconcile), and the parts of the long poll that touch the state (begin_poll, take_cmd);
--   Orchestrator/Waiting has the wait of dispatchToWorkers and its automatic stop;
--   Orchestrator/Handlers has the handlers that start and show sessions, and a tick of
--   metricsAggLoop (aggregate_tick); Orchestrator/Polls has the other handlers.
-- * WsGateway (services/ws-gateway/main.go). The hub with Register, Unregister and Broadcast, and
--   what streamHandler does to it; WsGateway/Delivery has the loop of startRedisSubscriber;
--   WsGateway/Streams has the write pump, the ping ticker and the read pump of streamHandler;
--   WsGateway/Server has the subscriptions, the handlers and main.
-- * BotWorker (services/bot-worker/main.go). BotWorker/Order has the order types and MarketSim;
--   BotWorker/Bot has generateOrder and thinkTime; BotWorker/Exchange has runWS and runREST, and
--   BotWorker/Exchange/Wire the read goroutine of runWS and Run;
--   BotWorker/Worker has SpawnBots, StopBots and the commands of Poll; BotWorker/Worker/Polling has
--   the rounds of Poll and what sendHeartbeat posts.
-- * ApiGateway (services/api-gateway/main.go). ApiGateway/RateLimiter has RateLimiter.Allow;
--   ApiGateway/Accounts has hashPassword, Register, Login, issueToken and JWTMiddleware
--   (authenticate); ApiGateway/Proxy has proxyTo and proxyRewrite; ApiGateway/Text has the string
--   functions that they use; ApiGateway/Router has main, with RateLimitMiddleware (rate_limit), and
--   ApiGateway/Config has configFromEnv.
-- * Scoring (services/scoring-service/main.go). Scoring/Score has computeScore; Scoring/Engine has
--   RunOnce (run_once), scoreSession, publishLeaderboard and the handlers that read. What the
--   telemetry service's publisher writes is what scoreSession reads: Scoring/Engine/Metrics.
-- * Submission (services/submission-service/main.go). Submission/Records has DB with its statements
--   on the tables of init-sql/01-schema.sql; Submission/Scan has Scanner.Scan; Submission/Build has
--   Builder with dockerfileFor and copyFile; Submission/Deploy has JobDeployer with the body that
--   notifyOrchestrator posts; Submission/Handler has SubmitCode, its goroutine (run_job),
--   buildAndDeploy and the reads; Submission/Text has the string functions that they use. The
--   request of a deployment meets the orchestrator's handler in Submission/Handler/Started.
-- * The Startup modules of Telemetry, Orchestrator, BotWorker, Scoring and Submission have what the
--   services read of the environment, their constructors and their tables of routes.
-- * Pipeline joins parts: the bots' events on their way to the metrics.
-- * Prelude has what the parts share: tests, lists, int64 arithmetic (add64, sub64 wrap around),
--   maps as association lists, sort.Slice as an insertion sort, and float64 as a record of operations.
--
-- A component's children hold the theorems on it, named for what they show; each Tests module holds
-- runs on sample data.
--
-- Numbers. A Go int or int64 is an integer whose sums wrap around at 2^63. A float64 is a parameter
-- (Prelude/Float) with its laws as named hypotheses: IsOrdered for the order of finite numbers and
-- IsScaling for products with whole numbers under 2^53; Prelude/Float/Fixed is an instance. Times of
-- the orchestrator are nanoseconds on the monotone clock. A panic is the result none, or, in the
-- hub, a flag of the state. No function of the development runs on fuel: loops are over the lists
-- of what they are given.
--
-- Concurrency. Each operation that holds a lock is one step, and the operations follow each other
-- in any order: as lists of calls, or as step relations where a goroutine works between them (the
-- writer's copies, the hub, the goroutines of a connection). A select with a default is a test of the
-- buffer's room. The rate limiter's pipeline of commands is one step as well, for requests whose
-- commands Redis does not interleave, which nothing in the code sees to; ApiGateway/RateLimiter/Overlap
-- has the commands one by one.
--
-- Parameters. The JSON decoder and encoder, fmt.Sscanf, math/rand's generator and its bounds,
-- math.Round, math.Exp (Exponential, with IsExponential), the uuid library (ids come as arguments),
-- fmt.Sprintf of floats and with %q (BodyFormat, with IsReadBack), the clock, SHA-256 and the JWT library (Crypto, with IsSigning), Redis
-- (SortedSets and ScoreStore, with the laws that a theorem needs), what tar, unzip, docker, clamscan,
-- MinIO and the file system answer (the Run records of Submission), the service behind a proxy, and
-- the outcomes of writes to Redis, the databases and sockets. IsMonotone has the laws of rounding:
-- sums, products and quotients keep the order of float64 numbers, and whole numbers up to 2^53 are
-- exact; IsWeighted has those of the
-- literal weights of the score.
--
-- Not modelled: log lines, and that the services listen; deadlines and timers, but as reasons for
-- which a step comes or fails; gin's and net/http's choice of a route (IsRouting) and the WebSocket
-- library, which are parameters; what net/http's client does to a request's headers as it sends it;
-- Redis' expiry of keys; the frontend and container files.

pub mod Prelude
pub mod Telemetry
pub mod Orchestrator
pub mod WsGateway
pub mod BotWorker
pub mod ApiGateway
pub mod Scoring
pub mod Submission
pub mod Pipeline
