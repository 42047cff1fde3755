-- ===== src/Lib.antt =====
-- inf-api is an HTTP server that passes requests for language models on to the accounts of several
-- providers. This library models the state that the server keeps in memory and the decisions that
-- it makes on it. Paths are from the root of the repository.
--
-- The parts, and how they interact. A request passes the authentication of the middleware
-- (internal/middleware/session.go), which asks the store of session tokens
-- (internal/auth/auth.go). The handler registers it with the deduplication of requests
-- (internal/handler/dedup_store.go, over internal/handler/sharded_map.go) and keeps its working
-- directory and conversation in the session store (internal/handler/session_store.go). It selects
-- an account (internal/handler/handler_helpers.go) and asks an upstream, again with another
-- account where that fails (internal/handler/handler.go), and what the upstream sends becomes the
-- events of a streamed response (internal/handler/stream_handler.go), as JSON
-- (internal/handler/sse_frame.go) or as chunks of OpenAI's format
-- (internal/adapter/openai_sse.go). The provider codebuff keeps its sessions in a cache
-- (internal/codebuff/session.go) and its quotas in Redis (internal/codebuff/quotastore.go). The
-- load balancer (internal/loadbalancer) selects an account by status, tier, weight and the open
-- connections of the tracker, and the session registry remembers which account served a model. An
-- error of the provider is classified (internal/errors/classify.go), and its status is marked at
-- the account. Token counts are estimated (internal/tiktoken/tokenizer.go) and cached
-- (internal/tokencache).
--
-- Files.
--   Common: shared names, tests, lists, maps as lists of entries, texts and instants.
--   TokenCache/Memory, TokenCache/Prompt: internal/tokencache/memory.go and prompt_cache.go; get,
--     put, evict_lru, prune_expired are Get, Put, evictLRULocked, pruneExpiredLocked.
--   LoadBalancer/Status, Select, Balancer: internal/loadbalancer/loadbalancer.go and tier.go;
--     is_account_available, mark_account_status, select_account, select_by_tier and
--     get_next_account are the functions of those names.
--   LoadBalancer/Registry, LoadBalancer/Tracker: session_registry.go and conn_tracker.go there.
--   Eviction: the loop that removes the oldest entry, which session_registry.go and
--     internal/handler/session_store.go both contain.
--   Handler/Sharded, Handler/Dedup, Handler/Sessions: sharded_map.go, dedup_store.go and
--     session_store.go of internal/handler.
--   Handler/Stream: internal/handler/stream_handler.go. Blocks has the content blocks, Finish the end
--     and the start of another round; ensure_text, finish_response and so on are ensureBlock("text"),
--     finishResponse. Calls has the calls of its methods, Monitor what a client makes of the events.
--   Handler/Frame: internal/handler/sse_frame.go; append_json_bytes is appendJSONBytes, and Reader has
--     a reader of JSON strings that is written independently of it.
--     Payloads has the JSON of the events: append_sse_message_start is appendSSEMessageStart.
--   Adapter/OpenAi: the fast path of internal/adapter/openai_sse.go. Places finds the markers in the
--     JSON of the events, Chunks has what becomes of every event, Written the bytes of it.
--   Handler/Retry: the loop of HandleMessages in internal/handler/handler.go. A turn is one pass;
--     Delay and Messages have computeRetryDelay and the texts of the errors.
--   Handler/Selection: the selection of an account in internal/handler/handler_helpers.go;
--     select_client is selectAccountWithOptions.
--   Codebuff: internal/codebuff/session.go; ensure_session is EnsureSession.
--   Codebuff/Quota: internal/codebuff/quotastore.go. Records writes the quotas, Status has
--     get_account_status and get_pool_status, and Clearing the removals.
--   Middleware/Session: internal/middleware/session.go and internal/auth/auth.go.
--   Middleware/Concurrency: internal/middleware/concurrency.go.
--   Middleware/RateLimit: internal/middleware/ratelimit.go, with ExtractIP.
--   Errors/Classify: internal/errors/classify.go.
--   Tiktoken/Estimator: internal/tiktoken/tokenizer.go.
-- Below a file, the modules named for a property hold its proofs, and Tests holds runs at concrete
-- inputs.
--
-- Conventions. The clock, random draws and the results of a database are arguments. A mutex makes
-- its critical section one step; sequences of steps stand for the interleavings. Instants are
-- nanoseconds, and their differences saturate as Go's do. The order in which Go visits a map is
-- the order of its list, which is arbitrary in every statement. Floats are replaced by exact
-- numbers where the code's are exact: scores of accounts by fractions, tokens by halves. The tokens
-- of the rate limiter stay float64, whose operations are parameters with a bounded error.
--
-- Bounds and fuel. The loop over the bytes of a text has one unit of fuel per byte, which is
-- enough since each round takes one byte or more. The loop that waits for a session of codebuff
-- has one more unit of fuel than its timeout has nanoseconds, which is enough since each round
-- takes a nanosecond or more. The loop over the requests of a message is over the retries that
-- remain. The deletion in batches has a unit of fuel for each key, and each batch takes one or
-- more. All other loops are over lists.
--
-- Not modelled: the events of an upstream that the stream handler forwards as they are, under the
-- upstream's own index (writeUpstreamEventSSE, WriteDirectSSE, FinishDirectSSE and
-- handleDirectFinalSSEEvent), so that the results on responses are about those whose events the
-- handler writes itself; the preparation of a request and the dispatch of upstream messages, which convert
-- JSON; the parsing of codebuff's responses and the chunks of OpenAI's format that are made of
-- decoded JSON; the providers' clients, the stores on SQL and Redis and the Redis variants of the
-- token cache, the sessions and the deduplication, whose steps are commands of other programs; the
-- semaphore of the concurrency limiter; configuration, templates, logs and metrics.
pub mod Adapter
pub mod Codebuff
pub mod Common
pub mod Errors
pub mod Eviction
pub mod Handler
pub mod LoadBalancer
pub mod Middleware
pub mod Tiktoken
pub mod TokenCache
