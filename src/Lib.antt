-- ===== src/Lib.antt =====
-- A model of parts of JoveMage, a gateway that serves chat and image requests with a pool of
-- upstream accounts.
--
-- A request enters by the HTTP interface (api), is routed to a channel (services/channels), passes
-- the channel's circuit breaker and token bucket, takes a slot of an account of the pool
-- (services/account_service.py), and reports its outcome, which books the account's quota, gives the
-- slot back and may queue a check of the account. Text requests go through a cache of completions.
-- Long jobs on accounts run as background tasks, one for each tier.
--
-- Which file models which part:
-- - TaskManager: services/task_manager.py. `Manager` is TaskManager, `Task` is BackgroundTask;
--   `submit`, `request_cancel`, `wrap_up` (the wrapper around a task's function) and the methods of a
--   task are the steps of TaskManager/Steps.
-- - Channels: services/channels/runtime.py (Circuit, Rate) and registry.py (Registry). Rates are
--   counted in millionths of a token, so that a bucket needs no fractions.
-- - Accounts: services/account_service.py. `Pool` holds _accounts, _image_inflight, _token_aliases,
--   _index and what was last saved. Normal is _normalize_account, Tokens the aliases, Selection the
--   choice of accounts and the slots, Outcomes the booking of results, Removal delete_accounts and
--   handle_invalid_token, Rotation _apply_refreshed_tokens, RefreshQueue the checks after failures,
--   Keepalive the choice of tokens to renew, Refresh
--   refresh_access_token and fetch_remote_info, TextRequests get_text_access_token, Precheck get_available_access_token, Import
--   _add_account_payloads, Health evaluate_account_pool. What they ask of remote services is an
--   argument.
-- - Failures: services/image_failure.py. The parent is the table of failures and `image_failure`; Codes
--   the codes in an answer and the choice among them, Http classify_upstream_http_error and
--   classify_image_exception, Public the text for the client, Messages the failures of messages and
--   tasks, Conversation those of a conversation's current turn.
-- - ImageTasks: services/image_task_service.py. `Service` is ImageTaskService with the threads that work
--   on tasks; Methods has its methods, Runs the interleavings of callers and threads,
--   File the reading of the tasks' file. A thread of a task is taken to reach its last update.
-- - ChatCache: services/protocol/chat_completion_cache.py. Cancellation:
--   services/request_cancel_service.py.
-- - Prelude: Python's dict (an association list in insertion order), str.strip and str.lower, int,
--   JSON values, and the shared lemmas.
--
-- A method that holds a lock is one step. Threads and their interleavings are sequences of steps in
-- any order. Clocks, what the executor does, hashes and the redaction of messages are arguments.
-- Times are microseconds. `str.lower` is modelled for the letters A to Z. Locks, logs and
-- notifications leave no trace in the state.
--
-- Bounds and fuel: the loop that follows token aliases runs at most as often as there are aliases,
-- and the loop that drops cache entries as often as there are entries. The loop of
-- acquire_channel_rate runs over readings of the clock, a round's sleep apart. The loop over the values of an answer runs at
-- most as often as there are values, the walk to a conversation's root as often as there are nodes, and
-- the rounds of evaluate_account_pool once more than there are accounts to check, if each round leaves
-- fewer.
--
-- Not modelled: the HTTP interface, the upstream clients, storage, registration, logs and settings,
-- which are I/O; of the pool, the OAuth request itself, the waiting for a refresh that another
-- thread has begun, refresh_accounts with its progress, exports and statistics; of the failures,
-- extract_message_facts and the exception classes; of the image tasks,
-- list_tasks and the public view. Python's `str` of a value that is not a text, whether
-- `json.loads` reads a text, and the order of times as floats are arguments. An answer is a tree, so that
-- no mapping is met twice; of the cache, the keys. The run of the cache leaves out
-- `clear`, which forgets computations that run.
mod Prelude
pub mod TaskManager
pub mod Channels
pub mod Accounts
pub mod ChatCache
pub mod Cancellation
pub mod Failures
pub mod ImageTasks
