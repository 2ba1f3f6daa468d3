-- ===== src/Lib.antt =====
-- A verification library for the shadow proxy (src/shadow_proxy). The proxy answers `POST /v1/chat`
-- with a primary model's reply, stores a row per request, and has workers ask a candidate model the
-- same question in the background and compare the two answers.
--
-- Its parts, and the files that model them:
--
-- - the comparator of two answers (evaluator/base.py, evaluator/json_action.py): Evaluator;
-- - the comparisons table (store/base.py, store/models.py, store/sql.py): Store, with the queries of
--   several rows in Store/Queries and their summary in Store/Summary, and the SQL columns with their
--   widths and `_to_record` in Store/Rows;
-- - the archive of raw payloads (store/raw.py): Raw, with the files behind the keys in Raw/Places;
-- - the tape of mismatches (store/mismatch_tape.py): Tape;
-- - the job queue and its workers (dispatcher/base.py, dispatcher/in_process.py): Dispatcher, on the
--   `asyncio.Queue` of Queue;
-- - the reconciler and the requeue at startup (sweeper.py): Sweeper;
-- - the model client (llm/base.py, llm/do_inference.py): Llm and Llm/DoInference;
-- - the primary call, the pending row and the handler of the candidate jobs (pipeline.py):
--   Pipeline/Persist, Pipeline/Payloads and Pipeline/Candidate, on the shared state of
--   Pipeline/World;
-- - the bearer tokens of the endpoints (api/deps.py, and `proxy_api_key_set` of settings.py): Auth;
-- - the checks of the settings at startup (settings.py, and the key check of llm/do_inference.py):
--   Settings;
-- - the files and directories of settings.py and main.py, and the user interface's: Paths;
-- - the health checks (api/health.py): Health;
-- - the hash of a body (util/hashing.py): Hashing;
-- - the chat endpoint (api/v1/chat.py, and `AppConfig.route` of settings.py): Chat;
-- - the evaluation endpoints (api/v1/evaluations.py, and `match_rate` of store/base.py): Evaluations;
-- - the startup and the shutdown (`lifespan` of main.py): Main;
-- - the redaction of values (util/redact.py): Redact;
-- - all of them together: System.
--
-- A chat calls the primary client, archives the payload, inserts the pending row and, if the primary
-- call went well, enqueues a job with the request's id. A worker's handler reads the row and the
-- payload, calls the candidate client, evaluates, merges the response into the archive, finalizes the
-- row and offers a mismatch to the tape. Rows that are left unfinished are found by the sweeper and by
-- the requeue.
--
-- Definitions have the names of the source in snake case. A method is a function from the state to
-- the new state; an exception is `none`, `raised` or a constructor of the result, and keeps what was
-- written before it. Between two awaits the code runs alone, so the dispatcher's methods and worker
-- steps are single transitions, and a run is any sequence of them. System composes the parts: a step
-- there is a part of a chat (from the primary model's answer to the stored row, and from then on) or
-- of a handler (up to the mark in its row, and from then on), a worker's step, a tick of the sweeper,
-- a requeue, a change of the sample rate, or a crash with a restart. Inside such a step no other task
-- runs, though the code awaits the database and the archive there. Store/Journal is the abstract view
-- of the table: per key a submission, a phase and the number of attempts.
--
-- Representation: a text is a list of code points, a time is a number of microseconds, a JSON number
-- is held by its `str()`, a rate is in units of 2^-53, and a percentile is an exact number of
-- hundredths. The table, the archive and the tape are lists. `json.loads`, `str.lower` and `repr` are
-- the record `Python`, on texts for which `json.loads` returns or raises `JSONDecodeError`: an integer
-- of more than 4300 digits (`ValueError`) and nesting that is too deep (`RecursionError`) are left out.
-- An object key stands for its text, as in Spaces, and Raw/Places says which file it is. The row orders
-- of the SQL engine are `Engine`, and the tables that the three queries of a summary find are `Reads`.
-- Whether an access to the database, the archive or a model succeeds, and what a model and the clock
-- answer, are the records `Surroundings`, `Arrival` and `Outside`; paths and the file system are
-- `Machine`, what the startup finds is `Host`, and how the closing of the parts goes at the shutdown is
-- `Fates`. One definition runs on fuel, `digits` of Base/Text/Numbers, which prints a
-- number `n` with fuel `n + 1`, more than its digits; every other loop is over a list or over the
-- attempts that are left.
--
-- Not modelled: the reading of the environment and of YAML, the schema set-up of the databases (only
-- whether it comes to its end), logging, the HTTP framework and Pydantic's validation, the generation
-- of request ids, and the text of the archive's files.
pub mod Base
pub mod Evaluator
pub mod Store
pub mod Queue
pub mod Dispatcher
pub mod Sweeper
pub mod Raw
pub mod Tape
pub mod Pipeline
pub mod Llm
pub mod Settings
pub mod Auth
pub mod Paths
pub mod Hashing
pub mod Redact
pub mod Health
pub mod Chat
pub mod Evaluations
pub mod Main
pub mod System
pub mod Tests
