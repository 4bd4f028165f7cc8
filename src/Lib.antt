-- ===== src/Lib.antt =====
-- Verification library of the services of GBrain AgentOS: a swarm of agents that send each other
-- letters, share a task board and recall notes, each over an authenticated MCP service.
--
-- The parts, and how they interact:
--   * Base: shared notation, lists and Boolean tests over native numbers; Base.Table is SQL (UPDATE,
--     SELECT … ORDER BY … LIMIT, unique keys) over lists of rows; Base.Text is Python text and bytes
--     as lists of code points; Base.Json is JSON values with json.dumps, str and repr;
--     Base.Audit is services/shared/audit.py.
--   * Auth (services/shared): Auth.Signing is hmac_sign.py; Auth.Scopes is AgentContext and the
--     scope checks of auth.py; Auth.Identity is the rest of auth.py, from a captured header to an
--     agent; Auth.Capture is asgi_auth.py, which captures the header and the body of a request in
--     front of the application. Every tool of a service starts there.
--   * Gating: services/shared/tool_gating.py, which tools a service registers.
--   * Swarm (services/swarm_mcp): Swarm.Outbox is outbox.py over the table delivery_outbox of
--     migrations/001_initial_schema.sql, one function per query, the table beside its sequence as
--     the state. Swarm.Server is the tools of server.py, which write to the outbox and to the audit
--     log. Swarm.Worker is run of worker.py, which takes letters from the outbox, posts them
--     (Swarm.Deliver is _deliver_one and _serialize_gateway_body, Swarm.Gateway is
--     _resolve_auth_spec and _gateway_auth_for, Swarm.Render and Swarm.Prompt are
--     render_body_limit to _format_virtual_prompt) and writes back how that went. A history of the
--     service (Swarm.Server.History) is any interleaving of tools and worker turns.
--   * TaskBoard (services/task_mcp): TaskBoard.Store is store.py over the tables of
--     migrations/005_tasks.sql, TaskBoard.Agents is agents_store.py over the table of
--     migrations/006_agents.sql, TaskBoard.Server is the tools of server.py (TaskBoard.Server.Registry
--     those over the registry of agents).
--   * Recall (services/recall_mcp): Recall.Cache is cache.py, Recall.Ranking is what search.py does
--     to ranked results, _dedupe_by_document, _diversify_by_scope and _truncate_snippets.
--   * Memory (services/memory_mcp): Memory.Paths is path_guard.py up to the file system, and the
--     guards of tools.py that read a path's segments: _agent_path_component,
--     _canonical_kind_from_path, _assert_ops_subtree_owner and _resolve_write_target.
--     Memory.Service is the state of the tools: the tables slots (migrations/003_slots.sql),
--     documents (001_initial_schema.sql, 007_freshness.sql) and audit_log, the pending rows of
--     embedding_jobs, and the vault as files by their paths. Memory.Slots is the slot tools.
--     Memory.Notes is the notes' names and frontmatter; Memory.Notes.Store is _upsert_document, the
--     statements of the tools on documents and the access to files. The tools are in
--     Memory.Notes.Create (runbooks, error patterns, external notes, handoffs), Memory.Notes.Edit
--     (append_daily_log, update_document), Memory.Notes.Supersession (supersede_decision),
--     Memory.Notes.Verify (verify_note) and Memory.Notes.Decide (create_decision_note, with its
--     branch that supersedes earlier decisions in Memory.Notes.Auto; Memory.Similar, jaccard.py,
--     finds what a decision may supersede). Memory.Notes.History is any sequence of their calls.
--   * Ingest (services/ingest_worker), which takes the jobs that the memory service queues:
--     Ingest.Chunker is chunker.py, Ingest.Embedder is embedder.py, and Ingest.Worker is
--     _process_job and a turn of the loop of worker.py over the tables embedding_jobs, chunks and
--     documents.
--
-- Conventions: a function of the source keeps its name, without a leading underscore. Its state is
-- an argument and part of its result; an exception is an err or a none; the time, the nonces, the
-- locks of other transactions, environment values and the answers of gateways are arguments. Each
-- query is one atomic step on its table, as one SQL statement is, and a transaction that raises
-- gives back the table that it started from, the next number of its id sequence included, which the
-- database would not give back: an id is only compared. Times are seconds in natural numbers, HMAC timestamps
-- are integers. Only two functions take fuel: the loop of chunk_text (Ingest.Chunker), for which
-- more turns than the text has words are enough where it ends at all, and the batches of the
-- embedder, for which the number of the texts is enough. The other loops of the source run over a
-- list, and the endless loop of a worker runs over the turns that it makes before it is stopped.
--
-- Parameters, for code that is not the repository's: SHA-256 and HMAC (functions from bytes to
-- hexadecimal text; where it matters, an HMAC digest is assumed to be 64 lower-case hexadecimal
-- digits, as hexdigest documents), json.loads, str.capitalize and the repr of a str, and the HTTP
-- client, which answers a request by a response, a timeout, an HTTP error or another exception.
-- Only the ASCII digits of int() are read. For the memory service: yaml.dump and yaml.safe_load,
-- str.lower, datetime.fromisoformat, the collation of the database, which files can be read and
-- written, and floating-point numbers without NaN (Memory.Similar.Floats; where it matters, their
-- comparison is assumed to be an order). For the ingest service: FastEmbed, and which vectors the
-- database takes. The vault holds no symbolic links.
--
-- Not modelled: the MCP framework, asyncpg and its pool, configuration, signals and sleeping; the
-- tool update_index of the memory service, which lists a folder of the file system; watermark.py of
-- the ingest service, which nothing calls; the foreign key documents_superseded_by_fkey; the queries
-- and floating-point scores of the recall service; scripts, templates and skills of the repository.
pub mod Base
pub mod Auth
pub mod Gating
pub mod Ingest
pub mod Swarm
pub mod TaskBoard
pub mod Recall
pub mod Memory
