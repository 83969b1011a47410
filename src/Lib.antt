-- ===== src/Lib.antt =====
-- dlp-server: the server that judges the requests to a language model and its answers, and
-- replaces the personal data in them.
--
-- The program (app/) runs a list of stages on a context. On a request: the input guard looks for
-- prompt injections; the layers of app/detect find spans of personal data, which are merged; the
-- session of app/context accumulates them to a risk score; app/policy classifies the purpose and
-- decides an action for each span; and app/transform carries the actions out, with the vault for
-- reversible tokens. On an answer, the output guard masks what the model added and blocks leaked
-- instructions, and tokens are turned back for those who may see them. app/pipeline.py composes
-- the stages, judges the context that they end with, and writes an audit event, which live streams
-- of app/api.py show at once and its routes later. The bodies are read and written by the adapters,
-- app/grpc_server.py hands requests in, and scripts/seed_policy.py fills the tables of the policy.
--
-- The files, and what they model:
--   Models            app/models.py: turns, spans, the context and the decision
--   Regexp            the search of Python's re, for the expressions of the rules below
--   Detect/Merge      app/detect/merge.py: merge_spans and what it calls
--   Detect/Regex      app/detect/regex_rules.py: checksums, detect
--   Detect/Layers     app/detect/__init__.py: the layers that are on, pii_detect_stage
--   Detect/Dictionary app/detect/dictionary.py: load_dictionary, detect
--   Detect/Ner        app/detect/ner.py: extract, the trimming of particles; Ner/Engine:
--                     get_ner_engine called by several threads
--   Policy            app/policy/engine.py: pick_action; Policy/Condition: eval_condition;
--                     Policy/Stage: ruleset(), decide, purpose_policy_stage; Policy/Tables:
--                     _load_ruleset; Policy/Seed: scripts/seed_policy.py
--   Purpose           app/purpose: Classifier (classify) with its Rules, RoleResolver (resolve)
--   Vault             app/transform/vault.py and app/ids.py: Rows (the two tables and the queries'
--                     conditions), Crypto, Label, Tokenize, Detokenize, Scan (detokenize_text),
--                     Lifetime (revoke_session, purge_expired)
--   Transform         app/transform/apply.py: Mask, Generalize (also synthetic and aggregate),
--                     Splice (the replacement of spans), Stage (both stages)
--   Session           app/context: Store (store.py), Accumulator (accumulator.py), Stage (stage.py)
--   Guard             app/guardrail: Injection (injection.py), Output (output_check.py), and the
--                     rules of both (Rules, LeakRules)
--   Pipeline          app/pipeline.py and app/adapters: Run (_run_stages, select_adapter), Judge
--                     (_reason, _block_check), Analyze (analyze, _dispatch), Stages (the two lists
--                     of stages with the state that they share), Log (_emit_log, _write_event)
--   Adapters          app/adapters: Json (JSON values, and what Python does with them), Gateway
--                     (gateway.py), Gemini (gemini.py); Postfix is a codec for the examples
--   Audit             app/logging and app/api.py: Event (a row and serialize_event), Bus (bus.py),
--                     Stream (_event_stream), Query (_parse_window, _parse_since, _fetch_events),
--                     Routes (/events, /events/{session_id}, /vault-access, /health), Stats (/stats)
--   Server            Config (app/config.py), Grpc (app/grpc_server.py), Boot (app/main.py)
--   Base              strings, dicts, lists, sorting, maxima, results, and the parameters below
--
-- How the code is read. A str is a list of code points and a dict an association list in insertion
-- order. A call that may raise returns a `Result`; which exception it was is not kept, since every
-- handler of the program catches all. Module variables and tables are passed in and out. Calls
-- that hold a lock are one step; `tokenize_between` lets other transactions commit between the
-- first query of `tokenize` and its locked part. Times are numbers that the caller reads.
--
-- Parameters, since they are not code of this repository: the Unicode tables of Python (`Unicode`,
-- with ASCII as the instance of the examples), float arithmetic (`Float`, with fixed point as the
-- instance of the examples; a theorem that needs the order's laws has them as a hypothesis), the
-- cipher, digests, uuid and UTF-8 (`External`), the letters of `re` (`Letters`: \w and equality
-- without case), the matches of the expressions of app/detect/regex_rules.py, the draws of the random
-- generators, the clocks, whether the log file can be written, and whether the database carries out
-- the queries of a call: an entry that is too long for its column is one that it does not carry out.
--
-- Parameters too are json's reading and writing (`Codec`), the search of the automaton for the terms
-- of the dictionary, the entities that the NER model predicts, the settings that pydantic reads, and
-- what PostgreSQL decides of a query: constraints, orders that are not asked for, averages. Other
-- threads enter as lists of acts (Audit/Bus) or as a step relation (Detect/Ner/Engine).
--
-- All loops are structural recursion, so no fuel is used and every definition is total. The loop of
-- a live stream, which ends with its client, runs over the list of its rounds; a thousand rounds,
-- the bound of a queue, are enough to empty one.
--
-- Not modelled: the pool of connections (app/db.py), the network servers and signals of app/main.py
-- and app/grpc_server.py, the loading of the NER model, the publishing of a row by write_pg, the
-- sweeping thread, log lines, and the other scripts.
pub mod Base
pub mod Models
pub mod Regexp
pub mod Detect
pub mod Policy
pub mod Purpose
pub mod Vault
pub mod Transform
pub mod Session
pub mod Guard
pub mod Pipeline
pub mod Adapters
pub mod Audit
pub mod Server
