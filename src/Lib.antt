-- ===== src/Lib.antt =====
-- The sanctions-screening agent of src/compliance_agent_platform: a LangGraph graph of six nodes
-- (intake, enrich, retrieve, evaluate, escalate, dispose) that takes an alert to a disposition, with
-- a human gate, guardrails around the model calls, a compliance wrapper around the nodes, and a
-- hash-chained audit log that every node writes to.
--
-- The parts and their files. All paths are below src/compliance_agent_platform/.
--   Base, Json, Error: Python's truth, floats, texts and joins; JSON values; the exceptions of
--     compliance_mw/errors.py and guardrails/errors.py, and results.
--   Schemas: schemas/, one module for each file: records, validators (`validate_*` for
--     `model_validate`), dumps (`dump_*` for `model_dump(mode="json")`), and the channels of the
--     graph in Schemas/State. Schemas/Consistent is on the validator of `Disposition`.
--   Audit: audit/log.py. Audit/Log has the table, `write_audit` and `verify_chain`; Audit/Chain,
--     Append, Verify and Tamper are on one writer; Audit/Writers has the statements of concurrent
--     transactions under the advisory lock as a step relation, with crashes, and Writers/Refinement
--     sets them against the atomic `write_audit` of Audit/Log.
--     Audit/Export is audit/s3_export.py: `export_batch` and `verify_export` on a bucket. The bucket is
--     a parameter, `ObjectStore`, with what S3 documents: reads and listings follow every write.
--     Export/Bucket has the objects, Keys their names, Batches and Mirror what a bucket of exported
--     batches is, Commit, Resume and Verify the theorems, Memory a bucket that meets the assumptions.
--   Config, Outside: the settings of config.py, and what the graph calls and does not implement:
--     providers, embedder, vector store, models, the rails library, clocks, hashlib, json, difflib,
--     re's character classes. Each is a parameter of the graph. Of sha256 and json.dumps the log relies on two
--     facts, fields of `Hasher`: a digest is not empty, and a serialised payload determines its
--     member prev_hash.
--   Exec: code with effects as functions from a `World` (audit table, clock reads, model calls) to a
--     result and a world. What was written before a raise stays written. Exec/Keeps, Yields and Runs
--     are the rules for proofs.
--   Guardrails: guardrails/patterns.py, its three regular expressions as matchers (Patterns, Cards),
--     `_luhn_ok` (Luhn), and guardrails/service.py (Service).
--   Llm: llm.py, which model serves a queue, and the fake models.
--   Graph: graph/nodes.py in Enrich, Prompt, Evaluate and Dispose, graph/routing.py in Routing, and
--     graph/builder.py in Context and Run. Graph/Run has the super-step: the wrapped node on the
--     saved channels, its update merged, and the edge. `screen` and `resume_parked` are the runs
--     of a new alert and of a parked one; `escalate` runs again from its start when it is resumed.
--   Middleware: compliance_mw/middleware.py and compliance_mw/citation.py. The wrapper's row of a
--     failure may be refused by the database (`audit_refused`), since the failure can be one of the
--     connection that both use; the other audit rows are written on a connection that works.
--   Graph/Trail is on the audit rows of runs, Graph/Policy on what runs book, Graph/Serving on the
--     rails and the fallback.
--   Contract: runtime/contract.py, the entrypoint `invoke`, over the channels that the checkpointer
--     has saved for a thread.
--   Rag: rag/. Rag/Corpus is the parser of rag/corpus.py, on the characters of a text, with the two
--     regular expressions as matchers; Corpus/Blocks is on any text, Render, Split and RoundTrip on
--     printed files. Rag/Faiss is `FaissVectorStore` of rag/faiss_store.py, its operations as functions
--     on its state; the library faiss, numpy's float32 and the JSON text of the file are parameters
--     (Vectors, `Codec`). Faiss/Invariant, Search and File have its theorems. Rag/Ingest is
--     rag/ingest.py with the interface of rag/base.py, Rag/Eval is rag/eval.py and rag/factory.py,
--     Rag/Pgvector is rag/pgvector_store.py, and Rag/Embedding is embeddings.py.
--   Adapters: adapters/base.py and adapters/mock.py.
--   Cost: cost.py, the query over the audit rows, the groups and the report. Cost/Query is on what the
--     query reads from the rows, Groups and Totals on the report.
--   Cli: runtime/cli.py, the commands as what they print, their exit code and what they leave behind.
--     Cli/Retrieval takes `rag ingest` and `rag search` together.
--   Samples and the modules named Samples or Tests hold concrete values and runs.
--
-- Bounds. A run is on fuel: six super-steps from intake, two from escalate, which is the number of
-- nodes on the longest path. Floats are NaN, infinities and whole multiples of 2 ^ -1074.
--
-- Not modelled: argparse, printing, the Postgres and AWS set-up and logging, which are input and
-- output; the LangChain clients of llm.py and embeddings.py; the order of the nearest rows, which
-- pgvector decides; and LangGraph's answer to a resume of a thread that is not parked. The JSON texts
-- of exported rows and manifests are typed objects.
-- Validation of a value that is already typed checks the constraints only; coercions belong to
-- pydantic. `LLMRails` caching does not change an answer.
pub mod Base
pub mod Json
pub mod Error
pub mod Schemas
pub mod Audit
pub mod Config
pub mod Outside
pub mod Exec
pub mod Guardrails
pub mod Llm
pub mod Graph
pub mod Middleware
pub mod Contract
pub mod Rag
pub mod Cost
pub mod Cli
pub mod Adapters
pub mod Samples
