-- ===== src/Lib.antt =====
-- The backend of a procurement and quotation assistant (backend/app): a customer request becomes
-- a workflow, which moves through a table of statuses, waits for the approval of a manager, and
-- is resumed after it. Services work over repositories in one database session per request; they
-- write workflow rows, events and audit records, and hand events on to a stream publisher.
--
-- Files, and the code they are about:
-- - Json: the JSON payloads and the dictionary operations that the services use. Dictionaries
--   keep insertion order; Json/Equality is `==` on them.
-- - Lifecycle: backend/app/workflows/lifecycle.py and backend/app/models/enums.py. Table, Paths
--   and Gate hold the facts of the transition table: terminal statuses, finite lives, and the
--   approval gate.
-- - Stage: the stages of backend/app/runtime/schemas.py.
-- - Schema: backend/app/workflows/schemas.py and backend/app/approvals/schemas.py, and the rows
--   of models.
-- - Store: the session as a record, the exceptions as an `Error`, and a method as an `Action`,
--   which is a function from a session to a result and a session. What was written before a
--   raise stays in the session, as it does until a rollback. Store/Actions and
--   Store/Query are backend/app/repositories.
-- - Workflows: Audit, Service and Events are backend/app/workflows/audit.py, service.py and
--   events.py, method for method (`_get_required_workflow` is `get_required_workflow`, and so
--   on). Contract, Creation and Delivery hold what each method returns and writes, Sorted and Listing
--   are about the listings of events and workflows. Trail reads the status writes of a workflow from
--   its audit records; Evolution and Keeps are about the invariant of all methods, in which these
--   writes follow the transition table. Sample is a concrete platform, Examples the theorems
--   applied at it.
-- - Approval: Rules is backend/app/approvals/lifecycle.py, Roles is
--   backend/app/approvals/policies.py with backend/app/auth/rbac.py, Metadata is the validators
--   of backend/app/approvals/schemas.py, Sanitize, Payload and Service are
--   backend/app/approvals/service.py. Outcome and Refusal hold what a decision does, Outcome/Resume
--   whether the workflow may then resume, Keeps its invariant. Access relates the roles of a user, as
--   the service and the endpoints read them.
-- - Llm: Contracts is backend/app/llm/contracts.py with errors.py, Settings is settings.py, Retry is
--   backend/app/llm/retry.py, Service is `LLMService` of backend/app/llm/service.py. Attempts
--   and Fallback hold how often it calls a provider and what the caller sees.
-- - Knowledge: Chunking is `_split_text` of backend/app/knowledge/chunking.py with its helpers.
--   Progress and Bounds are about the turns of its loop and the sizes of the chunks.
-- - Runtime: backend/app/runtime. The parent has the state of schemas.py and the stage table of
--   service.py, Nodes is nodes.py, Graph is graph.py, Adapter and Convert are state_adapter.py,
--   Rag is rag_adapter.py, Texts the methods of `str` that these call. Report, Stages, Service
--   and Resume are service.py: its events, one stage, `run_workflow`, and
--   `resume_workflow_after_approval`. Outputs and Roundtrip are about the adapter, Laws about
--   nodes, graph and stage table, Evidence about the citations, Keeps about the invariant, Refusal
--   about runs that are not started, and Ready, Loop, Waits, Run and Success, which build on each
--   other, about a run from its start to the wait for approval.
-- - Serving: sequences of calls to the services on one session. That `uuid4` gives no key twice is a
--   hypothesis there (`AllFresh`).
-- - Streaming: backend/app/streaming/schemas.py. Safety is about the payloads that clients are sent.
-- - Api: backend/app/api/v1/workflow_errors.py, and what `get_db_session` of backend/app/db/session.py
--   leaves when a request ends. Endpoints is backend/app/api/v1/workflows.py with its response
--   bodies, Answers and Conflicts are about what clients get.
--
-- Modelling choices:
-- - Identifiers and times are numbers; their texts are the platform's. `Platform` holds what
--   comes from SQLAlchemy, pydantic, uuid and datetime: drawn keys, clock readings, the
--   `updated_at` that a flush leaves, `model_dump` and `model_validate`. What is asked of
--   pydantic (a dump that is validated reads back) is `ReadsBack` and `ReadsRecords`; Sample
--   shows functions for which both hold.
-- - A row is found by its key alone: `session.get` does not look at `deleted_at`.
-- - A row write replaces the row with its key. A flush may stamp every row with a new
--   `updated_at`.
-- - The retry loop recurses on the attempts that remain. The splitting loop runs on fuel, one turn
--   more than the text has characters: the loop's start moves on in each turn. All else
--   recurses on the data.
-- - A runtime payload is the dictionary that a state dumps to. What a `try` block of the runtime has
--   assigned when something is raised is kept in a `Progress`, which the failure handler reads.
-- - An `Engine` holds what the runtime takes from LangGraph and pydantic. What is asked of them (a
--   valid dump reads back; the nodes of a graph in a line are streamed in order) is
--   `ReadsRuntime` and `StreamsInOrder`; Runtime/Sample shows functions for which both hold. The
--   model adapter of the runtime and the knowledge search are functions in the service's record.
-- - The loop over the stages recurses on their list.
-- - A model client is a function of the number of calls made so far. Texts that are split are
--   lists of code points, and which of them are white space is a parameter.
--
-- Not modelled: the WebSocket stream, the texts of error messages, the prompts and the model
-- adapter of the runtime, retrieval, the model clients, authentication tokens, configuration, demo data and the
-- frontend. They are glue around the parts above, or calls of outside services, or later parts of
-- the same development.
pub mod Prelude
pub mod Json
pub mod Lifecycle
pub mod Stage
pub mod Schema
pub mod Store
pub mod Workflows
pub mod Approval
pub mod Llm
pub mod Knowledge
pub mod Runtime
pub mod Serving
pub mod Api
pub mod Streaming
