-- ===== src/Lib.antt =====
-- ProcessGuard AI: the incident pipeline of agent-service, the mock ERP/CMMS that it writes to, and
-- what keeps both of them correct.
--
-- The program. Sensor readings reach the Detection Agent, which groups anomalous ones and writes
-- one incident for an equipment. The Orchestrator then drives that incident through the state
-- machine: diagnosis, risk assessment, recommendation, and a gate that either informs or asks a
-- human. An approval given through the API makes the Action Agent call the CMMS, and a resolved
-- work order closes the learning loop. All of them share a Postgres database and a Redis event bus.
--
-- Where things are.
-- - Incident: the status words, the rows of the tables, and VALID_TRANSITIONS
--   (agent-service/app/agents/orchestrator/agent.py).
-- - Db: agent-service/app/core/db.py. A table is a list of rows, newest last, a transaction one
--   function from the store to a result and a store. Store has the SQL statements, Writes and Reads
--   the functions of db.py by their names; History, Log, Lookup and Once hold the proofs.
-- - Risk: hitl_level_for, select_consequences and _severity_from of
--   agent-service/app/agents/risk/agent.py with agents/risk/config/hitl_thresholds.json.
-- - Mapping: agent-service/app/agents/action/mapping.py.
-- - Cmms: agent-service/app/core/cmms_client.py. The server is a function of the log of all that
--   was sent before.
-- - World: the database, the wire to the CMMS and the bus, which the agents share.
-- - Action: agent-service/app/agents/action/agent.py: Execute and Handle for an approval,
--   Resolutions for the poll.
-- - Security: agent-service/app/core/security.py and config/rbac-policy.json.
-- - Api: agent-service/app/api/incidents.py: decisions, resolution, and the reads.
-- - Agents: RiskAgent.handle, RecommendationAgent and OrchestratorAgent (agent-service/app/agents).
--   Parse is _parse_recommendation, for which recommend has a parameter.
-- - Diagnosis: agent-service/app/agents/root_cause/agent.py: Citations has _validate_point and
--   _parse_and_validate, Diagnose the attempts of RootCauseAgent.handle, Waits its waits for a full
--   signature and for evidence, InFlight the guard of its event handler.
-- - Detection: agent-service/app/agents/detection. Scoring and Correlate are scoring.py; Agent,
--   Stream and Persist are agent.py: its state and the baselines in Redis, the consumption of the
--   stream, and the incident that an anomaly opens.
-- - Retrieval: agent-service/app/rag/retrieval.py; Corpus is agent-service/app/rag/corpus.py, which
--   fills the index.
-- - Knowledge: agent-service/app/agents/knowledge/agent.py. Similar is find_similar_history of
--   db.py; Collect is KnowledgeAgent.handle, which calls it and the index, writes the evidence and
--   announces it to the Root-Cause Agent.
-- - Chat: agent-service/app/api/ask.py, which checks an answer with the _validate_point of
--   Diagnosis. Telemetry: agent-service/app/api/telemetry.py.
-- - Llm: the offline client of agent-service/app/core/llm_client.py, which can take the place of
--   the model that the planner of Agents has as a parameter.
-- - Bus: agent-service/app/eventbus/base.py. Simulator: agent-service/app/simulator/service.py.
-- - Erp: mock-erp-cmms/main.py.
-- - Oidc: oidc-provider/app, the identity provider whose tokens Security checks. Users and
--   Passwords are users.py, Codes, Issue and Serve main.py: the store of codes, the tokens, the
--   endpoints. Bearer composes the provider with validate_token of the agent service.
-- - Tests: runs on small inputs and the theorems at them.
--
-- How it is modelled. State is passed explicitly: each handler takes the World and returns its
-- result with the World behind it. An exception is a value of Result; CmmsError, which the Action
-- Agent catches, is a value of its own, and so is the list of faults that says which publishes and
-- which upserts fail. Loops are recursion on lists, or on the number of attempts or rounds left,
-- which the source bounds as well (retry_attempts, MAX_TOOL_ROUNDS), so no fuel runs out.
--
-- Parameters, for code that is not here: the CMMS server, the language model with its tools, what
-- the regular expressions of the Root-Cause Agent find in its answers, and that of the
-- Recommendation Agent in a product line, the JWT library (Signs in Oidc.Issue states what is
-- relied on), scrypt and the SHA-256 of a PKCE verifier, uuid.uuid5, json.dumps of an evidence
-- bundle, the reply of the model in the chat, the samples of Prometheus, what each read shows while
-- an agent waits, the ranking of scikit-learn, uuid.UUID on a site text, and the operations on
-- doubles that round, with float and datetime.fromisoformat of a text. A double is its bit pattern;
-- where it is not negative and no NaN, that has the order of the numbers, and Detection.Scoring
-- defines the comparisons of all doubles. The client of the language model may raise, and so may
-- the reading of a product line; what they raise is a value. The JSON columns that an answer in the
-- chat is checked against, the rounding of a retrieval score, and the row ids that the database
-- draws are parameters too. Texts are lists of code points; lower and strip are those of ASCII. A
-- UUID is a number, an id that does not parse is marked as such, and a fresh UUID is one that was
-- not drawn before. Within one transaction the clock stands still; times are numbers.
--
-- Coarser than the code: close_incident_loop looks for an earlier row of the audit log before its
-- transaction, here within it, so two calls for one incident at once are not told apart; the
-- commands of the Redis pipeline of a baseline are carried out all or none; an answer of the CMMS
-- that is JSON is an object; and whether the insert of a reading fails is given with the reading.
--
-- Left out: log lines, metrics, tracing and correlation ids; detail and reason columns; database
-- failures other than those of the upsert; prompt texts; the vector store, which nothing queries;
-- the HTTP client of the model; page texts, discovery, keys and test tokens of the identity
-- provider; service start-up and the replay of recorded data, which are glue and random or recorded
-- input; the .NET middleware and the frontend, which are other languages.
pub mod Base
pub mod Incident
pub mod Db
pub mod Risk
pub mod Mapping
pub mod Cmms
pub mod World
pub mod Action
pub mod Security
pub mod Api
pub mod Agents
pub mod Diagnosis
pub mod Erp
pub mod Detection
pub mod Retrieval
pub mod Bus
pub mod Simulator
pub mod Tests
pub mod Oidc
pub mod Knowledge
pub mod Llm
pub mod Chat
pub mod Telemetry
