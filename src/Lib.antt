-- ===== src/Lib.antt =====
-- Prompt Better: the parts of the program that decide, count and store, with what makes them correct.
--
-- The program improves prompts, judges proposed actions against a policy, and audits how prompts
-- were worked on from evidence that collectors store.
-- * internal/policy and internal/boundary decide. `Policy.resolve` is `policy.Resolve`, and
--   `Boundary.Decision.decide` is `boundary.Decide`; the second takes its types from the first.
--   pkg/contracts, in `Contracts`, has the enumerations and the errors that both answer with.
--   `Boundary.Engine` has `EvaluateContext` of internal/boundary/engine.go and
--   `Boundary.Selection` its bounded selection; `Boundary.Resolution` and `Boundary.Cycle` have
--   internal/boundary/resolve.go. The depth-first search for a cycle takes one more than the number
--   of keys as the fuel of its depth, and ends with it, as the stack holds no key twice.
--   `Boundary.Discovery.discover` is `Discover` of internal/boundary/discovery.go, over a walk of the
--   file system that is a parameter; its tables of names are in `Boundary.Paths`.
--   internal/policypack has packs of rules on which the boundary is evaluated:
--   `Policypack.Packs.validate` and `evaluate` are `Validate` and `Evaluate`, with the tables and the
--   identifiers in the modules beside.
-- * internal/collector stores evidence. `Collector.Run.run` is `Collector.Run`: it gives the effects
--   of a run in their order, for any answers of the lease store, the store and the adapter.
--   `Evidence.Sanitize.sanitize`, `Evidence.Record.validate` and `parse_lineage` are `Sanitize`,
--   `Validate` and `ParseLineage` of internal/evidence: what may be kept of a source's record.
--   `Adapters.Collect.collect` is `JSONL.Collect` of internal/adapters, which reads the next lines of
--   a file behind a cursor, and `Adapters.Sources` has the sources with their contracts.
--   `Status.build` is `Build` of internal/status, which reports on the collectors.
-- * internal/normalize orders what several sources assert, `Normalize.resolve`.
-- * internal/lineage, internal/runtime and internal/tokens count what was stored:
--   `Lineage.correlate` is `Correlate`, `Runtime.union_duration` is `UnionDuration`,
--   `Runtime.text_tokens` is `TextTokens`, and `Tokens.derive` is `Derive`.
-- * internal/replay compares two audits, `Replay.Compare.compare`, and internal/eval decides on the
--   comparison, `Replay.Decision.decide`.
-- * internal/diagnosis makes findings of what detectors observed, `Diagnosis.evaluate`, and
--   internal/recommendation proposals of the findings, `Recommendation.generate`.
-- * internal/metrics and internal/baseline have the numbers of an audit: `Metrics.Compute.compute` is
--   `Compute` over the table `Metrics.Table.registry`, `Baseline.apply` is `Apply`, which compares a
--   metric with its baselines, and `Baseline.Outlier.rank` is `Rank` of internal/outlier.
--   `Baseline.Confounder` has internal/confounder.
-- * internal/audit answers a request for an audit: `Audit.Engine.run` is `Engine.Run`, which calls all
--   of these; `Audit.Snapshot.detect` has the detectors and `Audit.Facts` the facts of the report.
--   `Audit.Request.validate_request` is `ValidateRequest`, and `Audit.Bound.bound_result` is `BoundResult`, which leaves items out until
--   the encoding fits. It runs on fuel, one more than there are items to leave out, as each round
--   leaves out one. `Audit.References` has `mergeRefs` and the states of the guardrails.
-- * internal/attribution finds the project that evidence belongs to, `Attribution.resolve`.
-- * internal/lint checks a prompt: `Prompt.Lint.check_prompt` is `CheckPrompt`, with the tables in
--   `Prompt.Rules` and `Normalize` of internal/textutil in `Prompt.Lines`. What a regular expression
--   matches is a parameter. internal/compiler makes prompts: `Prompt.Compiler.improve` is `improve` and
--   `create_goal` is `CreateGoal`, with the plans in `Prompt.Plan`; `CreateReviewFix` is left out.
-- * internal/recovery writes the database to an encrypted archive, `Recovery.Encrypt.encrypt`, and
--   reads one back, `Recovery.Decrypt.decrypt`.
-- `Base` has what these share: lists, results, texts, insertion sort in the place of `sort.Slice`.
--
-- A Go string type with constants is a data type with one more constructor, for any other text. A
-- map is an association list or a function, where the code does not show its order. Unsigned numbers
-- wrap at `2 ^ 64` and `2 ^ 32` as in the code; an instant is a number of nanoseconds. A float is an
-- abstract type with its tests and operations (`Base.Floats`). AES-GCM is a record of its two operations and of
-- what its documentation says of them (`Recovery.Bytes.Aead`), SHA-256 and the keyed hash are any
-- functions. Unicode's tables are a record of functions (`Base.Patterns.Unicode`), JSON and the
-- parsing of times another (`Adapters.Jsonl.Codec`).
-- `Recovery.Decrypt.decrypt` runs on fuel, one more than the stream has bytes; each round reads four
-- at least.
--
-- Left out: the command line, the configuration, the file system, PostgreSQL, the MCP server and the
-- rendering of text, which are input and output.
pub mod Base
pub mod Contracts
pub mod Policy
pub mod Policypack
pub mod Boundary
pub mod Tokens
pub mod Runtime
pub mod Recovery
pub mod Collector
pub mod Lineage
pub mod Normalize
pub mod Replay
pub mod Diagnosis
pub mod Recommendation
pub mod Status
pub mod Tests
pub mod Evidence
pub mod Adapters
pub mod Audit
pub mod Attribution
pub mod Metrics
pub mod Baseline
pub mod Prompt
