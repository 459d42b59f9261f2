-- ===== src/Lib.antt =====
-- stAirCase runs AI agents in a separate copy of a repository. What an agent wants to change is a
-- proposal, which a person or a rule decides; every event of a run is an entry of a chain of hashes;
-- and the commit at the end is what the chain says was approved. This library models the parts of the
-- program that decide: how entries are hashed and checked, what a chain may say, which proposals a
-- rule may decide, when a run drifts, and what a compiled plan may ask for.
--
-- The parts, and the files that model them (paths are from the repository's root):
--
-- Chain (src/internal/chain/chain.go): `HashV1`, `HashV2`, `Expected`, `Check`, `Verify`. A Go string
--   is its list of bytes, and SHA-256 is a parameter. Framing is about the bytes that are hashed,
--   Verdicts about what Check and Verify say, Tampering about two chains with one head.
-- History (src/internal/history: history.go, payload.go, events.go, outcome.go): the replay of a
--   verified chain. Payload has the events; State has `Replay`, which is `History` with the variables
--   of the loop of `replay`; Grammar has the errors; Refusals has `voteRefused`,
--   `panelDecisionRefused` and `authorizationRefused`; Replay and its children have one function for
--   each case of the switch, `step` for a turn of the loop and `replay` for the fold. Queries has what
--   the program asks of a history, and Standing has `Outcome`. The others prove: Invariants, how a
--   property is shown for every accepted chain; Launches, Requests, Orderly,
--   Decisions, Panel, Panelled, Delivery, Authorized, Authorizing, Earned, Latest, Order, Delivered, Reviewed
--   and Parking,
--   what they are named for; SampleRun has the runs that the examples use.
-- Policy (src/internal/policy/engine.go): a rule, its conditions, `Evaluate`, `CheckLimits`, `Tighter`
--   and the checks of `parseEngine`.
-- Drift (src/internal/policy/drift.go): the supervisor. Its runs are a step relation in Drift.Runs.
-- Orchestrator (src/internal/orchestrator: approval.go, guard.go, bars.go, validator.go, decide.go,
--   delivery.go): Paths is `cleanApprovedPath`, and Files `approvals.derive` with the edits of one file; Guard
--   is `guard`, Changes the facts that rules read, Bars the paths only a person may change; Panel
--   `Validator.decide`; Deciders and Rulings `deciders.decide` with `rule`, `onEvidence` and `human`, one
--   function for each step. What the checks, the models, a signal or a person answer comes with a proposal
--   as `Found`, and so does what is derived of it, which Proposals computes. Delivery has the seven
--   conditions of `deliveryCase` and the authorization that follows.
-- Workflow (src/internal/agent/graph.go): `Graph.Run`, the agents of a plan in one conversation. Its two
--   loops count down from 25 steps and 100 calls, the bounds of the source.
-- Compiled plans, in the module Plan (src/internal/plan/plan.go, src/internal/llm/llm.go): their
--   limits in Plan.RunLimits, `Validate`, and `providerFor` with `SecretFor` in Plan.Provider.
-- Glob (src/internal/engine/glob.go): the path patterns that Policy and Drift match with.
-- Domain (src/internal/domain/models.go): the types the parts share.
-- Prelude: the shared names and lemmas. GoLibrary: the parameters that stand for Go's library, and in Bytes
--   what the program uses of Go's bytes and UTF-8.
--
-- How they interact: Policy and Drift call Glob and take the stricter limits from Plan; a decision of
-- either is an entry that Chain hashes; the order in which the bars, Drift, Policy and the Panel are
-- asked is that of Orchestrator.Rulings; History reads entries back once Chain has verified them.
--
-- Parameters. SHA-256 is any function from bytes to bytes. `filepath.Match`, `strings.ToLower` and
-- `strings.EqualFold` are functions of a section or of the record of GoLibrary, and so is the type of
-- scores (a Go float64) with its comparisons. An entry of a history comes with its payload already
-- decoded: `none` stands for a payload that json.Unmarshal refuses. The matches of the two regular
-- expressions of guard.go, the decoding of base64, what os.Lstat and the base commit hold, and the check of
-- a signature are functions, too.
--
-- Numbers. Counters and positions are natural numbers. A Go int whose sign matters is an integer of
-- Prelude.Int, which the code compares, and of times adds and subtracts, without overflow; the lengths in a hashed message are written
-- as eight bytes with their wrap-around. Times are nanoseconds, and a duration does not saturate. All
-- recursion is on the list that is read or on the steps and calls a run has left, so there is no fuel.
--
-- Not modelled: input and output (git, files, SQLite, HTTP, processes, terminals), JSON, signatures
-- and encryption, and the texts of messages, which are data here. Of the decision logic the
-- life of a run, the quality gate, the order of dependent
-- projects and the certificates are outside the library.
mod Prelude
pub mod Domain
pub mod GoLibrary
pub mod Glob
pub mod Plan
pub mod Chain
pub mod Policy
pub mod Drift
pub mod History
pub mod Orchestrator
pub mod Workflow
