-- ===== src/Lib.antt =====
-- ISEKAI Memory, a server that keeps shared memory for coding agents: a model of its core and the
-- theorems that make it correct. Paths are from the root of the repository.
--
-- Handoff models work handoffs with recoverable leases: the handoff part of
--   src/isekai_memory/store/queries.py and src/isekai_memory/handoff/service.py. Rows has the tables
--   handoffs and handoff_claim_receipts, Lease the functions claim_handoff_lease and
--   get_claimed_handoff, Settle acknowledge_handoff and nack_handoff, Queue insert_handoff,
--   list_pending_handoffs and claim_handoff, Queue/Publish the end of push_handoff, Service the
--   service layer. Renewal has renew_lease of src/isekai_memory/handoff/collaboration_store.py,
--   Promotion the part of publish of src/isekai_memory/continuity/delivery.py that moves a handoff
--   into a continuity bundle.
--   Steps has every operation that writes a handoff as a step of a transition system; Machine is an
--   abstract machine of one handoff, and Refinement relates the tables to it.
-- Presence models src/isekai_memory/continuity/presence_state.py: Times has the policy and next_times,
--   State session_state, Aggregate aggregate_states. Presence/Sessions models
--   src/isekai_memory/continuity/presence.py, which calls them: Reports has the checks of a report and
--   _classification, Operations register, Heartbeats heartbeat and end, Administration policy_set and
--   prune.
-- Usage models src/isekai_memory/continuity/usage_metrics.py: Counters, Metrics (with normalize),
--   Revision (validate_revision) and Aggregate. Usage/Ledger models
--   src/isekai_memory/continuity/usage.py, which stores reports of usage: Operations has register,
--   Reports report, Administration policy_set and prune; source_time is from usage_periods.py.
-- Generation models the queue of generation jobs, src/isekai_memory/generation/queue.py, and the end
--   of _complete in src/isekai_memory/generation/worker.py, which relies on its fence.
-- Registry models src/isekai_memory/registry/policy.py: Version has SemVer, Parse reads versions and
--   ranges from their text, Range has version_satisfies and resolve_policies, Rows the table of
--   policies. Print is the canonical text of a version.
-- Continuity models the ownership of work, src/isekai_memory/continuity/work.py, with the checks of
--   src/isekai_memory/continuity/common.py and delivery.py that it calls. Filed has the receipts of
--   common.py as Presence and Usage use them. Its steps are claims, renewals and releases; the
--   reassignment of units is not among them.
-- Experience models the review of proposed experiences and their suppression,
--   src/isekai_memory/experience/lifecycle.py with src/isekai_memory/experience/persistence.py.
-- Retrieval models the search for approved experiences, src/isekai_memory/retrieval: Rows has the
--   visibility of rows, PostgresLexical.candidates and fetch_rows of postgres.py, Citations the
--   excerpts and digests of citations.py, Service the search of service.py, which packs rows into a
--   budget of characters.
-- Access models tokens and the authorization of tools, src/isekai_memory/server/auth.py, and the
--   queries on access_tokens of src/isekai_memory/store/queries.py.
-- Base has what they share: tests on numbers, lists, tables of rows and their keys, ordering,
--   membership, classifications, results.
--
-- How the code is read. A table is the list of its rows; a SELECT finds the first row that its WHERE
-- clause accepts, an UPDATE rewrites every row that it accepts. The services lock the row or the
-- project before they read it, so a transaction is one function from the tables to the tables, a
-- raise leaves them as they were, and interleavings are sequences of such steps. Identifiers, users,
-- codes and digests are only compared, so they are numbers; times are microseconds and enter as
-- arguments, one for each reading of the clock that the code distinguishes. Columns that are only
-- copied are one column, document or parameters. Numbers have no upper bound, as in Python; the 4300
-- digits at which `int` refuses a text are not modelled. Texts are lists of code points.
--
-- Parameters: the hash of a token, the digests and fingerprints, the view memory_eligible_members,
-- which time zones are known, how the database matches and ranks text, what an item of a search
-- prints besides its excerpt, and fnmatch.
--
-- Bounds. All loops are over lists, but for two: the binary search for the excerpt that fits halves
-- its range, and has one round more than the excerpt has characters; the printer of a number takes a
-- digit in a round, and has one round more than the number. The sizes that the code limits keep its
-- limits: 10,000 sessions or units in an aggregate, 100 exhausted jobs in a claim, 30 attempts of a
-- job; 64 open sessions of a user, 10,000 live ones of a project and 10 registrations in a minute;
-- 512 reports of a usage session, 200,000 of a project and 120 in a minute; 512 characters of an
-- excerpt.
--
-- Not modelled: connections and SQL dialects, HTTP and identity providers, the text of messages, the
-- schemas of requests, the Unicode normalization of a query, the bounded reads of presence and usage,
-- the validation of envelopes of handoffs, the dispatch of messages, the rest of continuity
-- bundles and checkpoints, the submission of experiences, the artifact registry, and the subsystems projects,
-- team and skills.
pub mod Base
pub mod Handoff
pub mod Continuity
pub mod Presence
pub mod Usage
pub mod Generation
pub mod Experience
pub mod Access
pub mod Registry
pub mod Retrieval
