-- ===== src/Lib.antt =====
-- loop-agent: an autonomous agent that works a task in a loop of model calls and tool calls, under
-- a step and token budget, until its acceptance policy accepts the result or a bound stops it.
-- This library models the parts of apps/api/app that decide: what state a task may move to, when
-- its result is accepted, what a step's record proves, and which authority a task or a child task
-- has. They meet in the agent's service (apps/api/app/services/agent_react.py): each turn moves the
-- task by the transition policy, dispatches a tool that the capability envelope permits, records the
-- step in the ledger, and asks the acceptance policy for a decision when the agent says it is done.
-- Paths below are relative to apps/api/app.
--
-- Prelude    names of the library, Boolean tests, texts and the lemmas that the parts share.
-- Json       the values that `json.loads` gives, `dict.get`, truthiness, and the conversions of
--            numbers that raise.
-- Loop       domain/loop.py and domain/task.py. `LoopState`, `LoopEvent`, `TaskStatus` and
--            `StopReason` are the enums, `rule` is the table `_RULES` with what its two loops add,
--            `apply` is `LoopTransitionPolicy.apply`, whose exceptions are values beside the task as
--            the call leaves it. Loop.Claim has `TaskRepository.claim_pending` of
--            repositories/task.py, the UPDATE by which a worker takes a task.
-- Checks     `CheckResult` and `execution_coverage_complete` of services/verification.py, and the
--            gates of services/completion.py: `attach_baseline`, `regressions`,
--            `completion_gates_pass`, `mark_supplementary_agent_checks`.
-- Acceptance services/loop/verification.py: `evaluate` is `VerificationPolicy.evaluate`, `score_of`
--            is `_score`; a result `none` is the `OverflowError` that leaves it.
-- Ledger     services/ledger.py: `step_hash`, `genesis_hash` and `verify_chain` of the chain of
--            hashes over a task's steps.
-- Hosts      domain/authority_token.py, its host policies: `normalize_host`, `permits_host`,
--            `intersect_host_policies`. A host is the list of its characters' codes.
-- Capability domain/capability.py and `CapabilityEnvelope` of tools/envelope.py.
-- Spawn      services/loop/delegation.py, and `_handle_spawn` of services/agent_react.py up to the
--            creation of the child task; Spawn.Lineage has the descendants over any number of spawns.
-- Revocation domain/authority_revocation.py: revoked runs in memory, in SQLite and in Redis, as rows
--            of a run and its expiry, each with its `revoke` and `is_revoked`; Revocation.Backends has
--            the promise that they share. Times are numbers, read once in an operation.
-- Proxy      egress_proxy/proxy.py and egress_proxy/admin.py: the steps by which connections are opened
--            and by which a run is revoked, in any interleaving.
-- Queue      workers/worker.py and workers/queue.py: the Redis stream of jobs as a list of entries with
--            their deliveries, and `enqueue`; Queue.Worker is `_process`, `_claim_stale` and an
--            undisturbed round of the loop of `_run`, Queue.Shared the steps of workers that live at
--            the same time and overtake each other. Queue.Effects says what one call can do, Queue.Ranks how much an entry can still
--            cause.
-- Policy     tools/policy.py: its tables of patterns, and `evaluate_command` with what else it asks of a
--            command or a script; regular expressions are parameters.
-- Contract   services/contract.py and schemas/contract.py: `compile_project_contract`.
--            Contract.Reading with Contract.Normalize reads a reply of the compiler, Contract.Merge
--            puts in what the user requires, Contract.Checks and Contract.Effective are the checks,
--            Contract.Issues and Contract.Critic what speaks against a contract, Contract.Verdict
--            one verdict and Contract.Compile the loop of at most three. The other files prove,
--            from Contract.Found on, what an accepted contract is like and what its compilation
--            spends.
-- Trigger    services/trigger.py and `claim_fire` of repositories/trigger.py: one interval trigger, what
--            each of several schedulers has read of it, and the fires, in any interleaving.
-- Parser     services/loop/decisions.py: `balanced_json_objects`, `extract_json` and `parse`, with a
--            grammar of the texts between braces that the scan is to find.
-- Turn       `ContextBudget` of services/loop/context.py and `ActionDispatchPolicy.route` of
--            services/loop/dispatch.py.
-- Guard      services/progress.py: the signatures by which two actions count as the same, and
--            `ProgressGuard`; a set of its texts is a list, its counter a function.
-- Agent      services/agent_react.py, `_run_loop` and what it calls of its own class. Agent.State has the
--            task's columns with the loop's variables, and a call as a function of them that goes on,
--            returns from the loop or raises. Agent.Record is `_record_step` and `_begin_operation`;
--            Agent.Finish is `_finish`, `_handle_finish` and the pauses; Agent.Act and Agent.Dispatch are
--            the branches of a turn; Agent.Turns is the turn, the loop over the numbers of the steps, what
--            comes before and after it, and the handler of exceptions in `_run_claimed`. The other files
--            prove, from Agent.Ends on, what holds after each by how it ends.
-- Task       services/task.py: `TaskService.respond`, with the reading of an answer in Task.Reading, and
--            `TaskService.cancel`; a step's new hash is that of Ledger.
-- Changes    services/changeset.py: `_parse_name_status`, with a printer of what git prints.
-- Patches    services/task.py: a change set applied, discarded and undone, each with what it does where the
--            commit fails, or lasts while the refresh behind it fails; and `apply_patch` of
--            services/changeset.py. Trees and patches are of any type, and git is a parameter.
--
-- Numbers are natural numbers, and Python's integers where they may be negative are `ℤ` of Json;
-- Python's integers have no width, so nothing wraps. A subtraction stops at 0 only where the source
-- has `max(0, …)`. A set is a list, or a characteristic function for capabilities. A float is
-- what `int` makes of it: the integer that it truncates to, infinite, or not a number.
--
-- Parameters stand for code that is not in the repository: SHA-256 and `json.dumps` in Ledger;
-- `float(int)`, `float(text)` and `repr` in Acceptance; `ipaddress.ip_address` and the `idna` codec
-- in Hosts; `int(text)` in Spawn; the text of a list in Turn; `json.loads` and `repr` in Parser;
-- `json.loads`, `int`, `str`, `repr` and Redis' trimming in Queue; `re` and `shlex` in Policy, and
-- in Contract also `ast`, `json`, `sorted`, SHA-256 and pydantic's validation; what git answers in
-- Patches; and a record of texts and hashes in each of Guard, Task and Agent. Agent's also stands
-- for parts of the repository that it is not joined to here: the redaction of secrets and the
-- building of a receipt, which are not modelled, and the policy on commands, which Policy models. A
-- theorem on the ledger names the collision of SHA-256 that an undetected change exhibits, so
-- nothing is assumed of it. The digits of a criterion's number are made on fuel, the number itself,
-- which is enough because each step divides it by ten. The loop recurses on the number of steps
-- that are left. What its turns meet (replies of the models, outcomes of tools, of checks and of
-- children, which of these calls raise, markers of the workspace, a cancellation between two
-- turns) is an argument, so that a theorem holds for all of them.
--
-- Not modelled: the discovery of a repository and its previews; `destination_hosts` of the policy;
-- calls of models, tools, databases, sandboxes and remote services, and the web routes, which only
-- pass values on; the signatures of authority tokens; the requests that the egress proxy reads and
-- the bytes that it relays; how `_run_claimed` sets a run up and takes it down, a cancellation in
-- the midst of a turn, by `run` or over a row that the turn writes in part; failures of the
-- database but for the commits of Patches; what a child task does; Redis' notices of a revocation;
-- the clock and the heartbeat of a worker; and the front ends.
mod Prelude
pub mod Json
pub mod Loop
pub mod Checks
pub mod Acceptance
pub mod Ledger
pub mod Hosts
pub mod Capability
pub mod Spawn
pub mod Revocation
pub mod Turn
pub mod Parser
pub mod Proxy
pub mod Queue
pub mod Policy
pub mod Trigger
pub mod Contract
pub mod Guard
pub mod Agent
pub mod Task
pub mod Changes
pub mod Patches
