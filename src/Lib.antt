-- ===== src/Lib.antt =====
-- A model of the optimization workflow's own core: the durable state of a case, the runtime that executes
-- its nodes, and the stages that decide what happens to a phase.
--
-- The parts and how they interact. A case is run by a graph of stages (orchestration). Each node of a
-- stage is executed by the node runtime, which keeps an intent per idempotency key in a ledger, calls the
-- node's handler, and returns updates; the graph merges the updates into the case state by reducers. A
-- node may halt for an approval; the resume protocol authorizes a command and prepares the next run.
--
-- Which file models which part (paths below src/production_optimizer):
-- Prelude and its children: lists, sorting, dictionaries and texts that the other modules share.
-- Contracts: the models of contracts/; Contracts/Errors has the exceptions and the state monad `Exec`.
-- State: contracts/state.py, the record `OptimizationState`, the updates (`Update`, `apply_updates`) and
--   the reducers (State/Merge); State/Refs and State/Routes prove what the reducers keep.
-- Ports: the protocols of ports/ as records of operations, with the laws that callers rely on.
-- Ledger: adapters/production/postgres_intent_ledger.py, the four statements on the table of
--   intents, with its foreign key to the cases;
--   Ledger/Port shows that they keep the laws of Ports/Intents.
-- Cases: adapters/production/postgres_case_repository.py, the four operations on the table of cases.
-- Outbox: adapters/production/postgres_outbox.py, the four operations on the table of events, and runs of
--   them by any callers.
-- Runtime: application/node_runtime.py and node_contract.py. Runtime/Keys is `_derive_idempotency_key`,
--   Runtime/RouteKeys is `_next_route_key`, `_latest_route_key` and `route_for`, Runtime/Nodes has the
--   check and the commit of an execution, Runtime/Execute is `NodeRuntime.execute`.
-- Resume: application/resume.py (`authorize_resume`, `resume_case`).
-- Policy: adapters/production/python_policy.py; Policy/Bootstrap: the decision functions of
--   adapters/production/bootstrap_policies.py.
-- S01: application/s01_handlers, the shared helpers and the nine nodes: S01/Score has the factors and the
--   weighted scores, S01/Rank the ranking with its ties, S01/Select what is chosen, S01/Seal the nodes that
--   seal it.
-- S02: application/s02_handlers, S02/Acyclic the search for cycles, S02/Checks the checks of a plan,
--   S02/Critique what S02.80 keeps of the critic's answer, S02/Gate the node S02.10 and what the
--   nodes share, S02/Seal the nodes S02.70, S02.81 and S02.90.
-- S04: application/s04_handlers.py, the nodes S04.70, S04.80 and S04.90, S04/Gate the gate and the
--   validator of the report, S04/Intake the node S04.10.
-- S06: application/s06_handlers.py, a definition for each handler.
-- Workflow: orchestration/shared_workflow.py, the edges between the stages.
-- Subgraphs: orchestration/subgraphs and orchestration/catalog.py, the edges inside the stages S01 to S07
--   with the routes that the nodes' registrations allow.
-- Examples: the theorems at concrete inputs.
--
-- Bounds and fuel. The two loops over route slots run on fuel of one more than the number of recorded
-- routes; the slots are distinct keys of that dictionary, so a free one is found before the fuel ends
-- (Runtime/RouteKeys/Slots). The ranking of S01 runs on fuel of the number of scores, and each turn takes
-- one away (S01/Rank/Laws). The search for cycles runs on fuel of the number of tasks and one, and each
-- deeper call stands on a task that was not on the path before (S02/Acyclic/Search). The repairs of a
-- phase are bounded by 5 and the revisions of a plan by 2, the source's constants. Numbers are natural
-- numbers without a bound, as Python's are.
--
-- Not modelled. Floats are their bits, and what the program computes with them is a parameter, as are
-- canonical JSON and digests, git, files, the clock, the compiled LangGraph graphs and the handlers given
-- to the runtime. Free texts (rationales, details, parts of failure reasons) are left out. A time is a
-- number of seconds. The nodes S02.20 to S02.60, and the calls of the model for a plan and its critique, the stages S03, S05 and S07, the nodes S04.20 to S04.60, the lanes
-- before them, the authorizations of commands and collectors, and the other adapters are not modelled.
pub mod Prelude
pub mod Contracts
pub mod State
pub mod Ports
pub mod Policy
pub mod Ledger
pub mod Cases
pub mod Outbox
pub mod Runtime
pub mod Resume
pub mod S01
pub mod S02
pub mod S06
pub mod S04
pub mod Workflow
pub mod Subgraphs
pub mod Examples
