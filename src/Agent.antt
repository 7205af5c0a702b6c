-- ===== src/Agent.antt =====
-- apps/api/app/services/agent_react.py: `_run_loop`, in which a task is planned, acted on and
-- verified turn by turn, with what it calls, and the handler of its exceptions in `_run_claimed`.
pub mod State
pub mod Record
pub mod Finish
pub mod Act
pub mod Dispatch
pub mod Turns
pub mod Ends
pub mod Records
pub mod Stops
pub mod Attempts
pub mod Acts
pub mod Branches
pub mod Dispatched
pub mod Decides
pub mod Rests
pub mod Runs
mod Examples
