-- ===== src/Orchestrator.antt =====
-- src/internal/orchestrator: the coordinator of a run, as far as it decides. `Paths` is the check of the paths
-- an agent names and `Files` what approvals derive from its edits; `Guard`, `Bars` and `Changes` are what is
-- said of a change, `Panel` the reviewer models; `Deciders` has the state of those who decide and `Rulings`
-- the order they are asked in, on what `Proposals` computes; `Delivery` is delivery without a person.
pub mod Paths
pub mod Files
pub mod Bars
pub mod Guard
pub mod Panel
pub mod Changes
pub mod Deciders
pub mod Proposals
pub mod Delivery
pub mod Rulings
mod Examples
