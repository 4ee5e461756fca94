-- ===== src/Agents.antt =====
-- backend/agents: the pipeline that takes a batch from extraction to its final judgment.
mod Tests
pub mod State
pub mod Supervisor
pub mod Gateway
pub mod Geo
pub mod Judges
pub mod Compliance
pub mod Scoring
pub mod Judgment
pub mod Graph
