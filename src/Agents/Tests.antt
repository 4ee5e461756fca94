-- ===== src/Agents/Tests.antt =====
-- One product with one supplier, through all agents.
mod World
mod Clean
mod Agent
