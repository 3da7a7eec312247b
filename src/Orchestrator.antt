-- ===== src/Orchestrator.antt =====
-- services/bot-orchestrator/main.go: sessions, workers, the commands between them, heartbeats.
pub mod State
pub mod Sessions
pub mod Waiting
pub mod Polls
pub mod Handlers
pub mod Workers
pub mod Shares
pub mod Heartbeats
pub mod Registry
pub mod Channels
pub mod Calls
pub mod Lifecycle
pub mod Statuses
pub mod Aggregation
pub mod Startup
mod Tests
