-- ===== src/BotWorker.antt =====
-- services/bot-worker/main.go: the bots that send orders, and the worker that starts and stops them
-- at the orchestrator's commands.
pub mod Order
pub mod Bot
pub mod Exchange
pub mod Worker
pub mod Startup
mod Tests
