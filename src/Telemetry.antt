-- ===== src/Telemetry.antt =====
-- services/telemetry-service: the order-book mirror, the validator, the metrics, the batch writer
-- and the consumer loop.
pub mod Event
pub mod Book
pub mod Validator
pub mod Metrics
pub mod Writer
pub mod Consumer
pub mod Startup
mod Sample
