-- ===== src/Submission.antt =====
-- services/submission-service/main.go.
pub mod Text
pub mod Records
pub mod Scan
pub mod Build
pub mod Deploy
pub mod Handler
pub mod Startup
mod Tests
