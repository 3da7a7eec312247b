-- ===== src/Scoring.antt =====
-- services/scoring-service/main.go: the score of a session and the leaderboard.
pub mod Score
pub mod Engine
pub mod Startup
mod Tests
