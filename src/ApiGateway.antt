-- ===== src/ApiGateway.antt =====
-- The rate limiter, accounts and proxies of services/api-gateway/main.go.
pub mod RateLimiter
pub mod Text
pub mod Accounts
pub mod Proxy
pub mod Config
pub mod Router
mod Tests
