-- ===== src/Service.antt =====
-- internal/service
pub mod Samples
mod Tests
pub mod Config
pub mod Limiters
pub mod RateLimit
pub mod Health
