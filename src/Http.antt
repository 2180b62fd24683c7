-- ===== src/Http.antt =====
-- presentation/http and what it stands on: the verification of a token, the response cache, the routes
-- and the readiness report.
pub mod Token
pub mod Cache
pub mod Routes
pub mod Health
pub mod Problem
