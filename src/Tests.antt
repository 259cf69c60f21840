-- ===== src/Tests.antt =====
-- Concrete runs of the models, and the theorems at concrete inputs.
pub mod Breakers
pub mod Chains
pub mod Guards
pub mod Limits
pub mod Middlewares
pub mod Logs
pub mod Requests
pub mod Routers
pub mod Sockets
pub mod Servers
pub mod Timeouts
pub mod Buckets
pub mod Programs
