-- ===== src/Runtime.antt =====
-- The runtime control of a server: session grants (internal/runtimeaccess) and configuration requests
-- (internal/runtimeconfig).
pub mod Access
pub mod Config
mod Examples
