-- ===== src/Tests.antt =====
-- Concrete services, worlds and inputs on which the definitions run and the theorems apply.
pub mod Fixtures
mod Flags
mod Tools
mod Proxy
mod Stored
mod Invoked
mod Loaded
mod Network
mod Serve
mod Verified
mod Configured
mod Published
mod Runs
mod Witnesses
