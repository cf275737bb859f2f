-- ===== src/Service.antt =====
-- internal/app/service.go: the methods of Service, and the functions that they call.
pub mod Select
pub mod Naming
pub mod Slug
pub mod Eviction
pub mod Usage
pub mod Port
pub mod Up
pub mod Check
pub mod Down
pub mod Gc
pub mod Listing
pub mod Valid
pub mod Undo
pub mod Atomic
pub mod Handoff
pub mod Rollback
pub mod Swept
pub mod Collected
pub mod Command
