-- ===== src/Manager.antt =====
-- pkg/manager/manager.go: the driver's manager.
pub mod Types
pub mod Pools
pub mod Slices
pub mod Fetch
pub mod Collect
pub mod Labels
pub mod Loop
pub mod Start
pub mod Serve
pub mod Tests
