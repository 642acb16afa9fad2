-- ===== src/Config.antt =====
-- pkg/config: the configuration that the ConfigMap holds.
pub mod Types
pub mod Checks
pub mod Random
pub mod Tests
