-- ===== src/Client.antt =====
-- pkg/client: the client of the fabric manager, the cluster manager and the id manager.
pub mod Types
pub mod Context
pub mod Token
pub mod Request
pub mod Calls
pub mod Build
pub mod Tests
