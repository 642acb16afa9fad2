-- ===== src/KubeUtils.antt =====
-- pkg/kube_utils/kube_utils.go: the informers' caches and what the driver reads from them.
pub mod Objects
pub mod Caches
pub mod Lookup
pub mod Discovery
pub mod Tests
