-- ===== src/Registry.antt =====
-- include/registry and src/registry.
pub mod LoadBalancer
pub mod ZooKeeper
pub mod ServiceRegistry
