-- ===== src/Tools.antt =====
-- The package `tools`: what the agent can call.
pub mod Filesystem
pub mod Kubernetes
pub mod Netdevice
mod Tests
