-- ===== src/Packs.antt =====
-- The package `packs`: the seeded runbooks and the loader.
pub mod Adtran
pub mod Cisco
pub mod Database
pub mod Docker
pub mod Firewall
pub mod Kubernetes
pub mod Linux
pub mod Loader
pub mod Networking
pub mod Nokia
pub mod Rabbitmq
pub mod Webserver
pub mod Zabbix
mod Tests
