-- ===== src/NetDisc.antt =====
-- libibnetdisc: the discovery of a fabric.
pub mod Engine
pub mod Query
pub mod Path
pub mod Ports
pub mod Hash
pub mod Chassis
pub mod ChassisGuid
pub mod Portmap
pub mod Fabric
pub mod Cache
pub mod Lookup
pub mod Startup
pub mod Discovery
mod Tests
mod FabricTests
mod ChassisTests
mod DiscoveryTests
mod CacheTests
mod StartupTests
