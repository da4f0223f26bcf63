-- ===== src/Mad.antt =====
-- libibmad: the management datagrams and the calls that exchange them.
pub mod Field
pub mod Table
pub mod Wide
pub mod Numbers
pub mod Types
pub mod Encode
pub mod Packet
pub mod Rpc
pub mod Call
pub mod Rmpp
pub mod Register
pub mod Serve
pub mod Smp
pub mod Gmp
pub mod Sa
pub mod Resolve
pub mod RouteText
pub mod Script
mod Tests
mod RpcTests
mod ServeTests
mod QueryTests
mod RouteTests
