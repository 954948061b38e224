-- ===== src/Enforce.antt =====
-- enforce/mod.rs: the host state that a plan compiles to, and the backends that apply it.
pub mod Host
pub mod Route
pub mod Nft
pub mod Compile
pub mod Backend
pub mod Kernel
pub mod Filter
