-- ===== src/Exe.antt =====
-- src/exe: the stateless execution. The virtual machine itself (`blockifier`) is not modelled.
pub mod Map
pub mod Proxy
pub mod Cache
pub mod Call
pub mod Classes
