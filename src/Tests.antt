-- ===== src/Tests.antt =====
-- Runs of the model on concrete inputs: a kernel with a memory and some sockets, and one module of
-- examples for each part.
pub mod Kernel
pub mod Network
pub mod Pair
pub mod NoProxy
pub mod Socket
pub mod Memory
pub mod Seccomp
pub mod Connect
pub mod Loop
pub mod Proxy
pub mod Env
pub mod Local
pub mod Tunnel
pub mod Tracker
pub mod Child
pub mod Main
