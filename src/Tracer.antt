-- ===== src/Tracer.antt =====
-- `src/tracer/`: the seccomp filter, the registers and the memory of a traced process, the handlers
-- of its system calls, and the loop over the events of all traced processes.
pub mod Seccomp
pub mod Child
pub mod Arch
pub mod Memory
pub mod State
pub mod Connect
pub mod Syscall
pub mod Loop
