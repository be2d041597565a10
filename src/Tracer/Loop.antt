-- ===== src/Tracer/Loop.antt =====
-- `run` of `src/tracer/trace_loop.rs`: the state of the loop, the shutdown, the end of a process,
-- and one iteration for each result of `waitpid`.
pub mod State
pub mod Shutdown
pub mod Status
pub mod Wait
pub mod Tracked
pub mod Phases
pub mod Arms
pub mod Ends
pub mod Run
pub mod Code
pub mod Resume
