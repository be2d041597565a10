-- ===== src/Lib.antt =====
-- proxec runs a program under ptrace and sends its TCP connections through a proxy. The tracer loop
-- stops the program at `connect`, records the destination of the socket and puts the address of a
-- local proxy in its place; the local proxy looks the destination up again and asks the upstream
-- proxy for it.
--
-- The parts, by file:
--
-- * Tracer/Loop is `run` of src/tracer/trace_loop.rs. Loop/State has its variables as one record and
--   the helpers that prune, poll and resume; Loop/Shutdown the signal handler and the shutdown;
--   Loop/Status the arms for each result of `waitpid`, named after them (on_exited,
--   on_ptrace_event, ...), and Loop/Wait those for its errors, `iterate` for one round and `run`
--   for as many rounds as there are entries in its list. An entry holds the signals that arrive
--   during that round's `waitpid`: the handler runs asynchronously in the source, and what it writes
--   is read at one place in a round. Whoever calls `run` with too few rounds gets `none`; a bound in
--   general does not exist, since the traced program may go on for ever. `start` is the whole of the
--   source's `run`, with `install_shutdown_handlers` before the loop. Loop/Tracked, Arms, Ends, Run,
--   Resume, Phases and Code have the proofs: Phases with the shutdown as a machine of three phases,
--   Code with the events that have a say in the exit code.
-- * Tracer/Syscall and Tracer/Connect are the handlers of the same file for the entry and the exit of
--   a system call: `handle_connect_enter`, `handle_socket_enter`, `handle_clone_enter`, ... A handler
--   takes a `Ctx` (tracker, counters, thread state, kernel) and returns the next with a result,
--   since what was written before an error stays. `?` is the bind of Action.
-- * Tracer/Memory is src/tracer/memory.rs, Tracer/Arch src/tracer/arch_x86_64.rs, and Tracer/Seccomp
--   the filter and the version test of src/tracer/seccomp.rs. Tracer/Child is the child's side of
--   `fork_exec` in src/tracer/ptrace.rs, with the calls of `install_filter`; the parent's is in Main.
-- * Socket is src/socket/tracker.rs: `SocketTracker` and every operation on it, with the lookups in
--   procfs that they make. Maps are association lists, sets are lists without repetition.
--   Socket/ConnTable has `find_inode_by_conn` and `find_pid_fd_by_inode`; Pattern and Rows compare
--   the search with the kernel's table. Socket/Lookup, Stream and Cleanup follow single operations;
--   Socket/Between has the calls of other threads as steps of the tracker; Socket/History has any
--   calls from the start on as a list, the latest first, and what the list alone says of a
--   descriptor and of an inode (`last_dest`, `last_stream`, `last_by_inode`), for threads whose
--   process stays the same. Where the source goes through a hash map or set, the order is that of
--   the list, which is one of those that it can come upon.
-- * Proxy is src/proxy. Proxy/Tcp is the interface of the streams (connect, write_all, read_exact,
--   read) over a state of the network, with rules for what an action leaves sent and received
--   (Outcome), for a peer that stays connected (Peer) and for opening a connection (Dial).
--   Proxy/Socks5 is src/proxy/socks5.rs, cut at its steps: `negotiate` is `connect` from the stream
--   on, `authenticate` its match on the method, `finish` the answer to the request. Socks5/Server
--   reads a handshake from the side of the server, after the RFCs; Login, Reply, Agreed, Handshake,
--   Liveness, Refusal and Sent have the proofs. Proxy/Http is src/proxy/http.rs, Proxy/Config
--   src/proxy/config.rs. Proxy/Relay is the `select!` of src/proxy/local.rs over two copies: a list
--   says which of the two is polled next, any list being allowed, and the relay is followed as far
--   as the list goes. Proxy/Local is the rest of that file: each of the three attempts of
--   `handle_client` has its own view of the kernel and of the tracker, since the tracer goes on in
--   between; Local/Accept is the loop that accepts clients. Local/Reach and Local/Tunnel join the
--   tracer, the local proxy, the handshake and the relay.
-- * Env is src/env.rs. Main is src/main.rs with the arguments of src/cli.rs: `prepare` has the steps
--   before the loop in their order, on a host that has the runtime, the listener, the fork and the
--   kernel, and `main` the trace loop after them. Main/ExitCode follows the exit code through both.
-- * NoProxy is src/no_proxy.rs, with the parser of addresses and the resolver as parameters.
-- * Error is src/error.rs; Net has the socket addresses of the standard library, Word the machine
--   integers as bit patterns, Os the calls of the kernel as one interface over a state `W`.
-- * Base has lists, maps, sets, bits, bytes and text over the native numbers.
-- * Tests has a small kernel, a small network and a run of each part on them.
--
-- What is assumed: the laws of `Memory` (Tracer/Memory/Laws), which are those of a stopped process's
-- mapped memory; of `Bpf` (Tracer/Seccomp), those of the four instructions used; of `History`
-- (Proxy/Tcp/Outcome), that a write that fails has sent a part, a read gives the bytes that came in,
-- and a new stream is empty; of `Copying` (Proxy/Relay/Carried), that a copy of tokio writes what it
-- has read, in order, and on other streams nothing; of `Calls` (Tracer/Child), that a call that succeeds is noted; and, for
-- progress alone, of `Peer` (Proxy/Tcp/Peer), a server that stays
-- connected. Tests has an instance of each. Nothing is assumed of the rest of the kernel. Process
-- ids, descriptors and registers are natural numbers as bit patterns; an `i32` is taken with
-- `% 2 ^ 32`. The counters wrap at 2^64.
--
-- Not modelled: logging, but for the level that a client's error is logged at; the text of a
-- resolver's answer; the url crate, base64, `Display` of addresses and the lossy decoding of UTF-8,
-- which are parameters; how clap reads the arguments of src/cli.rs from their attributes; the tasks
-- of several clients at once, which work on streams of their own; and the integration tests. The
-- mutex
-- around the tracker is held for each call, so the calls are taken one after the other. A call of
-- `get_syscall_arg` with an index above 5 panics in the source and cannot be written here.
pub mod Action
pub mod Base
pub mod Env
pub mod Error
pub mod Main
pub mod Net
pub mod NoProxy
pub mod Os
pub mod Proxy
pub mod Result
pub mod Socket
pub mod Tests
pub mod Tracer
pub mod Word
