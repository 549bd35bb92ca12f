-- ===== src/Lib.antt =====
-- The Rust core of GluCore (core/src), which lets modules written in several languages call one
-- another: a registry of modules and their exports, a graph of allowed links, the dispatch of a call
-- to a compiled function or over a socket to a module in a process of its own, and the wire protocol
-- of those sockets; the Rust adapter (adapters/rust), whose attribute exports a Rust function to it; and
-- the Rust module of examples/physics.
--
-- The parts, and the files that model them:
-- - core/src/types.rs: Types (`GluTypeTag`, `GluValue`, `GluResult`, `GluModule`; a value of a union
--   is its two words), Types/Tags.
-- - core/src/errors.rs: Errors (`GluResult::ok` is `glu_ok`, `GluResult::err` is `glu_err`), and
--   `glucore_free_buffer` with the allocator's blocks in Memory and Memory/Alloc.
-- - core/src/fctp.rs: Fctp (constants), Fctp/Encode, Fctp/Decode over the read position of Reader
--   (`data` and `off`; `Outcome` of Outcome tells `Err` from a panic); Fctp/Content says what a value
--   means apart from its address; Fctp/Place, Fctp/Stored and Fctp/RoundTrip compare what is written
--   with what is read, Fctp/Replies does so for answers, Fctp/Robust treats arbitrary bytes. Utf8 is
--   the lossy decoding of names by Rust's standard library.
-- - core/src/handles.rs: Handles (`RegistryState` and its operations), Handles/Scan and
--   Handles/Index (what the hash indexes stand for), Handles/Lookup.
-- - core/src/router.rs: Router (links, the thread's stack of callers, `CallerGuard`), Router/Links,
--   Router/Callers, Router/Checksum; `dispatch` and `call_as` in Dispatch, with Dispatch/Links, Dispatch/NotFound,
--   Dispatch/Compiled, Dispatch/Ends, Dispatch/Terminates and Dispatch/Restores; `glucore_call` in Program.
-- - core/src/runtime.rs: `IpcState` in World, `ipc_roundtrip` and `ipc_dispatch_wrapper` in Ipc (an
--   arm of the loop is a function: `on_length`, `on_body`, `on_message`, `on_result`, `on_callback`),
--   with Ipc/Ends, Ipc/Rounds, Ipc/Restores, Ipc/Answers and Ipc/Callbacks; `parse_registration` and
--   `glucore_register_process_module` in Process, with Process/Message, Process/Failed,
--   Process/Installs, Process/Keeps, Process/Routed and Process/Blocks; `connect_with_retry` in Connect and Connect/InTime (what the operating system
--   answers is a parameter).
-- - adapters/rust/src/lib.rs: Export has the types a signature is made of, as data, and the whitelist
--   `match_type`; Export/Inputs the reading of a signature; Export/Native the Rust functions behind the
--   attribute; Export/Wrapper the generated wrapper, as a program over the core (`generate_unpacker` is
--   `unpack_value`, `generate_packer` is `pack`). Export/Whitelist, Export/Unpack, Export/Pack,
--   Export/Returns, Export/Released, Export/Dispatched and Export/CalledBack are about them.
-- - examples/physics/src/lib.rs: Physics (the exported functions, `coreffi::call_as`,
--   `glucore_module_info`), with Physics/Registered, Physics/Called, Physics/Boost and Physics/Caller;
--   `self_so_path_linux` in Physics/Maps, Physics/Maps/Pieces and Physics/Maps/Found; `abi` in
--   Physics/Abi and Physics/Abi/Search. Floating point, upper case and the loader are parameters.
-- - Locks: when calls and registrations take the lock on the IPC tables and give it back, as steps of any
--   threads; Locks/Deadlock is about a callback during a registration by another thread; Locks/Orderly,
--   Locks/Keeps, Locks/Proceeds and Locks/Finishes are about threads without callbacks.
-- - Shared, Shared/Avoiding and Shared/Consistent: what other threads register, between the locks that
--   `dispatch` takes, as sequences of actions.
-- - Session is a process over time: steps that run compiled code, register process modules or change
--   the sockets, and the worlds that they reach (Session/Keeps, Session/Reaches, Session/Links).
-- - core/src/transport.rs: Transport has what a stream type offers, with the loops of `read_exact` and
--   `write_all` over it; Transport/Unix the `IpcStream` on a Unix socket, Transport/Stub that of the other
--   platforms; Transport/Listener the listeners and socket files, whose calls of the operating system are
--   parameters, with Transport/Serves; Transport/Reads and Transport/Writes compare the loops with World/Sockets.
-- - World is all state that a thread sees, with the sockets; World/Routes what `ipc_dispatch_wrapper`
--   finds under the index that `dispatch` computes; World/Sockets has `write_all` and
--   `read_exact` as the rest of the model uses them; World/Later the order in which worlds
--   follow one another; World/Peers counts the peers that keep their connections open.
-- - Program stands for compiled modules, which are not the core's code: any interleaving of calls of
--   the core's C interface and uses of the memory, as a tree of questions and answers. Theorems quantify over all such programs; Program/Adds and
--   Program/Ends follow the links and the worlds over them. A peer of a socket is any stream of bytes.
-- - Prelude: shared types, maps, lists and bytes. Examples: concrete runs.
--
-- Numbers: `usize` is of 64 bits, and what the source cuts to 8 or 32 bits is cut (`% 256`,
-- `% 2 ^ 32`). `from_le` of four bytes is below 2^32 where the bytes are below 256. A C string is its
-- bytes without the final zero; an argument that may be null is an `Option`.
-- Fuel: `dispatch` takes the depth of nested calls, which a machine bounds by its stack; where
-- compiled functions make no calls, the bytes still to be read bound it. The loop of `ipc_roundtrip`
-- is given one round more than the bytes that the socket has to come, since a round reads four.
-- `connect_with_retry` is given one attempt more than the milliseconds of its timeout.
-- The lock on the IPC tables is the number of read guards that the thread holds: a registration by a
-- thread that holds one waits for ever, which is an outcome of a run.
-- A peer's part is the bytes that it still sends, and whether it then closes the connection or keeps it
-- open: a read of more than that fails in the first case and waits for ever in the second. A peer that
-- takes no more bytes closes its end, so that writing fails.
-- Undefined behaviour (reading a slice that is not there, a double free) and panics that reach an
-- `extern "C"` function are outcomes of a run; a panic in `dispatch` is that outcome also under the Rust
-- function `call_as`, where it unwinds to a caller of which nothing is said.
--
-- Not modelled: other threads except in Shared and Locks (each operation on the registry and the
-- links holds its lock from start to end, and a thread's callers are its own) and poisoned locks;
-- peers that keep a connection open and stop reading from it, so that a write waits; the starting
-- of a process, whose outcome is a parameter; the platforms without Unix sockets, except for their
-- stub of core/src/transport.rs, and the search for the core on others than Linux; the version
-- constants and the tracing stub, which have no logic of their own; a null pointer for an empty
-- list of arguments (the arguments of a call are a list, and reading them is always defined); the
-- adapters for Python, Java and C++; the parsing and printing of Rust syntax, which is the work of
-- other packages.
pub mod Prelude
pub mod Outcome
pub mod Types
pub mod Memory
pub mod Errors
pub mod Utf8
pub mod Reader
pub mod Fctp
pub mod Handles
pub mod Router
pub mod World
pub mod Transport
pub mod Program
pub mod Ipc
pub mod Process
pub mod Connect
pub mod Session
pub mod Shared
pub mod Locks
pub mod Dispatch
pub mod Export
pub mod Physics
mod Examples
