-- ===== src/World.antt =====
-- What the core and the modules of its process share, as one thread sees it: the registry, the
-- links, the thread's callers, the IPC tables and the call context of core/src/runtime.rs, the
-- memory, and the sockets; descriptors from `fd_limit` on are not open. `stays_open` is which peers,
-- once they have sent the bytes of their stream, keep the connection open and send nothing more; the
-- others close it. `readers` is how many guards of
-- the lock on the IPC tables the thread holds for reading.
pub mod Sockets
pub mod Routes
pub mod Later
pub mod Peers
use glu_core.Prelude.{ℕ, Bool, true, false, Option, none, List, [], Bytes}
use glu_core.Prelude.Map.{Map}
use glu_core.Types.{GluSignature, GluResult}
use glu_core.Memory.{Memory}
use glu_core.Handles.{RegistryState}
use glu_core.Router.{LinkGraph, CallerStack}

pub record IpcExportMeta : Type 0 where
  pub sock_fd : ℕ
  pub module_name : Bytes
  pub function_name : Bytes
  pub sig : GluSignature

pub record IpcState : Type 0 where
  pub exports : List IpcExportMeta
  pub module_sockets : Map Bytes ℕ
  pub module_base_idx : Map Bytes ℕ

-- A connected stream: the bytes that the peer still sends, those that were sent to it, and how many
-- more it takes before it closes its end and writing fails. The peer's part is any such stream.
pub record Socket : Type 0 where
  pub inbox : Bytes
  pub outbox : Bytes
  pub room : ℕ

pub record World : Type 0 where
  pub registry : RegistryState
  pub links : LinkGraph
  pub callers : CallerStack
  pub ipc : IpcState
  pub readers : ℕ
  pub ctx : Option (ℕ × ℕ)
  pub mem : Memory
  pub fd_limit : ℕ
  pub socket : ℕ → Socket
  pub stays_open : ℕ → Bool

-- How a call ends: it returns; a panic ends it, which aborts the process at an `extern "C"` function,
-- and unwinds through the Rust function `call_as`; the behaviour is undefined; the thread waits for ever,
-- for a lock that it holds itself or for a peer that keeps the connection open; or the model's fuel runs
-- out, which no run of the program does.
pub data Run : Type 0 where
  returned : GluResult → World → Run
  aborted : Run
  undefined : Run
  blocked : Run
  out_of_fuel : Run

-- Whether the call came to an end.
abbrev pub has_ended : Run → Bool
has_ended (returned r w) = true
has_ended aborted = true
has_ended undefined = true
has_ended blocked = false
has_ended out_of_fuel = false
