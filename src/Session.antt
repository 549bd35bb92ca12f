-- ===== src/Session.antt =====
-- A process over time, as one thread of it uses the core (core/src/router.rs, core/src/runtime.rs):
-- each step is a run of compiled code that returns, which may call, add links and register modules of
-- both kinds, or something that the operating system and the peers do to the sockets.
pub mod Keeps
pub mod Reaches
pub mod Links
use glu_core.Prelude.{ℕ, ◌≡◌, Bool, Option, [], Bytes}
use glu_core.Types.{GluResult}
use glu_core.Memory.{IsSound}
use glu_core.Handles.{empty_registry}
use glu_core.World.{World, Socket, IpcState, returned}
use glu_core.Program.{Program, Code, run_program}
use glu_core.Dispatch.{dispatch}
use glu_core.Connect.{Attempts}
use glu_core.Process.{glucore_register_process_module, ended}

-- `IpcState::default()`
abbrev pub no_exports : IpcState
no_exports = record { exports = []; module_sockets = []; module_base_idx = [] }

-- Nothing is registered yet.
pub record IsFresh (w : World) : Type 0 where
  pub registry : w.registry ≡ empty_registry
  pub ipc : w.ipc ≡ no_exports
  pub sound : IsSound w.mem

pub data Step (code : Code) : World → World → Type 0 where
  ran :
      (depth : ℕ) (p : Program) (r : GluResult) {w w' : World}
      → run_program (dispatch code depth) p w ≡ returned r w'
      → Step code w w'
  streamed :
      (limit : ℕ) (socket : ℕ → Socket) (open_peers : ℕ → Bool) {w : World}
      → Step code w (record w { fd_limit = limit; socket = socket; stays_open = open_peers })

pub data Reach (code : Code) (w : World) : World → Type 0 where
  here : Reach code w w
  then : {w' w'' : World} → Reach code w w' → Step code w' w'' → Reach code w w''
