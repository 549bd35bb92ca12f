-- ===== src/Process.antt =====
-- core/src/runtime.rs: the registration of a process module. What the operating system does (to
-- remove the old socket file, to start the command, to connect) is a parameter: what it answered.
pub mod Failed
pub mod Installs
pub mod Keeps
pub mod Blocks
pub mod Routed
pub mod Message
use glu_core.Prelude.{
  ℕ, zero, suc, ◌*◌, Bool, true, false, ◌||◌, Option, none, some, List, [], ◌∷◌, ◌++◌, map, Bytes,
  length, has_nul, from_le, leb, ltb, if◌then◌else◌, bytes_eq,
}
use glu_core.Prelude.Map.{insert}
use glu_core.Outcome.{Outcome, ok, err, panic}
use glu_core.Types.{GluTypeTag, GluSignature, GluExportEntry, GluModule, ipc_wrapper, from_u8}
use glu_core.Utf8.{from_utf8_lossy}
use glu_core.Reader.{Reader, Cursor, pure, lift, ◌>>=◌, read_len_bytes, next_byte}
use glu_core.Handles.{glucore_register_module}
use glu_core.World.{World, IpcState, IpcExportMeta}
use glu_core.Connect.{Attempts, Connection, connected, timed_out, still_trying, connect_with_retry}
use glu_core.World.Routes.{meta_of}
use glu_core.Transport.Unix.{from_raw_fd, forget, drop_stream}
use glu_core.World.Sockets.{read_exact, waits_for}

pub record IpcRegistration : Type 0 where
  pub module_name : Bytes
  pub exports : List (Bytes × GluSignature)

unfoldable pub read_tag : Bytes → Reader GluTypeTag
read_tag msg = do b ← next_byte msg; lift (from_u8 b)

-- `for _ in 0..param_count`
unfoldable pub read_tags : Bytes → ℕ → Reader (List GluTypeTag)
read_tags msg zero = pure []
read_tags msg (suc n) = do t ← read_tag msg; ts ← read_tags msg n; pure (t ∷ ts)

-- One turn of the loop over the exports.
unfoldable pub read_export : Bytes → Reader (Bytes × GluSignature)
read_export msg = do
  fn_bytes ← read_len_bytes msg
  ret_tag ← read_tag msg
  param_count ← next_byte msg
  tags ← read_tags msg param_count
  pure (from_utf8_lossy fn_bytes, record { params = tags; return_type = ret_tag })

unfoldable pub read_exports : Bytes → ℕ → Reader (List (Bytes × GluSignature))
read_exports msg zero = pure []
read_exports msg (suc n) = do e ← read_export msg; es ← read_exports msg n; pure (e ∷ es)

-- A message that ends behind the name has no exports.
unfoldable pub exports_after : Bytes → Bytes → Reader IpcRegistration
exports_after msg module_name c =
    if leb (length msg) c.off
    then (ok (record { module_name = module_name; exports = [] }), c)
    else (do
      export_count ← next_byte msg
      es ← read_exports msg export_count
      pure (record { module_name = module_name; exports = es }))
        c

unfoldable pub parse_registration : Bytes → Reader IpcRegistration
parse_registration msg = do
  name_bytes ← read_len_bytes msg
  exports_after msg (from_utf8_lossy name_bytes)

-- How a registration ends: with the negation of the code that it returns, or by a panic; or the thread
-- is stuck, as it holds a guard of the IPC tables whose lock it waits for, or waits for a peer that sends
-- no more and keeps the connection open; `waiting` is the model out of attempts to connect.
pub data Registered : Type 0 where
  ended : ℕ → World → Registered
  aborted : Registered
  stuck : Registered
  waiting : Registered

abbrev pub entry_of : Bytes × GluSignature → GluExportEntry
entry_of export = record { name = export.0; wrapper = ipc_wrapper; signature = export.1 }

-- `CString::new(fn_name).unwrap()` panics for one of the names.
unfoldable pub any_nul : List (Bytes × GluSignature) → Bool
any_nul [] = false
any_nul (export ∷ exports) = has_nul export.0 || any_nul exports

-- What a registration that was read puts in place: the name that the message gives is not used.
unfoldable pub install : ℕ → Bytes → List (Bytes × GluSignature) → World → World
install sock_fd module_name exports w = record w {
  registry =
      glucore_register_module (record { name = module_name; entries = map entry_of exports })
        w.registry;
  ipc = record {
    exports = w.ipc.exports ++ map (meta_of sock_fd module_name) exports;
    module_sockets = insert module_name sock_fd w.ipc.module_sockets;
    module_base_idx = insert module_name (length w.ipc.exports) w.ipc.module_base_idx;
  };
}

unfoldable pub on_registration : ℕ → Bytes → Outcome IpcRegistration → World → Registered
on_registration sock_fd module_name (ok reg) w =
    if ltb 0 w.readers
    then stuck
    else if any_nul reg.exports || has_nul module_name
    then aborted
    else ended 0 (install sock_fd module_name reg.exports w)
on_registration sock_fd module_name (err e) w = ended 7 w
on_registration sock_fd module_name panic w = aborted

abbrev pub max_registration : ℕ
max_registration = 1024 * 1024

-- A read that has failed.
unfoldable pub unread : ℕ → ℕ → World → Registered
unread c sock_fd w =
    if waits_for sock_fd w then stuck else ended c (drop_stream (from_raw_fd sock_fd) w)

unfoldable pub on_registration_body : ℕ → Bytes → Option Bytes × World → Registered
on_registration_body sock_fd module_name (none, w) = unread 6 sock_fd w
on_registration_body sock_fd module_name (some reg_data, w) =
    let w' = forget (from_raw_fd sock_fd) w in
    on_registration sock_fd module_name
      (parse_registration reg_data (record { off = 0; mem = w'.mem })).0 w'

unfoldable pub on_registration_length : ℕ → Bytes → Option Bytes × World → Registered
on_registration_length sock_fd module_name (none, w) = unread 4 sock_fd w
on_registration_length sock_fd module_name (some len_arr, w) =
    let w' = forget (from_raw_fd sock_fd) w in
    if ltb max_registration (from_le len_arr)
    then ended 5 w'
    else on_registration_body sock_fd module_name (read_exact sock_fd (from_le len_arr) w')

-- Behind the three null checks. `spawned` is whether the command was started.
unfoldable pub register_named : Bool → Connection → Bytes → World → Registered
register_named false connection module_name w = ended 2 w
register_named true timed_out module_name w = ended 3 w
register_named true (connected sock_fd) module_name w =
    on_registration_length sock_fd module_name (read_exact sock_fd 4 w)
register_named true still_trying module_name w = waiting

unfoldable pub glucore_register_process_module :
    Bool → Attempts → Option Bytes → Option Bytes → Option Bytes → World → Registered
glucore_register_process_module spawned os (some module_name) (some socket_path) (some spawn_cmd)
      w =
    register_named spawned (connect_with_retry os 5000 50) (from_utf8_lossy module_name) w
glucore_register_process_module spawned os module_name socket_path spawn_cmd w = ended 1 w
