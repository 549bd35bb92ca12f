-- ===== src/Locks.antt =====
-- The lock on the IPC tables (`IPC_STATE` of core/src/runtime.rs) among threads: when a call, and when
-- the registration of a process module, takes it and gives it back. The lock is Rust's `RwLock`, whose
-- documentation leaves it to the platform whether a thread that waits to write keeps out those that
-- want to read; that is a parameter.
pub mod Deadlock
pub mod Orderly
pub mod Keeps
pub mod Proceeds
pub mod Finishes
use glu_core.Prelude.{
  ℕ, suc, ◌-◌, ◌≡◌, ◌⊎◌, Bool, true, false, Option, none, some, List, [], ◌∷◌, ◌++◌, ltb, eqb,
  eqb_iff, arith, refl, if◌then◌else◌,
}

pub data Operation : Type 0 where
  read : Operation
  unread : Operation
  write : Operation
  unwrite : Operation

-- `ipc_state().read().ok()?`, until the end of the function: `ipc_socket_for_module` and
-- `ipc_base_idx_for_module`.
abbrev pub looking_up : List Operation
looking_up = read ∷ unread ∷ []

-- `dispatch` to a function of this process. What the function does with the lock comes after.
abbrev pub compiled_call : List Operation → List Operation
compiled_call nested = looking_up ++ nested

-- `dispatch` to a function of a process module: the socket, the first index, and the guard that
-- `ipc_dispatch_wrapper` holds during the round trip, with all that is called back.
abbrev pub process_call : List Operation → List Operation
process_call nested = looking_up ++ (looking_up ++ (read ∷ nested ++ (unread ∷ [])))

-- `glucore_register_process_module`, from its guard to its end
abbrev pub registration : List Operation
registration = write ∷ unwrite ∷ []

-- What each thread has still to do, how many guards for reading it holds, whether it waits to write, and
-- who has the guard for writing.
pub record Lock : Type 0 where
  pub rest : ℕ → List Operation
  pub guards : ℕ → ℕ
  pub queued : ℕ → Bool
  pub writer : Option ℕ

abbrev pub set {ℓ} : {A : Type ℓ} → ℕ → A → (ℕ → A) → ℕ → A
set t a f i = if eqb t i then a else f i

pub set-same : {A : Type 0} (t : ℕ) (x : A) (f : ℕ → A) → set t x f t ≡ x
set-same t x f = let e : eqb t t ≡ true = ground (arith, eqb_iff t t) in rw e refl

pub set-other : {A : Type 0} (t i : ℕ) (x : A) (f : ℕ → A) → eqb t i ≡ false → set t x f i ≡ f i
set-other t i x f other = rw other refl

abbrev pub NoneWaits : Lock → Type 0
NoneWaits s = (i : ℕ) → s.queued i ≡ false

-- A step of some thread. `lets_in` is whether readers are let in while a writer waits.
pub data Step (lets_in : Bool) (s : Lock) : Lock → Type 0 where
  reads :
      (t : ℕ) (ops : List Operation)
      → s.rest t ≡ read ∷ ops
      → s.writer ≡ none
      → (lets_in ≡ true) ⊎ NoneWaits s
      → Step lets_in s
          (record s { rest = set t ops s.rest; guards = set t (suc (s.guards t)) s.guards })
  unreads :
      (t : ℕ) (ops : List Operation)
      → s.rest t ≡ unread ∷ ops
      → Step lets_in s
          (record s { rest = set t ops s.rest; guards = set t (s.guards t - 1) s.guards })
  queues :
      (t : ℕ) (ops : List Operation)
      → s.rest t ≡ write ∷ ops
      → s.queued t ≡ false
      → Step lets_in s (record s { queued = set t true s.queued })
  writes :
      (t : ℕ) (ops : List Operation)
      → s.rest t ≡ write ∷ ops
      → s.queued t ≡ true
      → s.writer ≡ none
      → ((i : ℕ) → s.guards i ≡ 0)
      → Step lets_in s
          (record s { rest = set t ops s.rest; queued = set t false s.queued; writer = some t })
  unwrites :
      (t : ℕ) (ops : List Operation)
      → s.rest t ≡ unwrite ∷ ops
      → s.writer ≡ some t
      → Step lets_in s (record s { rest = set t ops s.rest; writer = none })

-- What a thread does with the core: calls without callbacks, and registrations.
pub data Job : Type 0 where
  calls_compiled : Job
  calls_process : Job
  registers_process : Job

abbrev pub operations_of : Job → List Operation
operations_of calls_compiled = compiled_call []
operations_of calls_process = process_call []
operations_of registers_process = registration

unfoldable pub operations : List Job → List Operation
operations [] = []
operations (j ∷ js) = operations_of j ++ operations js

-- The first `n` threads have their jobs before them, and there are no others.
unfoldable pub start : ℕ → (ℕ → List Job) → Lock
start n jobs = record {
  rest = λ t. if ltb t n then operations (jobs t) else [];
  guards = λ t. 0;
  queued = λ t. false;
  writer = none;
}

pub data Steps (lets_in : Bool) (s : Lock) : Lock → Type 0 where
  here : Steps lets_in s s
  later : {s' s'' : Lock} → Steps lets_in s s' → Step lets_in s' s'' → Steps lets_in s s''

abbrev pub count : {lets_in : Bool} {s s' : Lock} → Steps lets_in s s' → ℕ
count here = 0
count (later before step) = suc (count before)
