-- ===== src/Examples/Locks.antt =====
-- A thread calls the renderer, which calls back, while another thread registers a module.
use glu_core.Prelude.{
  ℕ, suc, ◌≤◌, ◌⊎◌, ◌≡◌, refl, false, none, List, [], ◌∷◌, ◌++◌, eqb, if◌then◌else◌, inr,
}
use glu_core.Locks
use glu_core.Locks.{
  unread, compiled_call, process_call, registration, Lock, NoneWaits, Steps, looking_up, Operation,
  read, set, Job, calls_process, registers_process, operations, count, here, later, reads,
}
use glu_core.Locks.Deadlock.{callback_deadlocks}
use glu_core.Locks.Finishes.{jobs_finish, work}
use glu_core.Locks.Proceeds.{Goes}

abbrev start : Lock
start = record {
  rest = λ t.
      if eqb t 0
      then process_call (compiled_call []) ++ looking_up
      else if eqb t 1
      then registration
      else [];
  guards = λ t. 0;
  queued = λ t. false;
  writer = none;
}

none_waits : NoneWaits start
none_waits i = refl

callback_deadlocks_example :
    (s' : Lock) × Steps false start s'
    × ((s'' : Lock)
        → Steps false s' s''
        → (s''.rest 0 ≡ (compiled_call [] ++ (unread ∷ [])) ++ looking_up)
          × (s''.rest 1 ≡ registration ++ []))
callback_deadlocks_example = callback_deadlocks 0 1 [] looking_up [] start refl refl refl none_waits

-- One thread calls the renderer, the other registers a module; the first has begun.
abbrev jobs : ℕ → List Job
jobs t = if eqb t 0 then calls_process ∷ [] else registers_process ∷ []

abbrev still : List Operation
still = unread ∷ read ∷ unread ∷ read ∷ unread ∷ []

begins : (Locks.start 2 jobs).rest 0 ≡ read ∷ still
unfolding Locks.start operations
begins = refl

no_writer : (Locks.start 2 jobs).writer ≡ none
unfolding Locks.start
no_writer = refl

no_waiter : NoneWaits (Locks.start 2 jobs)
unfolding Locks.start
no_waiter i = refl

abbrev begun : Lock
begun = record (Locks.start 2 jobs) {
  rest = set 0 still (Locks.start 2 jobs).rest;
  guards = set 0 (suc ((Locks.start 2 jobs).guards 0)) (Locks.start 2 jobs).guards;
}

abbrev run : Steps false (Locks.start 2 jobs) begun
run = later here (reads 0 still begins no_writer (inr no_waiter))

jobs_finish_example :
    (count run ≤ work 2 (Locks.start 2 jobs)) × (((t : ℕ) → begun.rest t ≡ []) ⊎ Goes false begun)
jobs_finish_example = jobs_finish false 2 jobs begun run
