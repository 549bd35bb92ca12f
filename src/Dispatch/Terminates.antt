-- ===== src/Dispatch/Terminates.antt =====
-- Where compiled functions make no calls of their own and register no process modules, every dispatch
-- ends.
use mathlib.Core.Path.{subst}
use native.Mathlib.Nat.{le_refl}
use glu_core.Prelude.{
  false, ℕ, zero, suc, ◌+◌, ◌≤◌, ◌<◌, ◌≡◌, true, sym, refl, Option, none, some, List, Bytes, length,
  has_nul, ltb, Bool-cases, Option-cases, inl, inr, bytes_eq, arith,
}
use glu_core.Prelude.Map.{lookup}
use glu_core.Types.{GluValue, GluWrapper, ipc_wrapper, exported}
use glu_core.Memory.{from_raw_parts, glucore_free_buffer, to_vec}
use glu_core.Handles.{find_export, glucore_get_module_export_count}
use glu_core.Router.{current_caller_bytes, is_link_allowed_bytes}
use glu_core.World.{World, Run, has_ended}
use glu_core.World.Sockets.{read_exact}
use glu_core.World.Later.{Later-ctx, Anywhere, inbox-read_exact, Later-read_exact}
use glu_core.Program.{
  Program, done, crash, wild, set_identity, ask, call, read, alloc, free, add_link, register,
  register_process, Dispatch, Code, run_program, Answer, answer_to,
}
use glu_core.World.Peers.{open_peers-Later, open_peers-none}
use glu_core.Ipc.Rounds.{Below, IsMeasure, and_then-finite, ipc_dispatch_wrapper-finite}
use glu_core.Dispatch.{no_export, invoke, call_wrapper, call_export, dispatch_with, dispatch}
use glu_core.Dispatch.Ends.{dispatch-Later}

-- The program makes no call through the core, and registers no process module.
abbrev pub IsLeaf : Program → Type 0
IsLeaf (done r) = Unit
IsLeaf crash = Unit
IsLeaf wild = Unit
IsLeaf (set_identity name p) = IsLeaf p
IsLeaf (ask q next) = (a : Answer q) → IsLeaf (next a)
IsLeaf (call m f args next) = ⊥
IsLeaf (read s next) = (bytes : Bytes) → IsLeaf (next bytes)
IsLeaf (alloc bytes next) = (s : _) → IsLeaf (next s)
IsLeaf (free ptr len p) = IsLeaf p
IsLeaf (add_link a b p) = IsLeaf p
IsLeaf (register m p) = IsLeaf p
IsLeaf (register_process spawned os name path command next) = ⊥

-- The bytes that the sockets below `n` still have to be read.
unfoldable pub to_read : ℕ → World → ℕ
to_read zero w = 0
to_read (suc n) w = length (w.socket n).inbox + to_read n w

to_read-le :
    (n : ℕ) (w w' : World)
    → ((fd : ℕ) → length (w'.socket fd).inbox ≤ length (w.socket fd).inbox)
    → to_read n w' ≤ to_read n w
unfolding to_read
to_read-le zero w w' h = omega arith
to_read-le (suc n) w w' h = omega (arith, h n, to_read-le n w w' h)

to_read-lt :
    (n fd : ℕ) (w w' : World)
    → ((fd : ℕ) → length (w'.socket fd).inbox ≤ length (w.socket fd).inbox)
    → fd < n
    → length (w'.socket fd).inbox < length (w.socket fd).inbox
    → to_read n w' < to_read n w
unfolding to_read
to_read-lt zero fd w w' h lt s = absurd (omega arith)
to_read-lt (suc n) fd w w' h lt s = elim (Bool-cases (ltb fd n)) [
  | inl e ↦ omega (arith, h n, to_read-lt n fd w w' h (ground (arith, e)) s)
  | inr e ↦
      let same : fd ≡ n = ground (arith, e, lt) in
      let s' : length (w'.socket n).inbox < length (w.socket n).inbox =
        subst (λ (i : ℕ). length (w'.socket i).inbox < length (w.socket i).inbox) same s in
      omega (arith, s', to_read-le n w w' h)
]

-- All that is still to be read.
abbrev pub bytes_to_come : World → ℕ
bytes_to_come w = to_read w.fd_limit w

bytes_to_come-IsMeasure : IsMeasure bytes_to_come
bytes_to_come-IsMeasure = record {
  mono = λ w w' l.
      subst (λ (n : ℕ). to_read n w' ≤ bytes_to_come w) (sym l.limit)
        (to_read-le w.fd_limit w w' l.inbox);
  guards = λ n w. to_read-le w.fd_limit w (record w { readers = n }) (λ fd. le_refl _);
  strict = λ fd w bs e.
      let l = Later-read_exact {P = Anywhere} fd 4 w in
      let r = inbox-read_exact fd 4 w e in
      subst (λ (n : ℕ). to_read n (read_exact fd 4 w).1 < bytes_to_come w) (sym l.limit)
        (to_read-lt w.fd_limit fd w (read_exact fd 4 w).1 l.inbox r.0 (omega (arith, r.1)));
}

run_program-finite :
    (dispatch : Dispatch) (p : Program) (w : World)
    → IsLeaf p
    → has_ended (run_program dispatch p w) ≡ true
unfolding run_program
run_program-finite dispatch (done r) w h = refl
run_program-finite dispatch crash w h = refl
run_program-finite dispatch wild w h = refl
run_program-finite dispatch (set_identity name p) w h = run_program-finite dispatch p _ h
run_program-finite dispatch (ask q next) w h =
    run_program-finite dispatch (next (answer_to q w)) w (h (answer_to q w))
run_program-finite dispatch (call m f args next) w h = absurd h
run_program-finite dispatch (read s next) w h = elim (Option-cases (from_raw_parts w.mem s)) [
  | inl e ↦ rw (e, run_program) refl
  | inr (bytes, e) ↦ rw (e, run_program) (run_program-finite dispatch (next bytes) w (h bytes))
]
run_program-finite dispatch (alloc bytes next) w h =
    run_program-finite dispatch (next (to_vec bytes w.mem).0) _ (h (to_vec bytes w.mem).0)
run_program-finite dispatch (free ptr len p) w h =
    elim (Option-cases (glucore_free_buffer ptr len w.mem)) [
      | inl e ↦ rw (e, run_program) refl
      | inr (mem, e) ↦
          rw (e, run_program) (run_program-finite dispatch p (record w { mem = mem }) h)
    ]
run_program-finite dispatch (add_link a b p) w h = run_program-finite dispatch p _ h
run_program-finite dispatch (register m p) w h = run_program-finite dispatch p _ h
run_program-finite dispatch (register_process spawned os name path command next) w h = absurd h

no_export-finite : (m : Bytes) (w : World) → has_ended (no_export m w) ≡ true
unfolding no_export
no_export-finite m w = elim (Bool-cases (has_nul m)) [
  | inl e ↦ rw (e, no_export) refl
  | inr e ↦ elim (Bool-cases (ltb 0 (glucore_get_module_export_count w.registry (some m)))) [
    | inl e' ↦ rw (e, e', no_export) refl
    | inr e' ↦ rw (e, e', no_export) refl
  ]
]

module _ (invoke : GluWrapper → List GluValue → World → Run) (depth : ℕ)
    (v : (wrapper : GluWrapper) (args : List GluValue) (w : World)
      → Below bytes_to_come (suc depth) w
      → has_ended (invoke wrapper args w) ≡ true) where
  call_export-finite :
      (m : Bytes) (args : List GluValue) (w : World) (found : Option (ℕ × GluWrapper))
      → Below bytes_to_come (suc depth) w
      → has_ended (call_export invoke m args w found) ≡ true
  unfolding call_export call_wrapper
  call_export-finite m args w none h = no_export-finite m w
  call_export-finite m args w (some (i, wrapper)) h =
      elim (Option-cases (lookup m w.ipc.module_sockets)) [
        | inl e ↦ rw (e, call_export, call_wrapper) (v wrapper args w h)
        | inr (fd, e) ↦
            rw (e, call_export, call_wrapper)
              (and_then-finite _ _
                (v wrapper args _ (
                  omega (
                    arith,
                    bytes_to_come-IsMeasure.mono w _ (Later-ctx _ w),
                    open_peers-Later w _ (Later-ctx _ w),
                    h,
                  )))
                (λ r w' x. refl))
      ]

  dispatch_with-finite :
      (m function : Bytes) (args : List GluValue) (w : World)
      → Below bytes_to_come (suc depth) w
      → has_ended (dispatch_with invoke m function args w) ≡ true
  unfolding dispatch_with
  dispatch_with-finite m function args w h = elim (Option-cases (current_caller_bytes w.callers)) [
    | inl e ↦ rw (e, dispatch_with) refl
    | inr (c, e) ↦ elim (Bool-cases (is_link_allowed_bytes w.links c m)) [
      | inl e' ↦
          rw (e, e', dispatch_with)
            (call_export-finite m args w (find_export w.registry m function) h)
      | inr e' ↦ rw (e, e', dispatch_with) refl
    ]
  ]

invoke-finite :
    (code : Code) (depth : ℕ)
    → ((m function : Bytes) (args : List GluValue) (w : World)
        → Below bytes_to_come depth w
        → has_ended (dispatch code depth m function args w) ≡ true)
    → ((address : ℕ) (args : List GluValue) → IsLeaf (code address args))
    → (wrapper : GluWrapper) (args : List GluValue) (w : World) → Below bytes_to_come (suc depth) w
    → has_ended (invoke code (dispatch code depth) wrapper args w) ≡ true
unfolding invoke
invoke-finite code depth finite leaf ipc_wrapper args w h =
    ipc_dispatch_wrapper-finite (dispatch code depth) (dispatch-Later code depth) bytes_to_come
      bytes_to_come-IsMeasure depth finite args w h
invoke-finite code depth finite leaf (exported a) args w h =
    run_program-finite (dispatch code depth) (code a args) w (leaf a args)

dispatch-finite :
    (code : Code) (depth : ℕ) (m function : Bytes) (args : List GluValue) (w : World)
    → ((address : ℕ) (args : List GluValue) → IsLeaf (code address args))
    → Below bytes_to_come depth w
    → has_ended (dispatch code depth m function args w) ≡ true
unfolding dispatch
dispatch-finite code zero m function args w leaf h = absurd (omega arith)
dispatch-finite code (suc depth) m function args w leaf h =
    dispatch_with-finite (invoke code (dispatch code depth)) depth
      (invoke-finite code depth (λ m f a w k. dispatch-finite code depth m f a w leaf k) leaf) m
      function args w h

-- Where no compiled function makes a call of its own or registers a process module, and every
-- peer of an open descriptor, once it has sent the bytes of its stream, closes the connection
-- instead of keeping it open, as it does where it takes no more bytes: a call ends, whatever the
-- process modules send and however their callbacks nest. A fuel above the number of bytes that
-- the sockets hold is enough.
pub dispatch_terminates :
    (code : Code) (depth : ℕ) (m function : Bytes) (args : List GluValue) (w : World)
    → ((address : ℕ) (args : List GluValue) → IsLeaf (code address args))
    → ((fd : ℕ) → fd < w.fd_limit → w.stays_open fd ≡ false)
    → bytes_to_come w < depth
    → has_ended (dispatch code depth m function args w) ≡ true
dispatch_terminates code depth m function args w leaf closes h =
    dispatch-finite code depth m function args w leaf
      (h, open_peers-none w.fd_limit w.stays_open closes)
