-- ===== src/Locks/Finishes.antt =====
-- Threads without callbacks come to an end, whoever waits for the lock on the IPC tables
-- (core/src/runtime.rs, core/src/router.rs).
use glu_core.Prelude.{
  ℕ, zero, suc, ◌+◌, ◌*◌, ◌<◌, ◌≤◌, ◌≡◌, ◌⊎◌, refl, Bool, true, false, List, [], ◌∷◌, length, arith,
  Bool-cases, inl, inr, eqb, eqb_iff, ltb, if◌then◌else◌,
}
use glu_core.Locks.{
  Operation, read, unread, write, unwrite, Lock, Step, reads, unreads, queues, writes, unwrites,
  Steps, here, later, set-same, set-other, Job, calls_compiled, calls_process, registers_process,
  operations, start, count,
}
use glu_core.Locks.Orderly.{IsFlat, nothing, looks, registers, outside, IsOrderly}
use glu_core.Locks.Keeps.{Steps-IsOrderly}
use glu_core.Locks.Proceeds.{IsOrderly-Goes, Goes}

abbrev cost : List Operation → Bool → ℕ
cost ops queued = 2 * length ops + (if queued then 0 else 1)

abbrev weight : Lock → ℕ → ℕ
weight s t = cost (s.rest t) (s.queued t)

-- How many steps the first `n` threads can make at most.
unfoldable pub work : ℕ → Lock → ℕ
work zero s = 0
work (suc n) s = weight s n + work n s

work-le : (n : ℕ) (s s' : Lock) → ((i : ℕ) → weight s' i ≤ weight s i) → work n s' ≤ work n s
unfolding work
work-le zero s s' le = omega arith
work-le (suc n) s s' le = let here = le n in let before = work-le n s s' le in omega arith

work-lt :
    (n t : ℕ) (s s' : Lock)
    → ((i : ℕ) → weight s' i ≤ weight s i)
    → t < n
    → weight s' t < weight s t
    → work n s' < work n s
unfolding work
work-lt zero t s s' le below lt = absurd (omega arith)
work-lt (suc n) t s s' le below lt = elim (Bool-cases (eqb t n)) [
  | inl same ↦
      let e : t ≡ n = (eqb_iff t n).0 same in
      let here : weight s' n < weight s n = rw e at lt in
      let before = work-le n s s' le in omega arith
  | inr other ↦
      let here = le n in
      let before = work-lt n t s s' le (ground (arith, below, other, eqb_iff t n)) lt in omega arith
]

-- The thread that makes a step had something to do, and has less to do after it; the others have as
-- much.
record Less (s s' : Lock) : Type 0 where
  t : ℕ
  op : Operation
  ops : List Operation
  next : s.rest t ≡ op ∷ ops
  less : weight s' t < weight s t
  others : (i : ℕ) → eqb t i ≡ false → weight s' i ≡ weight s i

Step-Less : (lets_in : Bool) {s s' : Lock} → Step lets_in s s' → Less s s'
Step-Less lets_in {s} (reads t ops next free let_in) = record {
  t = t;
  op = read;
  ops = ops;
  next = next;
  less = rw (set-same t ops s.rest, next) (omega arith);
  others = λ i other. rw (set-other t i ops s.rest other) refl;
}
Step-Less lets_in {s} (unreads t ops next) = record {
  t = t;
  op = unread;
  ops = ops;
  next = next;
  less = rw (set-same t ops s.rest, next) (omega arith);
  others = λ i other. rw (set-other t i ops s.rest other) refl;
}
Step-Less lets_in {s} (queues t ops next new) = record {
  t = t;
  op = write;
  ops = ops;
  next = next;
  less = rw (set-same t true s.queued, new) (omega arith);
  others = λ i other. rw (set-other t i true s.queued other) refl;
}
Step-Less lets_in {s} (writes t ops next queued free unheld) = record {
  t = t;
  op = write;
  ops = ops;
  next = next;
  less = rw (set-same t ops s.rest, set-same t false s.queued, next, queued) (omega arith);
  others = λ i other. rw (set-other t i ops s.rest other, set-other t i false s.queued other) refl;
}
Step-Less lets_in {s} (unwrites t ops next holder) = record {
  t = t;
  op = unwrite;
  ops = ops;
  next = next;
  less = rw (set-same t ops s.rest, next) (omega arith);
  others = λ i other. rw (set-other t i ops s.rest other) refl;
}

Step-work :
    (lets_in : Bool) (n : ℕ) {s s' : Lock}
    → IsOrderly n s
    → Step lets_in s s'
    → work n s' < work n s
Step-work lets_in n {s} {s'} o step =
    let l = Step-Less lets_in step in
    let below : l.t < n = elim (Bool-cases (ltb l.t n)) [
      | inl lt ↦ ground (arith, lt)
      | inr ge ↦
          let nothing_left = o.none_beyond l.t (ground (arith, ge)) in
          absurd (ground (arith, nothing_left, l.next))
    ] in
    let le : (i : ℕ) → weight s' i ≤ weight s i = λ i. elim (Bool-cases (eqb l.t i)) [
      | inl same ↦
          let e : l.t ≡ i = (eqb_iff l.t i).0 same in
          let less : weight s' i < weight s i = rw e at l.less in omega arith
      | inr other ↦ let e = l.others i other in omega arith
    ] in
    work-lt n l.t s s' le below l.less

Steps-work :
    (lets_in : Bool) (n : ℕ) {s s' : Lock}
    → IsOrderly n s
    → (run : Steps lets_in s s') → count run + work n s' ≤ work n s
Steps-work lets_in n o here = omega arith
Steps-work lets_in n o (later before step) =
    let so_far = Steps-work lets_in n o before in
    let less = Step-work lets_in n (Steps-IsOrderly lets_in n before o) step in omega arith

operations-IsFlat : (jobs : List Job) → IsFlat (operations jobs)
unfolding operations
operations-IsFlat [] = nothing
operations-IsFlat (calls_compiled ∷ jobs) = looks _ (operations-IsFlat jobs)
operations-IsFlat (calls_process ∷ jobs) = looks _ (looks _ (looks _ (operations-IsFlat jobs)))
operations-IsFlat (registers_process ∷ jobs) = registers _ (operations-IsFlat jobs)

first_n : (b : Bool) (jobs : List Job) → IsFlat (if b then operations jobs else [])
first_n true jobs = operations-IsFlat jobs
first_n false jobs = nothing

start-IsOrderly : (n : ℕ) (jobs : ℕ → List Job) → IsOrderly n (start n jobs)
unfolding start
start-IsOrderly n jobs = record {
  thread = λ t. outside (first_n (ltb t n) (jobs t)) refl (λ e. absurd (cc)) (λ e. absurd (cc));
  none_beyond = λ t beyond. ground (arith, beyond);
}

-- Whether or not a thread that waits to write keeps readers out: each of `n` threads has any number of
-- calls, of functions of both kinds of modules and without callbacks, and of registrations of process
-- modules before it. Then no run of them is longer than `work` says, and a run that cannot go on has
-- done everything: no thread waits for ever.
pub jobs_finish :
    (lets_in : Bool) (n : ℕ) (jobs : ℕ → List Job) (s : Lock) (run : Steps lets_in (start n jobs) s)
    → (count run ≤ work n (start n jobs)) × (((t : ℕ) → s.rest t ≡ []) ⊎ Goes lets_in s)
jobs_finish lets_in n jobs s run =
    let o = start-IsOrderly n jobs in
    let bound = Steps-work lets_in n o run in
    (omega arith, IsOrderly-Goes lets_in n s (Steps-IsOrderly lets_in n run o))
