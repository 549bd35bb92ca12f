-- ===== src/Locks/Keeps.antt =====
-- The steps of orderly threads on the lock of the IPC tables (core/src/runtime.rs).
use mathlib.Core.Path.{subst}
use glu_core.Prelude.{
  ℕ, suc, ◌-◌, ◌≡◌, refl, ap, sym, ◌∙◌, Bool, true, false, some, List, [], ◌∷◌, eqb, eqb_iff, arith,
  Bool-cases, inl, inr,
}
use glu_core.Locks.{
  Operation, read, unread, write, unwrite, Lock, set, set-other, Step, reads, unreads, queues,
  writes, unwrites, Steps, here, later,
}
use glu_core.Locks.Orderly.{
  Thread, IsOrderly, unchanged, Thread-reads, Thread-unreads, Thread-queues, Thread-writes,
  Thread-unwrites,
}

-- The thread that made the step, and the others.
each :
    (s' : Lock) (t : ℕ)
    → Thread s' t
    → ((i : ℕ) → eqb t i ≡ false → Thread s' i)
    → (i : ℕ) → Thread s' i
each s' t own others i = elim (Bool-cases (eqb t i)) [
  | inl same ↦ subst (Thread s') ((eqb_iff t i).0 same) own
  | inr other ↦ others i other
]

some-other : (t i : ℕ) → eqb t i ≡ false → ¬ (some t ≡ some i)
some-other t i other e =
    let same : t ≡ i = ground (arith, e) in absurd (ground (arith, (eqb_iff t i).1 same, other))

Step-Thread :
    (lets_in : Bool) {s s' : Lock}
    → Step lets_in s s'
    → ((i : ℕ) → Thread s i)
    → (i : ℕ) → Thread s' i
Step-Thread lets_in {s} (reads t ops next free let_in) th =
    each _ t (Thread-reads s t ops next (th t)) (λ i other.
      unchanged i (set-other t i ops s.rest other) (set-other t i (suc (s.guards t)) s.guards other)
        refl (λ w. w) (λ w. w) (th i))
Step-Thread lets_in {s} (unreads t ops next) th =
    each _ t (Thread-unreads s t ops next (th t)) (λ i other.
      unchanged i (set-other t i ops s.rest other) (set-other t i (s.guards t - 1) s.guards other)
        refl (λ w. w) (λ w. w) (th i))
Step-Thread lets_in {s} (queues t ops next new) th =
    each _ t (Thread-queues s t ops next (th t)) (λ i other.
      unchanged i refl refl (set-other t i true s.queued other) (λ w. w) (λ w. w) (th i))
Step-Thread lets_in {s} (writes t ops next queued free unheld) th =
    each _ t (Thread-writes s t ops next (th t)) (λ i other.
      unchanged i (set-other t i ops s.rest other) refl (set-other t i false s.queued other)
        (λ w. absurd (some-other t i other w)) (λ w. absurd (ground (arith, w, free))) (th i))
Step-Thread lets_in {s} (unwrites t ops next holder) th =
    each _ t (Thread-unwrites s t ops next (th t)) (λ i other.
      unchanged i (set-other t i ops s.rest other) refl refl (λ w. absurd (ground (arith, w)))
        (λ w. absurd (some-other t i other (sym holder ∙ w))) (th i))

-- A thread that there is not makes no step.
none-goes_on :
    (f : ℕ → List Operation) (t i : ℕ) (op : Operation) (ops : List Operation)
    → f t ≡ op ∷ ops
    → f i ≡ []
    → set t ops f i ≡ []
none-goes_on f t i op ops next nothing = elim (Bool-cases (eqb t i)) [
  | inl same ↦
      let both : f t ≡ f i = ap f ((eqb_iff t i).0 same) in
      absurd (ground (arith, both, next, nothing))
  | inr other ↦ set-other t i ops f other ∙ nothing
]

Step-none_beyond :
    (lets_in : Bool) (i : ℕ) {s s' : Lock} → Step lets_in s s' → s.rest i ≡ [] → s'.rest i ≡ []
Step-none_beyond lets_in i {s} (reads t ops next free let_in) h =
    none-goes_on s.rest t i read ops next h
Step-none_beyond lets_in i {s} (unreads t ops next) h = none-goes_on s.rest t i unread ops next h
Step-none_beyond lets_in i {s} (queues t ops next new) h = h
Step-none_beyond lets_in i {s} (writes t ops next queued free unheld) h =
    none-goes_on s.rest t i write ops next h
Step-none_beyond lets_in i {s} (unwrites t ops next holder) h =
    none-goes_on s.rest t i unwrite ops next h

-- Whatever steps the threads take, they stay orderly.
pub Steps-IsOrderly :
    (lets_in : Bool) (n : ℕ) {s s' : Lock} → Steps lets_in s s' → IsOrderly n s → IsOrderly n s'
Steps-IsOrderly lets_in n here h = h
Steps-IsOrderly lets_in n (later before step) h =
    let k = Steps-IsOrderly lets_in n before h in
    record {
      thread = Step-Thread lets_in step k.thread;
      none_beyond = λ t beyond. Step-none_beyond lets_in t step (k.none_beyond t beyond);
    }
