-- ===== src/Locks/Deadlock.antt =====
-- A callback during a registration by another thread (core/src/runtime.rs, core/src/router.rs).
use glu_core.Prelude.{
  ℕ, suc, ◌-◌, ◌<◌, ◌≡◌, refl, ap, sym, ◌∙◌, Bool, true, false, none, List, [], ◌∷◌, ◌++◌, eqb,
  eqb_iff, arith, Bool-cases, inl, inr,
}
use glu_core.Locks.{
  Operation, read, unread, write, unwrite, looking_up, compiled_call, process_call, registration,
  Lock, set, set-same, NoneWaits, Step, reads, unreads, queues, writes, unwrites, Steps, here,
  later,
}

-- The thread `a` holds a guard and wants another; `b` waits to write.
pub record Deadlocked (a b : ℕ) (ra rb : List Operation) (s : Lock) : Type 0 where
  pub wants : s.rest a ≡ read ∷ ra
  pub waits : s.rest b ≡ write ∷ rb
  pub holds : 0 < s.guards a
  pub queued : s.queued b ≡ true
  pub writer : s.writer ≡ none

-- A thread that wants a guard, or waits, keeps what it has while another gives a guard back.
set-unread :
    {B : Type 0} (t i : ℕ) (op : Operation) (ops r : List Operation) (z : B)
    (f : ℕ → List Operation) (g : ℕ → B)
    → f t ≡ unread ∷ ops
    → f i ≡ op ∷ r
    → ¬ (unread ≡ op)
    → set t z g i ≡ g i
set-unread t i op ops r z f g ft fi differ = elim (Bool-cases (eqb t i)) [
  | inl same ↦
      let both : f t ≡ f i = ap f ((eqb_iff t i).0 same) in
      let first : unread ∷ ops ≡ op ∷ r = sym ft ∙ (both ∙ fi) in
      absurd (differ (ground (arith, first)))
  | inr other ↦ rw other refl
]

module _ (a b : ℕ) (ra rb : List Operation) where
  Deadlocked-unreads :
      (t : ℕ) (ops : List Operation) {s : Lock}
      → s.rest t ≡ unread ∷ ops
      → Deadlocked a b ra rb s
      → Deadlocked a b ra rb
          (record s { rest = set t ops s.rest; guards = set t (s.guards t - 1) s.guards })
  Deadlocked-unreads t ops {s} next d = record {
    wants = set-unread t a read ops ra ops s.rest s.rest next d.wants (λ e. absurd (cc)) ∙ d.wants;
    waits = set-unread t b write ops rb ops s.rest s.rest next d.waits (λ e. absurd (cc)) ∙ d.waits;
    holds =
        let same =
          set-unread t a read ops ra (s.guards t - 1) s.rest s.guards next d.wants
            (λ e. absurd (cc)) in
        rw same d.holds;
    queued = d.queued;
    writer = d.writer;
  }

  Step-Deadlocked :
      {s s' : Lock} → Step false s s' → Deadlocked a b ra rb s → Deadlocked a b ra rb s'
  Step-Deadlocked (reads t ops next free (inl e)) d = absurd (cc)
  Step-Deadlocked (reads t ops next free (inr idle)) d = absurd (ground (arith, idle b, d.queued))
  Step-Deadlocked (unreads t ops next) d = Deadlocked-unreads t ops next d
  Step-Deadlocked (queues t ops next new) d = record {
    wants = d.wants;
    waits = d.waits;
    holds = d.holds;
    queued = ground (arith, d.queued);
    writer = d.writer;
  }
  Step-Deadlocked (writes t ops next queued free unheld) d =
      absurd (ground (arith, d.holds, unheld a))
  Step-Deadlocked (unwrites t ops next holder) d = absurd (ground (arith, holder, d.writer))

  Steps-Deadlocked :
      {s s' : Lock} → Steps false s s' → Deadlocked a b ra rb s → Deadlocked a b ra rb s'
  Steps-Deadlocked here d = d
  Steps-Deadlocked (later before step) d = Step-Deadlocked step (Steps-Deadlocked before d)

  -- Where readers are let in while a writer waits, the thread that wants another guard gets it.
  wants-let_in :
      {s : Lock}
      → Deadlocked a b ra rb s
      → Step true s
          (record s { rest = set a ra s.rest; guards = set a (suc (s.guards a)) s.guards })
  wants-let_in d = reads a ra d.wants d.writer (inl refl)

abbrev after_read : ℕ → List Operation → Lock → Lock
after_read t ops s = record s {
  rest = set t ops s.rest;
  guards = set t (suc (s.guards t)) s.guards;
}

abbrev after_unread : ℕ → List Operation → Lock → Lock
after_unread t ops s = record s {
  rest = set t ops s.rest;
  guards = set t (s.guards t - 1) s.guards;
}

-- A lookup under a guard that is given back.
abbrev looked_up : ℕ → List Operation → Lock → Lock
looked_up t ops s = after_unread t ops (after_read t (unread ∷ ops) s)

rest-looked_up : (t : ℕ) (ops : List Operation) (s : Lock) → (looked_up t ops s).rest t ≡ ops
rest-looked_up t ops s = set-same t ops (after_read t (unread ∷ ops) s).rest

guards-after_read : (t : ℕ) (ops : List Operation) (s : Lock) → 0 < (after_read t ops s).guards t
guards-after_read t ops s = rw (set-same t (suc (s.guards t)) s.guards) (omega arith)

Steps-looking_up :
    (lets_in : Bool) (t : ℕ) (ops : List Operation) {s s' : Lock}
    → Steps lets_in s s'
    → s'.rest t ≡ looking_up ++ ops
    → s'.writer ≡ none
    → NoneWaits s'
    → Steps lets_in s (looked_up t ops s')
Steps-looking_up lets_in t ops {s' = s'} before next free idle =
    later (later before (reads t (unread ∷ ops) next free (inr idle)))
      (unreads t ops (set-same t (unread ∷ ops) s'.rest))

module _ (a b : ℕ) (more after_a after_b : List Operation) (s : Lock) where
  -- What the thread does once it has the guard of its call.
  abbrev called_back : List Operation
  called_back = (compiled_call more ++ (unread ∷ [])) ++ after_a

  abbrev with_socket : Lock
  with_socket = looked_up a (looking_up ++ (read ∷ called_back)) s

  abbrev with_base : Lock
  with_base = looked_up a (read ∷ called_back) with_socket

  abbrev waiting : Lock
  waiting = after_read a called_back with_base

  waits-Deadlocked :
      eqb a b ≡ false
      → s.writer ≡ none
      → s.rest b ≡ registration ++ after_b
      → Deadlocked a b
          (unread ∷ (more ++ (unread ∷ [])) ++ after_a)
          (unwrite ∷ after_b)
          (record waiting { queued = set b true waiting.queued })
  waits-Deadlocked differ free next = record {
    wants = set-same a called_back with_base.rest;
    waits = rw differ next;
    holds = guards-after_read a called_back with_base;
    queued = set-same b true s.queued;
    writer = free;
  }

  called-Steps :
      s.rest a ≡ process_call (compiled_call more) ++ after_a
      → s.writer ≡ none
      → NoneWaits s
      → Steps false s waiting
  called-Steps next free idle =
      let socket = looking_up ++ (read ∷ called_back) in
      let first = Steps-looking_up false a socket here next free idle in
      let second =
        Steps-looking_up false a (read ∷ called_back) first (rest-looked_up a socket s) free idle in
      later second
        (reads a called_back (rest-looked_up a (read ∷ called_back) with_socket) free (inr idle))

  two_threads :
      s.rest a ≡ process_call (compiled_call more) ++ after_a
      → s.rest b ≡ registration ++ after_b
      → eqb a b ≡ false
  two_threads call registers = elim (Bool-cases (eqb a b)) [
    | inl same ↦
        let both : s.rest a ≡ s.rest b = ap s.rest ((eqb_iff a b).0 same) in
        absurd (ground (arith, both, call, registers))
    | inr differ ↦ differ
  ]

-- Where a thread that waits to write keeps readers out: one thread calls a function of a process module,
-- and the module calls back, while another thread registers a process module. In any state where
-- nobody has the lock for writing or waits for it, a sequence of steps leads to one from which, whatever
-- steps all threads take, neither goes on: the first waits, with the guard of its call, for that of the
-- nested call, and the second for the first.
pub callback_deadlocks :
    (a b : ℕ) (more after_a after_b : List Operation) (s : Lock)
    → s.rest a ≡ process_call (compiled_call more) ++ after_a
    → s.rest b ≡ registration ++ after_b
    → s.writer ≡ none
    → NoneWaits s
    → (s' : Lock) × Steps false s s'
      × ((s'' : Lock)
          → Steps false s' s''
          → (s''.rest a ≡ (compiled_call more ++ (unread ∷ [])) ++ after_a)
            × (s''.rest b ≡ registration ++ after_b))
callback_deadlocks a b more after_a after_b s call registers free idle =
    let differ = two_threads a b more after_a after_b s call registers in
    let stuck = waits-Deadlocked a b more after_a after_b s differ free registers in
    let before = called-Steps a b more after_a after_b s call free idle in
    (
      record (waiting a b more after_a after_b s) { queued = set b true s.queued },
      later before (queues b (unwrite ∷ after_b) stuck.waits (idle b)),
      λ s'' steps. let still = Steps-Deadlocked a b _ _ steps stuck in (still.wants, still.waits),
    )
