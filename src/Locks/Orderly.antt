-- ===== src/Locks/Orderly.antt =====
-- Threads that never take a guard of the IPC tables while they hold one: calls without callbacks, and
-- registrations (core/src/runtime.rs).
use glu_core.Prelude.{
  ℕ, suc, ◌-◌, ◌≤◌, ◌≡◌, refl, sym, ◌∙◌, true, false, none, some, List, [], ◌∷◌, arith, Bool-cases,
  inl, inr,
}
use glu_core.Locks.{Operation, read, unread, write, unwrite, Lock, set, set-same}

-- Each guard is given back before the next is taken.
pub data IsFlat : List Operation → Type 0 where
  nothing : IsFlat []
  looks : (r : List Operation) → IsFlat r → IsFlat (read ∷ unread ∷ r)
  registers : (r : List Operation) → IsFlat r → IsFlat (write ∷ unwrite ∷ r)

pub data Thread (s : Lock) (t : ℕ) : Type 0 where
  outside :
      IsFlat (s.rest t)
      → s.guards t ≡ 0
      → ¬ (s.writer ≡ some t)
      → (s.queued t ≡ true → (r : List Operation) × (s.rest t ≡ write ∷ r))
      → Thread s t
  reading :
      (r : List Operation)
      → s.rest t ≡ unread ∷ r
      → IsFlat r
      → s.guards t ≡ 1
      → ¬ (s.writer ≡ some t)
      → s.queued t ≡ false
      → Thread s t
  writing :
      (r : List Operation)
      → s.rest t ≡ unwrite ∷ r
      → IsFlat r
      → s.guards t ≡ 0
      → s.writer ≡ some t
      → s.queued t ≡ false
      → Thread s t

-- There are `n` threads, and each is where its guards say.
pub record IsOrderly (n : ℕ) (s : Lock) : Type 0 where
  pub thread : (t : ℕ) → Thread s t
  pub none_beyond : (t : ℕ) → n ≤ t → s.rest t ≡ []

flat-read :
    {ops : List Operation}
    → IsFlat (read ∷ ops)
    → (r : List Operation) × (ops ≡ unread ∷ r) × IsFlat r
flat-read (looks r h) = (r, refl, h)

flat-write :
    {ops : List Operation}
    → IsFlat (write ∷ ops)
    → (r : List Operation) × (ops ≡ unwrite ∷ r) × IsFlat r
flat-write (registers r h) = (r, refl, h)

flat-unread : {ops : List Operation} → ¬ IsFlat (unread ∷ ops)
flat-unread h = elim h [ ]

flat-unwrite : {ops : List Operation} → ¬ IsFlat (unwrite ∷ ops)
flat-unwrite h = elim h [ ]

-- A thread that is left alone.
pub unchanged :
    {s s' : Lock} (i : ℕ)
    → s'.rest i ≡ s.rest i
    → s'.guards i ≡ s.guards i
    → s'.queued i ≡ s.queued i
    → (s'.writer ≡ some i → s.writer ≡ some i)
    → (s.writer ≡ some i → s'.writer ≡ some i)
    → Thread s i
    → Thread s' i
unchanged i e g q back forth (outside flat zero free waits) =
    outside (rw e flat) (rw g zero) (λ w. free (back w))
      (λ h. let (r, next) = waits (sym q ∙ h) in (r, e ∙ next))
unchanged i e g q back forth (reading r next flat one free idle) =
    reading r (e ∙ next) flat (g ∙ one) (λ w. free (back w)) (q ∙ idle)
unchanged i e g q back forth (writing r next flat zero holds idle) =
    writing r (e ∙ next) flat (g ∙ zero) (forth holds) (q ∙ idle)

not_queued :
    (t : ℕ) (s : Lock) (op : Operation) (ops : List Operation)
    → s.rest t ≡ op ∷ ops
    → (s.queued t ≡ true → (r : List Operation) × (s.rest t ≡ write ∷ r))
    → ¬ (op ≡ write)
    → s.queued t ≡ false
not_queued t s op ops next waits other = elim (Bool-cases (s.queued t)) [
  | inl queued ↦ let (r, wants) = waits queued in absurd (other (ground (arith, next, wants)))
  | inr idle ↦ idle
]

module _ (s : Lock) (t : ℕ) (ops : List Operation) where
  pub Thread-reads :
      s.rest t ≡ read ∷ ops
      → Thread s t
      → Thread (record s { rest = set t ops s.rest; guards = set t (suc (s.guards t)) s.guards }) t
  Thread-reads next (outside flat zero free waits) =
      let (r, after, flat') = flat-read (rw next at flat) in
      let guards = set-same t (suc (s.guards t)) s.guards in
      reading r (set-same t ops s.rest ∙ after) flat' (ground (arith, guards, zero)) free
        (not_queued t s read ops next waits (λ e. absurd (cc)))
  Thread-reads next (reading r other flat one free idle) = absurd (ground (arith, next, other))
  Thread-reads next (writing r other flat zero holds idle) = absurd (ground (arith, next, other))

  pub Thread-unreads :
      s.rest t ≡ unread ∷ ops
      → Thread s t
      → Thread (record s { rest = set t ops s.rest; guards = set t (s.guards t - 1) s.guards }) t
  Thread-unreads next (outside flat zero free waits) = absurd (flat-unread (rw next at flat))
  Thread-unreads next (reading r other flat one free idle) =
      let same : r ≡ ops = ground (arith, next, other) in
      let guards = set-same t (s.guards t - 1) s.guards in
      outside (rw (set-same t ops s.rest, sym same) flat) (ground (arith, guards, one)) free
        (λ h. absurd (ground (arith, h, idle)))
  Thread-unreads next (writing r other flat zero holds idle) = absurd (ground (arith, next, other))

  pub Thread-queues :
      s.rest t ≡ write ∷ ops → Thread s t → Thread (record s { queued = set t true s.queued }) t
  Thread-queues next (outside flat zero free waits) = outside flat zero free (λ h. (ops, next))
  Thread-queues next (reading r other flat one free idle) = absurd (ground (arith, next, other))
  Thread-queues next (writing r other flat zero holds idle) = absurd (ground (arith, next, other))

  pub Thread-writes :
      s.rest t ≡ write ∷ ops
      → Thread s t
      → Thread
          (record s { rest = set t ops s.rest; queued = set t false s.queued; writer = some t })
          t
  Thread-writes next (outside flat zero free waits) =
      let (r, after, flat') = flat-write (rw next at flat) in
      writing r (set-same t ops s.rest ∙ after) flat' zero refl (set-same t false s.queued)
  Thread-writes next (reading r other flat one free idle) = absurd (ground (arith, next, other))
  Thread-writes next (writing r other flat zero holds idle) = absurd (ground (arith, next, other))

  pub Thread-unwrites :
      s.rest t ≡ unwrite ∷ ops
      → Thread s t
      → Thread (record s { rest = set t ops s.rest; writer = none }) t
  Thread-unwrites next (outside flat zero free waits) = absurd (flat-unwrite (rw next at flat))
  Thread-unwrites next (reading r other flat one free idle) = absurd (ground (arith, next, other))
  Thread-unwrites next (writing r other flat zero holds idle) =
      let same : r ≡ ops = ground (arith, next, other) in
      outside (rw (set-same t ops s.rest, sym same) flat) zero (λ e. absurd (cc))
        (λ h. absurd (ground (arith, h, idle)))
