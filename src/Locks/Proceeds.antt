-- ===== src/Locks/Proceeds.antt =====
-- Orderly threads on the lock of the IPC tables (core/src/runtime.rs) do not wait for one another.
use mathlib.Core.Path.{subst}
use glu_core.Prelude.{
  ℕ, zero, suc, ◌<◌, ◌≤◌, ◌≡◌, ◌⊎◌, refl, Bool, false, none, List, [], ◌∷◌, arith, Bool-cases, sym,
  eqb, eqb_iff, ltb, Option-cases, inl, inr,
}
use glu_core.Locks.{
  Operation, unread, unwrite, Lock, NoneWaits, Step, reads, unreads, queues, writes, unwrites,
}
use glu_core.Locks.Orderly.{IsFlat, nothing, looks, registers, outside, reading, writing, IsOrderly}

-- Some number below `n` has `P`, or all have `Q`.
search_below :
    (P Q : ℕ → Type 0) → ((i : ℕ) → P i ⊎ Q i) → (n : ℕ) → ((i : ℕ) × P i) ⊎ ((i : ℕ) → i < n → Q i)
search_below P Q test zero = inr (λ i below. absurd (omega arith))
search_below P Q test (suc n) = elim (test n) [
  | inl found ↦ inl (n, found)
  | inr at_n ↦ elim (search_below P Q test n) [
    | inl found ↦ inl found
    | inr before ↦ inr (λ i below. elim (Bool-cases (eqb i n)) [
      | inl same ↦ subst Q (sym ((eqb_iff i n).0 same)) at_n
      | inr other ↦ before i (ground (arith, below, other, eqb_iff i n))
    ])
  ]
]

abbrev pub Goes : Bool → Lock → Type 0
Goes lets_in s = (s' : Lock) × Step lets_in s s'

module _ (lets_in : Bool) (n : ℕ) (s : Lock) (o : IsOrderly n s) where
  beyond-guards : (t : ℕ) → n ≤ t → s.guards t ≡ 0
  beyond-guards t beyond = elim (o.thread t) [
    | outside flat held free waits ↦ held
    | reading r next flat one free idle ↦ absurd (ground (arith, next, o.none_beyond t beyond))
    | writing r next flat held holds idle ↦ held
  ]

  beyond-queued : (t : ℕ) → n ≤ t → s.queued t ≡ false
  beyond-queued t beyond = elim (Bool-cases (s.queued t)) [
    | inr idle ↦ idle
    | inl queued ↦ elim (o.thread t) [
      | outside flat held free waits ↦
          let (r, next) = waits queued in absurd (ground (arith, next, o.none_beyond t beyond))
      | reading r next flat one free idle ↦ idle
      | writing r next flat held holds idle ↦ idle
    ]
  ]

  -- All that holds for the numbers below `n`, and for the others.
  everywhere : (Q : ℕ → Type 0) → ((i : ℕ) → i < n → Q i) → ((i : ℕ) → n ≤ i → Q i) → (i : ℕ) → Q i
  everywhere Q below beyond i = elim (Bool-cases (ltb i n)) [
    | inl lt ↦ below i (ground (arith, lt))
    | inr ge ↦ beyond i (ground (arith, ge))
  ]

  Goes-guards : (t : ℕ) → Goes lets_in s ⊎ (s.guards t ≡ 0)
  Goes-guards t = elim (o.thread t) [
    | outside flat held free waits ↦ inr held
    | reading r next flat one free idle ↦ inl (_, unreads t r next)
    | writing r next flat held holds idle ↦ inr held
  ]

  -- Nobody has the lock for writing.
  module _ (free : s.writer ≡ none) where
    Goes-queued : ((i : ℕ) → s.guards i ≡ 0) → (t : ℕ) → Goes lets_in s ⊎ (s.queued t ≡ false)
    Goes-queued unheld t = elim (Bool-cases (s.queued t)) [
      | inr idle ↦ inr idle
      | inl queued ↦ elim (o.thread t) [
        | outside flat held not waits ↦
            let (r, next) = waits queued in inl (_, writes t r next queued free unheld)
        | reading r next flat one not idle ↦ inr idle
        | writing r next flat held holds idle ↦ inr idle
      ]
    ]

    Goes-flat :
        (t : ℕ) (ops : List Operation)
        → IsFlat ops
        → s.rest t ≡ ops
        → NoneWaits s
        → Goes lets_in s ⊎ (s.rest t ≡ [])
    Goes-flat t ops nothing e idle = inr e
    Goes-flat t ops (looks r flat) e idle = inl (_, reads t (unread ∷ r) e free (inr idle))
    Goes-flat t ops (registers r flat) e idle = inl (_, queues t (unwrite ∷ r) e (idle t))

    Goes-rest : NoneWaits s → (t : ℕ) → Goes lets_in s ⊎ (s.rest t ≡ [])
    Goes-rest idle t = elim (o.thread t) [
      | outside flat held not waits ↦ Goes-flat t (s.rest t) flat refl idle
      | reading r next flat one not idle' ↦ inl (_, unreads t r next)
      | writing r next flat held holds idle' ↦ absurd (ground (arith, holds, free))
    ]

    Goes-free : ((t : ℕ) → s.rest t ≡ []) ⊎ Goes lets_in s
    Goes-free = elim (search_below (λ _. Goes lets_in s) (λ t. s.guards t ≡ 0) Goes-guards n) [
      | inl (t, goes) ↦ inr goes
      | inr below ↦
          let unheld = everywhere (λ t. s.guards t ≡ 0) below beyond-guards in
          elim (search_below (λ _. Goes lets_in s) (λ t. s.queued t ≡ false) (Goes-queued unheld)
            n) [
              | inl (t, goes) ↦ inr goes
              | inr waiting ↦
                  let idle = everywhere (λ t. s.queued t ≡ false) waiting beyond-queued in
                  elim (search_below (λ _. Goes lets_in s) (λ t. s.rest t ≡ []) (Goes-rest idle)
                    n) [
                      | inl (t, goes) ↦ inr goes
                      | inr done ↦ inl (everywhere (λ t. s.rest t ≡ []) done o.none_beyond)
                    ]
            ]
    ]

  -- All is done, or some thread goes on.
  pub IsOrderly-Goes : ((t : ℕ) → s.rest t ≡ []) ⊎ Goes lets_in s
  IsOrderly-Goes = elim (Option-cases s.writer) [
    | inl free ↦ Goes-free free
    | inr (t, holder) ↦ elim (o.thread t) [
      | outside flat held not waits ↦ absurd (not holder)
      | reading r next flat one not idle ↦ absurd (not holder)
      | writing r next flat held holds idle ↦ inr (_, unwrites t r next holder)
    ]
  ]
