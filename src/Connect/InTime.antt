-- ===== src/Connect/InTime.antt =====
-- That the attempts to connect come to an end, and to a connection where the module listens in time.
use glu_core.Prelude.{
  ℕ, zero, suc, ◌+◌, ◌*◌, ◌%◌, ◌^◌, ◌≡◌, ◌<◌, ◌≤◌, ◌⊎◌, none, some, leb, ltb, true, false, arith,
  Bool-cases, Option-cases, inl, inr, ◌∙◌,
}
use glu_core.Connect.{
  Attempts, Connection, connected, timed_out, asleep, as_millis, attempt_from, connect_with_retry,
}

-- When attempt `i` begins, and when it has failed, if all do.
abbrev pub begins : Attempts → ℕ → ℕ → ℕ
begins os interval_ms zero = 0
begins os interval_ms (suc i) =
    begins os interval_ms i + os.takes i + asleep interval_ms (os.oversleeps i)

abbrev pub fails_at : Attempts → ℕ → ℕ → ℕ
fails_at os interval_ms i = as_millis (begins os interval_ms i + os.takes i)

module _ (os : Attempts) (timeout_ms interval_ms : ℕ) (interval : 1 ≤ interval_ms) where
  begins-least : (i : ℕ) → i * 1000000 ≤ begins os interval_ms i
  begins-least zero = omega arith
  begins-least (suc i) = omega (arith, begins-least i, interval)

  fails_at-least : (i : ℕ) → i ≤ fails_at os interval_ms i
  fails_at-least i = omega (arith, begins-least i)

  attempt_succeeds :
      (fuel i now fd : ℕ)
      → os.connect i ≡ some fd
      → attempt_from os timeout_ms interval_ms (suc fuel) i now ≡ connected fd
  unfolding attempt_from
  attempt_succeeds fuel i now fd there = rw (there, attempt_from)

  attempt_fails_late :
      (fuel i : ℕ)
      → os.connect i ≡ none
      → timeout_ms ≤ fails_at os interval_ms i
      → fails_at os interval_ms i < 2 ^ 64
      → attempt_from os timeout_ms interval_ms (suc fuel) i (begins os interval_ms i) ≡ timed_out
  unfolding attempt_from
  attempt_fails_late fuel i fails late small =
      let over : leb timeout_ms (fails_at os interval_ms i % 2 ^ 64) ≡ true =
        ground (arith, late, small) in
      rw (fails, over, attempt_from)

  attempt_fails_early :
      (fuel i : ℕ)
      → os.connect i ≡ none
      → fails_at os interval_ms i < timeout_ms
      → timeout_ms < 2 ^ 64
      → attempt_from os timeout_ms interval_ms (suc fuel) i (begins os interval_ms i)
        ≡ attempt_from os timeout_ms interval_ms fuel (suc i) (begins os interval_ms (suc i))
  unfolding attempt_from
  attempt_fails_early fuel i fails early small =
      let under : leb timeout_ms (fails_at os interval_ms i % 2 ^ 64) ≡ false =
        ground (arith, early, small) in
      rw (fails, under, attempt_from)

  -- All attempts before `k` fail, and in time.
  abbrev pub FailBefore : ℕ → Type 0
  FailBefore k = (j : ℕ) → j < k → (os.connect j ≡ none) × (fails_at os interval_ms j < timeout_ms)

  attempt_from-connected :
      (k fd fuel i : ℕ)
      → timeout_ms < 2 ^ 64
      → FailBefore k
      → os.connect k ≡ some fd
      → i ≤ k
      → k < i + fuel
      → attempt_from os timeout_ms interval_ms fuel i (begins os interval_ms i) ≡ connected fd
  attempt_from-connected k fd zero i small before there le lt = absurd (omega (arith, le, lt))
  attempt_from-connected k fd (suc fuel) i small before there le lt = elim (Bool-cases (ltb i k)) [
    | inl earlier ↦
        let (fails, early) = before i (ground (arith, earlier)) in
        attempt_fails_early fuel i fails early small
        ∙ attempt_from-connected k fd fuel (suc i) small before there (ground (arith, earlier))
            (omega (arith, lt))
    | inr same ↦
        let at_k : i ≡ k = ground (arith, same, le) in attempt_succeeds fuel i _ fd (rw at_k there)
  ]

  k_in_time : (k : ℕ) → FailBefore k → k < suc timeout_ms
  k_in_time zero before = omega arith
  k_in_time (suc k) before =
      let (fails, early) = before k (omega arith) in omega (arith, early, fails_at-least k)

  -- With an interval of a millisecond or more and a timeout of 64 bits: where some attempt succeeds
  -- and all before it fail within the timeout, the module is connected, by that attempt.
  pub connect_with_retry_listening :
      (k fd : ℕ)
      → timeout_ms < 2 ^ 64
      → FailBefore k
      → os.connect k ≡ some fd
      → connect_with_retry os timeout_ms interval_ms ≡ connected fd
  unfolding connect_with_retry
  connect_with_retry_listening k fd small before there =
      attempt_from-connected k fd (suc timeout_ms) 0 small before there (omega arith)
        (omega (arith, k_in_time k before))

  -- The attempt that decides, and how.
  abbrev pub Decides : ℕ → Connection → Type 0
  Decides k r =
      FailBefore k
      × (((fd : ℕ) × (os.connect k ≡ some fd) × (r ≡ connected fd))
          ⊎ ((os.connect k ≡ none) × (timeout_ms ≤ fails_at os interval_ms k) × (r ≡ timed_out)))

  FailBefore-suc :
      (i : ℕ)
      → FailBefore i
      → os.connect i ≡ none
      → fails_at os interval_ms i < timeout_ms
      → FailBefore (suc i)
  FailBefore-suc i before fails early j lt = elim (Bool-cases (ltb j i)) [
    | inl earlier ↦ before j (ground (arith, earlier))
    | inr last ↦ let same : i ≡ j = ground (arith, last, lt) in (rw same at fails, rw same at early)
  ]

  -- The attempt `i` decides, or else goes on in time.
  attempt-Decides :
      (n i : ℕ)
      → fails_at os interval_ms i < 2 ^ 64
      → FailBefore i
      → (let r = attempt_from os timeout_ms interval_ms (suc n) i (begins os interval_ms i) in
          ((os.connect i ≡ none) → fails_at os interval_ms i < timeout_ms → (k : ℕ) × Decides k r)
          → (k : ℕ) × Decides k r)
  attempt-Decides n i clock before goes_on = elim (Option-cases (os.connect i)) [
    | inr (fd, there) ↦ (i, (before, inl (fd, there, attempt_succeeds n i _ fd there)))
    | inl fails ↦ elim (Bool-cases (leb timeout_ms (fails_at os interval_ms i))) [
      | inl late ↦
          let over : timeout_ms ≤ fails_at os interval_ms i = ground (arith, late) in
          (i, (before, inr (fails, over, attempt_fails_late n i fails over clock)))
      | inr early ↦ goes_on fails (ground (arith, early))
    ]
  ]

  attempt_from-Decides :
      (n i : ℕ)
      → timeout_ms < 2 ^ 64
      → ((j : ℕ) → j ≤ timeout_ms → fails_at os interval_ms j < 2 ^ 64)
      → FailBefore i
      → i + n ≡ timeout_ms
      → (k : ℕ) × Decides k
          (attempt_from os timeout_ms interval_ms (suc n) i (begins os interval_ms i))
  attempt_from-Decides zero i small clock before left =
      attempt-Decides 0 i (clock i (omega (arith, left))) before
        (λ fails early. absurd (omega (arith, left, early, fails_at-least i)))
  attempt_from-Decides (suc n) i small clock before left =
      attempt-Decides (suc n) i (clock i (omega (arith, left))) before (λ fails early.
        let rest =
          attempt_from-Decides n (suc i) small clock (FailBefore-suc i before fails early)
            (omega (arith, left)) in
        rw (attempt_fails_early (suc n) i fails early small) rest)

  -- With an interval of a millisecond or more and a timeout of 64 bits, and if the time until then
  -- is less than 2^64 milliseconds: the attempts come to an end. Either the first that succeeds is
  -- the connection, and all before it fail within the timeout; or the first that fails after the
  -- timeout ends them without one, and none before it succeeds.
  pub connect_with_retry-Decides :
      timeout_ms < 2 ^ 64
      → ((j : ℕ) → j ≤ timeout_ms → fails_at os interval_ms j < 2 ^ 64)
      → (k : ℕ) × Decides k (connect_with_retry os timeout_ms interval_ms)
  unfolding connect_with_retry
  connect_with_retry-Decides small clock =
      attempt_from-Decides timeout_ms 0 small clock (λ j lt. absurd (omega (arith, lt)))
        (omega arith)
