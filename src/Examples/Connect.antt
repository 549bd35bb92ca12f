-- ===== src/Examples/Connect.antt =====
-- A module that listens after two attempts to connect to it.
use glu_core.Prelude.{
  ℕ, zero, suc, ◌*◌, ◌^◌, ◌≡◌, ◌<◌, ◌≤◌, refl, none, some, ltb, if◌then◌else◌, arith,
}
use glu_core.Connect.{Attempts, connect_with_retry}
use glu_core.Connect.InTime.{begins, fails_at, FailBefore, Decides, connect_with_retry-Decides}

-- The renderer listens at the third attempt.
abbrev pub third_attempt : Attempts
third_attempt = record {
  connect = λ i. if ltb i 2 then none else some 3;
  takes = λ i. 1000;
  oversleeps = λ i. 0;
}

third_attempt_fails : FailBefore third_attempt 5000 50 (omega arith) 2
third_attempt_fails zero lt = (refl, omega arith)
third_attempt_fails (suc zero) lt = (refl, omega arith)
third_attempt_fails (suc (suc j)) lt = absurd (omega (arith, lt))

begins-third_attempt : (j : ℕ) → begins third_attempt 50 j ≡ j * 50001000
begins-third_attempt zero = refl
begins-third_attempt (suc j) = omega (arith, begins-third_attempt j)

third_attempt_clock : (j : ℕ) → j ≤ 5000 → fails_at third_attempt 50 j < 2 ^ 64
third_attempt_clock j le = omega (arith, le, begins-third_attempt j)

connect_with_retry-Decides_example :
    (k : ℕ) × Decides third_attempt 5000 50
      (omega arith)
      k
      (connect_with_retry third_attempt 5000 50)
connect_with_retry-Decides_example =
    connect_with_retry-Decides third_attempt 5000 50 (omega arith) (omega arith) third_attempt_clock
