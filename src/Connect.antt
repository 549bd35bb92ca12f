-- ===== src/Connect.antt =====
-- `connect_with_retry` of core/src/runtime.rs. What the operating system does at each attempt is a
-- parameter: the descriptor if there is a connection, and the time that it takes.
pub mod InTime
use glu_core.Prelude.{ℕ, zero, suc, ◌+◌, ◌*◌, ◌/◌, ◌%◌, ◌^◌, Option, none, some, leb, true, false}

-- The attempts to connect, by their number. Times are in nanoseconds: how long an attempt takes, and
-- how much longer than asked the thread then sleeps.
pub record Attempts : Type 0 where
  pub connect : ℕ → Option ℕ
  pub takes : ℕ → ℕ
  pub oversleeps : ℕ → ℕ

-- The descriptor, or -1, which is `timed_out`; `still_trying` is the model out of attempts.
pub data Connection : Type 0 where
  connected : ℕ → Connection
  timed_out : Connection
  still_trying : Connection

-- `std::thread::sleep(Duration::from_millis(interval_ms))` sleeps that long or longer.
abbrev pub asleep : ℕ → ℕ → ℕ
asleep interval_ms oversleeps = interval_ms * 1000000 + oversleeps

-- `start.elapsed().as_millis()`
abbrev pub as_millis : ℕ → ℕ
as_millis elapsed = elapsed / 1000000

-- The loop from attempt `i` on, which begins at the time `now`.
unfoldable pub attempt_from : Attempts → ℕ → ℕ → ℕ → ℕ → ℕ → Connection
attempt_from os timeout_ms interval_ms zero i now = still_trying
attempt_from os timeout_ms interval_ms (suc fuel) i now = elim (os.connect i) [
  | some fd ↦ connected fd
  | none ↦ elim (leb timeout_ms (as_millis (now + os.takes i) % 2 ^ 64)) [
    | true ↦ timed_out
    | false ↦
        attempt_from os timeout_ms interval_ms fuel (suc i)
          (now + os.takes i + asleep interval_ms (os.oversleeps i))
  ]
]

-- One attempt more than the milliseconds.
unfoldable pub connect_with_retry : Attempts → ℕ → ℕ → Connection
connect_with_retry os timeout_ms interval_ms =
    attempt_from os timeout_ms interval_ms (suc timeout_ms) 0 0
