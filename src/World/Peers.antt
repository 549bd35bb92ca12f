-- ===== src/World/Peers.antt =====
-- The peers that keep their connections open without a word (core/src/runtime.rs sets no time for an
-- answer).
use glu_core.Prelude.{
  ℕ, zero, suc, ◌+◌, ◌<◌, ◌≡◌, refl, Bool, false, ltb, eqb, eqb_iff, arith, Bool-cases, inl, inr,
  if◌then◌else◌,
}
use glu_core.World.{World}
use glu_core.World.Later.{Later, Anywhere}
use glu_core.World.Sockets.{waits_for}

unfoldable pub count_open : ℕ → (ℕ → Bool) → ℕ
count_open zero stays = 0
count_open (suc n) stays = (if stays n then 1 else 0) + count_open n stays

-- How many of the open descriptors have such a peer.
abbrev pub open_peers : World → ℕ
open_peers w = count_open w.fd_limit w.stays_open

pub open_peers-Later : (w w' : World) → Later Anywhere w w' → open_peers w' ≡ open_peers w
open_peers-Later w w' l = rw (l.limit, l.peers) refl

count_open-none : (n fd : ℕ) (stays : ℕ → Bool) → count_open n stays ≡ 0 → fd < n → stays fd ≡ false
unfolding count_open
count_open-none zero fd stays h lt = absurd (omega arith)
count_open-none (suc n) fd stays h lt = elim (Bool-cases (eqb fd n)) [
  | inl same ↦ ground (arith, h, same, eqb_iff fd n)
  | inr other ↦
      count_open-none n fd stays (ground (arith, h)) (ground (arith, lt, other, eqb_iff fd n))
]

-- Where there are none, no read waits for ever.
pub waits_for-none : (fd : ℕ) (w : World) → open_peers w ≡ 0 → waits_for fd w ≡ false
unfolding waits_for
waits_for-none fd w h = elim (Bool-cases (ltb fd w.fd_limit)) [
  | inl lt ↦ ground (arith, lt, count_open-none w.fd_limit fd w.stays_open h (ground (arith, lt)))
  | inr ge ↦ ground (arith, ge)
]

pub open_peers-none :
    (n : ℕ) (stays : ℕ → Bool) → ((fd : ℕ) → fd < n → stays fd ≡ false) → count_open n stays ≡ 0
unfolding count_open
open_peers-none zero stays closes = refl
open_peers-none (suc n) stays closes =
    ground
      (arith, closes n (omega arith), open_peers-none n stays (λ fd lt. closes fd (omega arith)))
