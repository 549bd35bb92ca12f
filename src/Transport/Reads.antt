-- ===== src/Transport/Reads.antt =====
-- `read_exact` over a Unix socket, however the bytes come in pieces.
use glu_core.Prelude.{
  ℕ, zero, suc, ◌+◌, ◌-◌, ◌≤◌, ◌<◌, ◌≡◌, refl, sym, ap, ◌∙◌, ◌⊎◌, inl, inr, true, false, ltb, min,
  Option, none, [], ◌∷◌, ◌++◌, Bytes, length, take?, drop?, take, drop, before, take-drop,
  length-take, take-nil, take?-pieces, drop?-pieces, arith, Bool-cases,
}
use glu_core.World.{World}
use glu_core.World.Sockets.{set_socket, rest_of}
use glu_core.World.Sockets
use glu_core.Transport.{Io, done, failed, ok_of, prepend, on_read, read_from, read_exact}
use glu_core.Transport.Unix.{from_raw_fd, unix, read, read_socket}
use glu_core.Transport.Replaced.{socket-set_socket, set_socket-same, set_socket-twice}

-- What a caller sees that does not look at the kind of an error.
abbrev pub view : Io Bytes × World → Option Bytes × World
view r = (ok_of r.0, r.1)

view-prepend :
    (bs : Bytes) (r : Io Bytes × World) → view (prepend bs r) ≡ (before bs (view r).0, (view r).1)
view-prepend bs (done rest, w) = refl
view-prepend bs (failed e, w) = refl

module _ (fd : ℕ) where
  abbrev left : Bytes → World → World
  left inbox w = set_socket fd (record (w.socket fd) { inbox = inbox }) w

  -- All of the bytes at once, from an open socket.
  abbrev taken : ℕ → World → Option Bytes × World
  taken n w = (take? n (w.socket fd).inbox, left (rest_of (drop? n (w.socket fd).inbox)) w)

  taken-pieces :
      (bs ys : Bytes) (m : ℕ) (w : World)
      → bs ++ ys ≡ (w.socket fd).inbox
      → (before bs (taken m (left ys w)).0, (taken m (left ys w)).1) ≡ taken (length bs + m) w
  taken-pieces bs ys m w e = rw (
    socket-set_socket fd (record (w.socket fd) { inbox = ys }) w,
    sym e,
    take?-pieces bs ys m,
    drop?-pieces bs ys m,
    set_socket-twice fd (record (w.socket fd) { inbox = ys })
        (record (w.socket fd) { inbox = rest_of (drop? m ys) }) w,
  )

  module _ (n : ℕ) (again : ℕ → World → Io Bytes × World)
      (ih : (m : ℕ) (w : World) → m < suc n → fd < w.fd_limit → view (again m w) ≡ taken m w) where
    on_read-pieces :
        (bs ys : Bytes) (w : World)
        → bs ++ ys ≡ (w.socket fd).inbox
        → length bs ≤ suc n
        → (bs ≡ [] → (w.socket fd).inbox ≡ [])
        → fd < w.fd_limit
        → view (on_read again (suc n) (done bs, left ys w)) ≡ taken (suc n) w
    unfolding on_read
    on_read-pieces [] ys w e short ended live = rw (e, ended refl)
    on_read-pieces (b ∷ bs) ys w e short ended live =
        let m = suc n - length (b ∷ bs) in
        let whole : length (b ∷ bs) + m ≡ suc n = omega arith in
        let rest = ih m (left ys w) (omega arith) live in
        view-prepend (b ∷ bs) (again m (left ys w))
        ∙ ap (λ r. (before (b ∷ bs) r.0, r.1)) rest
        ∙ taken-pieces (b ∷ bs) ys m w e
        ∙ ap (λ l. taken l w) whole

  reads :
      (pace : ℕ → ℕ) (fuel i n : ℕ) (w : World)
      → n ≤ fuel
      → fd < w.fd_limit
      → view (read_from unix pace (from_raw_fd fd) fuel i n w) ≡ taken n w
  unfolding read_from read read_socket
  reads pace fuel i zero w enough live = rw (set_socket-same fd w)
  reads pace zero i (suc n) w enough live = absurd (omega arith)
  reads pace (suc fuel) i (suc n) w enough live =
      let k = min (suc n) (suc (pace i)) in
      let inbox = (w.socket fd).inbox in
      let is_open : ltb fd w.fd_limit ≡ true = ground (arith, live) in
      rw is_open (
        on_read-pieces n (read_from unix pace (from_raw_fd fd) fuel (i + 1))
          (λ m w' less live'. reads pace fuel (i + 1) m w' (omega (arith, less)) live')
          (take k inbox) (drop k inbox) w (take-drop k inbox) (omega (arith, length-take k inbox))
          (take-nil (min n (pace i)) inbox {k = k} (omega arith)) live)

unread :
    (pace : ℕ → ℕ) (fd n : ℕ) (w : World)
    → (0 < n) ⊎ (fd < w.fd_limit)
    → ltb fd w.fd_limit ≡ false
    → view (read_exact unix pace (from_raw_fd fd) n w) ≡ (none, w)
unfolding read_from on_read read read_socket
unread pace fd zero w (inl asked) shut = absurd (omega arith)
unread pace fd zero w (inr live) shut = absurd (ground (arith, live, shut))
unread pace fd (suc n) w h shut = rw shut

pub read_exact_lem :
    (pace : ℕ → ℕ) (fd n : ℕ) (w : World)
    → (0 < n) ⊎ (fd < w.fd_limit)
    → view (read_exact unix pace (from_raw_fd fd) n w) ≡ Sockets.read_exact fd n w
unfolding Sockets.read_exact
read_exact_lem pace fd n w h = elim (Bool-cases (ltb fd w.fd_limit)) [
  | inl live ↦
      rw (live, Sockets.read_exact) (reads fd pace n 0 n w (omega arith) (ground (arith, live)))
  | inr shut ↦ rw (shut, Sockets.read_exact) (unread pace fd n w h shut)
]
