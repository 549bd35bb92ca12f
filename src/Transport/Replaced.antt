-- ===== src/Transport/Replaced.antt =====
-- A socket that is put in place of another.
use mathlib.Core.Path.{fun_ext}
use glu_core.Prelude.{ℕ, ◌≡◌, ap, true, eqb, eqb_iff, arith, Bool-cases, inl, inr}
use glu_core.World.{Socket, World}
use glu_core.World.Sockets.{set_socket}

pub socket-set_socket : (fd : ℕ) (s : Socket) (w : World) → (set_socket fd s w).socket fd ≡ s
socket-set_socket fd s w = let e : eqb fd fd ≡ true = ground (arith, eqb_iff fd fd) in rw e

pub set_socket-same : (fd : ℕ) (w : World) → set_socket fd (w.socket fd) w ≡ w
set_socket-same fd w =
    ap (λ f. record w { socket = f })
      (fun_ext (λ i. elim (Bool-cases (eqb fd i)) [
        | inl e ↦ ground (arith, e, eqb_iff fd i)
        | inr e ↦ ground (arith, e)
      ]))

pub set_socket-twice :
    (fd : ℕ) (s t : Socket) (w : World) → set_socket fd t (set_socket fd s w) ≡ set_socket fd t w
set_socket-twice fd s t w =
    ap (λ f. record w { socket = f })
      (fun_ext (λ i. elim (Bool-cases (eqb fd i)) [
        | inl e ↦ ground (arith, e)
        | inr e ↦ ground (arith, e)
      ]))
