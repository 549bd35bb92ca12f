-- ===== src/Examples/Transport.antt =====
-- Reads and writes in pieces on a concrete socket: the first call moves a byte, the next one two, and
-- so on.
use glu_core.Prelude.{ℕ, ◌≡◌, refl, arith, inl, some, [], ◌∷◌, to_le}
use glu_core.World.Sockets
use glu_core.Transport.{read_exact, write_all, read_from, on_read}
use glu_core.Transport.Unix.{unix, from_raw_fd, read, read_socket}
use glu_core.Transport.Reads.{view}
use glu_core.Transport.Writes.{outcome, write_all_lem}
use glu_core.Examples.Data.{world}

abbrev pace : ℕ → ℕ
pace i = i

first_four : (view (read_exact unix pace (from_raw_fd 3) 4 world)).0 ≡ some (15 ∷ 0 ∷ 0 ∷ 0 ∷ [])
unfolding read_from on_read read read_socket Sockets.read_exact to_le
first_four = refl

write_all_lem_example :
    outcome (write_all unix pace (from_raw_fd 3) (7 ∷ 8 ∷ 9 ∷ []) world)
    ≡ Sockets.write_all 3 (7 ∷ 8 ∷ 9 ∷ []) world
write_all_lem_example = write_all_lem pace 3 (7 ∷ 8 ∷ 9 ∷ []) world (inl (omega arith))
