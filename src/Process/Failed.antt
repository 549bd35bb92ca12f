-- ===== src/Process/Failed.antt =====
-- What a registration leaves behind, whether it succeeds or fails.
use glu_core.Prelude.{
  ℕ, ◌≡◌, refl, sym, ◌≢◌, Bool, true, false, ◌||◌, Option, none, some, Bytes, has_nul, from_le, ltb,
  arith, Bool-cases, inl, inr, ◌⊎◌,
}
use glu_core.Outcome.{Outcome, ok, err, panic}
use glu_core.Utf8.{from_utf8_lossy}
use glu_core.World.Sockets.{waits_for}
use glu_core.World.{World}
use glu_core.Connect.{Attempts, Connection, connected, timed_out, still_trying, connect_with_retry}
use glu_core.Transport.Unix.{drop_stream, close}
use glu_core.World.Sockets.{read_exact}
use glu_core.Process.{
  unread, parse_registration, IpcRegistration, ended, any_nul, install, on_registration,
  on_registration_body, on_registration_length, register_named, glucore_register_process_module,
  max_registration,
}

-- The registry, the IPC tables, the memory, the links and the thread's callers of `w'` are those of `w`.
abbrev pub SameTables : World → World → Type 0
SameTables w w' =
    (w'.registry ≡ w.registry)
    × (w'.ipc ≡ w.ipc)
    × (w'.mem ≡ w.mem)
    × (w'.links ≡ w.links)
    × (w'.callers ≡ w.callers)

-- `reg_data` is what comes on the socket behind its length, and `reg` is what it says.
abbrev pub Received : ℕ → World → Bytes → IpcRegistration → Type 0
Received sock_fd w reg_data reg =
    (len_arr : Bytes) × ((read_exact sock_fd 4 w).0 ≡ some len_arr)
    × ((read_exact sock_fd (from_le len_arr) (read_exact sock_fd 4 w).1).0 ≡ some reg_data)
    × ((parse_registration reg_data (record { off = 0; mem = w.mem })).0 ≡ ok reg)

-- Code 0, with the whole installation.
abbrev pub Installed : ℕ → Bytes → World → ℕ → World → Type 0
Installed sock_fd module_name w c w' =
    (c ≡ 0)
    × (reg_data : Bytes) × (reg : IpcRegistration) × Received sock_fd w reg_data reg
    × (any_nul reg.exports ≡ false)
    × SameTables (install sock_fd module_name reg.exports w) w'

-- Every other code comes with none of it.
abbrev pub AllOrNothing : ℕ → Bytes → World → ℕ → World → Type 0
AllOrNothing sock_fd module_name w c w' =
    ((c ≢ 0) × SameTables w w') ⊎ Installed sock_fd module_name w c w'

read_exact-SameTables : (fd n : ℕ) (w : World) → SameTables w (read_exact fd n w).1
unfolding read_exact
read_exact-SameTables fd n w = elim (Bool-cases (ltb fd w.fd_limit)) [
  | inl e ↦ ground (arith, e)
  | inr e ↦ ground (arith, e)
]

on_registration-AllOrNothing :
    (fd : ℕ) (name reg_data : Bytes) (r : Outcome IpcRegistration) (w₀ w : World) {c : ℕ}
    {w' : World}
    → SameTables w₀ w
    → ((reg : IpcRegistration) → r ≡ ok reg → Received fd w₀ reg_data reg)
    → on_registration fd name r w ≡ ended c w'
    → AllOrNothing fd name w₀ c w'
unfolding on_registration install
on_registration-AllOrNothing fd name reg_data (ok reg) w₀ w t read h =
    elim (Bool-cases (any_nul reg.exports || has_nul name)) [
      | inl e ↦ absurd (ground (arith, e, h))
      | inr e ↦ inr (
        ground (arith, e, h),
        reg_data,
        reg,
        read reg refl,
        ground (arith, e),
        ground (arith, e, h, t),
      )
    ]
on_registration-AllOrNothing fd name reg_data (err x) w₀ w t read h =
    inl (ground (arith, h), ground (arith, h, t))
on_registration-AllOrNothing fd name reg_data panic w₀ w t read h = absurd (cc)

unread-AllOrNothing :
    (code fd : ℕ) (name : Bytes) (w₀ w : World) {c : ℕ} {w' : World}
    → code ≢ 0
    → SameTables w₀ w
    → unread code fd w ≡ ended c w'
    → AllOrNothing fd name w₀ c w'
unfolding unread drop_stream close
unread-AllOrNothing code fd name w₀ w {c} ne t h = elim (Bool-cases (waits_for fd w)) [
  | inl e ↦ absurd (ground (arith, e, h))
  | inr e ↦
      let same : code ≡ c = ground (arith, e, h) in
      inl (λ z. ne (cc (same, z)), ground (arith, e, h, t))
]

on_registration_body-AllOrNothing :
    (fd : ℕ) (name : Bytes) (o : Option Bytes) (w₀ w : World) {c : ℕ} {w' : World}
    → SameTables w₀ w
    → ((reg_data : Bytes) (reg : IpcRegistration)
        → o ≡ some reg_data
        → (parse_registration reg_data (record { off = 0; mem = w.mem })).0 ≡ ok reg
        → Received fd w₀ reg_data reg)
    → on_registration_body fd name (o, w) ≡ ended c w'
    → AllOrNothing fd name w₀ c w'
unfolding on_registration_body drop_stream close
on_registration_body-AllOrNothing fd name none w₀ w t read h =
    unread-AllOrNothing 6 fd name w₀ w (omega arith) t h
on_registration_body-AllOrNothing fd name (some reg_data) w₀ w t read h =
    on_registration-AllOrNothing fd name reg_data _ w₀ w t (λ reg e. read reg_data reg refl e) h

on_registration_length-AllOrNothing :
    (fd : ℕ) (name : Bytes) (o : Option Bytes) (w₀ w : World) {c : ℕ} {w' : World}
    → SameTables w₀ w
    → (read_exact fd 4 w₀).0 ≡ o
    → (read_exact fd 4 w₀).1 ≡ w
    → on_registration_length fd name (o, w) ≡ ended c w'
    → AllOrNothing fd name w₀ c w'
unfolding on_registration_length drop_stream close
on_registration_length-AllOrNothing fd name none w₀ w t len after h =
    unread-AllOrNothing 4 fd name w₀ w (omega arith) t h
on_registration_length-AllOrNothing fd name (some len_arr) w₀ w {c} {w'} t len after h =
    elim (Bool-cases (ltb max_registration (from_le len_arr))) [
      | inl e ↦
          let h' : ended 5 w ≡ ended c w' = rw (e, on_registration_length) at h in
          inl (ground (arith, h'), ground (arith, h', t))
      | inr e ↦
          let same = read_exact-SameTables fd (from_le len_arr) w in
          let w₂ = (read_exact fd (from_le len_arr) w).1 in
          let mem : w₂.mem ≡ w₀.mem = cc (same.2, t.2) in
          let links : w₂.links ≡ w₀.links = cc (same.3, t.3) in
          let callers : w₂.callers ≡ w₀.callers = cc (same.4, t.4) in
          on_registration_body-AllOrNothing fd name (read_exact fd (from_le len_arr) w).0 w₀ w₂
            (cc (same.0, t.0), cc (same.1, t.1), mem, links, callers)
            (λ reg_data reg there parsed. (len_arr, len, rw after there, rw (sym mem) parsed))
            (rw (e, on_registration_length) at h)
    ]

-- Every code but 0 comes with the tables of before, and code 0 with an installation from the socket
-- that was connected.
abbrev pub ConnectedOrNothing : Connection → Bytes → World → ℕ → World → Type 0
ConnectedOrNothing r name w c w' =
    ((c ≢ 0) × SameTables w w') ⊎ ((fd : ℕ) × (r ≡ connected fd) × Installed fd name w c w')

connected-AllOrNothing :
    (fd : ℕ) (name : Bytes) (w w' : World) (c : ℕ)
    → AllOrNothing fd name w c w'
    → ConnectedOrNothing (connected fd) name w c w'
connected-AllOrNothing fd name w w' c (inl nothing) = inl nothing
connected-AllOrNothing fd name w w' c (inr installed) = inr (fd, refl, installed)

register_named-AllOrNothing :
    (spawned : Bool) (r : Connection) (name : Bytes) (w w' : World) (c : ℕ)
    → register_named spawned r name w ≡ ended c w'
    → ConnectedOrNothing r name w c w'
unfolding register_named
register_named-AllOrNothing false r name w w' c h = inl (ground (arith, h), ground (arith, h))
register_named-AllOrNothing true timed_out name w w' c h =
    inl (ground (arith, h), ground (arith, h))
register_named-AllOrNothing true still_trying name w w' c h = absurd (cc)
register_named-AllOrNothing true (connected fd) name w w' c h =
    connected-AllOrNothing fd name w w' c (
      on_registration_length-AllOrNothing fd name (read_exact fd 4 w).0 w (read_exact fd 4 w).1
        (read_exact-SameTables fd 4 w) refl refl h)

-- A registration that returns either returns 0 and has put every export of the message that came on
-- the socket that was connected in the registry and in the IPC tables, under the name that the caller
-- gave; or it returns another code, and the registry, the IPC tables, the memory, the links and the callers are as they were.
pub register_process-AllOrNothing :
    (spawned : Bool) (os : Attempts) (name path command : Bytes) (w w' : World) (c : ℕ)
    → glucore_register_process_module spawned os (some name) (some path) (some command) w
      ≡ ended c w'
    → ConnectedOrNothing (connect_with_retry os 5000 50) (from_utf8_lossy name) w c w'
unfolding glucore_register_process_module
register_process-AllOrNothing spawned os name path command w w' c h =
    register_named-AllOrNothing spawned (connect_with_retry os 5000 50) (from_utf8_lossy name) w w'
      c h

ConnectedOrNothing-callers :
    (r : Connection) (name : Bytes) (w w' : World) (c : ℕ)
    → ConnectedOrNothing r name w c w'
    → w'.callers ≡ w.callers
unfolding install
ConnectedOrNothing-callers r name w w' c (inl nothing) = nothing.1.4
ConnectedOrNothing-callers r name w w' c (inr (fd, there, installed)) =
    let (zero_code, reg_data, reg, received, nul, same) = installed in same.4

pub register_process-callers :
    (spawned : Bool) (os : Attempts) (name path command : Option Bytes) (c : ℕ) (w w' : World)
    → glucore_register_process_module spawned os name path command w ≡ ended c w'
    → w'.callers ≡ w.callers
unfolding glucore_register_process_module
register_process-callers spawned os (some name) (some path) (some command) c w w' h =
    ConnectedOrNothing-callers (connect_with_retry os 5000 50) (from_utf8_lossy name) w w' c
      (register_process-AllOrNothing spawned os name path command w w' c h)
register_process-callers spawned os none path command c w w' h = ground (arith, h)
register_process-callers spawned os (some name) none command c w w' h = ground (arith, h)
register_process-callers spawned os (some name) (some path) none c w w' h = ground (arith, h)
