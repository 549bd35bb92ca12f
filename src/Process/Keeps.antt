-- ===== src/Process/Keeps.antt =====
-- A registration that returns, with whatever code, leaves a later world.
use mathlib.Core.Path.{subst}
use native.Mathlib.Nat.{le_refl}
use glu_core.Prelude.{
  ℕ, ◌≡◌, refl, Bool, true, false, ◌||◌, Option, none, some, List, map, Bytes, has_nul, from_le,
  ltb, arith, Bool-cases, inl, inr, bytes_eq,
}
use glu_core.Outcome.{Outcome, ok, err, panic}
use glu_core.Types.{GluSignature}
use glu_core.Utf8.{from_utf8_lossy}
use glu_core.Handles.Index.{glucore_register_module-IsIndexed}
use glu_core.World.Sockets.{waits_for}
use glu_core.World.{World}
use glu_core.World.Routes.{meta_of}
use glu_core.World.Later.{Later, Later-refl, Later-trans, Later-set_socket, Later-read_exact}
use glu_core.Connect.{Attempts, Connection, connected, timed_out, still_trying, connect_with_retry}
use glu_core.Transport.Unix.{from_raw_fd, drop_stream, close}
use glu_core.Process.{
  unread, IpcRegistration, Registered, ended, aborted, stuck, waiting, entry_of, any_nul, install,
  on_registration, on_registration_body, on_registration_length, register_named,
  glucore_register_process_module, max_registration,
}
use glu_core.Process.Installs.{install-IsRouted, get_elem?-append-left}

-- Where a registration returns, it returns later than `w`.
pub record ReturnsLater (P : Bytes → Bytes → Type 0) (w : World) (r : Registered) : Type 0 where
  pub ends : (c : ℕ) (w' : World) → r ≡ ended c w' → Later P w w'

module _ {P : Bytes → Bytes → Type 0} where
  ended_at : {w w' : World} (c : ℕ) → Later P w w' → ReturnsLater P w (ended c w')
  ended_at {w} {w'} c l = record {
    ends = λ c' w'' e. let same : w' ≡ w'' = ground (arith, e) in subst (Later P w) same l;
  }

  ReturnsLater-aborted : {w : World} → ReturnsLater P w aborted
  ReturnsLater-aborted = record { ends = λ c w' e. absurd (cc) }

  ReturnsLater-stuck : {w : World} → ReturnsLater P w stuck
  ReturnsLater-stuck = record { ends = λ c w' e. absurd (cc) }

  ReturnsLater-waiting : {w : World} → ReturnsLater P w waiting
  ReturnsLater-waiting = record { ends = λ c w' e. absurd (cc) }

  ReturnsLater-from :
      {w w' : World} (r : Registered) → Later P w w' → ReturnsLater P w' r → ReturnsLater P w r
  ReturnsLater-from r l h = record { ends = λ c w'' e. Later-trans l (h.ends c w'' e) }

  Later-drop_stream : (fd : ℕ) (w : World) → Later P w (drop_stream (from_raw_fd fd) w)
  unfolding drop_stream close
  Later-drop_stream fd w = Later-set_socket fd _ w (omega arith)

  Later-install :
      (fd : ℕ) (name : Bytes) (exports : List (Bytes × GluSignature)) (w : World)
      → ltb 0 w.readers ≡ false
      → Later P w (install fd name exports w)
  unfolding install
  Later-install fd name exports w free = record {
    inbox = λ i. le_refl _;
    links = λ a b h. h;
    added = λ a b h. inl h;
    exports =
        λ i x h. get_elem?-append-left w.ipc.exports (map (meta_of fd name) exports) i {x = x} h;
    ipc = λ h. absurd (ground (arith, h, free));
    readers = refl;
    limit = refl;
    peers = refl;
    sound = λ s. s;
    indexed =
        glucore_register_module-IsIndexed (record { name = name; entries = map entry_of exports })
          w.registry;
    routed = install-IsRouted fd name exports w;
  }

  on_registration-ReturnsLater :
      (fd : ℕ) (name : Bytes) (r : Outcome IpcRegistration) (w : World)
      → ReturnsLater P w (on_registration fd name r w)
  unfolding on_registration
  on_registration-ReturnsLater fd name (ok reg) w = elim (Bool-cases (ltb 0 w.readers)) [
    | inl held ↦ rw (held, on_registration) ReturnsLater-stuck
    | inr free ↦ elim (Bool-cases (any_nul reg.exports || has_nul name)) [
      | inl e ↦ rw (free, e, on_registration) ReturnsLater-aborted
      | inr e ↦
          rw (free, e, on_registration) (ended_at 0 (Later-install fd name reg.exports w free))
    ]
  ]
  on_registration-ReturnsLater fd name (err x) w = ended_at 7 (Later-refl w)
  on_registration-ReturnsLater fd name panic w = ReturnsLater-aborted

  unread-ReturnsLater : (c fd : ℕ) (w : World) → ReturnsLater P w (unread c fd w)
  unfolding unread
  unread-ReturnsLater c fd w = elim (Bool-cases (waits_for fd w)) [
    | inl e ↦ rw (e, unread) ReturnsLater-stuck
    | inr e ↦ rw (e, unread) (ended_at c (Later-drop_stream fd w))
  ]

  on_registration_body-ReturnsLater :
      (fd : ℕ) (name : Bytes) (r : Option Bytes × World)
      → ReturnsLater P r.1 (on_registration_body fd name r)
  unfolding on_registration_body
  on_registration_body-ReturnsLater fd name (none, w) = unread-ReturnsLater 6 fd w
  on_registration_body-ReturnsLater fd name (some reg_data, w) =
      on_registration-ReturnsLater fd name _ w

  on_registration_length-ReturnsLater :
      (fd : ℕ) (name : Bytes) (r : Option Bytes × World)
      → ReturnsLater P r.1 (on_registration_length fd name r)
  unfolding on_registration_length
  on_registration_length-ReturnsLater fd name (none, w) = unread-ReturnsLater 4 fd w
  on_registration_length-ReturnsLater fd name (some len_arr, w) =
      elim (Bool-cases (ltb max_registration (from_le len_arr))) [
        | inl e ↦ rw (e, on_registration_length) (ended_at 5 (Later-refl w))
        | inr e ↦
            rw (e, on_registration_length)
              (ReturnsLater-from _ (Later-read_exact fd (from_le len_arr) w)
                (on_registration_body-ReturnsLater fd name _))
      ]

  register_named-ReturnsLater :
      (spawned : Bool) (r : Connection) (name : Bytes) (w : World)
      → ReturnsLater P w (register_named spawned r name w)
  unfolding register_named
  register_named-ReturnsLater false r name w = ended_at 2 (Later-refl w)
  register_named-ReturnsLater true timed_out name w = ended_at 3 (Later-refl w)
  register_named-ReturnsLater true still_trying name w = ReturnsLater-waiting
  register_named-ReturnsLater true (connected fd) name w =
      ReturnsLater-from _ (Later-read_exact fd 4 w) (on_registration_length-ReturnsLater fd name _)

  pub register_process-ReturnsLater :
      (spawned : Bool) (os : Attempts) (name path command : Option Bytes) (w : World)
      → ReturnsLater P w (glucore_register_process_module spawned os name path command w)
  unfolding glucore_register_process_module
  register_process-ReturnsLater spawned os (some name) (some path) (some command) w =
      register_named-ReturnsLater spawned (connect_with_retry os 5000 50) (from_utf8_lossy name) w
  register_process-ReturnsLater spawned os none path command w = ended_at 1 (Later-refl w)
  register_process-ReturnsLater spawned os (some name) none command w = ended_at 1 (Later-refl w)
  register_process-ReturnsLater spawned os (some name) (some path) none w =
      ended_at 1 (Later-refl w)
