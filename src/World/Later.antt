-- ===== src/World/Later.antt =====
-- The order of worlds: what calls only take or only add, and what they leave in order.
use glu_core.Prelude.{
  ℕ, suc, get_elem?, ◌+◌, ◌-◌, ◌≤◌, ◌<◌, ltb, ◌≡◌, ◌⊎◌, refl, true, some, Bytes, length, drop?, leb,
  eqb, arith, ◌∙◌, Bool-cases, Option, Option-cases, inl, inr, eqb_iff, length-drop?, length-take?,
}
use native.Mathlib.Nat.{le_refl, le_trans}
use glu_core.Memory.{Memory, IsSound}
use glu_core.Handles.Index.{IsIndexed}
use glu_core.Router.{CallerStack, is_link_allowed_bytes}
use glu_core.World.{Socket, World, IpcExportMeta}
use glu_core.World.Routes.{IsRouted}
use glu_core.World.Sockets.{write_all, read_exact, set_socket, rest_of}

-- `w'` may come after `w`: no stream has more to be read, every link is still there, and each new one
-- is in `P`; IPC exports are only added, and nothing in the IPC tables changes while a guard of their
-- lock is held; and a sound memory, an indexed registry and the routing of calls stay so.
pub record Later (P : Bytes → Bytes → Type 0) (w w' : World) : Type 0 where
  pub inbox : (fd : ℕ) → length (w'.socket fd).inbox ≤ length (w.socket fd).inbox
  pub links :
      (a b : Bytes)
      → is_link_allowed_bytes w.links a b ≡ true
      → is_link_allowed_bytes w'.links a b ≡ true
  pub added :
      (a b : Bytes)
      → is_link_allowed_bytes w'.links a b ≡ true
      → (is_link_allowed_bytes w.links a b ≡ true) ⊎ P a b
  pub exports :
      (i : ℕ) (x : IpcExportMeta)
      → get_elem? w.ipc.exports i ≡ some x
      → get_elem? w'.ipc.exports i ≡ some x
  pub ipc : 0 < w.readers → w'.ipc ≡ w.ipc
  pub readers : w'.readers ≡ w.readers
  pub limit : w'.fd_limit ≡ w.fd_limit
  pub peers : w'.stays_open ≡ w.stays_open
  pub sound : IsSound w.mem → IsSound w'.mem
  pub indexed : IsIndexed w.registry → IsIndexed w'.registry
  pub routed : IsIndexed w.registry → IsRouted w → IsRouted w'

-- No bound on the links.
abbrev pub Anywhere : Bytes → Bytes → Type 0
Anywhere a b = Unit

length-rest_of : (n : ℕ) (xs : Bytes) → length (rest_of (drop? n xs)) ≤ length xs - n
length-rest_of n xs = elim (Option-cases (drop? n xs)) [
  | inl e ↦ ground (arith, e)
  | inr (ys, e) ↦ ground (arith, e, length-drop? n xs {ys = ys} e)
]

module _ {P : Bytes → Bytes → Type 0} where
  pub Later-refl : (w : World) → Later P w w
  Later-refl w = record {
    inbox = λ fd. le_refl _;
    links = λ a b h. h;
    added = λ a b h. inl h;
    exports = λ i x h. h;
    ipc = λ h. refl;
    readers = refl;
    limit = refl;
    peers = refl;
    sound = λ s. s;
    indexed = λ i. i;
    routed = λ ix r. r;
  }

  pub Later-trans : {a b c : World} → Later P a b → Later P b c → Later P a c
  Later-trans p q = record {
    inbox = λ fd. le_trans (q.inbox fd) (p.inbox fd);
    links = λ x y h. q.links x y (p.links x y h);
    added = λ x y h. elim (q.added x y h) [ inl there ↦ p.added x y there | inr new ↦ inr new ];
    exports = λ i x h. q.exports i x (p.exports i x h);
    ipc = λ h. q.ipc (rw p.readers h) ∙ p.ipc h;
    readers = q.readers ∙ p.readers;
    limit = q.limit ∙ p.limit;
    peers = q.peers ∙ p.peers;
    sound = λ s. q.sound (p.sound s);
    indexed = λ i. q.indexed (p.indexed i);
    routed = λ i r. q.routed (p.indexed i) (p.routed i r);
  }

  -- The caller stack and the call context are no part of the order.
  pub Later-callers : (s : CallerStack) (w : World) → Later P w (record w { callers = s })
  Later-callers s w = record {
    inbox = λ fd. le_refl _;
    links = λ a b h. h;
    added = λ a b h. inl h;
    exports = λ i x h. h;
    ipc = λ h. refl;
    readers = refl;
    limit = refl;
    peers = refl;
    sound = λ s. s;
    indexed = λ i. i;
    routed = λ ix r. r;
  }

  pub Later-ctx : (c : Option (ℕ × ℕ)) (w : World) → Later P w (record w { ctx = c })
  Later-ctx c w = record {
    inbox = λ fd. le_refl _;
    links = λ a b h. h;
    added = λ a b h. inl h;
    exports = λ i x h. h;
    ipc = λ h. refl;
    readers = refl;
    limit = refl;
    peers = refl;
    sound = λ s. s;
    indexed = λ i. i;
    routed = λ ix r. r;
  }

  pub Later-mem :
      (mem : Memory) (w : World)
      → (IsSound w.mem → IsSound mem)
      → Later P w (record w { mem = mem })
  Later-mem mem w sound = record {
    inbox = λ fd. le_refl _;
    links = λ a b h. h;
    added = λ a b h. inl h;
    exports = λ i x h. h;
    ipc = λ h. refl;
    readers = refl;
    limit = refl;
    peers = refl;
    sound = sound;
    indexed = λ i. i;
    routed = λ ix r. r;
  }

  -- What happens while one more guard is held, and is given back.
  pub Later-held :
      (w w' : World)
      → Later P (record w { readers = suc w.readers }) w'
      → Later P w (record w' { readers = w'.readers - 1 })
  Later-held w w' l = record {
    inbox = l.inbox;
    links = l.links;
    added = l.added;
    exports = l.exports;
    ipc = λ h. l.ipc (omega arith);
    readers = omega (arith, l.readers);
    limit = l.limit;
    peers = l.peers;
    sound = l.sound;
    indexed = l.indexed;
    routed = l.routed;
  }

  pub Later-set_socket :
      (fd : ℕ) (s : Socket) (w : World)
      → length s.inbox ≤ length (w.socket fd).inbox
      → Later P w (set_socket fd s w)
  Later-set_socket fd s w h = record {
    inbox = λ i. elim (Bool-cases (eqb fd i)) [
      | inl e ↦ ground (arith, e, eqb_iff fd i, h)
      | inr e ↦ ground (arith, e)
    ];
    links = λ a b h. h;
    added = λ a b h. inl h;
    exports = λ i x h. h;
    ipc = λ h. refl;
    readers = refl;
    limit = refl;
    peers = refl;
    sound = λ s. s;
    indexed = λ i. i;
    routed = λ ix r. r;
  }

  pub Later-write_all : (fd : ℕ) (bytes : Bytes) (w : World) → Later P w (write_all fd bytes w).1
  unfolding write_all
  Later-write_all fd bytes w = elim (Bool-cases (ltb fd w.fd_limit)) [
    | inl o ↦ elim (Bool-cases (leb (length bytes) (w.socket fd).room)) [
      | inl e ↦ rw (o, e, write_all) (Later-set_socket fd _ w (le_refl _))
      | inr e ↦ rw (o, e, write_all) (Later-set_socket fd _ w (le_refl _))
    ]
    | inr o ↦ rw (o, write_all) (Later-refl w)
  ]

  pub Later-read_exact : (fd n : ℕ) (w : World) → Later P w (read_exact fd n w).1
  unfolding read_exact
  Later-read_exact fd n w = elim (Bool-cases (ltb fd w.fd_limit)) [
    | inl o ↦
        rw (o, read_exact)
          (Later-set_socket fd _ w (omega (arith, length-rest_of n (w.socket fd).inbox)))
    | inr o ↦ rw (o, read_exact) (Later-refl w)
  ]

-- A read that succeeds is of an open descriptor, and takes its bytes off the stream.
pub inbox-read_exact :
    (fd n : ℕ) (w : World) {bs : Bytes}
    → (read_exact fd n w).0 ≡ some bs
    → (fd < w.fd_limit)
      × (length ((read_exact fd n w).1.socket fd).inbox + n ≤ length (w.socket fd).inbox)
unfolding read_exact
inbox-read_exact fd n w {bs} h = elim (Bool-cases (ltb fd w.fd_limit)) [
  | inl o ↦ (
    ground (arith, o),
    ground (
      arith,
      o,
      h,
      eqb_iff fd fd,
      length-rest_of n (w.socket fd).inbox,
      length-take? n (w.socket fd).inbox {ys = bs},
    ),
  )
  | inr o ↦ absurd (ground (arith, o, h))
]
