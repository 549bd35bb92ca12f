-- ===== src/Examples/Listener.antt =====
-- An operating system with one end point for each path, whose file has the queue of those who wait: a
-- server on it, and a second one at the same path.
use glu_core.Prelude.{
  ◌+◌, ◌≡◌, refl, Bool, true, false, Option, none, some, List, [], ◌∷◌, ◌++◌, Bytes, codes, length,
  arith, bytes_eq, bytes_beq_iff, ◌==◌, ◌&&◌, Option-cases, inl, inr,
}
use glu_core.Prelude.Map.{Map, lookup, insert, remove, lookup-insert, lookup-remove, eq_refl}
use glu_core.Transport.{Io, done, failed, refused, address_in_use}
use glu_core.Transport.Unix.{UnixStream}
use glu_core.Transport.Listener.{UnixSockets, SocketLaws, bind}
use glu_core.Transport.Serves.{Serves, serves}

abbrev Files : Type 0
Files = Map Bytes (List UnixStream)

abbrev client : UnixStream
client = record { fd = 8 }

abbrev waits : List UnixStream → UnixStream
waits q = record { fd = 20 + length q }

abbrev is_some : Option (List UnixStream) → Bool
is_some none = false
is_some (some q) = true

abbrev or_empty : Option (List UnixStream) → List UnixStream
or_empty none = []
or_empty (some q) = q

abbrev on_connect : Bytes → Files → Option (List UnixStream) → Io UnixStream × Files
on_connect path s none = (failed refused, s)
on_connect path s (some q) = (done client, insert path (q ++ (waits q ∷ [])) s)

abbrev on_bind : Bytes → Files → Option (List UnixStream) → Io Bytes × Files
on_bind path s none = (done path, insert path [] s)
on_bind path s (some q) = (failed address_in_use, s)

abbrev on_accept : Bytes → Files → List UnixStream → Io (UnixStream × Bytes) × Files
on_accept path s [] = (failed refused, s)
on_accept path s (next ∷ rest) = (done (next, []), insert path rest s)

abbrev os : UnixSockets Files Bytes
os = record {
  connect = λ path s. on_connect path s (lookup path s);
  bind = λ path s. on_bind path s (lookup path s);
  accept = λ path s. on_accept path s (or_empty (lookup path s));
  remove_file = λ path s. (done tt, remove path s);
}

abbrev path : Bytes
path = codes "/tmp/glu.sock"

abbrev stale : Files
stale = (path, client ∷ []) ∷ []

-- The queue at a path, after it was put there.
at : (l : Bytes) (q : List UnixStream) (s : Files) → lookup l (insert l q s) ≡ some q
at l q s = ground (arith, lookup-insert l l q s, eq_refl l)

laws : SocketLaws os path 5
laws = record {
  is_file = λ s. is_some (lookup path s);
  listens = λ l s. l == path && is_some (lookup path s);
  queue = λ l s. or_empty (lookup l s);
  removed = λ s. ground (arith, lookup-remove path path s, eq_refl path);
  refused = λ s h. elim (Option-cases (lookup path s)) [
    | inl e ↦ absurd (ground (arith, e, h))
    | inr (q, e) ↦ rw e refl
  ];
  bound = λ s h. elim (Option-cases (lookup path s)) [
    | inl e ↦ (
      path,
      rw e refl,
      rw (e, at path [] s) refl,
      rw (e, at path [] s) refl,
      rw (e, at path [] s) refl,
    )
    | inr (q, e) ↦ absurd (ground (arith, e, h))
  ];
  connected = λ l s h room. elim (Option-cases (lookup path s)) [
    | inl e ↦ absurd (ground (arith, e, h))
    | inr (q, e) ↦
        let same : l ≡ path = ground (arith, e, h, bytes_beq_iff l path) in
        (client, waits q, rw e refl, rw (same, e, at path (q ++ (waits q ∷ [])) s) refl)
  ];
  accepted = λ l s next rest h. ([], rw h refl, rw (h, at l rest s) refl);
}

-- A server serves where a file was left behind, at which binding at once is refused.
Serves-stale : Serves os path stale
Serves-stale = serves os path 5 laws refl stale

bind_stale : (bind os path stale).0 ≡ failed address_in_use
unfolding bind lookup
bind_stale = refl
