-- ===== src/Transport/Serves.antt =====
-- A server at an end point of core/src/transport.rs: it removes a stale file, listens, and accepts.
use glu_core.Prelude.{ℕ, ◌≡◌, refl, ap, true, [], ltb, length, Bytes, arith}
use glu_core.Transport.{Io, done, failed, address_in_use}
use glu_core.Transport.Unix.{UnixStream, IpcStream}
use glu_core.Transport.Listener.{
  UnixSockets, IpcListener, SocketLaws, connect, bind, accept, cleanup_endpoint, map_io,
}

map_io-done :
    {A B S : Type 0} (f : A → B) (r : Io A × S) (a : A)
    → r.0 ≡ done a
    → map_io f r ≡ (done (f a), r.1)
map_io-done f (done b, s) a h = ground (arith, h)
map_io-done f (failed e, s) a h = absurd (cc)

-- At the path, whoever removes the end point and binds there gets a listener. Binding again, without
-- removing the end point, is refused and changes nothing; a client that connects is connected, and
-- the listener accepts a stream for it.
abbrev pub Serves : {S L : Type 0} → UnixSockets S L → Bytes → S → Type 0
Serves {L = L} os path s =
    let clean = cleanup_endpoint os path s in
    let listening = (bind os path clean).1 in
    (l : IpcListener L) × ((bind os path clean).0 ≡ done l)
    × (bind os path listening ≡ (failed address_in_use, listening))
    × (ours : IpcStream) × (theirs : IpcStream) × ((connect os path listening).0 ≡ done ours)
    × ((accept os l (connect os path listening).1).0 ≡ done theirs)

module _ {S L : Type 0} (os : UnixSockets S L) (path : Bytes) (backlog : ℕ)
    (laws : SocketLaws os path backlog) (free : ltb 0 backlog ≡ true) where
  -- A server can serve at the path, whatever was left there before it, where the operating system keeps
  -- to the manual and a listener's queue has room for one client or more.
  pub serves : (s : S) → Serves os path s
  unfolding cleanup_endpoint bind connect accept
  serves s =
      let clean = cleanup_endpoint os path s in
      let (l, got, file, listens, empty) = laws.bound clean (laws.removed s) in
      let wrap : L → IpcListener L = λ l. record { inner = l } in
      let stream : UnixStream → IpcStream = λ s. record { inner = s } in
      let first = map_io-done wrap (os.bind path clean) l got in
      let s1 = (os.bind path clean).1 in
      let room : ltb (length (laws.queue l s1)) backlog ≡ true = rw empty free in
      let (ours, theirs, connected, queued) = laws.connected l s1 listens room in
      let second = map_io-done stream (os.connect path s1) ours connected in
      let s2 = (os.connect path s1).1 in
      let (address, accepted, rest) = laws.accepted l s2 theirs [] (rw empty at queued) in
      (
        wrap l,
        ap (λ r. r.0) first,
        rw (first, laws.refused s1 file, map_io) refl,
        stream ours,
        stream theirs,
        rw (first, second) refl,
        rw
            (
              first,
              second,
              map_io-done (λ a. stream a.0) (os.accept l s2) (theirs, address) accepted,
            )
            refl,
      )
