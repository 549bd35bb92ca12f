-- ===== src/Transport/Listener.antt =====
-- The end points of core/src/transport.rs on Unix: the `IpcListener`, connecting, and the removal of
-- a stale socket file. What the operating system does with sockets and files is a parameter.
use glu_core.Prelude.{ℕ, ◌≡◌, Bool, true, false, List, [], ◌∷◌, ◌++◌, Bytes, ltb, length}
use glu_core.Transport.{Io, done, failed, address_in_use}
use glu_core.Transport.Unix.{UnixStream, IpcStream}

-- The calls of `std::os::unix::net` and `std::fs`, with the state `S` that they change and the
-- listeners `L` that they make. An accepted stream comes with the address of its peer.
pub record UnixSockets (S L : Type 0) : Type 0 where
  pub connect : Bytes → S → Io UnixStream × S
  pub bind : Bytes → S → Io L × S
  pub accept : L → S → Io (UnixStream × Bytes) × S
  pub remove_file : Bytes → S → Io (Unit {0}) × S

pub record IpcListener (L : Type 0) : Type 0 where
  pub inner : L

-- `result.map(f)`
abbrev pub map_io {ℓ κ} : {A : Type ℓ} {B : Type κ} {S : Type 0} → (A → B) → Io A × S → Io B × S
map_io f (done a, s) = (done (f a), s)
map_io f (failed e, s) = (failed e, s)

module _ {S L : Type 0} (os : UnixSockets S L) where
  unfoldable pub connect : Bytes → S → Io IpcStream × S
  connect path s = map_io (λ stream. record { inner = stream }) (os.connect path s)

  unfoldable pub bind : Bytes → S → Io (IpcListener L) × S
  bind path s = map_io (λ l. record { inner = l }) (os.bind path s)

  unfoldable pub accept : IpcListener L → S → Io IpcStream × S
  accept l s = map_io (λ accepted. record { inner = accepted.0 }) (os.accept l.inner s)

  -- `let _ =`: also a file that cannot be removed is no error.
  unfoldable pub cleanup_endpoint : Bytes → S → S
  cleanup_endpoint path s = (os.remove_file path s).1

-- What the manual says of Unix sockets, at a path where the process may make and remove files:
-- binding makes a socket file, and is refused where there is a file; a file that was removed is gone;
-- who connects at the file of a listener waits in its queue, as long as that has room; the listener
-- accepts them in order.
pub record SocketLaws {S L : Type 0} (os : UnixSockets S L) (path : Bytes) (backlog : ℕ)
    : Type 0 where
  pub is_file : S → Bool
  pub listens : L → S → Bool
  pub queue : L → S → List UnixStream
  pub removed : (s : S) → is_file (os.remove_file path s).1 ≡ false
  pub refused : (s : S) → is_file s ≡ true → os.bind path s ≡ (failed address_in_use, s)
  pub bound :
      (s : S)
      → is_file s ≡ false
      → (l : L) × ((os.bind path s).0 ≡ done l)
        × (is_file (os.bind path s).1 ≡ true)
        × (listens l (os.bind path s).1 ≡ true)
        × (queue l (os.bind path s).1 ≡ [])
  pub connected :
      (l : L) (s : S)
      → listens l s ≡ true
      → ltb (length (queue l s)) backlog ≡ true
      → (ours : UnixStream) × (theirs : UnixStream) × ((os.connect path s).0 ≡ done ours)
        × (queue l (os.connect path s).1 ≡ queue l s ++ (theirs ∷ []))
  pub accepted :
      (l : L) (s : S) (next : UnixStream) (rest : List UnixStream)
      → queue l s ≡ next ∷ rest
      → (address : Bytes) × ((os.accept l s).0 ≡ done (next, address))
        × (queue l (os.accept l s).1 ≡ rest)
