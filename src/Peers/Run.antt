-- ===== src/Peers/Run.antt =====
-- peer_registry.rs: the registry with the tasks around it, as steps: a handshake that draws an id, the
-- registration that follows it, the events of sessions that end and the task that receives them.
use wasm_based_evm.Prelude.{
  ℕ, suc, ◌<◌, ◌==◌, ◌≡◌, Bool, false, some, List, [], ◌∷◌, ◌++◌, All, All-insert, All-remove,
  Assoc, insert, remove, inl, inr, Bool-cases, arith,
}
use wasm_based_evm.Peers.{
  RegisteredSession, DisconnectEvent, PeerEntry, PeerRegistry, new, next_session_id,
  register_session_arc, receive, disconnect_peer, cleanup_stale_peers, register_peer, remove_peer,
}

-- `opening` are the sessions with an id that are not registered yet, `events` the channel.
pub record Net : Type 0 where
  pub registry : PeerRegistry
  pub opening : Assoc RegisteredSession
  pub events : List DisconnectEvent

unfoldable pub begin : ℕ → Assoc PeerEntry → Net
begin local_peer_id peers = record { registry = new local_peer_id peers; opening = []; events = [] }

-- A handshake with `p` draws the next id.
unfoldable pub draw_id : ℕ → Bool → ℕ → Net → Net
draw_id p is_initiator addr n =
    let (id, registry) = next_session_id n.registry in
    record n {
      registry = registry;
      opening =
          (p, record { session_id = id; is_initiator = is_initiator; remote_addr = addr })
          ∷ n.opening;
    }

infix 40 ◌⟶◌
-- The steps of the tasks, in any interleaving. `close` is the end of the task of any session that
-- has had an id.
pub data ◌⟶◌ : Net → Net → Type 0 where
  draw : {n : Net} (p : ℕ) (is_initiator : Bool) (addr : ℕ) → n ⟶ draw_id p is_initiator addr n
  register :
      {n : Net} (locked : Bool) (front back : Assoc RegisteredSession) (p : ℕ)
      (s : RegisteredSession)
      → n.opening ≡ front ++ ((p, s) ∷ back)
      → n ⟶ record n {
        registry = register_session_arc locked p s n.registry;
        opening = front ++ back;
      }
  close :
      {n : Net} (e : DisconnectEvent)
      → e.session_id < n.registry.next_id
      → n ⟶ record n { events = n.events ++ (e ∷ []) }
  ask :
      {n : Net} (locked : Bool) (p : ℕ) (e : DisconnectEvent)
      → disconnect_peer locked p n.registry ≡ some e
      → n ⟶ record n { events = n.events ++ (e ∷ []) }
  handle :
      {n : Net} (locked : Bool) (e : DisconnectEvent) (rest : List DisconnectEvent)
      → n.events ≡ e ∷ rest
      → n ⟶ record n { registry = receive locked e n.registry; events = rest }
  clean :
      {n : Net} (locked : Bool) (is_stale : RegisteredSession → Bool)
      → n ⟶ record n { registry = cleanup_stale_peers locked is_stale n.registry }
  note : {n : Net} (entry : PeerEntry) → n ⟶ record n { registry = register_peer entry n.registry }
  forget : {n : Net} (p : ℕ) → n ⟶ record n { registry = remove_peer p n.registry }

-- A run of a number of steps.
pub data Runs : ℕ → Net → Net → Type 0 where
  here : {n : Net} → Runs 0 n n
  step : {k : ℕ} {n m l : Net} → n ⟶ m → Runs k m l → Runs (suc k) n l

-- No session of the list has the id.
abbrev pub IsFresh : ℕ → Assoc RegisteredSession → Type 0
IsFresh i m = All (λ e. (e.1.session_id == i) ≡ false) m

-- No two sessions of the list have the same id.
abbrev pub IsUnique : Assoc RegisteredSession → Type 0
IsUnique [] = Unit
IsUnique (e ∷ m) = IsFresh e.1.session_id m × IsUnique m

abbrev pub IsBelow : ℕ → Assoc RegisteredSession → Type 0
IsBelow next m = All (λ e. e.1.session_id < next) m

abbrev pub IsApartFrom : Assoc RegisteredSession → Assoc RegisteredSession → Type 0
IsApartFrom opening sessions = All (λ o. IsFresh o.1.session_id sessions) opening

-- Each id is given to one session, registered or not, and no id is given that is still to come.
pub record IsNumbered (next : ℕ) (opening sessions : Assoc RegisteredSession) : Type 0 where
  pub unique_opening : IsUnique opening
  pub unique_sessions : IsUnique sessions
  pub apart : IsApartFrom opening sessions
  pub opening_below : IsBelow next opening
  pub sessions_below : IsBelow next sessions

abbrev pub IsApart : Net → Type 0
IsApart n = IsNumbered n.registry.next_id n.opening n.registry.active_sessions

pub IsUnique-insert :
    (p : ℕ) (s : RegisteredSession) (m : Assoc RegisteredSession)
    → IsFresh s.session_id m
    → IsUnique m
    → IsUnique (insert p s m)
unfolding insert
IsUnique-insert p s [] f u = (tt, tt)
IsUnique-insert p s ((q, t) ∷ m) f u = elim (Bool-cases (q == p)) [
  | inl same ↦ rw same (f.1, u.1)
  | inr other ↦ rw other (
    All-insert (λ e. (e.1.session_id == t.session_id) ≡ false) p s m (ground (arith, f.0)) u.0,
    IsUnique-insert p s m f.1 u.1,
  )
]

pub IsUnique-remove : (p : ℕ) (m : Assoc RegisteredSession) → IsUnique m → IsUnique (remove p m)
unfolding remove
IsUnique-remove p [] u = tt
IsUnique-remove p ((q, t) ∷ m) u = elim (Bool-cases (q == p)) [
  | inl same ↦ rw same (IsUnique-remove p m u.1)
  | inr other ↦
      rw other (
        All-remove (λ e. (e.1.session_id == t.session_id) ≡ false) p m u.0,
        IsUnique-remove p m u.1,
      )
]

-- An element taken out of the middle.
module _ {A : Type 0} (P : A → Type 0) where
  pub All-without :
      (front : List A) (x : A) (back : List A)
      → All P (front ++ (x ∷ back))
      → P x × All P (front ++ back)
  All-without [] x back a = a
  All-without (y ∷ front) x back a = let (h, t) = All-without front x back a.1 in (h, (a.0, t))

pub IsUnique-without :
    (front : Assoc RegisteredSession) (x : ℕ × RegisteredSession) (back : Assoc RegisteredSession)
    → IsUnique (front ++ (x ∷ back))
    → IsFresh x.1.session_id (front ++ back) × IsUnique (front ++ back)
IsUnique-without [] x back u = u
IsUnique-without (y ∷ front) x back u =
    let (f, rest) = IsUnique-without front x back u.1 in
    let (apart, others) =
      All-without (λ e. (e.1.session_id == y.1.session_id) ≡ false) front x back u.0 in
    ((ground (arith, apart), f), (others, rest))
