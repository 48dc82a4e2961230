-- ===== src/Peers/Numbered.antt =====
-- peer_registry.rs: what each operation does to the sessions and to the numbering of them.
use wasm_based_evm.Prelude.{
  ℕ, ◌+◌, ◌<◌, ◌≤◌, ◌==◌, ◌≡◌, refl, Bool, true, false, Option, none, some, List, [], ◌∷◌, ◌++◌,
  All-map, All-insert, All-remove, Assoc, lookup, insert, remove, inl, inr, ◌⊎◌, Bool-cases, arith,
}
use wasm_based_evm.Peers.{
  RegisteredSession, DisconnectEvent, PeerRegistry, disconnect, put, keep_existing, register_where,
  register_session_arc, drop_peer, receive_where, receive, disconnect_stale,
}
use wasm_based_evm.Peers.Run.{
  IsFresh, IsBelow, IsApartFrom, IsNumbered, IsUnique-insert, IsUnique-remove, All-without,
  IsUnique-without,
}

register_where_changes :
    (p : ℕ) (s : RegisteredSession) (o : Option RegisteredSession) (r : PeerRegistry)
    → ((register_where p s o r).next_id ≡ r.next_id)
      × (((register_where p s o r).active_sessions ≡ r.active_sessions)
          ⊎ ((register_where p s o r).active_sessions ≡ insert p s r.active_sessions))
unfolding register_where put disconnect
register_where_changes p s none r = (refl, inr refl)
register_where_changes p s (some t) r = elim (Bool-cases (keep_existing r.local_peer_id p t)) [
  | inl k ↦ rw k (refl, inl refl)
  | inr n ↦ rw n (refl, inr refl)
]

pub register_changes :
    (locked : Bool) (p : ℕ) (s : RegisteredSession) (r : PeerRegistry)
    → ((register_session_arc locked p s r).next_id ≡ r.next_id)
      × (((register_session_arc locked p s r).active_sessions ≡ r.active_sessions)
          ⊎ ((register_session_arc locked p s r).active_sessions ≡ insert p s r.active_sessions))
unfolding register_session_arc disconnect
register_changes false p s r = (refl, inl refl)
register_changes true p s r = register_where_changes p s (lookup p r.active_sessions) r

receive_where_changes :
    (e : DisconnectEvent) (o : Option RegisteredSession) (r : PeerRegistry)
    → ((receive_where e o r).next_id ≡ r.next_id)
      × (((receive_where e o r).active_sessions ≡ r.active_sessions)
          ⊎ ((receive_where e o r).active_sessions ≡ remove e.peer_id r.active_sessions))
unfolding receive_where drop_peer
receive_where_changes e none r = (refl, inl refl)
receive_where_changes e (some t) r = elim (Bool-cases (t.session_id == e.session_id)) [
  | inl k ↦ rw k (refl, inr refl)
  | inr n ↦ rw n (refl, inl refl)
]

pub receive_changes :
    (locked : Bool) (e : DisconnectEvent) (r : PeerRegistry)
    → ((receive locked e r).next_id ≡ r.next_id)
      × (((receive locked e r).active_sessions ≡ r.active_sessions)
          ⊎ ((receive locked e r).active_sessions ≡ remove e.peer_id r.active_sessions))
unfolding receive
receive_changes false e r = (refl, inl refl)
receive_changes true e r = receive_where_changes e (lookup e.peer_id r.active_sessions) r

pub disconnect_stale-same :
    (f : RegisteredSession → Bool) (l : List RegisteredSession) (r : PeerRegistry)
    → ((disconnect_stale f l r).next_id ≡ r.next_id)
      × ((disconnect_stale f l r).active_sessions ≡ r.active_sessions)
unfolding disconnect_stale disconnect
disconnect_stale-same f [] r = (refl, refl)
disconnect_stale-same f (s ∷ l) r = elim (Bool-cases (f s)) [
  | inl e ↦ rw (disconnect_stale, e) (disconnect_stale-same f l (disconnect s.session_id r))
  | inr e ↦ rw (disconnect_stale, e) (disconnect_stale-same f l r)
]

IsFresh-below : (i next : ℕ) (m : Assoc RegisteredSession) → IsBelow next m → next ≤ i → IsFresh i m
IsFresh-below i next m b l =
    All-map {P = λ e. e.1.session_id < next} {Q = λ e. (e.1.session_id == i) ≡ false}
      (λ e h. ground (arith, h, l)) m b

IsFresh-sym :
    (m : Assoc RegisteredSession) (s : RegisteredSession) (l : Assoc RegisteredSession)
    → IsApartFrom l m
    → IsFresh s.session_id l
    → (p : ℕ) → IsApartFrom l (insert p s m)
IsFresh-sym m s [] a f p = tt
IsFresh-sym m s (o ∷ l) a f p = (
  All-insert (λ e. (e.1.session_id == o.1.session_id) ≡ false) p s m (ground (arith, f.0)) a.0,
  IsFresh-sym m s l a.1 f.1 p,
)

module _ (next : ℕ) (front back sessions : Assoc RegisteredSession) (p : ℕ) (s : RegisteredSession)
    (v : IsNumbered next (front ++ ((p, s) ∷ back)) sessions) where
  pub rejected-IsNumbered : IsNumbered next (front ++ back) sessions
  rejected-IsNumbered = record {
    unique_opening = (IsUnique-without front (p, s) back v.unique_opening).1;
    unique_sessions = v.unique_sessions;
    apart = (All-without (λ o. IsFresh o.1.session_id sessions) front (p, s) back v.apart).1;
    opening_below = (All-without (λ o. o.1.session_id < next) front (p, s) back v.opening_below).1;
    sessions_below = v.sessions_below;
  }

  pub inserted-IsNumbered : IsNumbered next (front ++ back) (insert p s sessions)
  inserted-IsNumbered =
      let (fresh, apart) =
        All-without (λ o. IsFresh o.1.session_id sessions) front (p, s) back v.apart in
      let (new_fresh, unique) = IsUnique-without front (p, s) back v.unique_opening in
      let (below, others) =
        All-without (λ o. o.1.session_id < next) front (p, s) back v.opening_below in
      record {
        unique_opening = unique;
        unique_sessions = IsUnique-insert p s sessions fresh v.unique_sessions;
        apart = IsFresh-sym sessions s (front ++ back) apart new_fresh p;
        opening_below = others;
        sessions_below =
            All-insert (λ e. e.1.session_id < next) p s sessions below v.sessions_below;
      }

pub removed-IsNumbered :
    (next : ℕ) (opening sessions : Assoc RegisteredSession) (p : ℕ)
    → IsNumbered next opening sessions
    → IsNumbered next opening (remove p sessions)
removed-IsNumbered next opening sessions p v = record {
  unique_opening = v.unique_opening;
  unique_sessions = IsUnique-remove p sessions v.unique_sessions;
  apart =
      All-map {P = λ o. IsFresh o.1.session_id sessions}
        {Q = λ o. IsFresh o.1.session_id (remove p sessions)}
        (λ o h. All-remove (λ e. (e.1.session_id == o.1.session_id) ≡ false) p sessions h) opening
        v.apart;
  opening_below = v.opening_below;
  sessions_below = All-remove (λ e. e.1.session_id < next) p sessions v.sessions_below;
}

pub drawn-IsNumbered :
    (next : ℕ) (opening sessions : Assoc RegisteredSession) (p : ℕ) (s : RegisteredSession)
    → s.session_id ≡ next
    → IsNumbered next opening sessions
    → IsNumbered (next + 1) ((p, s) ∷ opening) sessions
drawn-IsNumbered next opening sessions p s e v = record {
  unique_opening = (
    IsFresh-below s.session_id next opening v.opening_below (omega (arith, e)),
    v.unique_opening,
  );
  unique_sessions = v.unique_sessions;
  apart = (IsFresh-below s.session_id next sessions v.sessions_below (omega (arith, e)), v.apart);
  opening_below = (
    omega (arith, e),
    All-map {P = λ o. o.1.session_id < next} {Q = λ o. o.1.session_id < next + 1}
        (λ o h. omega (arith, h)) opening v.opening_below,
  );
  sessions_below =
      All-map {P = λ o. o.1.session_id < next} {Q = λ o. o.1.session_id < next + 1}
        (λ o h. omega (arith, h)) sessions v.sessions_below;
}
