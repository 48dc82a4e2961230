-- ===== src/Peers/Active.antt =====
-- peer_registry.rs, `get_active_peers`: the peers of the database and those with a session.
use wasm_based_evm.Prelude.{
  ℕ, ◌==◌, ◌≡◌, refl, ◌∙◌, inl, inr, Bool, true, false, ◌||◌, List, [], ◌∷◌, ◌++◌, Assoc, lookup,
  is_some, Distinct, if◌then◌else◌, Bool-cases, ==_iff, arith, All,
}
use mathlib.Core.Path.{subst}
use wasm_based_evm.Peers.{
  RegisteredSession, PeerEntry, PeerRegistry, values, any_peer, merge, get_active_peers,
}

-- No peer is named twice.
abbrev pub IsPeerList : List PeerEntry → Type 0
IsPeerList [] = Unit
IsPeerList (p ∷ l) = (any_peer p.peer_id l ≡ false) × IsPeerList l

-- Each entry of the table stands under its own peer id.
abbrev pub IsTable : Assoc PeerEntry → Type 0
IsTable m = All (λ e. e.1.peer_id ≡ e.0) m

any_peer-append :
    (p : ℕ) (l : List PeerEntry) (x : PeerEntry)
    → any_peer p (l ++ (x ∷ [])) ≡ ((x.peer_id == p) || any_peer p l)
unfolding any_peer
any_peer-append p [] x = ground arith
any_peer-append p (y ∷ l) x = ground (arith, any_peer-append p l x)

append-IsPeerList :
    (l : List PeerEntry) (x : PeerEntry)
    → IsPeerList l
    → any_peer x.peer_id l ≡ false
    → IsPeerList (l ++ (x ∷ []))
unfolding any_peer
append-IsPeerList [] x v e = (refl, tt)
append-IsPeerList (y ∷ l) x v e = (
  ground (
    arith,
    any_peer-append y.peer_id l x,
    e,
    v.0,
    ==_iff x.peer_id y.peer_id,
    ==_iff y.peer_id x.peer_id,
  ),
  append-IsPeerList l x v.1 (ground (arith, e)),
)

or-true : (b : Bool) → (b || true) ≡ true
or-true true = refl
or-true false = refl

any_peer-merge :
    (p : ℕ) (m : Assoc RegisteredSession) (l : List PeerEntry)
    → any_peer p (merge m l) ≡ (is_some (lookup p m) || any_peer p l)
unfolding merge lookup
any_peer-merge p [] l = refl
any_peer-merge p ((q, s) ∷ m) l = elim (Bool-cases (any_peer q l)) [
  | inl e ↦ elim (Bool-cases (q == p)) [
    | inl same ↦
        rw (e, same)
          (any_peer-merge p m l
            ∙ (rw (subst (λ i. any_peer i l ≡ true) ((==_iff q p).0 same) e) (or-true _)))
    | inr other ↦ rw (e, other) (any_peer-merge p m l)
  ]
  | inr n ↦ elim (Bool-cases (q == p)) [
    | inl same ↦
        rw (n, same)
          (any_peer-merge p m _
            ∙ (rw
                (
                  any_peer-append p l (record {
                    peer_id = q;
                    discovery_addr = s.remote_addr;
                    p2p_addr = s.remote_addr;
                  }),
                  same,
                )
                (or-true _)))
    | inr other ↦
        rw (n, other)
          (any_peer-merge p m _
            ∙ (rw
                (
                  any_peer-append p l (record {
                    peer_id = q;
                    discovery_addr = s.remote_addr;
                    p2p_addr = s.remote_addr;
                  }),
                  other,
                )
                refl))
  ]
]

merge-IsPeerList :
    (m : Assoc RegisteredSession) (l : List PeerEntry) → IsPeerList l → IsPeerList (merge m l)
unfolding merge
merge-IsPeerList [] l v = v
merge-IsPeerList ((q, s) ∷ m) l v = elim (Bool-cases (any_peer q l)) [
  | inl e ↦ rw (merge, e) (merge-IsPeerList m l v)
  | inr n ↦ rw (merge, n) (merge-IsPeerList m _ (append-IsPeerList l _ v n))
]

any_peer-values :
    (p : ℕ) (m : Assoc PeerEntry) → IsTable m → any_peer p (values m) ≡ is_some (lookup p m)
unfolding values any_peer lookup
any_peer-values p [] t = refl
any_peer-values p ((q, e) ∷ m) t = ground (arith, t.0, any_peer-values p m t.1)

values-IsPeerList : (m : Assoc PeerEntry) → IsTable m → Distinct m → IsPeerList (values m)
unfolding values
values-IsPeerList [] t d = tt
values-IsPeerList ((q, e) ∷ m) t d =
    (rw (t.0, any_peer-values q m t.1, d.0) refl, values-IsPeerList m t.1 d.1)

-- With the lock, the active peers are those of the database and those with a session, each named
-- once; without it, those of the database. The table has one entry for a peer, under its id.
pub get_active_peers_union :
    (locked : Bool) (r : PeerRegistry) (p : ℕ)
    → IsTable r.active_peers
    → Distinct r.active_peers
    → (any_peer p (get_active_peers locked r) ≡ (
        (if locked then is_some (lookup p r.active_sessions) else false)
        || is_some (lookup p r.active_peers)))
      × IsPeerList (get_active_peers locked r)
unfolding get_active_peers
get_active_peers_union true r p t d = (
  rw
      (
        any_peer-merge p r.active_sessions (values r.active_peers),
        any_peer-values p r.active_peers t,
      )
      refl,
  merge-IsPeerList r.active_sessions (values r.active_peers) (values-IsPeerList r.active_peers t d),
)
get_active_peers_union false r p t d =
    (any_peer-values p r.active_peers t, values-IsPeerList r.active_peers t d)
