-- ===== src/Peers/Gone.antt =====
-- peer_registry.rs: the id of a session that is neither registered nor waiting for it.
use wasm_based_evm.Prelude.{
  ℕ, ◌+◌, ◌<◌, ◌==◌, ◌≡◌, refl, Bool, true, false, some, ◌∷◌, ◌++◌, All-lookup, All-map, [], insert,
  All-insert, All-remove, Assoc, lookup, inl, inr, Bool-cases, Option-cases, arith, u64_mod,
}
use mathlib.Core.Path.{subst}
use mathlib.Core.Option.{some-injective}
use wasm_based_evm.Peers.{
  RegisteredSession, next_session_id, receive_where, receive, cleanup_stale_peers, get_all_sessions,
  register_peer, remove_peer,
}
use wasm_based_evm.Peers.Run.{
  Net, draw_id, ◌⟶◌, draw, register, close, ask, handle, clean, note, forget, IsFresh, IsUnique,
  IsNumbered, All-without, IsUnique-without,
}
use wasm_based_evm.Peers.Numbered.{register_changes, receive_changes, disconnect_stale-same}

-- The id has been given, to none of the sessions here.
pub record IsGone (i : ℕ) (n : Net) : Type 0 where
  pub given : i < n.registry.next_id
  pub unopened : IsFresh i n.opening
  pub unregistered : IsFresh i n.registry.active_sessions

-- No step gives the id again, as long as the counter does not wrap.
pub step-IsGone :
    {n m : Net} (i : ℕ) → n ⟶ m → n.registry.next_id + 1 < u64_mod → IsGone i n → IsGone i m
unfolding draw_id next_session_id cleanup_stale_peers register_peer remove_peer
step-IsGone {n = n} i (draw p f a) l v = record {
  given = omega (arith, l, v.given);
  unopened = (ground (arith, v.given), v.unopened);
  unregistered = v.unregistered;
}
step-IsGone {n = n} i (register locked front back p s e) l v =
    let (next, change) = register_changes locked p s n.registry in
    let (new, others) =
      All-without (λ o. (o.1.session_id == i) ≡ false) front (p, s) back
        (subst (IsFresh i) e v.unopened) in
    record {
      given = rw next v.given;
      unopened = others;
      unregistered = elim change [
        | inl same ↦ rw same v.unregistered
        | inr put_in ↦ rw put_in (
            All-insert (λ o. (o.1.session_id == i) ≡ false) p s n.registry.active_sessions new
              v.unregistered)
      ];
    }
step-IsGone i (close e h) l v = record {
  given = v.given;
  unopened = v.unopened;
  unregistered = v.unregistered;
}
step-IsGone i (ask locked p e h) l v = record {
  given = v.given;
  unopened = v.unopened;
  unregistered = v.unregistered;
}
step-IsGone {n = n} i (handle locked e rest h) l v =
    let (next, change) = receive_changes locked e n.registry in
    record {
      given = rw next v.given;
      unopened = v.unopened;
      unregistered = elim change [
        | inl same ↦ rw same v.unregistered
        | inr taken ↦ rw taken (
            All-remove (λ o. (o.1.session_id == i) ≡ false) e.peer_id n.registry.active_sessions
              v.unregistered)
      ];
    }
step-IsGone {n = n} i (clean locked is_stale) l v =
    let (next, same) =
      disconnect_stale-same is_stale (get_all_sessions locked n.registry) n.registry in
    record { given = rw next v.given; unopened = v.unopened; unregistered = rw same v.unregistered }
step-IsGone i (note entry) l v = record {
  given = v.given;
  unopened = v.unopened;
  unregistered = v.unregistered;
}
step-IsGone i (forget p) l v = record {
  given = v.given;
  unopened = v.unopened;
  unregistered = v.unregistered;
}

-- An event of such a session changes nothing.
pub receive-gone :
    (i p : ℕ) (locked : Bool) (n : Net)
    → IsGone i n
    → receive locked (record { peer_id = p; session_id = i }) n.registry ≡ n.registry
unfolding receive receive_where
receive-gone i p false n v = refl
receive-gone i p true n v = elim (Option-cases (lookup p n.registry.active_sessions)) [
  | inl none_there ↦ rw (none_there, receive_where) refl
  | inr (current, found) ↦
      rw
        (
          found,
          receive_where,
          All-lookup (λ o. (o.1.session_id == i) ≡ false) p current n.registry.active_sessions
              v.unregistered found,
        )
        refl
]

-- The session of a peer that is replaced is gone from the sessions.
IsFresh-replaced :
    (p : ℕ) (s t : RegisteredSession) (m : Assoc RegisteredSession)
    → IsUnique m
    → lookup p m ≡ some t
    → (s.session_id == t.session_id) ≡ false
    → IsFresh t.session_id (insert p s m)
unfolding lookup insert
IsFresh-replaced p s t [] u e n = absurd (ground arith)
IsFresh-replaced p s t ((q, x) ∷ m) u e n = elim (Bool-cases (q == p)) [
  | inl same ↦
      let is : x ≡ t = some-injective x t (rw same at e) in
      rw same (n, subst (λ y. IsFresh y.session_id m) is u.0)
  | inr other ↦
      let rest : lookup p m ≡ some t = rw other at e in
      rw other (
        ground (arith, All-lookup (λ o. (o.1.session_id == x.session_id) ≡ false) p t m u.0 rest),
        IsFresh-replaced p s t m u.1 rest n,
      )
]

module _ (next : ℕ) (front back sessions : Assoc RegisteredSession) (p : ℕ) (s : RegisteredSession)
    (v : IsNumbered next (front ++ ((p, s) ∷ back)) sessions) where
  -- The new session is turned away.
  pub rejected-gone :
      (s.session_id < next) × IsFresh s.session_id (front ++ back) × IsFresh s.session_id sessions
  rejected-gone = (
    (All-without (λ o. o.1.session_id < next) front (p, s) back v.opening_below).0,
    (IsUnique-without front (p, s) back v.unique_opening).0,
    (All-without (λ o. IsFresh o.1.session_id sessions) front (p, s) back v.apart).0,
  )

  -- The new session takes the place of `t`.
  pub replaced-gone :
      (t : RegisteredSession)
      → lookup p sessions ≡ some t
      → (t.session_id < next)
        × IsFresh t.session_id (front ++ back)
        × IsFresh t.session_id (insert p s sessions)
  replaced-gone t has =
      let (fresh, apart) =
        All-without (λ o. IsFresh o.1.session_id sessions) front (p, s) back v.apart in
      let other =
        All-lookup (λ o. (o.1.session_id == s.session_id) ≡ false) p t sessions fresh has in
      (
        All-lookup (λ o. o.1.session_id < next) p t sessions v.sessions_below has,
        All-map {P = λ o. IsFresh o.1.session_id sessions}
            {Q = λ o. (o.1.session_id == t.session_id) ≡ false}
            (λ o h. ground (
              arith,
              All-lookup (λ x. (x.1.session_id == o.1.session_id) ≡ false) p t sessions h has,
            ))
            (front ++ back) apart,
        IsFresh-replaced p s t sessions v.unique_sessions has (ground (arith, other)),
      )
