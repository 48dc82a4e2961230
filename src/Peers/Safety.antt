-- ===== src/Peers/Safety.antt =====
-- peer_registry.rs: the ids of the sessions in any run, and the events that come late.
use wasm_based_evm.Prelude.{
  ℕ, suc, ◌+◌, ◌<◌, ◌≤◌, ◌≡◌, refl, sym, Bool, true, some, ◌∷◌, ◌++◌, Assoc, lookup, if◌then◌else◌,
  inl, inr, Bool-cases, arith, u64_mod, add64,
}
use mathlib.Core.Path.{subst}
use wasm_based_evm.Peers.{
  RegisteredSession, PeerEntry, new, next_session_id, disconnect, put, keep_existing,
  register_where, register_session_arc, receive, cleanup_stale_peers, get_all_sessions,
  register_peer, remove_peer,
}
use wasm_based_evm.Peers.Run.{
  Net, begin, draw_id, ◌⟶◌, Runs, draw, register, close, ask, handle, clean, note, forget, here,
  step, IsNumbered, IsApart,
}
use wasm_based_evm.Peers.Gone.{IsGone, step-IsGone, receive-gone, rejected-gone, replaced-gone}
use wasm_based_evm.Peers.Numbered.{
  register_changes, receive_changes, disconnect_stale-same, rejected-IsNumbered,
  inserted-IsNumbered, removed-IsNumbered, drawn-IsNumbered,
}

abbrev next_of : Net → ℕ
next_of n = n.registry.next_id

-- A step keeps the sessions numbered, and draws at most one id.
step-IsApart :
    {n m : Net}
    → n ⟶ m
    → next_of n + 1 < u64_mod
    → IsApart n
    → IsApart m × (next_of m ≤ next_of n + 1)
unfolding draw_id next_session_id cleanup_stale_peers register_peer remove_peer
step-IsApart {n = n} (draw p i a) l v =
    let new_session : RegisteredSession = record {
      session_id = next_of n;
      is_initiator = i;
      remote_addr = a;
    } in
    let next : add64 (next_of n) 1 ≡ next_of n + 1 = omega (arith, l) in
    (
      subst (λ k. IsNumbered k ((p, new_session) ∷ n.opening) n.registry.active_sessions) (sym next)
          (drawn-IsNumbered (next_of n) n.opening n.registry.active_sessions p new_session refl v),
      omega (arith, next),
    )
step-IsApart {n = n} (register locked front back p s e) l v =
    let v' = subst (λ o. IsNumbered (next_of n) o n.registry.active_sessions) e v in
    let (next, change) = register_changes locked p s n.registry in
    elim change [
      | inl same ↦ (
        rw (next, same)
            (rejected-IsNumbered (next_of n) front back n.registry.active_sessions p s v'),
        omega (arith, next),
      )
      | inr put_in ↦ (
        rw (next, put_in)
            (inserted-IsNumbered (next_of n) front back n.registry.active_sessions p s v'),
        omega (arith, next),
      )
    ]
step-IsApart (close e h) l v = (v, omega arith)
step-IsApart (ask locked p e h) l v = (v, omega arith)
step-IsApart {n = n} (handle locked e rest h) l v =
    let (next, change) = receive_changes locked e n.registry in
    elim change [
      | inl same ↦ (rw (next, same) v, omega (arith, next))
      | inr taken ↦ (
        rw (next, taken)
            (removed-IsNumbered (next_of n) n.opening n.registry.active_sessions e.peer_id v),
        omega (arith, next),
      )
    ]
step-IsApart {n = n} (clean locked is_stale) l v =
    let (next, same) =
      disconnect_stale-same is_stale (get_all_sessions locked n.registry) n.registry in
    (rw (next, same) v, omega (arith, next))
step-IsApart (note entry) l v = (v, omega arith)
step-IsApart (forget p) l v = (v, omega arith)

run-IsApart :
    {k : ℕ} {n m : Net}
    → Runs k n m
    → next_of n + k < u64_mod
    → IsApart n
    → IsApart m × (next_of m ≤ next_of n + k)
run-IsApart here l v = (v, omega arith)
run-IsApart {k = suc k} {n = n} (step s r) l v =
    let (v', next) = step-IsApart s (omega (arith, l)) v in
    let (w, grown) = run-IsApart r (omega (arith, l, next)) v' in (w, omega (arith, grown, next))

run-IsGone :
    {k : ℕ} {n m : Net} (i : ℕ)
    → Runs k n m
    → next_of n + k < u64_mod
    → IsApart n
    → IsGone i n
    → IsGone i m
run-IsGone i here l v g = g
run-IsGone {k = suc k} i (step s r) l v g =
    let (v', next) = step-IsApart s (omega (arith, l)) v in
    run-IsGone i r (omega (arith, l, next)) v' (step-IsGone i s (omega (arith, l)) g)

begin_run :
    {k : ℕ} {n : Net} (local_peer_id : ℕ) (peers : Assoc PeerEntry)
    → Runs k (begin local_peer_id peers) n
    → k + 1 < u64_mod
    → IsApart n × (next_of n ≤ 1 + k)
unfolding begin new
begin_run local_peer_id peers run l = run-IsApart run (omega (arith, l)) (record {
  unique_opening = tt;
  unique_sessions = tt;
  apart = tt;
  opening_below = tt;
  sessions_below = tt;
})

-- Whatever the tasks of a node do, in any interleaving of fewer than 2^64 - 1 steps, no two
-- sessions, registered or waiting for it, have the same id.
pub begin-IsApart :
    {k : ℕ} {n : Net} (local_peer_id : ℕ) (peers : Assoc PeerEntry)
    → Runs k (begin local_peer_id peers) n
    → k + 1 < u64_mod
    → IsApart n
begin-IsApart local_peer_id peers run l = (begin_run local_peer_id peers run l).0

-- The session that the tie-break turns away.
abbrev pub loser : ℕ → ℕ → RegisteredSession → RegisteredSession → RegisteredSession
loser l p existing session = if keep_existing l p existing then session else existing

-- The state after the registration.
abbrev pub registered : ℕ → RegisteredSession → Assoc RegisteredSession → Net → Net
registered p s opening n = record n {
  registry = register_session_arc true p s n.registry;
  opening = opening;
}

-- The loser is disconnected and gone.
registered-IsGone :
    (n : Net) (front back : Assoc RegisteredSession) (p : ℕ) (s existing : RegisteredSession)
    → IsNumbered (next_of n) (front ++ ((p, s) ∷ back)) n.registry.active_sessions
    → lookup p n.registry.active_sessions ≡ some existing
    → let lost = loser n.registry.local_peer_id p existing s in
      ((registered p s (front ++ back) n).registry.disconnected
        ≡ lost.session_id ∷ n.registry.disconnected)
      × IsGone lost.session_id (registered p s (front ++ back) n)
unfolding register_session_arc register_where put disconnect
registered-IsGone n front back p s existing v has =
    elim (Bool-cases (keep_existing n.registry.local_peer_id p existing)) [
      | inl k ↦
          let (below, unopened, fresh) =
            rejected-gone (next_of n) front back n.registry.active_sessions p s v in
          rw (has, register_where, k)
            (refl, record { given = below; unopened = unopened; unregistered = fresh })
      | inr k ↦
          let (below, unopened, fresh) =
            replaced-gone (next_of n) front back n.registry.active_sessions p s v existing has in
          rw (has, register_where, k)
            (refl, record { given = below; unopened = unopened; unregistered = fresh })
    ]

-- When a new session is registered with a peer that has one, the session that loses the tie-break is
-- disconnected, and the event of its end, received after any number of further steps of any tasks,
-- changes nothing, if the run has fewer than 2^64 - 1 steps in all.
pub late_event_ignored :
    {k j : ℕ} {n m : Net} (local_peer_id : ℕ) (peers : Assoc PeerEntry)
    (front back : Assoc RegisteredSession) (p : ℕ) (s existing : RegisteredSession) (locked : Bool)
    → Runs k (begin local_peer_id peers) n
    → n.opening ≡ front ++ ((p, s) ∷ back)
    → lookup p n.registry.active_sessions ≡ some existing
    → Runs j (registered p s (front ++ back) n) m
    → k + j + 2 < u64_mod
    → let lost = loser n.registry.local_peer_id p existing s in
      ((registered p s (front ++ back) n).registry.disconnected
        ≡ lost.session_id ∷ n.registry.disconnected)
      × (receive locked (record { peer_id = p; session_id = lost.session_id }) m.registry
          ≡ m.registry)
late_event_ignored {k = k} {j = j} {n = n} {m = m} local_peer_id peers front back p s existing
      locked run opened has later l =
    let (v, few) = begin_run local_peer_id peers run (omega (arith, l)) in
    let v' = subst (λ o. IsNumbered (next_of n) o n.registry.active_sessions) opened v in
    let (w, next) =
      step-IsApart (register {n = n} true front back p s opened) (omega (arith, l, few)) v in
    let (disconnected, gone) = registered-IsGone n front back p s existing v' has in
    let i = (loser n.registry.local_peer_id p existing s).session_id in
    (
      disconnected,
      receive-gone i p locked m (run-IsGone i later (omega (arith, l, few, next)) w gone),
    )
