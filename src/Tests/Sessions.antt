-- ===== src/Tests/Sessions.antt =====
-- The theorems on the sessions, applied to two nodes and to a run with two connections to one peer.
use wasm_based_evm.Prelude.{ℕ, ◌≡◌, refl, Bool, true, false, some, [], ◌∷◌, lookup, insert, arith}
use wasm_based_evm.Peers.{
  RegisteredSession, PeerEntry, PeerRegistry, new, next_session_id, register_session_arc, receive,
  register_where, put, disconnect, keep_existing, any_peer, get_active_peers,
}
use wasm_based_evm.Peers.TieBreak.{Connection, end_a, end_b, at_end, tie_break_disagrees}
use wasm_based_evm.Peers.Active.{IsPeerList, get_active_peers_union}
use wasm_based_evm.Peers.Run.{Net, begin, draw_id, Runs, draw, register, close, here, step, IsApart}
use wasm_based_evm.Peers.Safety.{loser, registered, begin-IsApart, late_event_ignored}

abbrev node : ℕ → PeerRegistry
node id = new id []

abbrev dialled : Bool → Connection
dialled from_a = record { from_a = from_a; id_at_a = 1; id_at_b = 2; addr = 5 }

-- The nodes 2 and 3 register each other under ids that come after their own.
tie_break_disagrees_example :
    let a = at_end true 23 (end_a (dialled true)) (end_a (dialled false)) (node 2) in
    let b = at_end false 22 (end_b (dialled false)) (end_b (dialled true)) (node 3) in
    ((lookup 23 a.active_sessions ≡ some (end_a (dialled false))) × (a.disconnected ≡ 1 ∷ []))
    × ((lookup 22 b.active_sessions ≡ some (end_b (dialled true))) × (b.disconnected ≡ 2 ∷ []))
unfolding new lookup
tie_break_disagrees_example =
    tie_break_disagrees (node 2) (node 3) 22 23 (dialled true) (dialled false) true false refl refl
      refl refl refl refl

-- The peer 4 dials in, is registered, and is dialled.
abbrev incoming : RegisteredSession
incoming = record { session_id = 1; is_initiator = false; remote_addr = 5 }

abbrev outgoing : RegisteredSession
outgoing = record { session_id = 2; is_initiator = true; remote_addr = 5 }

abbrev dialling : Net
dialling = record (begin 2 []) {
  registry = record (node 2) {
    next_id = 3;
    active_sessions = (4, incoming) ∷ [];
    connected_peers = 1;
  };
  opening = (4, outgoing) ∷ [];
}

run_to_dialling : Runs 3 (begin 2 []) dialling
unfolding begin new draw_id next_session_id register_session_arc register_where put insert lookup
run_to_dialling =
    step (draw 4 false 5) (step (register true [] [] 4 incoming refl) (step (draw 4 true 5) here))

begin-IsApart_example : IsApart dialling
begin-IsApart_example = begin-IsApart 2 [] run_to_dialling (ground arith)

-- The loser is the outgoing session; its end is announced, then another peer dials in.
late_event_ignored_example :
    let r = register_session_arc true 4 outgoing dialling.registry in
    let lost = loser 2 4 incoming outgoing in
    let later = draw_id 6 false 8 (record (registered 4 outgoing [] dialling) {
      events = record { peer_id = 4; session_id = lost.session_id } ∷ [];
    }) in
    (r.disconnected ≡ lost.session_id ∷ [])
    × (receive true (record { peer_id = 4; session_id = lost.session_id }) later.registry
        ≡ later.registry)
unfolding begin new lookup register_session_arc register_where put disconnect keep_existing
late_event_ignored_example =
    late_event_ignored 2 [] [] [] 4 outgoing incoming true run_to_dialling refl refl
      (step (close (record { peer_id = 4; session_id = 2 }) (omega arith))
        (step (draw 6 false 8) here))
      (omega arith)

abbrev entry : PeerEntry
entry = record { peer_id = 3; discovery_addr = 6; p2p_addr = 6 }

-- The peer 3 is in the database, the peer 4 has a session.
abbrev known : PeerRegistry
known = record (node 9) { active_sessions = (4, incoming) ∷ []; active_peers = (3, entry) ∷ [] }

get_active_peers_union_example :
    (any_peer 4 (get_active_peers true known) ≡ true) × IsPeerList (get_active_peers true known)
unfolding lookup new
get_active_peers_union_example = get_active_peers_union true known 4 (refl, tt) (refl, tt)
