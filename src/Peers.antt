-- ===== src/Peers.antt =====
-- wasix_eth/wasix_eth_p2p/src/peer/peer_registry.rs: `PeerRegistry`, the sessions with other nodes and
-- the events of their end. A peer id stands for a string, as a number with the order of the strings.
-- `local_peer_id` is the hex text of the node's SEC1 key, which begins with 02, 03 or 04, and the ids
-- of sessions are texts that begin with 0x, so that a node's own id is not the one that others know
-- it by, and comes before all of these.
pub mod TieBreak
pub mod Active
pub mod Run
pub mod Numbered
pub mod Gone
pub mod Safety
use wasm_based_evm.Prelude.{
  ℕ, ◌==◌, Bool, true, false, not, ◌||◌, Option, none, some, List, [], ◌∷◌, ◌++◌, Assoc, lookup,
  insert, remove, ltb, if◌then◌else◌, length, is_some, add64, map,
}

-- What the registry reads of a `PeerSession`, with the id that it is registered under.
pub record RegisteredSession : Type 0 where
  pub session_id : ℕ
  pub is_initiator : Bool
  pub remote_addr : ℕ

pub record DisconnectEvent : Type 0 where
  pub peer_id : ℕ
  pub session_id : ℕ

pub record PeerEntry : Type 0 where
  pub peer_id : ℕ
  pub discovery_addr : ℕ
  pub p2p_addr : ℕ

-- `active_peers` is the table of peers in the database, `connected_peers` the metric. A session on
-- which `disconnect` was called is in `disconnected`, the last one first.
pub record PeerRegistry : Type 0 where
  pub local_peer_id : ℕ
  pub active_sessions : Assoc RegisteredSession
  pub next_id : ℕ
  pub active_peers : Assoc PeerEntry
  pub disconnected : List ℕ
  pub connected_peers : ℕ

unfoldable pub new : ℕ → Assoc PeerEntry → PeerRegistry
new local_peer_id peers = record {
  local_peer_id = local_peer_id;
  active_sessions = [];
  next_id = 1;
  active_peers = peers;
  disconnected = [];
  connected_peers = 0;
}

-- `fetch_add` gives the old value.
unfoldable pub next_session_id : PeerRegistry → ℕ × PeerRegistry
next_session_id r = (r.next_id, record r { next_id = add64 r.next_id 1 })

unfoldable pub disconnect : ℕ → PeerRegistry → PeerRegistry
disconnect session_id r = record r { disconnected = session_id ∷ r.disconnected }

-- The insertion of a session, and the metric that follows.
unfoldable pub put : ℕ → RegisteredSession → PeerRegistry → PeerRegistry
put peer_id session r =
    let sessions = insert peer_id session r.active_sessions in
    record r { active_sessions = sessions; connected_peers = length sessions }

-- The tie-break between two sessions with the same peer looks at the older one.
unfoldable pub keep_existing : ℕ → ℕ → RegisteredSession → Bool
keep_existing local_peer_id peer_id existing =
    if ltb peer_id local_peer_id then existing.is_initiator else not existing.is_initiator

unfoldable pub register_where :
    ℕ → RegisteredSession → Option RegisteredSession → PeerRegistry → PeerRegistry
register_where peer_id session none r = put peer_id session r
register_where peer_id session (some existing) r =
    if keep_existing r.local_peer_id peer_id existing
    then disconnect session.session_id r
    else disconnect existing.session_id (put peer_id session r)

-- `locked` is whether the lock on the sessions is had within two seconds.
unfoldable pub register_session_arc : Bool → ℕ → RegisteredSession → PeerRegistry → PeerRegistry
register_session_arc false peer_id session r = disconnect session.session_id r
register_session_arc true peer_id session r =
    register_where peer_id session (lookup peer_id r.active_sessions) r

-- The removal of a peer from the sessions, then from the database.
unfoldable pub drop_peer : ℕ → PeerRegistry → PeerRegistry
drop_peer peer_id r =
    let sessions = remove peer_id r.active_sessions in
    record r {
      active_sessions = sessions;
      connected_peers = length sessions;
      active_peers = remove peer_id r.active_peers;
    }

unfoldable pub receive_where :
    DisconnectEvent → Option RegisteredSession → PeerRegistry → PeerRegistry
receive_where event none r = r
receive_where event (some current) r =
    if current.session_id == event.session_id then drop_peer event.peer_id r else r

-- The task that receives the events.
unfoldable pub receive : Bool → DisconnectEvent → PeerRegistry → PeerRegistry
receive false event r = r
receive true event r = receive_where event (lookup event.peer_id r.active_sessions) r

unfoldable pub is_current_session : Bool → ℕ → ℕ → PeerRegistry → Bool
is_current_session false peer_id session_id r = false
is_current_session true peer_id session_id r = elim (lookup peer_id r.active_sessions) [
  | none ↦ false
  | some current ↦ current.session_id == session_id
]

-- `disconnect_peer`: the event that is sent for a manual disconnect.
unfoldable pub disconnect_peer : Bool → ℕ → PeerRegistry → Option DisconnectEvent
disconnect_peer false peer_id r = none
disconnect_peer true peer_id r = elim (lookup peer_id r.active_sessions) [
  | none ↦ none
  | some current ↦ some (record { peer_id = peer_id; session_id = current.session_id })
]

unfoldable pub get_session : Bool → ℕ → PeerRegistry → Option RegisteredSession
get_session false peer_id r = none
get_session true peer_id r = lookup peer_id r.active_sessions

unfoldable pub values : {V : Type 0} → Assoc V → List V
values [] = []
values ((k, v) ∷ m) = v ∷ values m

unfoldable pub get_all_sessions : Bool → PeerRegistry → List RegisteredSession
get_all_sessions false r = []
get_all_sessions true r = values r.active_sessions

-- `cleanup_stale_peers`: a session that `is_stale` is disconnected; its task sends the event later.
unfoldable pub disconnect_stale :
    (RegisteredSession → Bool) → List RegisteredSession → PeerRegistry → PeerRegistry
disconnect_stale is_stale [] r = r
disconnect_stale is_stale (s ∷ l) r =
    disconnect_stale is_stale l (if is_stale s then disconnect s.session_id r else r)

unfoldable pub cleanup_stale_peers : Bool → (RegisteredSession → Bool) → PeerRegistry → PeerRegistry
cleanup_stale_peers locked is_stale r = disconnect_stale is_stale (get_all_sessions locked r) r

unfoldable pub any_peer : ℕ → List PeerEntry → Bool
any_peer peer_id [] = false
any_peer peer_id (p ∷ l) = (p.peer_id == peer_id) || any_peer peer_id l

-- The peers with a session that the list does not name are added at its end.
unfoldable pub merge : Assoc RegisteredSession → List PeerEntry → List PeerEntry
merge [] peers = peers
merge ((peer_id, s) ∷ m) peers = merge m (
    if any_peer peer_id peers
    then peers
    else peers
      ++ (record { peer_id = peer_id; discovery_addr = s.remote_addr; p2p_addr = s.remote_addr }
          ∷ []))

unfoldable pub get_active_peers : Bool → PeerRegistry → List PeerEntry
get_active_peers false r = values r.active_peers
get_active_peers true r = merge r.active_sessions (values r.active_peers)

unfoldable pub register_peer : PeerEntry → PeerRegistry → PeerRegistry
register_peer entry r = record r { active_peers = insert entry.peer_id entry r.active_peers }

unfoldable pub remove_peer : ℕ → PeerRegistry → PeerRegistry
remove_peer peer_id r = record r { active_peers = remove peer_id r.active_peers }
