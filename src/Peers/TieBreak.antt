-- ===== src/Peers/TieBreak.antt =====
-- peer_registry.rs, `register_session_arc`: two nodes that dial each other at the same time.
use wasm_based_evm.Prelude.{
  ◌∷◌, insert, ℕ, ◌≡◌, refl, sym, ap, ◌∙◌, Bool, true, false, not, Option, none, some, lookup,
  lookup-insert, ltb, if◌then◌else◌, inl, inr, Bool-cases, arith,
}
use wasm_based_evm.Peers.{
  RegisteredSession, PeerRegistry, keep_existing, put, disconnect, register_where,
  register_session_arc,
}

-- A connection between the node `a` and the node `b`, with the ids that its two ends give it.
pub record Connection : Type 0 where
  pub from_a : Bool
  pub id_at_a : ℕ
  pub id_at_b : ℕ
  pub addr : ℕ

abbrev pub end_a : Connection → RegisteredSession
end_a c = record { session_id = c.id_at_a; is_initiator = c.from_a; remote_addr = c.addr }

abbrev pub end_b : Connection → RegisteredSession
end_b c = record { session_id = c.id_at_b; is_initiator = not c.from_a; remote_addr = c.addr }

-- The session that stays of an older and a newer one.
abbrev pub settle : ℕ → ℕ → Option RegisteredSession → RegisteredSession → RegisteredSession
settle local_peer_id peer_id none session = session
settle local_peer_id peer_id (some existing) session =
    if keep_existing local_peer_id peer_id existing then existing else session

lookup-register_where :
    (peer_id : ℕ) (session : RegisteredSession) (existing : Option RegisteredSession)
    (r : PeerRegistry)
    → lookup peer_id r.active_sessions ≡ existing
    → lookup peer_id (register_where peer_id session existing r).active_sessions
      ≡ some (settle r.local_peer_id peer_id existing session)
unfolding register_where put disconnect
lookup-register_where peer_id session none r e =
    ground (arith, lookup-insert peer_id peer_id session r.active_sessions)
lookup-register_where peer_id session (some old) r e =
    elim (Bool-cases (keep_existing r.local_peer_id peer_id old)) [
      | inl k ↦ rw k e
      | inr n ↦ rw n (ground (arith, lookup-insert peer_id peer_id session r.active_sessions))
    ]

pub lookup-register_session_arc :
    (peer_id : ℕ) (session : RegisteredSession) (r : PeerRegistry)
    → lookup peer_id (register_session_arc true peer_id session r).active_sessions
      ≡ some (settle r.local_peer_id peer_id (lookup peer_id r.active_sessions) session)
unfolding register_session_arc
lookup-register_session_arc peer_id session r =
    lookup-register_where peer_id session (lookup peer_id r.active_sessions) r refl

-- The node keeps its id.
local-register_where :
    (peer_id : ℕ) (session : RegisteredSession) (existing : Option RegisteredSession)
    (r : PeerRegistry)
    → (register_where peer_id session existing r).local_peer_id ≡ r.local_peer_id
unfolding register_where put disconnect
local-register_where peer_id session none r = refl
local-register_where peer_id session (some old) r =
    elim (Bool-cases (keep_existing r.local_peer_id peer_id old)) [
      | inl k ↦ rw k refl
      | inr n ↦ rw n refl
    ]

local-register_session_arc :
    (peer_id : ℕ) (session : RegisteredSession) (r : PeerRegistry)
    → (register_session_arc true peer_id session r).local_peer_id ≡ r.local_peer_id
unfolding register_session_arc
local-register_session_arc peer_id session r =
    local-register_where peer_id session (lookup peer_id r.active_sessions) r

-- The registry after two registrations.
abbrev pub both : ℕ → RegisteredSession → RegisteredSession → PeerRegistry → PeerRegistry
both peer_id first second r =
    register_session_arc true peer_id second (register_session_arc true peer_id first r)

-- The session with the peer then.
abbrev pub kept :
    ℕ → RegisteredSession → RegisteredSession → PeerRegistry → Option RegisteredSession
kept peer_id first second r = lookup peer_id (both peer_id first second r).active_sessions

kept-settle :
    (peer_id : ℕ) (first second : RegisteredSession) (r : PeerRegistry)
    → lookup peer_id r.active_sessions ≡ none
    → kept peer_id first second r ≡ some (settle r.local_peer_id peer_id (some first) second)
kept-settle peer_id first second r e =
    lookup-register_session_arc peer_id second (register_session_arc true peer_id first r)
    ∙ ap some (
        grind (
          arith,
          local-register_session_arc peer_id first r,
          lookup-register_session_arc peer_id first r,
          e,
        ))

keep_existing-right :
    (l p : ℕ) (s : RegisteredSession) → s.is_initiator ≡ ltb p l → keep_existing l p s ≡ true
unfolding keep_existing
keep_existing-right l p s e = elim (Bool-cases (ltb p l)) [
  | inl h ↦ rw (keep_existing, h) (e ∙ h)
  | inr n ↦ rw (keep_existing, n) (ap not (e ∙ n))
]

keep_existing-wrong :
    (l p : ℕ) (s : RegisteredSession) → s.is_initiator ≡ not (ltb p l) → keep_existing l p s ≡ false
unfolding keep_existing
keep_existing-wrong l p s e = elim (Bool-cases (ltb p l)) [
  | inl h ↦ rw (keep_existing, h) (e ∙ ap not h)
  | inr n ↦ rw (keep_existing, n) (ap not (e ∙ ap not n))
]

settle-right :
    (l p : ℕ) (first second : RegisteredSession)
    → first.is_initiator ≡ ltb p l
    → settle l p (some first) second ≡ first
settle-right l p first second e = rw (keep_existing-right l p first e) refl

settle-wrong :
    (l p : ℕ) (first second : RegisteredSession)
    → first.is_initiator ≡ not (ltb p l)
    → settle l p (some first) second ≡ second
settle-wrong l p first second e = rw (keep_existing-wrong l p first e) refl

-- The session that does not stay is disconnected.
disconnected-both :
    (peer_id : ℕ) (first second : RegisteredSession) (r : PeerRegistry)
    → lookup peer_id r.active_sessions ≡ none
    → (both peer_id first second r).disconnected
      ≡ (if keep_existing r.local_peer_id peer_id first
          then second.session_id
          else first.session_id)
        ∷ r.disconnected
unfolding register_session_arc register_where put disconnect
disconnected-both peer_id first second r e =
    let found : lookup peer_id (insert peer_id first r.active_sessions) ≡ some first =
      ground (arith, lookup-insert peer_id peer_id first r.active_sessions) in
    elim (Bool-cases (keep_existing r.local_peer_id peer_id first)) [
      | inl k ↦ rw (e, register_where, found, register_where, k) refl
      | inr n ↦ rw (e, register_where, found, register_where, n) refl
    ]

-- Two registrations in either order, `first` first or not.
abbrev pub at_end : Bool → ℕ → RegisteredSession → RegisteredSession → PeerRegistry → PeerRegistry
at_end true peer_id first second r = both peer_id first second r
at_end false peer_id first second r = both peer_id second first r

-- Of a session that this node began and one that it did not, the second stays if the node's own id
-- does not come after the id of the peer.
incoming_stays :
    (o : Bool) (peer_id : ℕ) (outgoing incoming : RegisteredSession) (r : PeerRegistry)
    → lookup peer_id r.active_sessions ≡ none
    → ltb peer_id r.local_peer_id ≡ false
    → outgoing.is_initiator ≡ true
    → incoming.is_initiator ≡ false
    → let r' = at_end o peer_id outgoing incoming r in
      (lookup peer_id r'.active_sessions ≡ some incoming)
      × (r'.disconnected ≡ outgoing.session_id ∷ r.disconnected)
incoming_stays true peer_id outgoing incoming r e below out into =
    let wrong = out ∙ sym (ap not below) in
    (
      kept-settle peer_id outgoing incoming r e
          ∙ ap some (settle-wrong r.local_peer_id peer_id outgoing incoming wrong),
      disconnected-both peer_id outgoing incoming r e
          ∙ rw (keep_existing-wrong r.local_peer_id peer_id outgoing wrong) refl,
    )
incoming_stays false peer_id outgoing incoming r e below out into =
    let right = into ∙ sym below in
    (
      kept-settle peer_id incoming outgoing r e
          ∙ ap some (settle-right r.local_peer_id peer_id incoming outgoing right),
      disconnected-both peer_id incoming outgoing r e
          ∙ rw (keep_existing-right r.local_peer_id peer_id incoming right) refl,
    )

-- Two nodes without a session that dial each other at the same time, each with an own id that does
-- not come after the id under which it registers the other, do not agree: in whatever order each
-- registers the two connections, it keeps the one that the other dialled and disconnects its own,
-- so that either connection is disconnected at one of its ends.
pub tie_break_disagrees :
    (a b : PeerRegistry) (id_of_a id_of_b : ℕ) (c d : Connection) (order_at_a order_at_b : Bool)
    → ltb id_of_b a.local_peer_id ≡ false
    → ltb id_of_a b.local_peer_id ≡ false
    → lookup id_of_b a.active_sessions ≡ none
    → lookup id_of_a b.active_sessions ≡ none
    → c.from_a ≡ true
    → d.from_a ≡ false
    → let a' = at_end order_at_a id_of_b (end_a c) (end_a d) a in
      let b' = at_end order_at_b id_of_a (end_b d) (end_b c) b in
      ((lookup id_of_b a'.active_sessions ≡ some (end_a d))
        × (a'.disconnected ≡ c.id_at_a ∷ a.disconnected))
      × ((lookup id_of_a b'.active_sessions ≡ some (end_b c))
          × (b'.disconnected ≡ d.id_at_b ∷ b.disconnected))
tie_break_disagrees a b id_of_a id_of_b c d order_at_a order_at_b below_b below_a none_at_a
      none_at_b from_a from_b =
    (
      incoming_stays order_at_a id_of_b (end_a c) (end_a d) a none_at_a below_b from_a from_b,
      incoming_stays order_at_b id_of_a (end_b d) (end_b c) b none_at_b below_a (ap not from_b)
          (ap not from_a),
    )
