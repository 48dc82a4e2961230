-- ===== src/Sync/BestPeer.antt =====
-- wasix_eth/wasix_eth_core/src/sync/downloader.rs: `get_best_peer`. The peers and their sessions come
-- from the peer provider and are arguments.
use wasm_based_evm.Prelude.{
  ℕ, ◌≤◌, ◌<◌, Bool, true, false, ◌&&◌, Option, none, some, List, [], ◌∷◌, ◌==◌, ltb, if◌then◌else◌,
  unwrap_or, ◌≡◌, ◌⊎◌,
}

-- What a session tells: the total difficulty of its status, if it has one, and its best height.
pub record Session : Type 0 where
  pub total_difficulty : Option ℕ
  pub best_height : ℕ

-- The best peer so far (`best_peer`, `max_td`, `max_height`).
pub record Best : Type 0 where
  pub peer : Option (ℕ × (ℕ × ℕ))
  pub max_td : ℕ
  pub max_height : ℕ

unfoldable pub is_better : ℕ → ℕ → Best → Bool
is_better td height b =
    if ltb b.max_td td
    then true
    else if (td == b.max_td) && ltb 0 td
    then ltb b.max_height height
    else if td == 0
    then ltb b.max_height height
    else false

abbrev pub td_of : Session → ℕ
td_of s = unwrap_or s.total_difficulty 0

abbrev pub weigh : ℕ → Option Session → Best → Best
weigh peer none b = b
weigh peer (some s) b =
    if is_better (td_of s) s.best_height b
    then record {
      peer = some (peer, (td_of s, s.best_height));
      max_td = td_of s;
      max_height = s.best_height;
    }
    else b

module _ (get_session : ℕ → Option Session) where
  unfoldable pub scan : List ℕ → Best → Best
  scan [] b = b
  scan (p ∷ l) b = scan l (weigh p (get_session p) b)

  unfoldable pub get_best_peer : Option (List ℕ) → Option (ℕ × (ℕ × ℕ))
  get_best_peer none = none
  get_best_peer (some peers) =
      (scan peers (record { peer = none; max_td = 0; max_height = 0 })).peer

  -- A peer with a session tells a total difficulty above zero.
  abbrev pub HasDifficulty : ℕ → Type 0
  HasDifficulty p = (s : Session) → get_session p ≡ some s → 0 < td_of s

  -- Not above the bound: less difficulty, or the same and no more height.
  abbrev pub IsWithin : ℕ → ℕ → ℕ → Type 0
  IsWithin td height p =
      (s : Session)
      → get_session p ≡ some s
      → (td_of s < td) ⊎ ((td_of s ≡ td) × (s.best_height ≤ height))

  -- The record of the best peer is its peer's.
  abbrev IsTold : Best → Type 0
  IsTold b =
      (p td height : ℕ)
      → b.peer ≡ some (p, (td, height))
      → (td ≡ b.max_td) × (height ≡ b.max_height)

  -- The second best is at least as good as the first.
  abbrev IsUp : Best → Best → Type 0
  IsUp b c = (b.max_td < c.max_td) ⊎ ((b.max_td ≡ c.max_td) × (b.max_height ≤ c.max_height))

  -- What holds of the best peer after a peer was weighed.
  abbrev Weighed : ℕ → Best → Best → Type 0
  Weighed p b c = IsTold c × (IsUp b c × IsWithin c.max_td c.max_height p)
