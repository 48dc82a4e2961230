-- ===== src/Tests/Peers.antt =====
-- The theorems on the peers, applied to two peers, some sync targets and some nodes.
use wasm_based_evm.Prelude.{ℕ, ◌+◌, ◌==◌, false, Option, none, some, List, [], ◌∷◌, if◌then◌else◌}
use wasm_based_evm.Sync.Registry
use wasm_based_evm.Sync.Registry.{SyncTarget, IsDistinct, run-IsDistinct}
use wasm_based_evm.Sync.BestPeer.{Session}
use wasm_based_evm.Discovery
use wasm_based_evm.Discovery.Buckets
use wasm_based_evm.Discovery.Buckets.{IsWell, run-new-IsWell}

abbrev target : ℕ → SyncTarget
target hash = record { hash = hash; peer_id = none; retries = 0 }

abbrev targets_added : List Registry.Op
targets_added =
    Registry.add false (target 5)
    ∷ Registry.add false (target 5)
    ∷ Registry.add false (target 6)
    ∷ Registry.pop
    ∷ []

run-IsDistinct_example : IsDistinct (Registry.run targets_added Registry.new).targets
run-IsDistinct_example = run-IsDistinct targets_added Registry.new tt

-- The peer 1 has difficulty 30 and the peer 2 difficulty 40.
abbrev session_of : ℕ → Option Session
session_of p =
    if p == 1
    then some (record { total_difficulty = some 30; best_height = 9 })
    else if p == 2
    then some (record { total_difficulty = some 40; best_height = 7 })
    else none

abbrev nodes_seen : List (Buckets.Op (λ id. id) (λ a b. (a + b) ∷ []))
nodes_seen =
    Buckets.see 1 10 100 ∷ Buckets.see 2 11 101 ∷ Buckets.see 1 12 102 ∷ Buckets.forget 2 ∷ []

run-new-IsWell_example :
    IsWell
      (λ id. id)
      (λ a b. (a + b) ∷ [])
      (Buckets.run (λ id. id) (λ a b. (a + b) ∷ []) nodes_seen (Discovery.new 9))
run-new-IsWell_example = run-new-IsWell (λ id. id) (λ a b. (a + b) ∷ []) nodes_seen 9
