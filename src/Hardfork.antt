-- ===== src/Hardfork.antt =====
-- wasix_eth/wasix_eth_types/src/lib.rs: `Hardfork`, its order, and the resolution of the fork that
-- is active at a block (`get_active_fork_with_total_difficulty`, `blob_params`), with the parts of
-- alloy's `ChainConfig` and `BlobParams` that the code reads.
pub mod Schedule
pub mod Monotone
pub mod Genesis
use Prim.Native.String.{String}
use wasm_based_evm.Prelude.{
  ℕ, Bool, true, false, Option, none, some, List, [], ◌∷◌, ◌&&◌, ◌||◌, ltb, leb, ◌==◌,
  if◌then◌else◌,
}

pub data Hardfork : Type 0 where
  frontier homestead tangerine_whistle spurious_dragon byzantium constantinople : Hardfork
  petersburg istanbul muir_glacier berlin london arrow_glacier gray_glacier : Hardfork
  paris shanghai cancun prague : Hardfork

-- The derived order compares the positions of the variants.
abbrev pub rank : Hardfork → ℕ
rank frontier = 0
rank homestead = 1
rank tangerine_whistle = 2
rank spurious_dragon = 3
rank byzantium = 4
rank constantinople = 5
rank petersburg = 6
rank istanbul = 7
rank muir_glacier = 8
rank berlin = 9
rank london = 10
rank arrow_glacier = 11
rank gray_glacier = 12
rank paris = 13
rank shanghai = 14
rank cancun = 15
rank prague = 16

-- `a >= b` on forks.
abbrev pub at_least : Hardfork → Hardfork → Bool
at_least a b = leb (rank b) (rank a)

pub record BlobParams : Type 0 where
  pub target_blob_count : ℕ
  pub max_blob_count : ℕ
  pub update_fraction : ℕ

pub record ChainConfig : Type 0 where
  pub homestead_block : Option ℕ
  pub eip150_block : Option ℕ
  pub eip155_block : Option ℕ
  pub eip158_block : Option ℕ
  pub byzantium_block : Option ℕ
  pub constantinople_block : Option ℕ
  pub petersburg_block : Option ℕ
  pub istanbul_block : Option ℕ
  pub muir_glacier_block : Option ℕ
  pub berlin_block : Option ℕ
  pub london_block : Option ℕ
  pub arrow_glacier_block : Option ℕ
  pub gray_glacier_block : Option ℕ
  pub merge_netsplit_block : Option ℕ
  pub shanghai_time : Option ℕ
  pub cancun_time : Option ℕ
  pub prague_time : Option ℕ
  pub terminal_total_difficulty : Option ℕ
  pub blob_schedule : String → Option BlobParams

-- One element of the vector `forks`: the point, whether it is a timestamp, and the fork.
pub record Activation : Type 0 where
  pub val : ℕ
  pub is_timestamp : Bool
  pub fork : Hardfork

-- `if let Some(b) = ... { forks.push(...) }`, in front of the later pushes.
unfoldable pub push_fork : Option ℕ → Bool → Hardfork → List Activation → List Activation
push_fork none ts f rest = rest
push_fork (some b) ts f rest = record { val = b; is_timestamp = ts; fork = f } ∷ rest

unfoldable pub forks : ChainConfig → List Activation
forks c = push_fork c.homestead_block false homestead (
    push_fork c.eip150_block false tangerine_whistle (
      push_fork c.eip155_block false spurious_dragon (
        push_fork c.eip158_block false spurious_dragon (
          push_fork c.byzantium_block false byzantium (
            push_fork c.constantinople_block false constantinople (
              push_fork c.petersburg_block false petersburg (
                push_fork c.istanbul_block false istanbul (
                  push_fork c.muir_glacier_block false muir_glacier (
                    push_fork c.berlin_block false berlin (
                      push_fork c.london_block false london (
                        push_fork c.arrow_glacier_block false arrow_glacier (
                          push_fork c.gray_glacier_block false gray_glacier (
                            push_fork c.merge_netsplit_block false paris (
                              push_fork c.shanghai_time true shanghai (
                                push_fork c.cancun_time true cancun
                                  (push_fork c.prague_time true prague []))))))))))))))))

abbrev pub flag : Bool → ℕ
flag false = 0
flag true = 1

-- `(a.1, a.0) <= (b.1, b.0)`.
abbrev pub key_le : Activation → Activation → Bool
key_le a b =
    ltb (flag a.is_timestamp) (flag b.is_timestamp)
    || (flag a.is_timestamp == flag b.is_timestamp && leb a.val b.val)

-- The stable `sort_by` by that key: an element goes before the later ones with an equal key.
unfoldable pub insert_fork : Activation → List Activation → List Activation
insert_fork a [] = a ∷ []
insert_fork a (b ∷ l) = if key_le a b then a ∷ b ∷ l else b ∷ insert_fork a l

unfoldable pub sort_forks : List Activation → List Activation
sort_forks [] = []
sort_forks (a ∷ l) = insert_fork a (sort_forks l)

abbrev pub is_active : ℕ → ℕ → Activation → Bool
is_active number timestamp a = if a.is_timestamp then leb a.val timestamp else leb a.val number

-- The loop over the sorted forks, up to the first that is not active.
unfoldable pub active_fork : ℕ → ℕ → Hardfork → List Activation → Hardfork
active_fork number timestamp f [] = f
active_fork number timestamp f (a ∷ l) =
    if is_active number timestamp a then active_fork number timestamp a.fork l else f

-- The check of the terminal total difficulty.
unfoldable pub paris_by_ttd : Option ℕ → Option ℕ → Hardfork → Hardfork
paris_by_ttd (some ttd) (some td) f = if ltb (rank f) (rank paris) && leb ttd td then paris else f
paris_by_ttd _ _ f = f

unfoldable pub get_active_fork_with_total_difficulty : ChainConfig → ℕ → ℕ → Option ℕ → Hardfork
get_active_fork_with_total_difficulty c number timestamp td =
    paris_by_ttd c.terminal_total_difficulty td
      (active_fork number timestamp frontier (sort_forks (forks c)))

unfoldable pub get_active_fork : ChainConfig → ℕ → ℕ → Hardfork
get_active_fork c number timestamp = get_active_fork_with_total_difficulty c number timestamp none

unfoldable pub is_shanghai_active : Hardfork → Bool
is_shanghai_active f = at_least f shanghai

unfoldable pub is_cancun_active : Hardfork → Bool
is_cancun_active f = at_least f cancun

unfoldable pub blob_params : Hardfork → ChainConfig → Option BlobParams
blob_params cancun c = c.blob_schedule "cancun"
blob_params prague c = c.blob_schedule "prague"
blob_params _ c = none
