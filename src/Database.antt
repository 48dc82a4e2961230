-- ===== src/Database.antt =====
-- wasix_eth/wasix_eth_storage/src/write.rs: the tables of the database and the writes of
-- `DatabaseWriteProvider`, each a transaction of its own. A failure of the database itself ends the
-- caller through `?` and is left out. The code of a contract, a node of a trie and a receipt are
-- named by numbers.
pub mod Batch
pub mod Overlay
pub mod Reset
pub mod Originals
use wasm_based_evm.Prelude.{
  ℕ, suc, ◌+◌, ◌%◌, ◌^◌, ◌==◌, ◌||◌, Bool, true, false, Option, none, some, List, [], ◌∷◌, Assoc,
  lookup, insert, remove, Table2, lookup2, insert2, remove2, if◌then◌else◌, unwrap_or,
}
use wasm_based_evm.Block.{Transaction, Header, Body, Block}

-- The encoding of a value.
abbrev pub Bytes : Type 0
Bytes = List ℕ

pub record TrieAccount : Type 0 where
  pub nonce : ℕ
  pub balance : ℕ
  pub storage_root : ℕ
  pub code_hash : ℕ

-- What the table of payloads holds, less the blobs.
pub record Payload : Type 0 where
  pub block : Block
  pub receipts : List ℕ
  pub metas : List ℕ

pub record Database : Type 0 where
  pub headers : Assoc Header
  pub header_numbers : Assoc ℕ
  pub header_tds : Assoc ℕ
  pub canonical_heads : Assoc ℕ
  pub block_bodies : Assoc Body
  pub transactions : Assoc Transaction
  pub transaction_lookups : Assoc (ℕ × ℕ)
  pub receipts : Table2 ℕ
  pub receipts_meta : Table2 ℕ
  pub payloads : Assoc Payload
  pub accounts : Assoc TrieAccount
  pub storages : Table2 ℕ
  pub bytecodes : Assoc ℕ
  pub plain_states : Assoc Bytes
  pub hashed_states : Assoc ℕ
  pub trie_nodes : Assoc ℕ
  pub account_change_sets : Assoc (List (ℕ × Option Bytes))
  pub storage_change_sets : Assoc (List ((ℕ × ℕ) × ℕ))

unfoldable pub insert_header : ℕ → Header → Database → Database
insert_header hash header d = record d {
  headers = insert hash header d.headers;
  header_numbers = insert hash header.number d.header_numbers;
}

unfoldable pub insert_block_hash : ℕ → ℕ → Database → Database
insert_block_hash hash number d = record d { header_numbers = insert hash number d.header_numbers }

unfoldable pub insert_header_td : ℕ → ℕ → Database → Database
insert_header_td hash td d = record d { header_tds = insert hash td d.header_tds }

unfoldable pub insert_header_number : ℕ → ℕ → Database → Database
insert_header_number hash number d = record d {
  header_numbers = insert hash number d.header_numbers;
}

unfoldable pub set_canonical : ℕ → ℕ → Database → Database
set_canonical number hash d = record d { canonical_heads = insert number hash d.canonical_heads }

unfoldable pub remove_canonical : ℕ → Database → Database
remove_canonical number d = record d { canonical_heads = remove number d.canonical_heads }

unfoldable pub insert_transaction : ℕ → Transaction → Database → Database
insert_transaction hash tx d = record d { transactions = insert hash tx d.transactions }

unfoldable pub insert_transaction_lookup : ℕ → ℕ → ℕ → Database → Database
insert_transaction_lookup hash block_hash index d = record d {
  transaction_lookups = insert hash (block_hash, index) d.transaction_lookups;
}

-- The transactions of a body, from the index `i` on.
unfoldable pub insert_transactions : ℕ → ℕ → List Transaction → Database → Database
insert_transactions hash i [] d = d
insert_transactions hash i (t ∷ l) d =
    insert_transactions hash (suc i) l
      (insert_transaction_lookup t.hash hash i (insert_transaction t.hash t d))

unfoldable pub insert_block_body : ℕ → Body → Database → Database
insert_block_body hash body d =
    insert_transactions hash 0 body.transactions
      (record d { block_bodies = insert hash body d.block_bodies })

unfoldable pub insert_receipt : ℕ → ℕ → ℕ → Database → Database
insert_receipt block_hash index receipt d = record d {
  receipts = insert2 (block_hash, index) receipt d.receipts;
}

unfoldable pub insert_receipt_meta : ℕ → ℕ → ℕ → Database → Database
insert_receipt_meta block_hash index meta d = record d {
  receipts_meta = insert2 (block_hash, index) meta d.receipts_meta;
}

unfoldable pub remove_receipt_meta : ℕ → ℕ → Database → Database
remove_receipt_meta block_hash index d = record d {
  receipts_meta = remove2 (block_hash, index) d.receipts_meta;
}

unfoldable pub insert_receipts : ℕ → ℕ → List ℕ → Database → Database
insert_receipts hash i [] d = d
insert_receipts hash i (r ∷ l) d = insert_receipts hash (suc i) l (insert_receipt hash i r d)

unfoldable pub insert_metas : ℕ → ℕ → List ℕ → Database → Database
insert_metas hash i [] d = d
insert_metas hash i (r ∷ l) d = insert_metas hash (suc i) l (insert_receipt_meta hash i r d)

-- The sum of two `U256`.
abbrev pub add256 : ℕ → ℕ → ℕ
add256 a b = (a + b) % (2 ^ 256)

-- `insert_block`, a batch with the block, its total difficulty, receipts and metas. The difficulty
-- of the parent is read outside the batch, which does not write it before.
unfoldable pub insert_block : (Header → ℕ) → Block → List ℕ → List ℕ → Database → Database
insert_block hash_slow b receipts metas d =
    let hash = hash_slow b.header in
    let parent_td =
      if b.header.number == 0 then 0 else unwrap_or (lookup b.header.parent_hash d.header_tds) 0 in
    insert_metas hash 0 metas (
      insert_receipts hash 0 receipts (
        insert_header_td hash (add256 parent_td b.header.difficulty)
          (insert_block_body hash b.body (insert_header hash b.header d))))

unfoldable pub add_payload : ℕ → Payload → Database → Database
add_payload id p d = record d { payloads = insert id p d.payloads }

unfoldable pub find_payload : (Header → ℕ) → ℕ → Assoc Payload → Option Payload
find_payload hash_slow hash [] = none
find_payload hash_slow hash ((id, p) ∷ m) =
    if hash_slow p.block.header == hash then some p else find_payload hash_slow hash m

unfoldable pub payload_ids : (Header → ℕ) → ℕ → Assoc Payload → List ℕ
payload_ids hash_slow hash [] = []
payload_ids hash_slow hash ((id, p) ∷ m) =
    let rest = payload_ids hash_slow hash m in
    if hash_slow p.block.header == hash then id ∷ rest else rest

unfoldable pub remove_ids : List ℕ → Assoc Payload → Assoc Payload
remove_ids [] m = m
remove_ids (id ∷ l) m = remove_ids l (remove id m)

unfoldable pub remove_payload_by_block_hash : (Header → ℕ) → ℕ → Database → Database
remove_payload_by_block_hash hash_slow hash d = record d {
  payloads = remove_ids (payload_ids hash_slow hash d.payloads) d.payloads;
}

unfoldable pub insert_bytecode : ℕ → ℕ → Database → Database
insert_bytecode code_hash code d = record d { bytecodes = insert code_hash code d.bytecodes }

unfoldable pub update_plain_state : ℕ → Bytes → Database → Database
update_plain_state address bytes d = record d { plain_states = insert address bytes d.plain_states }

unfoldable pub remove_plain_state : ℕ → Database → Database
remove_plain_state address d = record d { plain_states = remove address d.plain_states }

unfoldable pub update_hashed_state : ℕ → ℕ → Database → Database
update_hashed_state hash bytes d = record d { hashed_states = insert hash bytes d.hashed_states }

unfoldable pub update_trie_node : ℕ → ℕ → Database → Database
update_trie_node hash node d = record d { trie_nodes = insert hash node d.trie_nodes }

unfoldable pub insert_account_change_set : ℕ → List (ℕ × Option Bytes) → Database → Database
insert_account_change_set number changes d = record d {
  account_change_sets = insert number changes d.account_change_sets;
}

unfoldable pub insert_storage_change_set : ℕ → List ((ℕ × ℕ) × ℕ) → Database → Database
insert_storage_change_set number changes d = record d {
  storage_change_sets = insert number changes d.storage_change_sets;
}

unfoldable pub remove_change_set : ℕ → Database → Database
remove_change_set number d = record d {
  account_change_sets = remove number d.account_change_sets;
  storage_change_sets = remove number d.storage_change_sets;
}

-- A value of zero is stored by its absence.
unfoldable pub write_slot : ℕ → ℕ → ℕ → Database → Database
write_slot address slot value d = record d {
  storages =
      if value == 0
      then remove2 (address, slot) d.storages
      else insert2 (address, slot) value d.storages;
}

-- Sets of addresses and of slots.
abbrev pub contains : ℕ → List ℕ → Bool
contains a [] = false
contains a (b ∷ l) = (a == b) || contains a l

abbrev pub add_to_set : ℕ → List ℕ → List ℕ
add_to_set a l = if contains a l then l else a ∷ l

-- `DatabaseWriteProvider`: the database, and the accounts and slots it remembers as touched.
pub record Writer : Type 0 where
  pub db : Database
  pub touched_accounts : List ℕ
  pub touched_storages : Assoc (List ℕ)

unfoldable pub update_account : ℕ → TrieAccount → Writer → Writer
update_account address account w = record w {
  db = record w.db { accounts = insert address account w.db.accounts };
  touched_accounts = add_to_set address w.touched_accounts;
}

unfoldable pub remove_account : ℕ → Writer → Writer
remove_account address w = record w {
  db = record w.db { accounts = remove address w.db.accounts };
  touched_accounts = add_to_set address w.touched_accounts;
}

unfoldable pub update_storage : ℕ → ℕ → ℕ → Writer → Writer
update_storage address slot value w = record {
  db = write_slot address slot value w.db;
  touched_accounts = add_to_set address w.touched_accounts;
  touched_storages =
      insert address (add_to_set slot (unwrap_or (lookup address w.touched_storages) []))
        w.touched_storages;
}

-- A write to the database alone.
abbrev pub on_db : (Database → Database) → Writer → Writer
on_db f w = record w { db = f w.db }

-- The method of the type itself does nothing, and is the one that a call on the type reaches.
unfoldable pub clear_tracking : Writer → Writer
clear_tracking w = w

-- The method of the trait `AccountWriter`.
unfoldable pub clear_tracking_trait : Writer → Writer
clear_tracking_trait w = record w { touched_accounts = []; touched_storages = [] }
