-- ===== src/Chain/Mark/Canonical.antt =====
-- reorg_manager.rs, `mark_branch_canonical`: its blocks are canonical.
use wasm_based_evm.Prelude.{
  ℕ, suc, ◌==◌, ◌≡◌, refl, sym, ap, ◌∙◌, false, inl, inr, Option, none, some, List, [], ◌∷◌, All,
  All-map, Assoc, lookup, insert, lookup-insert, is_some, opt_eq, Bool-cases, Option-cases, ==_iff,
  arith,
}
use mathlib.Core.Option.{some-injective}
use wasm_based_evm.Block.{Transaction, Header, Block}
use wasm_based_evm.Database.{
  Database, Payload, add256, insert_header, insert_block, insert_block_body, insert_transactions,
  insert_transaction, insert_transaction_lookup, insert_receipts, insert_receipt, insert_metas,
  insert_receipt_meta, insert_header_td, insert_header_number, insert_block_hash, set_canonical,
  find_payload, remove_payload_by_block_hash,
}
use wasm_based_evm.Chain.Mark.{
  insert_lookups, put_td, fix_td, promote_payload, ensure_body, mark_block, mark_branch_canonical,
}

-- The tables of canonical hashes and of numbers are the same.
pub record IsQuiet (d e : Database) : Type 0 where
  pub heads : e.canonical_heads ≡ d.canonical_heads
  pub numbers : e.header_numbers ≡ d.header_numbers

quiet : {d : Database} → IsQuiet d d
quiet = record { heads = refl; numbers = refl }

insert_transactions-IsQuiet :
    (hash i : ℕ) (l : List Transaction) (d : Database) → IsQuiet d (insert_transactions hash i l d)
unfolding insert_transactions insert_transaction insert_transaction_lookup
insert_transactions-IsQuiet hash i [] d = quiet
insert_transactions-IsQuiet hash i (t ∷ l) d =
    let rest =
      insert_transactions-IsQuiet hash (suc i) l
        (insert_transaction_lookup t.hash hash i (insert_transaction t.hash t d)) in
    record { heads = rest.heads; numbers = rest.numbers }

insert_lookups-IsQuiet :
    (hash i : ℕ) (l : List Transaction) (d : Database) → IsQuiet d (insert_lookups hash i l d)
unfolding insert_lookups insert_transaction_lookup
insert_lookups-IsQuiet hash i [] d = quiet
insert_lookups-IsQuiet hash i (t ∷ l) d =
    let rest = insert_lookups-IsQuiet hash (suc i) l (insert_transaction_lookup t.hash hash i d) in
    record { heads = rest.heads; numbers = rest.numbers }

insert_receipts-IsQuiet :
    (hash i : ℕ) (l : List ℕ) (d : Database) → IsQuiet d (insert_receipts hash i l d)
unfolding insert_receipts insert_receipt
insert_receipts-IsQuiet hash i [] d = quiet
insert_receipts-IsQuiet hash i (t ∷ l) d =
    let rest = insert_receipts-IsQuiet hash (suc i) l (insert_receipt hash i t d) in
    record { heads = rest.heads; numbers = rest.numbers }

insert_metas-IsQuiet :
    (hash i : ℕ) (l : List ℕ) (d : Database) → IsQuiet d (insert_metas hash i l d)
unfolding insert_metas insert_receipt_meta
insert_metas-IsQuiet hash i [] d = quiet
insert_metas-IsQuiet hash i (t ∷ l) d =
    let rest = insert_metas-IsQuiet hash (suc i) l (insert_receipt_meta hash i t d) in
    record { heads = rest.heads; numbers = rest.numbers }

fix_td-IsQuiet :
    (hash : ℕ) (b : Block) (o : Option ℕ) (d : Database) → IsQuiet d (fix_td hash b o d)
unfolding fix_td put_td insert_header_td
fix_td-IsQuiet hash b none d = quiet
fix_td-IsQuiet hash b (some ptd) d =
    elim (Bool-cases (opt_eq (lookup hash d.header_tds) (some (add256 ptd b.header.difficulty)))) [
      | inl e ↦ rw (put_td, e) quiet
      | inr e ↦ rw (put_td, e) (record { heads = refl; numbers = refl })
    ]

module _ (hash_slow : Header → ℕ) where
  insert_block-tables :
      (b : Block) (receipts metas : List ℕ) (d : Database)
      → ((insert_block hash_slow b receipts metas d).canonical_heads ≡ d.canonical_heads)
        × ((insert_block hash_slow b receipts metas d).header_numbers
            ≡ insert (hash_slow b.header) b.header.number d.header_numbers)
  unfolding insert_block insert_header_td insert_block_body insert_header
  insert_block-tables b receipts metas d =
      let hash = hash_slow b.header in
      let body = insert_transactions-IsQuiet hash 0 b.body.transactions _ in
      let rec = insert_receipts-IsQuiet hash 0 receipts _ in
      let met = insert_metas-IsQuiet hash 0 metas _ in
      (met.heads ∙ rec.heads ∙ body.heads, met.numbers ∙ rec.numbers ∙ body.numbers)

  find_payload-hash :
      (hash : ℕ) (p : Payload) (m : Assoc Payload)
      → find_payload hash_slow hash m ≡ some p
      → hash_slow p.block.header ≡ hash
  unfolding find_payload
  find_payload-hash hash p [] e = absurd (ground arith)
  find_payload-hash hash p ((id, q) ∷ m) e = elim (Bool-cases (hash_slow q.block.header == hash)) [
    | inl same ↦
        ap (λ r. hash_slow r.block.header) (sym (some-injective q p (rw same at e)))
        ∙ (==_iff _ hash).0 same
    | inr other ↦ find_payload-hash hash p m (rw other at e)
  ]

  -- What the promotion of a payload changes.
  pub record IsPromoted (hash : ℕ) (d e : Database) : Type 0 where
    pub heads : e.canonical_heads ≡ d.canonical_heads
    pub others :
        (j : ℕ) → (hash == j) ≡ false → lookup j e.header_numbers ≡ lookup j d.header_numbers

  ensure_body-IsPromoted :
      (hash : ℕ) (d : Database) → IsPromoted hash d (ensure_body hash_slow hash d)
  unfolding ensure_body promote_payload remove_payload_by_block_hash
  ensure_body-IsPromoted hash d = elim (Bool-cases (is_some (lookup hash d.block_bodies))) [
    | inl e ↦ rw (ensure_body, e) (record { heads = refl; others = λ j n. refl })
    | inr e ↦ elim (Option-cases (find_payload hash_slow hash d.payloads)) [
      | inl no_payload ↦
          rw (ensure_body, e, no_payload, promote_payload)
            (record { heads = refl; others = λ j n. refl })
      | inr (p, found) ↦
          let (heads, numbers) = insert_block-tables p.block p.receipts p.metas d in
          let same = find_payload-hash hash p d.payloads found in
          rw (ensure_body, e, found, promote_payload)
            (record {
              heads = heads;
              others = λ j n.
                  ap (λ m. lookup j m) numbers
                  ∙ ground (
                    arith,
                    lookup-insert (hash_slow p.block.header) j p.block.header.number
                        d.header_numbers,
                    same,
                    n,
                  );
            })
    ]
  ]

  -- What marking a block changes.
  pub record IsMarked (b : Block) (d e : Database) : Type 0 where
    pub heads : e.canonical_heads ≡ insert b.header.number (hash_slow b.header) d.canonical_heads
    pub number : lookup (hash_slow b.header) e.header_numbers ≡ some b.header.number
    pub others :
        (j : ℕ)
        → (hash_slow b.header == j) ≡ false
        → lookup j e.header_numbers ≡ lookup j d.header_numbers

  mark_block-IsMarked : (b : Block) (d : Database) → IsMarked b d (mark_block hash_slow b d)
  unfolding mark_block set_canonical insert_header_number insert_block_hash
  mark_block-IsMarked b d =
      let hash = hash_slow b.header in
      let d0 = ensure_body hash_slow hash d in
      let d1 =
        insert_block_hash hash b.header.number
          (insert_header_number hash b.header.number (set_canonical b.header.number hash d0)) in
      let o = lookup b.header.parent_hash d1.header_tds in
      let promoted = ensure_body-IsPromoted hash d in
      let td = fix_td-IsQuiet hash b o d1 in
      let look = insert_lookups-IsQuiet hash 0 b.body.transactions (fix_td hash b o d1) in
      let twice = insert hash b.header.number (insert hash b.header.number d0.header_numbers) in
      record {
        heads = look.heads ∙ td.heads ∙ ap (insert b.header.number hash) promoted.heads;
        number =
            ap (λ m. lookup hash m) (look.numbers ∙ td.numbers)
            ∙ ground (
              arith,
              lookup-insert hash hash b.header.number
                  (insert hash b.header.number d0.header_numbers),
              ==_iff hash hash,
            );
        others = λ j n.
            ap (λ m. lookup j m) (look.numbers ∙ td.numbers)
            ∙ ground (
              arith,
              n,
              lookup-insert hash j b.header.number (insert hash b.header.number d0.header_numbers),
              lookup-insert hash j b.header.number d0.header_numbers,
            )
            ∙ promoted.others j n;
      }

  -- The blocks have different numbers and different hashes.
  abbrev pub IsApart : Block → Block → Type 0
  IsApart b c =
      ((b.header.number == c.header.number) ≡ false)
      × ((hash_slow b.header == hash_slow c.header) ≡ false)

  abbrev pub IsBranch : List Block → Type 0
  IsBranch [] = Unit
  IsBranch (b ∷ bs) = All (IsApart b) bs × IsBranch bs

  -- The index has the block at its number, and its number.
  abbrev pub IsIndexed : Database → Block → Type 0
  IsIndexed d b =
      (lookup b.header.number d.canonical_heads ≡ some (hash_slow b.header))
      × (lookup (hash_slow b.header) d.header_numbers ≡ some b.header.number)

  -- No block of the branch has the number.
  abbrev pub IsOff : ℕ → List Block → Type 0
  IsOff n bs = All (λ b. (b.header.number == n) ≡ false) bs

  IsIndexed-after :
      (b : Block) (d e : Database)
      → IsMarked b d e
      → (c : Block) → IsApart b c × IsIndexed d c
      → IsIndexed e c
  IsIndexed-after b d e m c (apart, (head, number)) = (
    ap (λ h. lookup c.header.number h) m.heads
        ∙ ground (
          arith,
          lookup-insert b.header.number c.header.number (hash_slow b.header) d.canonical_heads,
          apart.0,
          head,
        ),
    m.others (hash_slow c.header) apart.1 ∙ number,
  )

  both : (P Q : Block → Type 0) (bs : List Block) → All P bs → All Q bs → All (λ b. P b × Q b) bs
  both P Q [] p q = tt
  both P Q (b ∷ bs) p q = ((p.0, q.0), both P Q bs p.1 q.1)

-- After the blocks of a branch are marked, blocks with different numbers and hashes, each of them is
-- the canonical block at its number, and found there by its hash. The canonical blocks at other
-- numbers are those from before.
pub mark_branch_canonical-IsIndexed :
    (hash_slow : Header → ℕ) (bs : List Block) (d : Database)
    → IsBranch hash_slow bs
    → All (IsIndexed hash_slow (mark_branch_canonical hash_slow bs d)) bs
      × ((n : ℕ)
          → IsOff hash_slow n bs
          → lookup n (mark_branch_canonical hash_slow bs d).canonical_heads
            ≡ lookup n d.canonical_heads)
unfolding mark_branch_canonical
mark_branch_canonical-IsIndexed hash_slow [] d v = (tt, λ n off. refl)
mark_branch_canonical-IsIndexed hash_slow (b ∷ bs) d v =
    let d' = mark_branch_canonical hash_slow bs d in
    let (older, off) = mark_branch_canonical-IsIndexed hash_slow bs d v.1 in
    let m = mark_block-IsMarked hash_slow b d' in
    (
      (
        (
          ap (λ h. lookup b.header.number h) m.heads
              ∙ ground (
                arith,
                lookup-insert b.header.number b.header.number (hash_slow b.header)
                    d'.canonical_heads,
                ==_iff b.header.number b.header.number,
              ),
          m.number,
        ),
        All-map {P = λ c. IsApart hash_slow b c × IsIndexed hash_slow d' c}
            {Q = IsIndexed hash_slow (mark_block hash_slow b d')}
            (IsIndexed-after hash_slow b d' (mark_block hash_slow b d') m) bs
            (both hash_slow (IsApart hash_slow b) (IsIndexed hash_slow d') bs v.0 older),
      ),
      λ n away.
          ap (λ h. lookup n h) m.heads
          ∙ ground (
            arith,
            lookup-insert b.header.number n (hash_slow b.header) d'.canonical_heads,
            away.0,
          )
          ∙ off n away.1,
    )
