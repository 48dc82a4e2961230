-- ===== src/Chain/Reorg/Branch.antt =====
-- What `resolve_reorg` finds: the branch from the new head to a canonical block.
use wasm_based_evm.Prelude.{
  ℕ, zero, suc, ◌<◌, true, Option, none, some, List, [], ◌∷◌, ◌++◌, ◌==◌, ◌⊎◌, inl, inr, ◌≡◌, ◌≢◌,
  refl, sym, ap, ◌∙◌, arith, Bool-cases, Option-cases, ==_iff, ok, err, panic, is_some, or_else,
}
use mathlib.Core.Path.{ap₂}
use wasm_based_evm.Block.{Header, Block}
use wasm_based_evm.Chain.Storage.{Storage, present}
use wasm_based_evm.Chain.Reorg.{
  ReorgContext, Turn, ends, lacks, keeps, keep_block, keep_payload, conclude, conclude_all,
  on_chain, branch_block, branch_turn, walk_branch, resolve_reorg, Walked, ended,
}

module _ (s : Storage) where
  -- The database has the block under the hash, and its parent hash.
  abbrev pub IsBlock : ℕ → Block → Type 0
  IsBlock hash b = (present (s.block_by_hash hash) ≡ some b) ⊎ (s.payload hash ≡ some b)

  abbrev pub IsParent : ℕ → ℕ → Type 0
  IsParent hash parent =
      ((h : Header) × (present (s.header hash) ≡ some h) × (h.parent_hash ≡ parent))
      ⊎ ((b : Block) × (s.payload hash ≡ some b) × (b.header.parent_hash ≡ parent))

  -- The blocks lead from the hash down to the ancestor, the ancestor not included.
  pub data Branch : ℕ → List Block → ℕ → Type 0 where
    stop : {a : ℕ} → Branch a [] a
    link :
        {c p a : ℕ} {b : Block} {bs : List Block}
        → IsBlock c b
        → IsParent c p
        → Branch p bs a
        → Branch c (b ∷ bs) a

  branch_block-keeps :
      (c p : ℕ) (b : Block) → branch_block s c ≡ keeps b p → IsBlock c b × IsParent c p
  unfolding branch_block
  branch_block-keeps c p b e = elim (Option-cases (present (s.header c))) [
    | inl no_header ↦ of_payload (s.payload c) refl (rw (no_header, branch_block) at e)
    | inr (h, has_header) ↦
        of_header h has_header (present (s.block_by_hash c)) (s.payload c) refl refl
          (rw (has_header, branch_block) at e)
  ]
    where
      of_payload :
          (o : Option Block)
          → s.payload c ≡ o
          → keep_payload o ≡ keeps b p
          → IsBlock c b × IsParent c p
      of_payload none paid e = absurd (ground arith)
      of_payload (some b') paid e =
          let same : b' ≡ b = ground arith in
          let up : b'.header.parent_hash ≡ p = ground arith in
          (inr (paid ∙ ap some same), inr (b', paid, up))

      of_header :
          (h : Header)
          → present (s.header c) ≡ some h
          → (o q : Option Block) → present (s.block_by_hash c) ≡ o
          → s.payload c ≡ q
          → keep_block (or_else o q) h.parent_hash ≡ keeps b p
          → IsBlock c b × IsParent c p
      of_header h has none none stored paid e = absurd (ground arith)
      of_header h has none (some b') stored paid e =
          let same : b' ≡ b = ground arith in
          let up : h.parent_hash ≡ p = ground arith in (inr (paid ∙ ap some same), inl (h, has, up))
      of_header h has (some b') q stored paid e =
          let same : b' ≡ b = ground arith in
          let up : h.parent_hash ≡ p = ground arith in
          (inl (stored ∙ ap some same), inl (h, has, up))

  branch_turn-keeps :
      (old c p : ℕ) (b : Block) → branch_turn s old c ≡ keeps b p → branch_block s c ≡ keeps b p
  unfolding branch_turn
  branch_turn-keeps old c p b e = elim (Bool-cases (c == 0)) [
    | inl end ↦ absurd (ground (arith, rw end at e))
    | inr more ↦ elim (Bool-cases (c == old)) [
      | inl tip ↦ absurd (ground (arith, rw (more, tip) at e))
      | inr off ↦ elim (Bool-cases (on_chain s c)) [
        | inl main ↦ absurd (ground (arith, rw (more, off, main) at e))
        | inr side ↦ rw (more, off, side) at e
      ]
    ]
  ]

  Branch-append :
      {c d a : ℕ} {bs : List Block} {b : Block}
      → Branch c bs d
      → IsBlock d b
      → IsParent d a
      → Branch c (bs ++ (b ∷ [])) a
  Branch-append stop has linked = link has linked stop
  Branch-append (link h l rest) has linked = link h l (Branch-append rest has linked)

  -- The walk ends at the old head, or at a block that the index holds.
  abbrev pub IsAncestor : ℕ → ℕ → Type 0
  IsAncestor old a = (a ≡ old) ⊎ (on_chain s a ≡ true)

  branch_turn-ends :
      (old c a : ℕ) → branch_turn s old c ≡ ends (some a) → (c ≡ a) × IsAncestor old a
  unfolding branch_turn branch_block
  branch_turn-ends old c a e = elim (Bool-cases (c == 0)) [
    | inl end ↦ absurd (ground (arith, rw end at e))
    | inr more ↦ elim (Bool-cases (c == old)) [
      | inl tip ↦
          let same : old ≡ a = ground (arith, rw (more, tip) at e) in
          ((==_iff c old).0 tip ∙ same, inl (sym same))
      | inr off ↦ elim (Bool-cases (on_chain s c)) [
        | inl main ↦
            let same : c ≡ a = ground (arith, rw (more, off, main) at e) in
            (same, inr (rw same at main))
        | inr side ↦ absurd (block_goes_on (rw (more, off, side) at e))
      ]
    ]
  ]
    where
      keep_block_goes_on : (o : Option Block) (p : ℕ) → keep_block o p ≢ ends (some a)
      keep_block_goes_on none p e = absurd (ground arith)
      keep_block_goes_on (some b) p e = absurd (ground arith)

      keep_payload_goes_on : (o : Option Block) → keep_payload o ≢ ends (some a)
      keep_payload_goes_on none e = absurd (ground arith)
      keep_payload_goes_on (some b) e = absurd (ground arith)

      block_goes_on : branch_block s c ≢ ends (some a)
      block_goes_on e = elim (Option-cases (present (s.header c))) [
        | inl no_header ↦ keep_payload_goes_on _ (rw (no_header, branch_block) at e)
        | inr (h, has) ↦ keep_block_goes_on _ _ (rw (has, branch_block) at e)
      ]

  walk_branch-Branch :
      (fuel old new c a : ℕ) (blocks bs : List Block)
      → Branch new blocks c
      → walk_branch s fuel old c blocks ≡ some (ok (some a, bs))
      → Branch new bs a × IsAncestor old a
  unfolding walk_branch
  walk_branch-Branch zero old new c a blocks bs sofar e = absurd (ground arith)
  walk_branch-Branch (suc fuel) old new c a blocks bs sofar e =
      go (branch_turn s old c) refl
        (λ b p next. walk_branch-Branch fuel old new p a (blocks ++ (b ∷ [])) bs next) e
    where
      go :
          (r : Turn)
          → branch_turn s old c ≡ r
          → ((b : Block) (p : ℕ)
              → Branch new (blocks ++ (b ∷ [])) p
              → walk_branch s fuel old p (blocks ++ (b ∷ [])) ≡ some (ok (some a, bs))
              → Branch new bs a × IsAncestor old a)
          → (elim r [
            | ends a ↦ ended a blocks
            | lacks ↦ some (err tt)
            | keeps b parent ↦ walk_branch s fuel old parent (blocks ++ (b ∷ []))
          ])
            ≡ some (ok (some a, bs))
          → Branch new bs a × IsAncestor old a
      go (ends o) turned rest e =
          let found : o ≡ some a = ground arith in
          let same : blocks ≡ bs = ground arith in
          let (at_a, is) = branch_turn-ends old c a (turned ∙ ap ends found) in
          (rw (at_a, same) at sofar, is)
      go lacks turned rest e = absurd (ground arith)
      go (keeps b p) turned rest e =
          let (has, linked) = branch_block-keeps c p b (branch_turn-keeps old c p b turned) in
          rest b p (Branch-append sofar has linked) e

  walk_branch_ends :
      (height : ℕ → ℕ) (old : ℕ)
      → ((c p : ℕ) → IsParent c p → height p < height c)
      → (fuel c : ℕ) (blocks : List Block) → height c < fuel
      → is_some (walk_branch s fuel old c blocks) ≡ true
  unfolding walk_branch
  walk_branch_ends height old smaller zero c blocks enough = absurd (omega arith)
  walk_branch_ends height old smaller (suc fuel) c blocks enough =
      go (branch_turn s old c) refl
        (λ b p low. walk_branch_ends height old smaller fuel p (blocks ++ (b ∷ [])) low)
    where
      go :
          (r : Turn)
          → branch_turn s old c ≡ r
          → ((b : Block) (p : ℕ)
              → height p < fuel
              → is_some (walk_branch s fuel old p (blocks ++ (b ∷ []))) ≡ true)
          → is_some (elim r [
            | ends a ↦ ended a blocks
            | lacks ↦ some (err tt)
            | keeps b parent ↦ walk_branch s fuel old parent (blocks ++ (b ∷ []))
          ])
            ≡ true
      go (ends o) turned rest = refl
      go lacks turned rest = refl
      go (keeps b p) turned rest =
          let (has, linked) = branch_block-keeps c p b (branch_turn-keeps old c p b turned) in
          let lower = smaller c p linked in rest b p (omega (arith, lower, enough))

-- If the walk ends with a context that says it is a reorg, then its common ancestor is held by the
-- canonical index and is neither the old head nor the new one, and the context's blocks are the
-- branch from the new head down to it, each one stored under the parent hash of the one before.
pub resolve_reorg-Branch :
    (s : Storage) (fuel old new : ℕ) (r : ReorgContext)
    → resolve_reorg s fuel old new ≡ some (ok r)
    → r.is_reorg ≡ true
    → Branch s new r.new_canonical_blocks r.common_ancestor_hash
      × ((on_chain s r.common_ancestor_hash ≡ true)
          × ((r.common_ancestor_hash ≢ old) × (r.common_ancestor_hash ≢ new)))
unfolding resolve_reorg
resolve_reorg-Branch s fuel old new r e reorg = go (walk_branch s fuel old new []) refl e
  where
    concluded :
        (o : Option ℕ) (bs : List Block)
        → conclude old new o bs ≡ r
        → (o ≡ some r.common_ancestor_hash)
          × ((bs ≡ r.new_canonical_blocks)
              × ((r.common_ancestor_hash ≢ old) × (r.common_ancestor_hash ≢ new)))
    concluded none bs e = absurd (ground (arith, reorg, ap (λ (x : ReorgContext). x.is_reorg) e))
    concluded (some a) bs e = elim (Bool-cases (a == new)) [
      | inl tip ↦
          absurd (ground (arith, reorg, ap (λ (x : ReorgContext). x.is_reorg) (rw tip at e)))
      | inr off_new ↦ elim (Bool-cases (a == old)) [
        | inl tip ↦
            absurd (
              ground (arith, reorg, ap (λ (x : ReorgContext). x.is_reorg) (rw (off_new, tip) at e)))
        | inr off_old ↦
            let same : a ≡ r.common_ancestor_hash =
              ap (λ (x : ReorgContext). x.common_ancestor_hash) (rw (off_new, off_old) at e) in
            (
              ap some same,
              (
                ap (λ (x : ReorgContext). x.new_canonical_blocks) (rw (off_new, off_old) at e),
                ((λ h. ground (arith, h, same)), (λ h. ground (arith, h, same))),
              ),
            )
      ]
    ]

    ancestor :
        IsAncestor s old r.common_ancestor_hash
        → r.common_ancestor_hash ≢ old
        → on_chain s r.common_ancestor_hash ≡ true
    ancestor (inl tip) off = absurd (off tip)
    ancestor (inr main) off = main

    go :
        (w : Option Walked)
        → walk_branch s fuel old new [] ≡ w
        → conclude_all old new w ≡ some (ok r)
        → Branch s new r.new_canonical_blocks r.common_ancestor_hash
          × ((on_chain s r.common_ancestor_hash ≡ true)
              × ((r.common_ancestor_hash ≢ old) × (r.common_ancestor_hash ≢ new)))
    go none walked e = absurd (ground arith)
    go (some (ok (o, bs))) walked e =
        let (found, (same, (off_old, off_new))) = concluded o bs (ground (arith, e)) in
        let (branch, is) =
          walk_branch-Branch s fuel old new new r.common_ancestor_hash [] r.new_canonical_blocks
            stop (walked ∙ ap₂ ended found same) in
        (branch, (ancestor is off_old, (off_old, off_new)))
    go (some (err x)) walked e = absurd (ground arith)
    go (some panic) walked e = absurd (ground arith)

-- If a measure gets smaller from each block that is stored to its parent, then fuel above the
-- measure of the new head ends the walk.
pub resolve_reorg_total :
    (s : Storage) (height : ℕ → ℕ) (old new fuel : ℕ)
    → ((c p : ℕ) → IsParent s c p → height p < height c)
    → height new < fuel
    → is_some (resolve_reorg s fuel old new) ≡ true
unfolding resolve_reorg
resolve_reorg_total s height old new fuel smaller enough =
    concludes _ (walk_branch_ends s height old smaller fuel new [] enough)
  where
    concludes : (w : Option Walked) → is_some w ≡ true → is_some (conclude_all old new w) ≡ true
    concludes none e = e
    concludes (some (ok x)) e = refl
    concludes (some (err x)) e = refl
    concludes (some panic) e = refl
