-- ===== src/Database/Reset.antt =====
-- write.rs, `BatchWriter::reset_storage`, after a write in the same batch.
use wasm_based_evm.Prelude.{
  ℕ, ◌≡◌, refl, ap, ◌∙◌, none, lookup, lookup2, lookup2-insert2, some, is_some, inl, inr,
  Bool-cases, ==_refl,
}
use wasm_based_evm.Database.{contains}
use wasm_based_evm.Database.Batch.{
  BatchWriter, Tries, storage, keep_account, keep_slot, put_account, put_slot, touch_owner,
  update_account, update_storage, reset_storage,
}

module _ (tries : Tries) where
  keep_account-touched_storages :
      (a : ℕ) (b : BatchWriter) → (keep_account tries a b).touched_storages ≡ b.touched_storages
  unfolding keep_account
  keep_account-touched_storages a b = elim (Bool-cases (is_some (lookup a b.original_accounts))) [
    | inl e ↦ rw (keep_account, e) refl
    | inr e ↦ rw (keep_account, e) refl
  ]

  touch_owner-touched_storages :
      (a : ℕ) (b : BatchWriter) → (touch_owner tries a b).touched_storages ≡ b.touched_storages
  unfolding touch_owner update_account put_account
  touch_owner-touched_storages a b = elim (Bool-cases (contains a b.touched_accounts)) [
    | inl e ↦ rw (touch_owner, e) refl
    | inr e ↦ rw (touch_owner, e) (keep_account-touched_storages a b)
  ]

  lookup2-update_storage :
      (address slot value : ℕ) (b : BatchWriter)
      → lookup2 (address, slot) (update_storage tries address slot value b).touched_storages
        ≡ some value
  unfolding update_storage put_slot
  lookup2-update_storage address slot value b =
      let kept = keep_slot tries address slot b in
      ap (λ m. lookup2 (address, slot) m)
        (touch_owner-touched_storages address (put_slot tries address slot value kept))
      ∙ rw
          (
            lookup2-insert2 (address, slot) (address, slot) value kept.touched_storages,
            ==_refl address,
            ==_refl slot,
          )
          refl

-- A slot that a batch writes keeps its value when the storage of its account is reset later in the
-- same batch.
pub reset_keeps_written :
    (tries : Tries) (b : BatchWriter) (address slot value : ℕ)
    → storage tries address slot none
        (reset_storage tries address (update_storage tries address slot value b))
      ≡ value
unfolding storage reset_storage
reset_keeps_written tries b address slot value =
    rw (lookup2-update_storage tries address slot value b) refl
