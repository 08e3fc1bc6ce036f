-- ===== src/Gateway/TxMetaStore/Reached.antt =====
-- The stores that the gateway reaches from a new one, in any order of its operations.
use koinos_evm_engine.Base.{
  ℕ, ◌≤◌, ◌≡◌, refl, ◌∙◌, length, leb, if◌then◌else◌, Option-cases, inl, inr, arith,
}
use koinos_evm_engine.Base.Words.{Bytes}
use koinos_evm_engine.Base.Dict.{lookup}
use koinos_evm_engine.Gateway.TxMetaStore.{
  TxMeta, TxMetaStore, new, evict, insert, set_koinos_tx_id, remove,
}
use koinos_evm_engine.Gateway.TxMetaStore.Bounds.{
  IsStore, new-IsStore, insert-IsStore, remove-IsStore, set_koinos_tx_id-IsStore,
}

module _ (cap ttl : ℕ) where
  pub data Reached : TxMetaStore → Type 0 where
    started : Reached (new cap ttl)
    inserted :
        {s : TxMetaStore} (now : ℕ) (hash : Bytes) (meta : TxMeta)
        → Reached s
        → Reached (insert now hash meta s)
    patched : {s : TxMetaStore} (hash id : Bytes) → Reached s → Reached (set_koinos_tx_id hash id s)
    removed : {s : TxMetaStore} (hash : Bytes) → Reached s → Reached (remove hash s)

  insert-cap :
      (now : ℕ) (hash : Bytes) (meta : TxMeta) (s : TxMetaStore)
      → (insert now hash meta s).cap ≡ s.cap
  unfolding insert evict
  insert-cap now hash meta s = refl

  set_koinos_tx_id-cap :
      (hash id : Bytes) (s : TxMetaStore) → (set_koinos_tx_id hash id s).cap ≡ s.cap
  unfolding set_koinos_tx_id
  set_koinos_tx_id-cap hash id s = elim (Option-cases (lookup s.entries hash)) [
    | inl absent ↦ rw (set_koinos_tx_id, absent) refl
    | inr ((meta, t), present) ↦ rw (set_koinos_tx_id, present) refl
  ]

  Reached-IsStore : (s : TxMetaStore) → Reached s → IsStore s × (s.cap ≡ (new cap ttl).cap)
  unfolding remove
  Reached-IsStore s started = (new-IsStore cap ttl, refl)
  Reached-IsStore s (inserted {s = before} now hash meta r) =
      let (h, e) = Reached-IsStore before r in
      (insert-IsStore now hash meta before h, insert-cap now hash meta before ∙ e)
  Reached-IsStore s (patched {s = before} hash id r) =
      let (h, e) = Reached-IsStore before r in
      (set_koinos_tx_id-IsStore hash id before h, set_koinos_tx_id-cap hash id before ∙ e)
  Reached-IsStore s (removed {s = before} hash r) =
      let (h, e) = Reached-IsStore before r in (remove-IsStore hash before h, e)

  -- However `insert`, `set_koinos_tx_id` and `remove` are mixed, a store that started empty holds
  -- at most its cap of transactions, where a cap of 0 counts as 1.
  pub length-Reached :
      (s : TxMetaStore) → Reached s → length s.entries ≤ (if leb cap 1 then 1 else cap)
  unfolding new
  length-Reached s r = let (h, e) = Reached-IsStore s r in omega (arith, h.within, e)
