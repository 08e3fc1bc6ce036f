-- ===== src/Gateway/Relay/Dedupe.antt =====
-- A transaction that is being relayed is not relayed again.
use koinos_evm_engine.Base.{
  ◌<◌, ◌≡◌, inl, inr, sym, ap, ◌∙◌, Bool, true, false, not, ◌&&◌, ◌||◌, Bool-cases, some,
  Option-cases, is_empty, ltb, arith,
}
use koinos_evm_engine.Base.Words.{Bytes}
use koinos_evm_engine.Gateway.TxMetaStore
use koinos_evm_engine.Gateway.TxMetaStore.{TxMeta, contains, get, insert}
use koinos_evm_engine.Gateway.TxMetaStore.Bounds.{IsStore}
use koinos_evm_engine.Gateway.TxMetaStore.Keeps.{get-insert}
use koinos_evm_engine.Gateway.EthTx.{Crypto, DecodedTx, decode_and_recover}
use koinos_evm_engine.Gateway.Relay.{
  Config, Clock, Gateway, Admission, bad_params, underpriced, already_known, reserved,
  u256_be_ge_u128, acquire, placeholder, reserve, admit,
}
use mathlib.Core.List.Memᴰ
use mathlib.Core.List.{Memᴰ}

contains-get :
    (s : TxMetaStore.TxMetaStore) (hash : Bytes) (meta : TxMeta)
    → get s hash ≡ some meta
    → contains s hash ≡ true
unfolding contains get
contains-get s hash meta h = ground (arith, h)

module _ (crypto : Crypto) (config : Config) (is_settled : Bytes → Bool) (raw : Bytes) where
  abbrev hash : Bytes
  hash = crypto.keccak256 raw

  -- The state behind a reservation.
  abbrev pub reserved_state : Clock → DecodedTx → Gateway → Gateway
  reserved_state clock d g = record (acquire g) {
    tx_meta = insert clock.instant hash (placeholder raw d) g.tx_meta;
  }

  -- The answer that a transaction below the floor gets.
  abbrev is_underpriced : DecodedTx → Bool
  is_underpriced d =
      ltb 0 config.min_gas_price_wei && not (u256_be_ge_u128 d.gas_price config.min_gas_price_wei)

  reserve-reserved :
      (clock : Clock) (g g' : Gateway) (h : Bytes) (d d' : DecodedTx)
      → reserve crypto config clock is_settled raw d g ≡ (reserved h d', g')
      → (h ≡ hash) × (d' ≡ d) × (g' ≡ reserved_state clock d g)
  unfolding reserve
  reserve-reserved clock g g' h d d' e =
      elim (Bool-cases (contains g.tx_meta hash || is_settled hash)) [
        | inl known ↦ absurd (ground (arith, e, known))
        | inr new ↦ (ground (arith, e, new), ground (arith, e, new), ground (arith, e, new))
      ]

  -- What a reservation was made of: the bytes were decoded, and met the floor.
  pub admit-reserved :
      (clock : Clock) (g g' : Gateway) (h : Bytes) (d : DecodedTx)
      → admit crypto config clock is_settled raw g ≡ (reserved h d, g')
      → (is_empty raw ≡ false)
        × (decode_and_recover crypto raw ≡ some d)
        × (is_underpriced d ≡ false)
        × (h ≡ hash)
        × (g' ≡ reserved_state clock d g)
  unfolding admit
  admit-reserved clock g g' h d e = elim (Bool-cases (is_empty raw)) [
    | inl empty ↦ absurd (ground (arith, e, empty))
    | inr full ↦ elim (Option-cases (decode_and_recover crypto raw)) [
      | inl fails ↦ absurd (ground (arith, e, full, fails))
      | inr (d', read) ↦ elim (Bool-cases (is_underpriced d')) [
        | inl low ↦ absurd (ground (arith, e, full, read, low))
        | inr met ↦
            let (named, same, state) =
              reserve-reserved clock g g' h d' d (ground (arith, e, full, read, met)) in
            (
              full,
              read ∙ ap some (sym same),
              ap is_underpriced same ∙ met,
              named,
              state ∙ ap (λ (x : DecodedTx). reserved_state clock x g) (sym same),
            )
      ]
    ]
  ]

  abbrev is_reserved : Admission → Bool
  is_reserved (reserved h d) = true
  is_reserved (already_known h) = false
  is_reserved bad_params = false
  is_reserved underpriced = false

  -- Any other answer changes nothing.
  pub admit-kept :
      (clock : Clock) (g g' : Gateway) (a : Admission)
      → is_reserved a ≡ false
      → admit crypto config clock is_settled raw g ≡ (a, g')
      → g' ≡ g
  unfolding admit reserve
  admit-kept clock g g' a h e = elim (Option-cases (decode_and_recover crypto raw)) [
    | inl fails ↦ ground (arith, e, fails)
    | inr (d, read) ↦ ground (arith, e, h, read)
  ]

  admit_known :
      (clock : Clock) (g : Gateway) (d : DecodedTx)
      → is_empty raw ≡ false
      → decode_and_recover crypto raw ≡ some d
      → is_underpriced d ≡ false
      → contains g.tx_meta hash ≡ true
      → admit crypto config clock is_settled raw g ≡ (already_known hash, g)
  unfolding admit reserve
  admit_known clock g d full read met known = ground (arith, full, read, met, known)

  -- While the placeholder of a reserved transaction is there, the same bytes are answered with the
  -- hash alone, and change nothing: this holds right behind the reservation, if the store is within
  -- its cap, its entries live for some time, and no entry of that hash is queued for that instant.
  pub admit-twice :
      (clock later : Clock) (g g' : Gateway) (h : Bytes) (d : DecodedTx)
      → admit crypto config clock is_settled raw g ≡ (reserved h d, g')
      → IsStore g.tx_meta
      → 0 < g.tx_meta.ttl
      → (Memᴰ (h, clock.instant) g.tx_meta.order → ⊥)
      → admit crypto config later is_settled raw g' ≡ (already_known h, g')
  admit-twice clock later g g' h d e store pos unseen =
      let (full, read, met, named, state) = admit-reserved clock g g' h d e in
      let kept =
        get-insert hash (placeholder raw d) clock.instant g.tx_meta store pos
          (λ m. unseen (Memᴰ.cast (ap (λ (k : Bytes). (k, clock.instant)) named) m)) in
      let there : contains g'.tx_meta hash ≡ true =
        ap (λ (s : Gateway). contains s.tx_meta hash) state
        ∙ contains-get _ hash (placeholder raw d) kept in
      admit_known later g' d full read met there
      ∙ ap (λ (k : Bytes). (already_known k, g')) (sym named)
