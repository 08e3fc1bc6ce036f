-- ===== src/Engine/Trace/Components.antt =====
-- The reads of the database, the precompiles and the parser only make the calls of a read.
use koinos_evm_engine.Base.{◌+◌, ◌*◌, not, ℕ, Bool, List, [], ◌∷◌, ltb, leb, ◌==◌, bytes_eq, length}
use koinos_evm_engine.Base.Words.{Bytes}
use koinos_evm_engine.Engine.Koinos.{Host}
use koinos_evm_engine.Engine.Database.{Primitives, basic, code_by_hash, storage, block_hash}
use koinos_evm_engine.Engine.Tx.{Rlp, TxResult, ParsedTx}
use koinos_evm_engine.Engine.Tx.Sender.{
  keccak256, sign_hash, sign_legacy, sign_eip1559, address_of, recover_sender, sign_off,
  parse_legacy, parse_eip1559, parse_raw_tx,
}
use koinos_evm_engine.Engine.Precompiles.{
  padded, accepts_v, slice, div_ceil_32, recovered_address, ec_recover, sha256_run, ripemd160_run,
  identity_run,
}
use koinos_evm_engine.Engine.Trace.{AllowsReads, Only}
use koinos_evm_engine.Engine.Trace.Calls.{
  bind-Only, pure-Only, if-Only, get_object-Only, hash-Only, recover_public_key-Only,
  engine_space-Only,
}

module _ (host : Host) (allows : ℕ → Bool) (r : AllowsReads allows) where
  module _ (p : Primitives) where
    pub basic-Only : (address : Bytes) → Only host allows (basic p host address)
    unfolding basic
    basic-Only address = bind-Only host allows _ _ (engine_space-Only host allows r _) (λ space.
        bind-Only host allows _ _ (get_object-Only host allows r space address)
          (λ found. pure-Only host allows _))

    pub code_by_hash-Only : (code_hash : Bytes) → Only host allows (code_by_hash p host code_hash)
    unfolding code_by_hash
    code_by_hash-Only code_hash =
        if-Only host allows (bytes_eq code_hash p.keccak_empty) _ _ (pure-Only host allows _) (
          bind-Only host allows _ _ (engine_space-Only host allows r _) (λ space.
            bind-Only host allows _ _ (get_object-Only host allows r space code_hash)
              (λ found. pure-Only host allows _)))

    pub storage-Only :
        (address : Bytes) (index : ℕ) → Only host allows (storage p host address index)
    unfolding storage
    storage-Only address index =
        bind-Only host allows _ _ (engine_space-Only host allows r _) (λ space.
          bind-Only host allows _ _ (get_object-Only host allows r space _)
            (λ found. pure-Only host allows _))

    pub block_hash-Only : (number : ℕ) → Only host allows (block_hash p host number)
    unfolding block_hash
    block_hash-Only number = pure-Only host allows _

  pub recovered_address-Only : (pubkey : Bytes) → Only host allows (recovered_address host pubkey)
  unfolding recovered_address
  recovered_address-Only pubkey =
      if-Only host allows (ltb (length pubkey) 64) _ _ (pure-Only host allows _) (
        bind-Only host allows _ _ (hash-Only host allows r _ _)
          (λ multihash. pure-Only host allows _))

  pub ec_recover-Only :
      (input : Bytes) (gas_limit : ℕ) → Only host allows (ec_recover host input gas_limit)
  unfolding ec_recover
  ec_recover-Only input gas_limit =
      if-Only host allows (ltb gas_limit 3000) _ _ (pure-Only host allows _) (
        if-Only host allows (not (accepts_v (slice 32 64 (padded input)))) _ _
          (pure-Only host allows _)
          (bind-Only host allows _ _ (recover_public_key-Only host allows r _ _ _ _)
            recovered_address-Only))

  pub sha256_run-Only :
      (input : Bytes) (gas_limit : ℕ) → Only host allows (sha256_run host input gas_limit)
  unfolding sha256_run
  sha256_run-Only input gas_limit =
      if-Only host allows (ltb gas_limit (60 + 12 * div_ceil_32 (length input))) _ _
        (pure-Only host allows _)
        (bind-Only host allows _ _ (hash-Only host allows r _ _)
          (λ multihash. pure-Only host allows _))

  pub ripemd160_run-Only :
      (input : Bytes) (gas_limit : ℕ) → Only host allows (ripemd160_run host input gas_limit)
  unfolding ripemd160_run
  ripemd160_run-Only input gas_limit =
      if-Only host allows (ltb gas_limit (600 + 120 * div_ceil_32 (length input))) _ _
        (pure-Only host allows _)
        (bind-Only host allows _ _ (hash-Only host allows r _ _)
          (λ multihash. pure-Only host allows _))

  pub identity_run-Only :
      (input : Bytes) (gas_limit : ℕ) → Only host allows (identity_run host input gas_limit)
  unfolding identity_run
  identity_run-Only input gas_limit =
      if-Only host allows (ltb gas_limit (15 + 3 * div_ceil_32 (length input))) _ _
        (pure-Only host allows _) (pure-Only host allows _)

  module _ (rlp : Rlp) (p : Primitives) where
    keccak256-Only : (message : Bytes) → Only host allows (keccak256 rlp p host message)
    unfolding keccak256
    keccak256-Only message =
        bind-Only host allows _ _ (hash-Only host allows r _ _)
          (λ multihash. pure-Only host allows _)

    address_of-Only : (xy : TxResult Bytes) → Only host allows (address_of rlp p host xy)
    unfolding address_of
    address_of-Only (TxResult.err e) = pure-Only host allows _
    address_of-Only (TxResult.ok xy) =
        bind-Only host allows _ _ (hash-Only host allows r _ _)
          (λ multihash. pure-Only host allows _)

    recover_sender-Only :
        (msg_hash : Bytes) (rr s y_parity : ℕ)
        → Only host allows (recover_sender rlp p host msg_hash rr s y_parity)
    unfolding recover_sender
    recover_sender-Only msg_hash rr s y_parity =
        bind-Only host allows _ _ (recover_public_key-Only host allows r _ _ _ _)
          (λ pubkey. address_of-Only _)

    sign_hash-Only :
        (tx : ParsedTx) (hashed : TxResult Bytes)
        → Only host allows (sign_hash rlp p host tx hashed)
    unfolding sign_hash
    sign_hash-Only tx (TxResult.err e) = pure-Only host allows _
    sign_hash-Only tx (TxResult.ok h) =
        bind-Only host allows _ _ (recover_sender-Only h tx.r tx.s tx.y_parity)
          (λ sender. pure-Only host allows _)

    sign_off-Only :
        (preimage : Bytes) (tx : ParsedTx) → Only host allows (sign_off rlp p host preimage tx)
    unfolding sign_off
    sign_off-Only preimage tx =
        bind-Only host allows _ _ (keccak256-Only preimage) (sign_hash-Only tx)

    legacy-Only :
        (parsed : TxResult (List Bytes × ParsedTx))
        → Only host allows (sign_legacy rlp p host parsed)
    unfolding sign_legacy
    legacy-Only (TxResult.err e) = pure-Only host allows _
    legacy-Only (TxResult.ok (items, tx)) = sign_off-Only _ tx

    eip1559-Only :
        (parsed : TxResult (List Bytes × ParsedTx))
        → Only host allows (sign_eip1559 rlp p host parsed)
    unfolding sign_eip1559
    eip1559-Only (TxResult.err e) = pure-Only host allows _
    eip1559-Only (TxResult.ok (items, tx)) = sign_off-Only _ tx

    pub parse_raw_tx-Only : (raw : Bytes) → Only host allows (parse_raw_tx rlp p host raw)
    unfolding parse_raw_tx parse_legacy parse_eip1559
    parse_raw_tx-Only [] = pure-Only host allows _
    parse_raw_tx-Only (first ∷ rest) =
        if-Only host allows (leb 0xc0 first) _ _ (legacy-Only _)
          (if-Only host allows (first == 0x02) _ _ (eip1559-Only _) (pure-Only host allows _))
