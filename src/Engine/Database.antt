-- ===== src/Engine/Database.antt =====
-- koinos-evm/engine/src/database.rs: revm's `Database` and `DatabaseCommit` over the object space.
-- A U256 is a number, a B256 and an address are byte strings. The conversions of a U256 to and from
-- its 32 bytes, the hash of no bytes and `Bytecode` are revm's: parameters (`Primitives`).
pub mod Accounts
use koinos_evm_engine.Base.{
  ℕ, ◌^◌, ◌<◌, ◌≡◌, Bool, not, ◌&&◌, Option, none, some, List, [], ◌∷◌, length, is_empty, ◌==◌,
  if◌then◌else◌, bytes_eq,
}
use koinos_evm_engine.Base.Words.{Bytes}
use koinos_evm_engine.Engine.Proto.{
  encode_varint_field, encode_bytes_field, Field, fields, get_varint, get_bytes,
}
use koinos_evm_engine.Engine.Koinos.{Host, pure, ◌>>=◌, ◌>>◌, ObjectSpace}
use koinos_evm_engine.Engine.Sys.{
  Run, accounts_space, code_space, storage_space, storage_key, put_object, get_object,
  remove_object,
}

-- What the engine takes from revm's primitives.
pub record Primitives : Type 0 where
  pub from_be_slice : Bytes → ℕ
  pub to_be_bytes : ℕ → Bytes
  pub keccak_empty : Bytes
  pub length_to_be_bytes : (v : ℕ) → length (to_be_bytes v) ≡ 32
  pub from_be_slice-to_be_bytes : (v : ℕ) → v < 2 ^ 256 → from_be_slice (to_be_bytes v) ≡ v
  pub length_keccak_empty : length keccak_empty ≡ 32

-- `code` holds the original bytes of a loaded `Bytecode`.
pub record AccountInfo : Type 0 where
  pub nonce : ℕ
  pub balance : ℕ
  pub code_hash : Bytes
  pub code : Option Bytes

-- `ReadError` and `WriteError` are declared and never constructed.
pub data KoinosDbError : Type 0 where
  read_error write_error invalid_data : KoinosDbError

pub data DbResult {ℓ} (A : Type ℓ) : Type ℓ where
  ok : A → DbResult A
  err : KoinosDbError → DbResult A

-- revm's `Account`: its status, and the present value of each changed slot.
pub record Account : Type 0 where
  pub info : AccountInfo
  pub touched : Bool
  pub selfdestructed : Bool
  pub storage : List (ℕ × ℕ)

-- The three spaces that `commit` looks up before its loop.
pub record Spaces : Type 0 where
  pub accounts : ObjectSpace
  pub code : ObjectSpace
  pub storage : ObjectSpace

module _ (p : Primitives) where
  unfoldable pub serialize_account : AccountInfo → Bytes
  serialize_account info =
      encode_bytes_field
        (encode_bytes_field (encode_varint_field [] 1 info.nonce) 2 (p.to_be_bytes info.balance)) 3
        info.code_hash

  unfoldable pub account_field : AccountInfo → Field → AccountInfo
  account_field info (f, value) =
      if f == 1
      then elim (get_varint value) [ none ↦ info | some v ↦ record info { nonce = v } ]
      else if f == 2
      then elim (get_bytes value) [
        | none ↦ info
        | some b ↦ if length b == 32 then record info { balance = p.from_be_slice b } else info
      ]
      else if f == 3
      then elim (get_bytes value) [
        | none ↦ info
        | some b ↦ if length b == 32 then record info { code_hash = b } else info
      ]
      else info

  unfoldable pub account_fields : AccountInfo → List Field → AccountInfo
  account_fields info [] = info
  account_fields info (field ∷ rest) = account_fields (account_field info field) rest

  abbrev pub default_account : AccountInfo
  default_account = record { nonce = 0; balance = 0; code_hash = p.keccak_empty; code = none }

  -- It returns `Some` on every input.
  unfoldable pub deserialize_account : Bytes → Option AccountInfo
  deserialize_account stored = some (account_fields default_account (fields stored))

  module _ (host : Host) where
    unfoldable pub basic : Bytes → Run host (DbResult (Option AccountInfo))
    basic address = do
      space ← accounts_space host
      found ← get_object host space address
      pure (elim found [
        | none ↦ ok none
        | some stored ↦ elim (deserialize_account stored) [
          | none ↦ err invalid_data
          | some info ↦ ok (some info)
        ]
      ])

    unfoldable pub code_by_hash : Bytes → Run host (DbResult Bytes)
    code_by_hash code_hash = if bytes_eq code_hash p.keccak_empty then pure (ok []) else do
      space ← code_space host
      found ← get_object host space code_hash
      pure (elim found [ none ↦ ok [] | some stored ↦ ok stored ])

    -- A value that is not 32 bytes long reads as zero.
    unfoldable pub storage : Bytes → ℕ → Run host (DbResult ℕ)
    storage address index = do
      space ← storage_space host
      found ← get_object host space (storage_key address (p.to_be_bytes index))
      pure (elim found [
        | none ↦ ok 0
        | some stored ↦ if length stored == 32 then ok (p.from_be_slice stored) else ok 0
      ])

    -- The hash of a block is always zero.
    unfoldable pub block_hash : ℕ → Run host (DbResult ℕ)
    block_hash number = pure (ok 0)

    unfoldable pub commit_slot : ObjectSpace → Bytes → ℕ × ℕ → Run host (Unit {0})
    commit_slot space address (slot, value) =
        let key = storage_key address (p.to_be_bytes slot) in
        if value == 0
        then remove_object host space key
        else put_object host space key (p.to_be_bytes value)

    unfoldable pub commit_slots : ObjectSpace → Bytes → List (ℕ × ℕ) → Run host (Unit {0})
    commit_slots space address [] = pure tt
    commit_slots space address (change ∷ rest) =
        commit_slot space address change >> commit_slots space address rest

    -- Only code that is loaded, not empty, and not the code of an account without one.
    unfoldable pub commit_code : ObjectSpace → AccountInfo → Run host (Unit {0})
    commit_code space info = elim info.code [
      | none ↦ pure tt
      | some code ↦
          if not (is_empty code) && not (bytes_eq info.code_hash p.keccak_empty)
          then put_object host space info.code_hash code
          else pure tt
    ]

    unfoldable pub commit_account : Spaces → Bytes × Account → Run host (Unit {0})
    commit_account spaces (address, account) =
        if not account.touched
        then pure tt
        else if account.selfdestructed
        then remove_object host spaces.accounts address
        else do
          put_object host spaces.accounts address (serialize_account account.info)
          commit_code spaces.code account.info
          commit_slots spaces.storage address account.storage

    unfoldable pub commit_accounts : Spaces → List (Bytes × Account) → Run host (Unit {0})
    commit_accounts spaces [] = pure tt
    commit_accounts spaces (change ∷ rest) =
        commit_account spaces change >> commit_accounts spaces rest

    -- The changes are a hash map in the source: a list in the order of its iteration.
    unfoldable pub commit : List (Bytes × Account) → Run host (Unit {0})
    commit changes = do
      accounts ← accounts_space host
      code ← code_space host
      slots ← storage_space host
      commit_accounts (record { accounts = accounts; code = code; storage = slots }) changes
