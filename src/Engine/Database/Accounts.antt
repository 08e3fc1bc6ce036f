-- ===== src/Engine/Database/Accounts.antt =====
-- The stored form of an account in koinos-evm/engine/src/database.rs.
use koinos_evm_engine.Base.{
  ℕ, zero, suc, ◌^◌, ◌<◌, ◌≡◌, refl, ap, ◌∙◌, none, some, List, [], ◌∷◌, ◌++◌, length, All, arith,
}
use koinos_evm_engine.Base.Words.{Bytes, IsU64}
use koinos_evm_engine.Engine.Proto.{
  encode_varint_field, encode_bytes_field, get_varint, get_bytes, Field, usize_limit,
}
use koinos_evm_engine.Engine.Proto.Fields.{IsWritten}
use koinos_evm_engine.Engine.Proto.Messages.{encode_message}
use koinos_evm_engine.Engine.Proto.Compose.{
  opt_varint, opt_bytes, add_varint, add_bytes, encode_message-nil, All-append,
  opt_varint-IsWritten, opt_bytes-IsWritten, fields_of, length-add_bytes-le, length-add_varint-le,
}
use koinos_evm_engine.Engine.Database.{
  Primitives, AccountInfo, serialize_account, account_field, account_fields, default_account,
  deserialize_account,
}

module _ (p : Primitives) where
  -- An account that revm may hand over: its fields fit their words.
  pub record IsAccount (info : AccountInfo) : Type 0 where
    pub nonce_word : IsU64 info.nonce
    pub balance_word : info.balance < 2 ^ 256
    pub hash_size : length info.code_hash ≡ 32

  abbrev pub stored_fields : AccountInfo → List Field
  stored_fields info =
      (opt_varint 1 info.nonce ++ opt_bytes 2 (p.to_be_bytes info.balance))
      ++ opt_bytes 3 info.code_hash

  pub serialize-message :
      (info : AccountInfo) → serialize_account p info ≡ encode_message (stored_fields info)
  unfolding serialize_account
  serialize-message info =
      ap
        (λ (b : Bytes).
          encode_bytes_field (encode_bytes_field (encode_varint_field b 1 info.nonce) 2 bal) 3
            info.code_hash)
        encode_message-nil
      ∙ ap (λ (b : Bytes). encode_bytes_field (encode_bytes_field b 2 bal) 3 info.code_hash)
          (add_varint [] 1 info.nonce)
      ∙ ap (λ (b : Bytes). encode_bytes_field b 3 info.code_hash)
          (add_bytes (opt_varint 1 info.nonce) 2 bal)
      ∙ add_bytes (opt_varint 1 info.nonce ++ opt_bytes 2 bal) 3 info.code_hash
    where
      bal : Bytes
      bal = p.to_be_bytes info.balance

  pub stored_fields-IsWritten :
      (info : AccountInfo) → IsU64 info.nonce → All IsWritten (stored_fields info)
  stored_fields-IsWritten info h =
      All-append IsWritten (opt_varint 1 info.nonce ++ opt_bytes 2 bal) (opt_bytes 3 info.code_hash)
        (All-append IsWritten (opt_varint 1 info.nonce) (opt_bytes 2 bal)
          (opt_varint-IsWritten 1 info.nonce (omega arith) h)
          (opt_bytes-IsWritten 2 bal (omega arith)))
        (opt_bytes-IsWritten 3 info.code_hash (omega arith))
    where
      bal : Bytes
      bal = p.to_be_bytes info.balance

  read_fields :
      (n : ℕ) (bal hash : Bytes)
      → length bal ≡ 32
      → length hash ≡ 32
      → account_fields p
          (default_account p)
          ((opt_varint 1 n ++ opt_bytes 2 bal) ++ opt_bytes 3 hash)
        ≡ record { nonce = n; balance = p.from_be_slice bal; code_hash = hash; code = none }
  unfolding account_fields account_field get_varint get_bytes
  read_fields zero (b ∷ bs) (c ∷ cs) hb hh = ground arith
  read_fields (suc n) (b ∷ bs) (c ∷ cs) hb hh = ground arith
  read_fields n [] hash hb hh = absurd (omega arith)
  read_fields n (b ∷ bs) [] hb hh = absurd (omega arith)

  pub stored_size :
      (info : AccountInfo) → IsAccount info → length (serialize_account p info) < usize_limit
  unfolding serialize_account
  stored_size info h = omega (
    arith,
    p.length_to_be_bytes info.balance,
    h.hash_size,
    length-add_varint-le [] 1 info.nonce (omega arith) h.nonce_word,
    length-add_bytes-le (encode_varint_field [] 1 info.nonce) 2 (p.to_be_bytes info.balance)
        (omega arith) (omega (arith, p.length_to_be_bytes info.balance)),
    length-add_bytes-le
        (encode_bytes_field (encode_varint_field [] 1 info.nonce) 2 (p.to_be_bytes info.balance)) 3
        info.code_hash (omega arith) (omega (arith, h.hash_size)),
  )

  -- What `deserialize_account` reads is the account that `serialize_account` wrote, without the code.
  pub deserialize-serialize :
      (info : AccountInfo)
      → IsAccount info
      → deserialize_account p (serialize_account p info) ≡ some (record info { code = none })
  unfolding deserialize_account
  deserialize-serialize info h =
      rw
        (
          fields_of (stored_fields info) (serialize-message info)
              (stored_fields-IsWritten info h.nonce_word) (stored_size info h),
          read_fields info.nonce (p.to_be_bytes info.balance) info.code_hash
              (p.length_to_be_bytes info.balance) h.hash_size,
          p.from_be_slice-to_be_bytes info.balance h.balance_word,
        )
        refl
