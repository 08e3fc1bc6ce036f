-- ===== src/Gateway/EngineProto/Agree.antt =====
-- The gateway reads what the engine wrote, and the engine what the gateway wrote.
use koinos_evm_engine.Base.{
  ℕ, zero, suc, ◌<◌, ◌≤◌, ◌≡◌, ◌≢◌, refl, ap, ◌∙◌, Bool, true, false, Option, none, some, List, [],
  ◌∷◌, ◌++◌, map, length, length-append, All, arith,
}
use koinos_evm_engine.Base.Words.{Bytes, IsU64}
use koinos_evm_engine.Engine.Proto.{
  usize_limit, encode_bytes_field, encode_varint_field, encode_varint, encode_tag,
  wire_length_delimited, Field, FieldIter, unread, advance,
}
use koinos_evm_engine.Engine.Proto.Fields.{encode_field, IsWritten}
use koinos_evm_engine.Engine.Proto.Iter.{next-encode_field, unread-advance_append, length-unread}
use koinos_evm_engine.Engine.Proto.Messages.{encode_message, length-encode_field}
use koinos_evm_engine.Engine.Proto.Compose.{opt_varint, opt_bytes}
use koinos_evm_engine.Engine.Database.{Primitives, AccountInfo, serialize_account}
use koinos_evm_engine.Engine.Database.Accounts.{
  IsAccount, stored_fields, serialize-message, stored_fields-IsWritten, stored_size,
}
use koinos_evm_engine.Engine.Evm.{encode_evm_result}
use koinos_evm_engine.Engine.Evm.Messages.{
  result_fields, encode_evm_result-message, result_fields-IsWritten,
}
use koinos_evm_engine.Gateway.EngineProto.{
  ok, ◌>>=!◌, ProtoIter, ProtoField, next, items_from, items, account_item, account_items,
  empty_account, decode_account, result_item, result_items, empty_result, decode_evm_result,
}
use koinos_evm_engine.Gateway.EngineProto.Read.{as_item, as_iter, next_agrees}

items_from_end : (fuel : ℕ) (it : ProtoIter) → length it.buf ≤ it.pos → items_from fuel it ≡ ok []
unfolding items_from next
items_from_end zero it h = refl
items_from_end (suc fuel) it h = ground arith

pub items_from_step :
    (fuel : ℕ) (it it' : ProtoIter) (f : ProtoField) (fs : List ProtoField)
    → next it ≡ some (ok f, it')
    → items_from fuel it' ≡ ok fs
    → items_from (suc fuel) it ≡ ok (f ∷ fs)
unfolding items_from
items_from_step fuel it it' f fs e rest = rw (e, items_from) (rw rest refl)

pub items_from-encode_message :
    (fuel : ℕ) (it : FieldIter) (fs : List Field)
    → length it.input < usize_limit
    → All IsWritten fs
    → unread it ≡ encode_message fs
    → length (unread it) ≤ fuel
    → items_from fuel (as_iter it) ≡ ok (map as_item fs)
unfolding encode_message
items_from-encode_message fuel it [] small h e hf =
    items_from_end fuel (as_iter it) (omega (arith, ap length e, length-unread it))
items_from-encode_message zero it (field ∷ fs) small (hw, h) e hf = absurd (
    omega (
      arith,
      ap length e,
      length-append (encode_field [] field) (encode_message fs),
      length-encode_field field hw,
    ))
items_from-encode_message (suc fuel) it (field ∷ fs) small (hw, h) e hf =
    let k : ℕ = length (encode_field [] field) in
    let behind = unread-advance_append it k (encode_field [] field) (encode_message fs) e refl in
    items_from_step fuel (as_iter it) (as_iter (advance it k)) (as_item field) (map as_item fs)
      (next_agrees it (advance it k) field
        (next-encode_field it field (encode_message fs) small hw e))
      (items_from-encode_message fuel (advance it k) fs small h behind (
        omega (
          arith,
          ap length e,
          ap length behind,
          length-append (encode_field [] field) (encode_message fs),
          length-encode_field field hw,
        )))

-- A buffer that is known as a message of the engine is read as its fields.
pub items_of :
    {buf : Bytes} (fs : List Field)
    → buf ≡ encode_message fs
    → All IsWritten fs
    → length buf < usize_limit
    → items buf ≡ ok (map as_item fs)
unfolding items
items_of {buf} fs e h small =
    items_from-encode_message (length buf) (record { input = buf; pos = 0 }) fs small h e
      (omega arith)

no_address : (a : Bytes) → a ≡ [] → length a ≢ 20
no_address a e h = omega (arith, ap length e)

read_result :
    (succeeded : Bool) (output : Bytes) (gas_used : ℕ) (address : Option Bytes)
    → ((a : Bytes) → address ≡ some a → length a ≡ 20)
    → result_items empty_result (map as_item (result_fields succeeded output gas_used address))
      ≡ record {
        succeeded = succeeded;
        output = output;
        gas_used = gas_used;
        contract_address = address;
      }
unfolding result_items result_item
read_result s o g (some []) h = absurd (omega (arith, h [] refl))
read_result false [] zero none h = refl
read_result false [] (suc g) none h = refl
read_result false (o ∷ os) zero none h = refl
read_result false (o ∷ os) (suc g) none h = refl
read_result true [] zero none h = refl
read_result true [] (suc g) none h = refl
read_result true (o ∷ os) zero none h = refl
read_result true (o ∷ os) (suc g) none h = refl
read_result false [] zero (some (a ∷ bs)) h = rw (h (a ∷ bs) refl) refl
read_result false [] (suc g) (some (a ∷ bs)) h = rw (h (a ∷ bs) refl) refl
read_result false (o ∷ os) zero (some (a ∷ bs)) h = rw (h (a ∷ bs) refl) refl
read_result false (o ∷ os) (suc g) (some (a ∷ bs)) h = rw (h (a ∷ bs) refl) refl
read_result true [] zero (some (a ∷ bs)) h = rw (h (a ∷ bs) refl) refl
read_result true [] (suc g) (some (a ∷ bs)) h = rw (h (a ∷ bs) refl) refl
read_result true (o ∷ os) zero (some (a ∷ bs)) h = rw (h (a ∷ bs) refl) refl
read_result true (o ∷ os) (suc g) (some (a ∷ bs)) h = rw (h (a ∷ bs) refl) refl

-- The gateway's `decode_evm_result` reads back the result that the engine's `encode_evm_result`
-- wrote, with its gas cost, output and contract address, if the gas fits 64 bits, the address has
-- 20 bytes and the message fits the memory.
pub decode_evm_result-encode_evm_result :
    (succeeded : Bool) (output : Bytes) (gas_used : ℕ) (address : Option Bytes)
    → IsU64 gas_used
    → ((a : Bytes) → address ≡ some a → length a ≡ 20)
    → length (encode_evm_result succeeded output gas_used address) < usize_limit
    → decode_evm_result (encode_evm_result succeeded output gas_used address)
      ≡ ok (record {
        succeeded = succeeded;
        output = output;
        gas_used = gas_used;
        contract_address = address;
      })
unfolding decode_evm_result
decode_evm_result-encode_evm_result s o g a hg ha small =
    ap (λ r. r >>=! λ fs. ok (result_items empty_result fs))
      (items_of (result_fields s o g a) (encode_evm_result-message s o g a)
        (result_fields-IsWritten s o g a hg) small)
    ∙ ap ok (read_result s o g a ha)

bytes_kept : (out : Bytes) (f : ℕ) (v : Bytes) → length v ≤ length (encode_bytes_field out f v)
unfolding encode_bytes_field
bytes_kept out f [] = omega arith
bytes_kept out f (b ∷ bs) = omega (
  arith,
  length-append (encode_varint (encode_tag out f wire_length_delimited) (length (b ∷ bs))) (b ∷ bs),
)

module _ (p : Primitives) where
  read_account :
      (n : ℕ) (bal hash : Bytes)
      → length bal ≡ 32
      → length hash ≡ 32
      → account_items empty_account
          (map as_item ((opt_varint 1 n ++ opt_bytes 2 bal) ++ opt_bytes 3 hash))
        ≡ record { nonce = n; balance = bal; code_hash = hash }
  unfolding account_items account_item
  read_account n [] hash hb hh = absurd (omega arith)
  read_account n (b ∷ bs) [] hb hh = absurd (omega arith)
  read_account zero (b ∷ bs) (c ∷ cs) hb hh = ground arith
  read_account (suc n) (b ∷ bs) (c ∷ cs) hb hh = ground arith

  -- A reply that holds fields is not the empty reply of an absent account.
  written_account :
      (b : Bytes) (fs : List ProtoField)
      → length b ≢ 0
      → items b ≡ ok fs
      → decode_account b ≡ ok (some (account_items empty_account fs))
  unfolding decode_account
  written_account [] fs h e = absurd (h refl)
  written_account (b ∷ bs) fs h e = rw e refl

  stored_bytes : (info : AccountInfo) → IsAccount p info → length (serialize_account p info) ≢ 0
  unfolding serialize_account
  stored_bytes info h e = omega (
    arith,
    e,
    h.hash_size,
    bytes_kept
        (encode_bytes_field (encode_varint_field [] 1 info.nonce) 2 (p.to_be_bytes info.balance)) 3
        info.code_hash,
  )

  -- The gateway's `decode_account` reads the nonce, the balance word and the code hash of an account
  -- that the engine's `serialize_account` stored, if the account fits its words.
  pub decode_account-serialize_account :
      (info : AccountInfo)
      → IsAccount p info
      → decode_account (serialize_account p info)
        ≡ ok (
            some (record {
              nonce = info.nonce;
              balance = p.to_be_bytes info.balance;
              code_hash = info.code_hash;
            }))
  decode_account-serialize_account info h =
      written_account (serialize_account p info) (map as_item (stored_fields p info))
        (stored_bytes info h)
        (items_of (stored_fields p info) (serialize-message p info)
          (stored_fields-IsWritten p info h.nonce_word) (stored_size p info h))
      ∙ ap (λ a. ok (some a))
          (read_account info.nonce (p.to_be_bytes info.balance) info.code_hash
            (p.length_to_be_bytes info.balance) h.hash_size)
