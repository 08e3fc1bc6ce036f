-- ===== src/Engine/Koinos.antt =====
-- koinos-evm/engine/src/koinos.rs: the Koinos system calls. The chain host is not part of the
-- program: it is the parameter `host`, a world that each `invoke_system_call` may change.
-- What a host writes into the return buffer is `written`; `rc` is the bit pattern of an `i32`.
use koinos_evm_engine.Base.{
  ℕ, ◌*◌, ◌%◌, ◌^◌, Bool, false, not, Option, none, some, List, [], ◌∷◌, ◌==◌, if◌then◌else◌,
}
use koinos_evm_engine.Base.Words.{Bytes}
use koinos_evm_engine.Engine.Proto.{
  encode_varint_field, encode_bool_field, encode_bytes_field, encode_submessage_field, Field,
  fields, get_varint, get_bytes,
}

abbrev pub sc_get_head_info : ℕ
sc_get_head_info = 1

abbrev pub sc_put_object : ℕ
sc_put_object = 301

abbrev pub sc_remove_object : ℕ
sc_remove_object = 302

abbrev pub sc_get_object : ℕ
sc_get_object = 303

abbrev pub sc_log : ℕ
sc_log = 401

abbrev pub sc_event : ℕ
sc_event = 402

abbrev pub sc_hash : ℕ
sc_hash = 501

abbrev pub sc_recover_public_key : ℕ
sc_recover_public_key = 502

abbrev pub sc_call : ℕ
sc_call = 601

abbrev pub sc_exit : ℕ
sc_exit = 602

abbrev pub sc_get_arguments : ℕ
sc_get_arguments = 603

abbrev pub sc_get_contract_id : ℕ
sc_get_contract_id = 604

abbrev pub sc_get_caller : ℕ
sc_get_caller = 605

abbrev pub hash_sha2_256 : ℕ
hash_sha2_256 = 0x12

abbrev pub hash_keccak_256 : ℕ
hash_keccak_256 = 0x1b

abbrev pub hash_ripemd_160 : ℕ
hash_ripemd_160 = 0x1053

abbrev pub dsa_ecdsa_secp256k1 : ℕ
dsa_ecdsa_secp256k1 = 0

abbrev pub ret_buf_size : ℕ
ret_buf_size = 1024 * 512

pub record Reply : Type 0 where
  pub rc : ℕ
  pub written : Bytes

pub record Host : Type 1 where
  pub World : Type 0
  pub invoke_system_call : ℕ → ℕ → Bytes → World → Reply × World

-- How a run of the contract goes on: it has a value, or `SC_EXIT` has ended it with these arguments.
pub data Outcome {ℓ} (A : Type ℓ) : Type ℓ where
  returned : A → Outcome A
  exited : Bytes → Outcome A

abbrev pub Sys {ℓ} : Type 0 → Type ℓ → Type ℓ
Sys W A = W → Outcome A × W

abbrev pub pure {ℓ} : {W : Type 0} {A : Type ℓ} → A → Sys W A
pure a w = (returned a, w)

abbrev pub go_on {ℓ κ} :
    {W : Type 0} {A : Type ℓ} {B : Type κ} → Outcome A × W → (A → Sys W B) → Outcome B × W
go_on (returned a, w) f = f a w
go_on (exited args, w) f = (exited args, w)

infixl 5 ◌>>=◌ ◌>>◌
abbrev pub ◌>>=◌ {ℓ κ} : {W : Type 0} {A : Type ℓ} {B : Type κ} → Sys W A → (A → Sys W B) → Sys W B
◌>>=◌ m f w = go_on (m w) f

abbrev pub ◌>>◌ {ℓ κ} : {W : Type 0} {A : Type ℓ} {B : Type κ} → Sys W A → Sys W B → Sys W B
m >> k = m >>= λ _. k

-- `ObjectSpace` of koinos-evm/engine/src/state.rs.
pub record ObjectSpace : Type 0 where
  pub system : Bool
  pub zone : Bytes
  pub id : ℕ

-- The last occurrence of a bytes field, as the loops over `FieldIter` leave it.
unfoldable pub last_bytes : ℕ → Bytes → List Field → Bytes
last_bytes n found [] = found
last_bytes n found ((f, value) ∷ rest) =
    last_bytes n (if f == n then elim (get_bytes value) [ none ↦ found | some v ↦ v ] else found)
      rest

-- The last occurrence of a varint field.
unfoldable pub last_varint : ℕ → ℕ → List Field → ℕ
last_varint n found [] = found
last_varint n found ((f, value) ∷ rest) =
    last_varint n (if f == n then elim (get_varint value) [ none ↦ found | some v ↦ v ] else found)
      rest

-- The first bytes field of that number, or no bytes: the loops that return from inside.
unfoldable pub first_bytes : ℕ → List Field → Bytes
first_bytes n [] = []
first_bytes n ((f, value) ∷ rest) =
    let later = first_bytes n rest in
    if f == n then elim (get_bytes value) [ none ↦ later | some v ↦ v ] else later

unfoldable pub encode_object_space : ObjectSpace → Bytes
encode_object_space space =
    encode_varint_field (encode_bytes_field (encode_bool_field [] 1 space.system) 2 space.zone) 3
      space.id

unfoldable pub put_object_arguments : ObjectSpace → Bytes → Bytes → Bytes
put_object_arguments space key obj =
    encode_bytes_field
      (encode_bytes_field (encode_submessage_field [] 1 (encode_object_space space)) 2 key) 3 obj

-- The arguments of `get_object` and of `remove_object`.
unfoldable pub object_arguments : ObjectSpace → Bytes → Bytes
object_arguments space key =
    encode_bytes_field (encode_submessage_field [] 1 (encode_object_space space)) 2 key

-- The inner loop of `get_object` over a `database_object`: `exists`, and the value.
unfoldable pub database_object : Bool × Bytes → List Field → Bool × Bytes
database_object acc [] = acc
database_object (here, value) ((f, v) ∷ rest) =
    database_object
      (if f == 1
        then (elim (get_varint v) [ none ↦ here | some n ↦ not (n == 0) ], value)
        else if f == 2
        then (here, elim (get_bytes v) [ none ↦ value | some b ↦ b ])
        else (here, value))
      rest

-- The outer loop of `get_object`.
unfoldable pub first_object : List Field → Option Bytes
first_object [] = none
first_object ((f, value) ∷ rest) =
    let later = first_object rest in
    if f == 1
    then elim (get_bytes value) [
      | none ↦ later
      | some message ↦
          let (here, obj) = database_object (false, []) (fields message) in
          if here then some obj else later
    ]
    else later

-- The arguments of `SC_EXIT` for a failure with a message.
unfoldable pub exit_error_arguments : Bytes → Bytes
exit_error_arguments message =
    encode_submessage_field (encode_varint_field [] 1 1) 2
      (encode_submessage_field [] 2 (encode_bytes_field [] 1 message))

unfoldable pub exit_success_arguments : Bytes → Bytes
exit_success_arguments result = encode_submessage_field [] 2 (encode_bytes_field [] 1 result)

pub record Arguments : Type 0 where
  pub entry_point : ℕ
  pub arguments : Bytes

-- The loops of `get_arguments`: each `argument_data` overwrites what an earlier one set.
unfoldable pub argument_data : Arguments → List Field → Arguments
argument_data acc [] = acc
argument_data acc ((f, value) ∷ rest) =
    argument_data
      (if f == 1
        then elim (get_bytes value) [
          | none ↦ acc
          | some message ↦ record {
            entry_point = last_varint 1 acc.entry_point (fields message) % 2 ^ 32;
            arguments = last_bytes 2 acc.arguments (fields message);
          }
        ]
        else acc)
      rest

-- The privilege, cut to a `u32`.
unfoldable pub caller_privilege : ℕ → List Field → ℕ
caller_privilege found [] = found
caller_privilege found ((f, value) ∷ rest) =
    caller_privilege
      (if f == 2 then elim (get_varint value) [ none ↦ found | some v ↦ v % 2 ^ 32 ] else found)
      rest

pub record Caller : Type 0 where
  pub caller : Bytes
  pub privilege : ℕ

-- The loops of `get_caller`.
unfoldable pub caller_data : Caller → List Field → Caller
caller_data acc [] = acc
caller_data acc ((f, value) ∷ rest) =
    caller_data
      (if f == 1
        then elim (get_bytes value) [
          | none ↦ acc
          | some message ↦ record {
            caller = last_bytes 1 acc.caller (fields message);
            privilege = caller_privilege acc.privilege (fields message);
          }
        ]
        else acc)
      rest

pub record HeadInfo : Type 0 where
  pub height : ℕ
  pub head_block_time : ℕ

-- The loop over `head_info`; a `head_topology` sets the height.
unfoldable pub head_info_fields : HeadInfo → List Field → HeadInfo
head_info_fields acc [] = acc
head_info_fields acc ((f, value) ∷ rest) =
    head_info_fields
      (if f == 1
        then elim (get_bytes value) [
          | none ↦ acc
          | some topology ↦ record acc { height = last_varint 2 acc.height (fields topology) }
        ]
        else if f == 2
        then elim (get_varint value) [ none ↦ acc | some v ↦ record acc { head_block_time = v } ]
        else acc)
      rest

unfoldable pub head_info : HeadInfo → List Field → HeadInfo
head_info acc [] = acc
head_info acc ((f, value) ∷ rest) =
    head_info
      (if f == 1
        then elim (get_bytes value) [
          | none ↦ acc
          | some message ↦ head_info_fields acc (fields message)
        ]
        else acc)
      rest
