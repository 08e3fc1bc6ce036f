-- ===== src/Gateway/EngineProto.antt =====
-- koinos-evm/rpc/src/engine_proto.rs: the messages that the gateway and the engine exchange.
-- A `usize` has 64 bits here. An `anyhow!` error is known by its message.
pub mod Write
pub mod Read
pub mod Agree
pub mod CallMessage
pub mod CallArgs
use koinos_evm_engine.Base.{
  ℕ, zero, suc, ◌+◌, ◌*◌, ◌/◌, ◌%◌, ◌^◌, ◌<◌, ◌≤◌, bit_and, bit_or, Bool, ◌&&◌, not, Option, none,
  some, List, [], ◌∷◌, ◌++◌, length, is_empty, take, drop, replicate, ltb, leb, ◌==◌, if◌then◌else◌,
  arith,
}
use koinos_evm_engine.Base.Words.{Bytes}
use koinos_evm_engine.Base.Order.{lt_wf}
use mathlib.Core.Logic.{dite}
use mathlib.Core.WellFounded.{Acc}
use native.Mathlib.Decide.{dec_le}

-- `panicked` is a slice out of range, or an overflow of `usize`: both stop the thread.
pub data ProtoError : Type 0 where
  truncated too_long overflows_buf : ProtoError
  unsupported_wire_type : ℕ → ProtoError
  panicked : ProtoError

pub data Result {ℓ} (A : Type ℓ) : Type ℓ where
  ok : A → Result A
  err : ProtoError → Result A

infixl 5 ◌>>=!◌
abbrev pub ◌>>=!◌ {ℓ κ} : {A : Type ℓ} {B : Type κ} → Result A → (A → Result B) → Result B
ok a >>=! f = f a
err e >>=! f = err e

-- The loop of `read_varint` on the bytes from `pos` on, and the position that it leaves.
unfoldable pub read_varint_loop : Bytes → ℕ → ℕ → ℕ → Result ℕ × ℕ
read_varint_loop [] pos val shift = (err truncated, pos)
read_varint_loop (b ∷ rest) pos val shift =
    let val' = bit_or val (bit_and b 0x7f * 2 ^ shift % 2 ^ 64) in
    let more = read_varint_loop rest (pos + 1) val' (shift + 7) in
    if bit_and b 0x80 == 0
    then (ok val', pos + 1)
    else if leb 64 (shift + 7)
    then (err too_long, pos + 1)
    else more

unfoldable pub read_varint : Bytes → ℕ → Result ℕ × ℕ
read_varint buf pos = read_varint_loop (drop pos buf) pos 0 0

pub shift_falls : (n : ℕ) → 0x80 ≤ n → n / 2 ^ 7 < n
shift_falls n more = omega arith

-- The loop of `write_varint` ends since `n` falls.
unfoldable pub write_varint_loop : Bytes → (n : ℕ) → Acc ◌<◌ n → Bytes
write_varint_loop out n (Acc.intro _ smaller) =
    dite (dec_le 0x80 n)
      (λ more.
        write_varint_loop (out ++ (bit_or (bit_and n 0x7f % 2 ^ 8) 0x80 ∷ [])) (n / 2 ^ 7)
          (smaller (n / 2 ^ 7) (shift_falls n more)))
      (λ _. out ++ (n % 2 ^ 8 ∷ []))

unfoldable pub write_varint : Bytes → ℕ → Bytes
unfolding write_varint_loop lt_wf dec_le
write_varint out n = write_varint_loop out n (lt_wf.apply n)

-- The tag of a field number, a `u32`.
unfoldable pub field_tag : ℕ → ℕ → ℕ
field_tag field wtype = bit_or (field * 2 ^ 3 % 2 ^ 32) wtype

unfoldable pub write_bytes_field : Bytes → ℕ → Bytes → Bytes
write_bytes_field out field bytes =
    write_varint (write_varint out (field_tag field 2)) (length bytes) ++ bytes

pub record ProtoIter : Type 0 where
  pub buf : Bytes
  pub pos : ℕ

pub record ProtoField : Type 0 where
  pub field : ℕ
  pub wtype : ℕ
  pub payload : Bytes
  pub varint : ℕ

abbrev pub new : Bytes → ProtoIter
new buf = record { buf = buf; pos = 0 }

abbrev pub at : ProtoIter → ℕ → ProtoIter
at it pos = record it { pos = pos }

-- An item of the iterator, and the iterator behind it.
abbrev pub Item : Type 0
Item = Result ProtoField × ProtoIter

-- The arm of wire type 2 behind the length. `pos + len` past a `usize` overflows.
unfoldable pub next_payload : ProtoIter → ℕ → ℕ → Item
next_payload it field len =
    if leb (2 ^ 64) (it.pos + len)
    then (err panicked, it)
    else if ltb (length it.buf) (it.pos + len)
    then (err overflows_buf, it)
    else (
      ok (record { field = field; wtype = 2; payload = take len (drop it.pos it.buf); varint = 0 }),
      at it (it.pos + len),
    )

-- The `match` on the wire type, behind the tag.
unfoldable pub next_by_type : ProtoIter → ℕ → ℕ → Item
next_by_type it field wtype =
    let (read, pos) = read_varint it.buf it.pos in
    if wtype == 0
    then elim read [
      | err e ↦ (err e, at it pos)
      | ok v ↦ (ok (record { field = field; wtype = wtype; payload = []; varint = v }), at it pos)
    ]
    else if wtype == 2
    then elim read [ err e ↦ (err e, at it pos) | ok len ↦ next_payload (at it pos) field len ]
    else (err (unsupported_wire_type wtype), it)

unfoldable pub next : ProtoIter → Option Item
next it =
    if leb (length it.buf) it.pos
    then none
    else let (read, pos) = read_varint it.buf it.pos in
      elim read [
        | err e ↦ some (err e, at it pos)
        | ok tag ↦ some (next_by_type (at it pos) (tag / 2 ^ 3 % 2 ^ 32) (bit_and tag 7))
      ]

-- What a `for` loop that leaves at the first error sees: the fields, or the error.
unfoldable pub items_from : ℕ → ProtoIter → Result (List ProtoField)
items_from zero it = ok []
items_from (suc fuel) it = elim (next it) [
  | none ↦ ok []
  | some (err e, it') ↦ err e
  | some (ok f, it') ↦ items_from fuel it' >>=! λ fs. ok (f ∷ fs)
]

unfoldable pub items : Bytes → Result (List ProtoField)
items buf = items_from (length buf) (new buf)

-- A loop over `flatten()` passes over the errors and goes on; it is stopped by a panic alone.
unfoldable pub flat_from : ℕ → ProtoIter → Result (List ProtoField)
flat_from zero it = ok []
flat_from (suc fuel) it = elim (next it) [
  | none ↦ ok []
  | some (err panicked, it') ↦ err panicked
  | some (err e, it') ↦ flat_from fuel it'
  | some (ok f, it') ↦ flat_from fuel it' >>=! λ fs. ok (f ∷ fs)
]

unfoldable pub flat_items : Bytes → Result (List ProtoField)
flat_items buf = flat_from (length buf) (new buf)

pub record EvmAccount : Type 0 where
  pub nonce : ℕ
  pub balance : Bytes
  pub code_hash : Bytes

unfoldable pub account_item : EvmAccount → ProtoField → EvmAccount
account_item acc f =
    if f.field == 1 && f.wtype == 0
    then record acc { nonce = f.varint }
    else if f.field == 2 && f.wtype == 2
    then if length f.payload == 32 then record acc { balance = f.payload } else acc
    else if f.field == 3 && f.wtype == 2 && length f.payload == 32
    then record acc { code_hash = f.payload }
    else acc

unfoldable pub account_items : EvmAccount → List ProtoField → EvmAccount
account_items acc [] = acc
account_items acc (f ∷ rest) = account_items (account_item acc f) rest

abbrev pub empty_account : EvmAccount
empty_account = record { nonce = 0; balance = replicate 32 0; code_hash = replicate 32 0 }

unfoldable pub decode_account : Bytes → Result (Option EvmAccount)
decode_account bytes =
    if is_empty bytes
    then ok none
    else items bytes >>=! λ fs. ok (some (account_items empty_account fs))

pub record EvmResult : Type 0 where
  pub succeeded : Bool
  pub output : Bytes
  pub gas_used : ℕ
  pub contract_address : Option Bytes

unfoldable pub result_item : EvmResult → ProtoField → EvmResult
result_item r f =
    if f.field == 1 && f.wtype == 0
    then record r { succeeded = not (f.varint == 0) }
    else if f.field == 2 && f.wtype == 2
    then record r { output = f.payload }
    else if f.field == 3 && f.wtype == 0
    then record r { gas_used = f.varint }
    else if f.field == 4 && f.wtype == 2 && length f.payload == 20
    then record r { contract_address = some f.payload }
    else r

unfoldable pub result_items : EvmResult → List ProtoField → EvmResult
result_items r [] = r
result_items r (f ∷ rest) = result_items (result_item r f) rest

abbrev pub empty_result : EvmResult
empty_result = record { succeeded = Bool.false; output = []; gas_used = 0; contract_address = none }

unfoldable pub decode_evm_result : Bytes → Result EvmResult
decode_evm_result bytes = items bytes >>=! λ fs. ok (result_items empty_result fs)

abbrev pub build_get_account_args : Bytes → Bytes
build_get_account_args addr = addr

unfoldable pub build_get_storage_at_args : Bytes → Bytes → Bytes
build_get_storage_at_args addr slot = addr ++ slot

abbrev pub build_get_code_args : Bytes → Bytes
build_get_code_args addr = addr

pub record CallViewArgs : Type 0 where
  pub caller : Option Bytes
  pub to : Option Bytes
  pub value : Option Bytes
  pub input : Bytes
  pub gas_limit : ℕ

-- `if let Some(b) = … { write_bytes_field(…) }`
unfoldable pub write_given : Bytes → ℕ → Option Bytes → Bytes
write_given out field none = out
write_given out field (some b) = write_bytes_field out field b

unfoldable pub build_call_view_args : CallViewArgs → Bytes
build_call_view_args args =
    let parties = write_given (write_given [] 1 args.caller) 2 args.to in
    let valued = write_given parties 3 args.value in
    let out = if is_empty args.input then valued else write_bytes_field valued 4 args.input in
    if ltb 0 args.gas_limit then write_varint (write_varint out (5 * 2 ^ 3)) args.gas_limit else out

unfoldable pub build_submit_raw_tx_args : Bytes → Bytes
build_submit_raw_tx_args raw_tx = write_bytes_field [] 1 raw_tx
