-- ===== src/Gateway/EthTx/Rlp.antt =====
-- koinos-evm/rpc/src/eth_tx.rs: its RLP reader and writer. A `usize` has 64 bits here.
pub mod Items
pub mod Numbers
use koinos_evm_engine.Base.{
  ℕ, zero, suc, ◌+◌, ◌-◌, ◌*◌, ◌/◌, ◌%◌, ◌^◌, ◌<◌, bit_or, ◌&&◌, not, Bool, true, false, Option,
  none, some, ◌>>=?◌, List, [], ◌∷◌, ◌++◌, take, drop, length, replicate, is_empty, get_elem?,
  get_or, ltb, leb, ◌==◌, if◌then◌else◌,
}
use koinos_evm_engine.Base.Words.{Bytes, to_be}

-- The loop over the bytes of a length: `len << 8 | b`.
unfoldable pub read_length : ℕ → Bytes → ℕ
read_length len [] = len
read_length len (b ∷ rest) = read_length (bit_or (len * 2 ^ 8 % 2 ^ 64) b) rest

-- Whether a list begins, the length of the payload, and where it starts.
unfoldable pub rlp_header : Bytes → Option (Bool × ℕ × ℕ)
rlp_header [] = none
rlp_header (b ∷ rest) =
    if leb b 0x7f
    then some (false, 1, 0)
    else if leb b 0xb7
    then some (false, b - 0x80, 1)
    else if leb b 0xbf
    then (let n = b - 0xb7 in
        if ltb (length rest + 1) (1 + n)
        then none
        else some (false, read_length 0 (take n rest), 1 + n))
    else if leb b 0xf7
    then some (true, b - 0xc0, 1)
    else (let n = b - 0xf7 in
        if ltb (length rest + 1) (1 + n)
        then none
        else some (true, read_length 0 (take n rest), 1 + n))

unfoldable pub checked_add : ℕ → ℕ → Option ℕ
checked_add a b = if leb (2 ^ 64) (a + b) then none else some (a + b)

-- The `while` loop of `from_list` on the payload from a position on: a round takes a byte or more.
unfoldable pub items_loop : ℕ → Bytes → ℕ → Option (List Bytes)
items_loop zero payload pos = some []
items_loop (suc fuel) payload pos =
    if leb (length payload) pos
    then some []
    else rlp_header (drop pos payload) >>=? λ header.
        checked_add header.2 header.1 >>=? λ total_len. checked_add pos total_len >>=? λ item_end.
        if ltb (length payload) item_end
        then none
        else items_loop fuel payload item_end >>=? λ rest.
            some (take total_len (drop pos payload) ∷ rest)

-- The items of a list, each with its own header.
unfoldable pub from_list : Bytes → Option (List Bytes)
from_list buf = rlp_header buf >>=? λ header.
    if not header.0
    then none
    else checked_add header.2 header.1 >>=? λ payload_end.
        if ltb (length buf) payload_end
        then none
        else (let payload = take header.1 (drop header.2 buf) in
            items_loop (length payload) payload 0)

abbrev pub item : List Bytes → ℕ → Option Bytes
item items idx = get_elem? items idx

-- `(0..n).map(|i| reader.item(i)).collect()`
unfoldable pub first_items : ℕ → List Bytes → Option (List Bytes)
first_items n items = if ltb (length items) n then none else some (take n items)

unfoldable pub rlp_decode_bytes : Bytes → Option Bytes
rlp_decode_bytes buf = rlp_header buf >>=? λ header.
    if header.0
    then none
    else if single buf
    then some (take 1 buf)
    else checked_add header.2 header.1 >>=? λ payload_end.
        if ltb (length buf) payload_end then none else some (take header.1 (drop header.2 buf))
  where
    -- `buf[0] <= 0x7f`
    single : Bytes → Bool
    single [] = false
    single (b ∷ rest) = leb b 0x7f

unfoldable pub shift_in : ℕ → Bytes → ℕ
shift_in out [] = out
shift_in out (x ∷ rest) = shift_in (bit_or (out * 2 ^ 8 % 2 ^ 64) x) rest

unfoldable pub decode_u64 : Bytes → Option ℕ
decode_u64 buf = rlp_decode_bytes buf >>=? λ bytes.
    if ltb 8 (length bytes) then none else some (shift_in 0 bytes)

unfoldable pub decode_u256_be : Bytes → Option Bytes
decode_u256_be buf = rlp_decode_bytes buf >>=? λ b.
    if ltb 32 (length b) then none else some (replicate (32 - length b) 0 ++ b)

unfoldable pub decode_address : Bytes → Option (Option Bytes)
decode_address buf = rlp_decode_bytes buf >>=? λ b.
    if is_empty b then some none else if length b == 20 then some (some b) else none

-- `&be[start..]`, from the first byte that is not 0.
unfoldable pub strip_zeros : Bytes → Bytes
strip_zeros [] = []
strip_zeros (b ∷ rest) = if b == 0 then strip_zeros rest else b ∷ rest

-- A single byte of at most 0x7f is its own item.
unfoldable pub rlp_encode_u64 : ℕ → Bytes
rlp_encode_u64 n =
    let bytes = strip_zeros (to_be 8 n) in
    if n == 0
    then 0x80 ∷ []
    else if length bytes == 1 && leb (get_or bytes 0 0) 0x7f
    then bytes
    else (0x80 + length bytes) ∷ bytes

unfoldable pub total : List Bytes → ℕ
total [] = 0
total (x ∷ items) = length x + total items

unfoldable pub concat : List Bytes → Bytes
concat [] = []
concat (x ∷ items) = x ++ concat items

unfoldable pub list_header : ℕ → Bytes
list_header payload_len =
    let lb = strip_zeros (to_be 8 payload_len) in
    if leb payload_len 55 then (0xc0 + payload_len) ∷ [] else (0xf7 + length lb) ∷ lb

unfoldable pub wrap_rlp_list : List Bytes → Bytes
wrap_rlp_list items = list_header (total items) ++ concat items
