-- ===== src/Gateway/Json.antt =====
-- The values of serde_json that the gateway's handlers take apart. A text is its characters by
-- their code points; of numbers only the unsigned ones are told apart.
use koinos_evm_engine.Base.{
  ℕ, Bool, Option, none, some, List, [], ◌∷◌, bytes_eq, if◌then◌else◌, get_elem?,
}
use koinos_evm_engine.Base.Words.{Bytes}

mutual
  pub data Value : Type 0 where
    null : Value
    bool : Bool → Value
    unsigned : ℕ → Value
    other_number : Value
    text : Bytes → Value
    array : Items → Value
    object : Fields → Value

  pub data Items : Type 0 where
    nil : Items
    cons : Value → Items → Items

  pub data Fields : Type 0 where
    end : Fields
    field : Bytes → Value → Fields → Fields

unfoldable pub elements : Items → List Value
elements nil = []
elements (cons v vs) = v ∷ elements vs

unfoldable pub find_field : Bytes → Fields → Option Value
find_field key end = none
find_field key (field k v rest) = if bytes_eq k key then some v else find_field key rest

-- `get` with a key: `None` where the value is no object.
unfoldable pub get : Bytes → Value → Option Value
get key (object fields) = find_field key fields
get key _ = none

-- `get` with an index.
unfoldable pub get_at : ℕ → Value → Option Value
get_at i (array items) = get_elem? (elements items) i
get_at i _ = none

unfoldable pub as_str : Value → Option Bytes
as_str (text s) = some s
as_str _ = none
