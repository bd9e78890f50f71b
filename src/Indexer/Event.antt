-- ===== src/Indexer/Event.antt =====
-- internal/chain/client.go: Filter and Event; and the field readers of internal/indexer (vault.go,
-- oracle.go). A payload is an association list, with one constructor for each dynamic type that the
-- decoders produce. Instants are Unix seconds, and identities are their bytes.
use aegis_protocol.Base.{
  Bool, ℕ, ◌+◌, ◌-◌, ◌/◌, ◌%◌, List, [], ◌∷◌, Option, none, some, ltb, if◌then◌else◌, Text, text_eq,
  Result, ok, err,
}

abbrev pub Identity : Type 0
Identity = Text

-- A *big.Int; `negative_by n` is -(n + 1).
pub data Integer : Type 0 where
  natural negative_by : ℕ → Integer

-- `neg_int n` is the *big.Int -(n + 1).
pub data Field : Type 0 where
  identity bytes32 string bytes : Text → Field
  big_int neg_int uint8 : ℕ → Field
  flag : Bool → Field
  integers : List Integer → Field

pub record Event : Type 0 where
  pub chain_id : ℕ
  pub block_number : ℕ
  pub block_time : ℕ
  pub tx_hash : Text
  pub log_index : ℕ
  pub contract : Identity
  pub name : Text
  pub payload : List (Text × Field)

-- An empty list of names selects all events of the contract.
pub record Filter : Type 0 where
  pub contract : Identity
  pub names : List Text

-- `missing key` and `wrong_type key`: the event does not hold the field that its handler reads.
pub data IndexError : Type 0 where
  missing wrong_type negative does_not_fit : Text → IndexError
  no_tx_hash head_failed logs_failed resolve_failed asset_mismatch : IndexError
  store_failed foreign_key never_received : IndexError

lookup_field : Text → List (Text × Field) → Option Field
lookup_field key [] = none
lookup_field key ((k, v) ∷ fields) = if text_eq k key then some v else lookup_field key fields

as_identity : Text → Option Field → Result IndexError Identity
as_identity key none = err (missing key)
as_identity key (some (identity v)) = ok v
as_identity key (some _) = err (wrong_type key)

-- `identityField`.
unfoldable pub identity_field : Event → Text → Result IndexError Identity
unfolding lookup_field as_identity
identity_field ev key = as_identity key (lookup_field key ev.payload)

as_raw : Text → Option Field → Result IndexError ℕ
as_raw key none = err (missing key)
as_raw key (some (big_int n)) = ok n
as_raw key (some (neg_int n)) = err (negative key)
as_raw key (some _) = err (wrong_type key)

-- `rawField`: a big integer that is not negative.
unfoldable pub raw_field : Event → Text → Result IndexError ℕ
unfolding lookup_field as_raw
raw_field ev key = as_raw key (lookup_field key ev.payload)

as_bytes32 : Text → Option Field → Result IndexError Text
as_bytes32 key none = err (missing key)
as_bytes32 key (some (bytes32 v)) = ok v
as_bytes32 key (some _) = err (wrong_type key)

-- `bytes32Field`.
unfoldable pub bytes32_field : Event → Text → Result IndexError Text
unfolding lookup_field as_bytes32
bytes32_field ev key = as_bytes32 key (lookup_field key ev.payload)

as_uint8 : Text → Option Field → Result IndexError ℕ
as_uint8 key none = err (missing key)
as_uint8 key (some (uint8 v)) = ok v
as_uint8 key (some _) = err (wrong_type key)

-- `uint8Field`.
unfoldable pub uint8_field : Event → Text → Result IndexError ℕ
unfolding lookup_field as_uint8
uint8_field ev key = as_uint8 key (lookup_field key ev.payload)

as_string : Text → Option Field → Result IndexError Text
as_string key none = err (missing key)
as_string key (some (string v)) = ok v
as_string key (some _) = err (wrong_type key)

-- `stringField`.
unfoldable pub string_field : Event → Text → Result IndexError Text
unfolding lookup_field as_string
string_field ev key = as_string key (lookup_field key ev.payload)

as_bytes : Text → Option Field → Result IndexError Text
as_bytes key none = err (missing key)
as_bytes key (some (bytes v)) = ok v
as_bytes key (some _) = err (wrong_type key)

-- `bytesField`.
unfoldable pub bytes_field : Event → Text → Result IndexError Text
unfolding lookup_field as_bytes
bytes_field ev key = as_bytes key (lookup_field key ev.payload)

-- `big.Int.Int64` and `Uint64` of a value that fits; a larger one keeps its low 64 bits.
abbrev pub low64 : ℕ → ℕ
low64 n = n % 18446744073709551616

-- `unixField`, for an instant below 2^63.
unfoldable pub unix_field : Event → Text → Result IndexError ℕ
unfolding raw_field
unix_field ev key = raw_field ev key

hex_digit : ℕ → ℕ
hex_digit n = if ltb n 10 then b'0' + n else b'a' + (n - 10)

hex_bytes : Text → Text
unfolding hex_digit
hex_bytes [] = []
hex_bytes (v ∷ b) = hex_digit (v / 16) ∷ hex_digit (v % 16) ∷ hex_bytes b

-- `hexBytes32`.
unfoldable pub hex_bytes32 : Text → Text
unfolding hex_bytes
hex_bytes32 b = b'0' ∷ b'x' ∷ hex_bytes b
