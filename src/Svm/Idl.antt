-- ===== src/Svm/Idl.antt =====
-- internal/chain/svm/idl.go: the decoding of events and accounts, from the layouts of a program's
-- interface. Bytes are numbers below 256, and `utf8.Valid` is a parameter.
pub mod Bytes
pub mod Encode
pub mod RoundTrip
use aegis_protocol.Base.{
  ℕ, zero, suc, ◌+◌, ◌-◌, ◌*◌, ◌/◌, ◌%◌, ◌^◌, ◌≤◌, ◌<◌, ◌≡◌, ◌≢◌, ◌↔◌, ◌⊎◌, refl, ap, sym, ◌∙◌,
  subst, inl, inr, Bool, true, false, not, ◌&&◌, ◌||◌, List, [], ◌∷◌, ◌++◌, map, Option, none, some,
  length, take, drop, replicate, get_or, any_of, count_if, keep_if, ltb, leb, ◌==◌, if◌then◌else◌,
  Text, codes, text_eq, text_lt, text_eq_refl, text_eq_sym, text_eq→eq, text_eq_iff, Result, ok,
  err, World, Action, ◌>>=◌, ◌>>◌, pure, throw, lift, gets, modify, exec, query, returning,
  exec_cases, quiet, Keeps, All, Any, All-map, arith, Bool-cases, Option-cases, ==_iff,
  length-append, length-replicate, ltb→lt, ltb→ge, lt→ltb, leb→le,
}
use aegis_protocol.Indexer.Event.{
  Field, Integer, identity, bytes32, string, bytes, big_int, neg_int, uint8, flag, integers,
  natural, negative_by,
}

pub data FieldKind : Type 0 where
  kind_pubkey kind_uint kind_int kind_bool kind_enum kind_bytes kind_array kind_string : FieldKind

-- `field`; the element of an array by its size and whether it is signed.
pub record FieldLayout : Type 0 where
  pub name : Text
  pub kind : FieldKind
  pub size : ℕ
  pub variants : List Text
  pub elem_size : ℕ
  pub elem_signed : Bool
  pub count : ℕ

-- `layout`, with the name that the IDL gives it.
pub record Layout : Type 0 where
  pub name : Text
  pub discriminator : Text
  pub fields : List FieldLayout

pub data DecodeError : Type 0 where
  not_event_data unknown_discriminator unknown_account wrong_account : DecodeError
  no_length_prefix length_exceeds data_ends bad_bool bad_variant not_utf8 : Text → DecodeError
  trailing_bytes : ℕ → DecodeError

-- `SetBytes` of the bytes from the last to the first.
unfoldable pub magnitude : Text → ℕ
magnitude [] = 0
magnitude (b ∷ input) = b + 256 * magnitude input

-- The last byte, whose high bit is the sign.
unfoldable pub last_byte : Text → ℕ
last_byte [] = 0
last_byte (b ∷ []) = b
last_byte (b ∷ c ∷ input) = last_byte (c ∷ input)

unfoldable pub negative_of : ℕ → ℕ → Integer
negative_of bound n = if ltb n bound then negative_by (bound - n - 1) else natural (n - bound)

-- `littleEndian`.
unfoldable pub little_endian : Text → Bool → Integer
unfolding magnitude last_byte negative_of
little_endian b signed =
    if signed && ltb 127 (last_byte b)
    then negative_of (256 ^ length b) (magnitude b)
    else natural (magnitude b)

-- The value of a *big.Int in a payload.
abbrev pub big_field : Integer → Field
big_field (natural n) = big_int n
big_field (negative_by n) = neg_int n

unfoldable pub decode_array : ℕ → ℕ → Bool → Text → List Integer
unfolding little_endian
decode_array zero size signed chunk = []
decode_array (suc count) size signed chunk =
    little_endian (take size chunk) signed ∷ decode_array count size signed (drop size chunk)

unfoldable pub variant_at : Text → ℕ → List Text → Result DecodeError Field
variant_at name n [] = err (bad_variant name)
variant_at name zero (v ∷ variants) = ok (string v)
variant_at name (suc n) (v ∷ variants) = variant_at name n variants

-- `if err != nil { return err }`.
abbrev pub and_then :
    {A B : Type 0} → Result DecodeError A → (A → Result DecodeError B) → Result DecodeError B
and_then (ok a) f = f a
and_then (err e) f = err e

-- The first `size` bytes and those behind them.
unfoldable pub cut_at : DecodeError → ℕ → Text → Result DecodeError (Text × Text)
cut_at e size input =
    if ltb (length input) size then err e else ok (take size input, drop size input)

-- A string is preceded by its length in four bytes.
unfoldable pub string_chunk : Text → Text → Result DecodeError (Text × Text)
unfolding magnitude cut_at
string_chunk name input =
    if ltb (length input) 4
    then err (no_length_prefix name)
    else cut_at (length_exceeds name) (magnitude (take 4 input)) (drop 4 input)

-- The chunk of a field, and the bytes behind it.
unfoldable pub next_chunk : FieldLayout → Text → Result DecodeError (Text × Text)
unfolding string_chunk cut_at
next_chunk f input = elim f.kind [
  | kind_string ↦ string_chunk f.name input
  | _ ↦ cut_at (data_ends f.name) f.size input
]

module _ (valid : Text → Bool) where
  -- The `switch` on the field's kind.
  unfoldable pub decode_chunk : FieldLayout → Text → Result DecodeError Field
  unfolding decode_array little_endian variant_at
  decode_chunk f chunk = elim f.kind [
    | kind_pubkey ↦ ok (identity chunk)
    | kind_bool ↦
        if ltb 1 (get_or chunk 0 0)
        then err (bad_bool f.name)
        else ok (flag (get_or chunk 0 0 == 1))
    | kind_enum ↦ variant_at f.name (get_or chunk 0 0) f.variants
    | kind_string ↦ if not (valid chunk) then err (not_utf8 f.name) else ok (string chunk)
    | kind_bytes ↦ ok (if f.size == 32 then bytes32 chunk else bytes chunk)
    | kind_array ↦ ok (integers (decode_array f.count f.elem_size f.elem_signed chunk))
    | kind_uint ↦
        ok (if f.size == 1 then uint8 (get_or chunk 0 0) else big_field (little_endian chunk false))
    | kind_int ↦ ok (big_field (little_endian chunk true))
  ]

  -- The loop of `decodeFields`, over the bytes that are left; a later field of a name stands before an
  -- earlier one.
  unfoldable pub decode_from :
      List FieldLayout
      → Text
      → Bool
      → List (Text × Field)
      → Result DecodeError (List (Text × Field))
  unfolding next_chunk decode_chunk
  decode_from [] input exact out =
      if exact && not (length input == 0) then err (trailing_bytes (length input)) else ok out
  decode_from (f ∷ fields) input exact out =
      and_then (next_chunk f input)
        (λ c. and_then (decode_chunk f c.0) (λ v. decode_from fields c.1 exact ((f.name, v) ∷ out)))

  -- `decodeFields`.
  unfoldable pub decode_fields :
      List FieldLayout → Text → Bool → Result DecodeError (List (Text × Field))
  unfolding decode_from
  decode_fields fields input exact = decode_from fields input exact []

  named_payload :
      Text
      → Result DecodeError (List (Text × Field))
      → Result DecodeError (Text × List (Text × Field))
  named_payload name (ok payload) = ok (name, payload)
  named_payload name (err e) = err e

  -- The loop of `DecodeEvent`; the layouts stand in the order of one iteration of the map.
  unfoldable pub decode_body : List Layout → Text → Result DecodeError (Text × List (Text × Field))
  unfolding decode_fields named_payload
  decode_body [] body = err unknown_discriminator
  decode_body (l ∷ events) body =
      if text_eq (take 8 body) l.discriminator
      then named_payload l.name (decode_fields l.fields (drop 8 body) true)
      else decode_body events body

  abbrev pub event_instruction_tag : Text
  event_instruction_tag = 228 ∷ 69 ∷ 165 ∷ 46 ∷ 81 ∷ 203 ∷ 154 ∷ 29 ∷ []

  -- `DecodeEvent`.
  unfoldable pub decode_event : List Layout → Text → Result DecodeError (Text × List (Text × Field))
  unfolding decode_body
  decode_event events input =
      if ltb (length input) 16 || not (text_eq (take 8 input) event_instruction_tag)
      then err not_event_data
      else decode_body events (drop 8 input)

  -- `DecodeAccount`.
  unfoldable pub decode_account :
      List Layout → Text → Text → Result DecodeError (List (Text × Field))
  unfolding decode_fields
  decode_account [] name input = err unknown_account
  decode_account (l ∷ accounts) name input =
      if not (text_eq l.name name)
      then decode_account accounts name input
      else if ltb (length input) 8 || not (text_eq (take 8 input) l.discriminator)
      then err wrong_account
      else decode_fields l.fields (drop 8 input) false
