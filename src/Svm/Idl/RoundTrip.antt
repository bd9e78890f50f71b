-- ===== src/Svm/Idl/RoundTrip.antt =====
-- Encoding fields as internal/chain/svm/idl.go decodes them.
use aegis_protocol.Base.{
  ℕ, ◌+◌, ◌^◌, ◌<◌, ◌≡◌, refl, ap, ◌∙◌, subst, Bool, false, not, ◌&&◌, List, [], ◌∷◌, ◌++◌, Option,
  none, some, length, take, drop, ltb, ◌==◌, if◌then◌else◌, Text, Result, ok, err,
  take-append_length, drop-append_length, arith, length-append,
}
use aegis_protocol.Indexer.Event.{Field, string}
use aegis_protocol.Svm.Idl.{
  FieldLayout, FieldKind, DecodeError, kind_pubkey, kind_uint, kind_int, kind_bool, kind_enum,
  kind_bytes, kind_array, kind_string, magnitude, cut_at, string_chunk, next_chunk, length_exceeds,
  data_ends, decode_chunk, decode_from, decode_fields, trailing_bytes,
}
use aegis_protocol.Svm.Idl.Encode.{encode_kind, chunk_value, chunk_size}
use aegis_protocol.Svm.Idl.Bytes.{low_bytes, length-low_bytes, magnitude-low_bytes}

module _ (valid : Text → Bool) where
  -- A chunk before the bytes that follow it: a string has its length in front.
  unfoldable pub frame : FieldKind → Text → Text → Text
  unfolding low_bytes
  frame kind_string b rest = low_bytes 4 (length b) ++ (b ++ rest)
  frame _ b rest = b ++ rest

  take_exact : (n : ℕ) (a rest : Text) → length a ≡ n → take n (a ++ rest) ≡ a
  take_exact n a rest e = subst (λ m. take m (a ++ rest) ≡ a) e (take-append_length a rest)

  drop_exact : (n : ℕ) (a rest : Text) → length a ≡ n → drop n (a ++ rest) ≡ rest
  drop_exact n a rest e = subst (λ m. drop m (a ++ rest) ≡ rest) e (drop-append_length a rest)

  cut_exact : (x : DecodeError) (b rest : Text) → cut_at x (length b) (b ++ rest) ≡ ok (b, rest)
  unfolding cut_at
  cut_exact x b rest =
      rw (length-append b rest, take-append_length b rest, drop-append_length b rest) (ground arith)

  cut_parts :
      (name input p b rest : Text)
      → ltb (length input) 4 ≡ false
      → take 4 input ≡ p
      → magnitude p ≡ length b
      → drop 4 input ≡ b ++ rest
      → string_chunk name input ≡ ok (b, rest)
  unfolding string_chunk
  cut_parts name input p b rest l t m d = simp (l, t, m, d, cut_exact (length_exceeds name) b rest)

  long_enough : (n : ℕ) (a : Text) → length a ≡ 4 + n → ltb (length a) 4 ≡ false
  long_enough n a e = ground arith

  cut_string :
      (name b rest : Text)
      → length b < 256 ^ 4
      → string_chunk name (low_bytes 4 (length b) ++ (b ++ rest)) ≡ ok (b, rest)
  cut_string name b rest l =
      let p = low_bytes 4 (length b) in
      let four = length-low_bytes 4 (length b) in
      cut_parts name (p ++ (b ++ rest)) p b rest
        (long_enough (length (b ++ rest)) (p ++ (b ++ rest))
          (length-append p (b ++ rest) ∙ ap (λ n. n + length (b ++ rest)) four))
        (take_exact 4 p (b ++ rest) four) (magnitude-low_bytes 4 (length b) l)
        (drop_exact 4 p (b ++ rest) four)

  cut_sized :
      (f : FieldLayout) (b rest : Text)
      → length b ≡ f.size
      → cut_at (data_ends f.name) f.size (b ++ rest) ≡ ok (b, rest)
  cut_sized f b rest e =
      subst (λ n. cut_at (data_ends f.name) n (b ++ rest) ≡ ok (b, rest)) e
        (cut_exact (data_ends f.name) b rest)

  string_length :
      (f : FieldLayout) (v : Field) (b : Text)
      → encode_kind valid kind_string f v ≡ some b
      → length b < 256 ^ 4
  unfolding encode_kind
  string_length f (string x) b h = ground arith
  string_length f _ b h = absurd (ground arith)

  next_frame :
      (f : FieldLayout) (k : FieldKind) (v : Field) (b rest : Text)
      → f.kind ≡ k
      → encode_kind valid k f v ≡ some b
      → next_chunk f (frame k b rest) ≡ ok (b, rest)
  unfolding next_chunk frame
  next_frame f kind_string v b rest e h = rw e (cut_string f.name b rest (string_length f v b h))
  next_frame f kind_pubkey v b rest e h =
      rw e (cut_sized f b rest (chunk_size valid f kind_pubkey v b (λ x. absurd (ground arith)) h))
  next_frame f kind_uint v b rest e h =
      rw e (cut_sized f b rest (chunk_size valid f kind_uint v b (λ x. absurd (ground arith)) h))
  next_frame f kind_int v b rest e h =
      rw e (cut_sized f b rest (chunk_size valid f kind_int v b (λ x. absurd (ground arith)) h))
  next_frame f kind_bool v b rest e h =
      rw e (cut_sized f b rest (chunk_size valid f kind_bool v b (λ x. absurd (ground arith)) h))
  next_frame f kind_enum v b rest e h =
      rw e (cut_sized f b rest (chunk_size valid f kind_enum v b (λ x. absurd (ground arith)) h))
  next_frame f kind_bytes v b rest e h =
      rw e (cut_sized f b rest (chunk_size valid f kind_bytes v b (λ x. absurd (ground arith)) h))
  next_frame f kind_array v b rest e h =
      rw e (cut_sized f b rest (chunk_size valid f kind_array v b (λ x. absurd (ground arith)) h))

  framed : FieldKind → Option Text → Option Text → Option Text
  unfolding frame
  framed k (some b) (some rest) = some (frame k b rest)
  framed k (some b) none = none
  framed k none _ = none

  -- The values of the fields, one after the other, and then `extra`.
  unfoldable pub encode_fields : List FieldLayout → List Field → Text → Option Text
  unfolding encode_kind framed
  encode_fields [] [] extra = some extra
  encode_fields (f ∷ fields) (v ∷ values) extra =
      framed f.kind (encode_kind valid f.kind f v) (encode_fields fields values extra)
  encode_fields [] (v ∷ values) extra = none
  encode_fields (f ∷ fields) [] extra = none

  framed-some :
      (k : FieldKind) (x y : Option Text) (input : Text)
      → framed k x y ≡ some input
      → (b : Text) × (rest : Text) × (x ≡ some b) × (y ≡ some rest) × (frame k b rest ≡ input)
  unfolding framed
  framed-some k (some b) (some rest) input h = (b, rest, refl, refl, ground arith)
  framed-some k (some b) none input h = absurd (ground arith)
  framed-some k none y input h = absurd (ground arith)

  -- One turn of the loop.
  decode_next :
      (f : FieldLayout) (fields : List FieldLayout) (v : Field) (b rest input : Text) (exact : Bool)
      (out : List (Text × Field))
      → next_chunk f input ≡ ok (b, rest)
      → decode_chunk valid f b ≡ ok v
      → decode_from valid (f ∷ fields) input exact out
        ≡ decode_from valid fields rest exact ((f.name, v) ∷ out)
  unfolding decode_from
  decode_next f fields v b rest input exact out n d = simp (n, d)

  -- The names of the fields with their values, the last in front.
  abbrev pub named_from : List FieldLayout → List Field → List (Text × Field) → List (Text × Field)
  named_from (f ∷ fields) (v ∷ values) out = named_from fields values ((f.name, v) ∷ out)
  named_from _ _ out = out

  unfoldable pub at_end :
      Bool → Text → List (Text × Field) → Result DecodeError (List (Text × Field))
  at_end exact extra out =
      if exact && not (length extra == 0) then err (trailing_bytes (length extra)) else ok out

  decode_encoded :
      (fields : List FieldLayout) (values : List Field) (extra input : Text) (exact : Bool)
      (out : List (Text × Field))
      → encode_fields fields values extra ≡ some input
      → decode_from valid fields input exact out ≡ at_end exact extra (named_from fields values out)
  unfolding encode_fields decode_from at_end
  decode_encoded [] [] extra input exact out h = ground arith
  decode_encoded [] (v ∷ values) extra input exact out h = absurd (ground arith)
  decode_encoded (f ∷ fields) [] extra input exact out h = absurd (ground arith)
  decode_encoded (f ∷ fields) (v ∷ values) extra input exact out h =
      let (b, rest, x, y, e) =
        framed-some f.kind (encode_kind valid f.kind f v) (encode_fields fields values extra) input
          h in
      subst
        (λ i.
          decode_from valid (f ∷ fields) i exact out
          ≡ at_end exact extra (named_from fields values ((f.name, v) ∷ out)))
        e
        (decode_next f fields v b rest (frame f.kind b rest) exact out
            (next_frame f f.kind v b rest refl x) (chunk_value valid f f.kind v b refl x)
          ∙ decode_encoded fields values extra rest exact ((f.name, v) ∷ out) y)

-- Decoding the encoded values of a layout's fields gives each field's name with its value, and the
-- bytes behind them are accepted exactly if the caller does not ask for an exact end.
pub decode_fields-encode_fields :
    (valid : Text → Bool) (fields : List FieldLayout) (values : List Field) (extra input : Text)
    (exact : Bool)
    → encode_fields valid fields values extra ≡ some input
    → decode_fields valid fields input exact ≡ (
        if exact && not (length extra == 0)
        then err (trailing_bytes (length extra))
        else ok (named_from valid fields values []))
unfolding decode_fields at_end
decode_fields-encode_fields valid fields values extra input exact h =
    decode_encoded valid fields values extra input exact [] h
