-- ===== src/Svm/Idl/Encode.antt =====
-- The bytes that internal/chain/svm/idl.go reads as a value.
use aegis_protocol.Base.{
  ℕ, suc, ◌+◌, ◌-◌, ◌*◌, ◌^◌, ◌≤◌, ◌≡◌, ◌≢◌, refl, ap, sym, subst, inl, inr, Bool, true, false, not,
  ◌&&◌, List, [], ◌∷◌, Option, none, some, length, get_or, ltb, ◌==◌, if◌then◌else◌, Text, text_eq,
  text_eq→eq, ok, arith, Bool-cases,
}
use aegis_protocol.Indexer.Event.{
  Field, identity, bytes32, string, bytes, big_int, neg_int, uint8, flag, integers, natural,
  negative_by,
}
use aegis_protocol.Svm.Idl.{
  FieldLayout, FieldKind, kind_pubkey, kind_uint, kind_int, kind_bool, kind_enum, kind_bytes,
  kind_array, kind_string, big_field, variant_at, decode_chunk,
}
use aegis_protocol.Svm.Idl.Bytes.{
  encode_integer, length-encode_integer, little_endian-encode_integer, encode_array,
  decode_array-encode_array, length-encode_array,
}

-- The place of a variant.
unfoldable pub index_from : ℕ → Text → List Text → Option ℕ
index_from n v [] = none
index_from n v (w ∷ variants) = if text_eq v w then some n else index_from (n + 1) v variants

abbrev when : Bool → Text → Option Text
when true b = some b
when false b = none

abbrev pub encode_variant : Option ℕ → Option Text
encode_variant none = none
encode_variant (some n) = some (n ∷ [])

-- The bytes of a value of a kind, without a string's length; `none` for a value that the layout does not
-- have.
module _ (valid : Text → Bool) where
  unfoldable pub encode_kind : FieldKind → FieldLayout → Field → Option Text
  unfolding encode_integer encode_array index_from
  encode_kind kind_pubkey f (identity b) = when (length b == f.size) b
  encode_kind kind_bool f (flag true) = when (f.size == 1) (1 ∷ [])
  encode_kind kind_bool f (flag false) = when (f.size == 1) (0 ∷ [])
  encode_kind kind_enum f (string v) =
      if f.size == 1 then encode_variant (index_from 0 v f.variants) else none
  encode_kind kind_bytes f (bytes32 b) = when (f.size == 32 && length b == f.size) b
  encode_kind kind_bytes f (bytes b) = when (not (f.size == 32) && length b == f.size) b
  encode_kind kind_uint f (uint8 n) = when (f.size == 1) (n ∷ [])
  encode_kind kind_uint f (big_int n) =
      if f.size == 1 then none else encode_integer f.size false (natural n)
  encode_kind kind_int f (big_int n) = encode_integer f.size true (natural n)
  encode_kind kind_int f (neg_int n) = encode_integer f.size true (negative_by n)
  encode_kind kind_array f (integers is) =
      if f.count == length is && f.size == f.elem_size * f.count
      then encode_array f.elem_size f.elem_signed is
      else none
  encode_kind kind_string f (string s) = when (valid s && ltb (length s) (256 ^ 4)) s
  encode_kind _ f _ = none

  variant_first :
      (name : Text) (n : ℕ) (v w : Text) (variants : List Text)
      → text_eq v w ≡ true
      → variant_at name (n - n) (w ∷ variants) ≡ ok (string v)
  unfolding variant_at
  variant_first name n v w variants e =
      let none_left : 0 ≡ n - n = omega arith in
      subst (λ m. variant_at name m (w ∷ variants) ≡ ok (string v)) none_left
        (ap (λ t. ok (string t)) (sym (text_eq→eq v w e)))

  variant_next :
      (name : Text) (n k : ℕ) (v w : Text) (variants : List Text)
      → n + 1 ≤ k
      → variant_at name (k - (n + 1)) variants ≡ ok (string v)
      → variant_at name (k - n) (w ∷ variants) ≡ ok (string v)
  unfolding variant_at
  variant_next name n k v w variants l e =
      let one_more : suc (k - (n + 1)) ≡ k - n = omega arith in
      subst (λ m. variant_at name m (w ∷ variants) ≡ ok (string v)) one_more e

  variant_there :
      (name : Text) (n : ℕ) (v : Text) (variants : List Text) (k : ℕ)
      → index_from n v variants ≡ some k
      → (n ≤ k) × (variant_at name (k - n) variants ≡ ok (string v))
  unfolding index_from
  variant_there name n v [] k h = absurd (ground arith)
  variant_there name n v (w ∷ variants) k h = elim (Bool-cases (text_eq v w)) [
    | inl e ↦
        let here : n ≡ k = ground arith in
        subst (λ m. (n ≤ m) × (variant_at name (m - n) (w ∷ variants) ≡ ok (string v))) here
          (omega arith, variant_first name n v w variants e)
    | inr e ↦
        let (l, t) = variant_there name (n + 1) v variants k (ground arith) in
        (omega arith, variant_next name n k v w variants l t)
  ]

  variant_round :
      (f : FieldLayout) (v b : Text)
      → encode_variant (index_from 0 v f.variants) ≡ some b
      → (length b ≡ 1) × (variant_at f.name (get_or b 0 0) f.variants ≡ ok (string v))
  variant_round f v b h = go (index_from 0 v f.variants) refl h
    where
      go :
          (o : Option ℕ)
          → index_from 0 v f.variants ≡ o
          → encode_variant o ≡ some b
          → (length b ≡ 1) × (variant_at f.name (get_or b 0 0) f.variants ≡ ok (string v))
      go none e k = absurd (ground arith)
      go (some n) e k =
          let same : n ∷ [] ≡ b = ground arith in
          let all : n - 0 ≡ n = omega arith in
          subst
            (λ c. (length c ≡ 1) × (variant_at f.name (get_or c 0 0) f.variants ≡ ok (string v)))
            same
            (
              refl,
              subst (λ m. variant_at f.name m f.variants ≡ ok (string v)) all
                  (variant_there f.name 0 v f.variants n e).1,
            )

  pub chunk_value :
      (f : FieldLayout) (k : FieldKind) (v : Field) (b : Text)
      → f.kind ≡ k
      → encode_kind k f v ≡ some b
      → decode_chunk valid f b ≡ ok v
  unfolding encode_kind decode_chunk
  chunk_value f kind_pubkey (identity x) b e h = rw e (ground arith)
  chunk_value f kind_bool (flag true) b e h = rw e (ground arith)
  chunk_value f kind_bool (flag false) b e h = rw e (ground arith)
  chunk_value f kind_enum (string x) b e h = rw e (grind (arith, variant_round f x b))
  chunk_value f kind_bytes (bytes32 x) b e h = rw e (ground arith)
  chunk_value f kind_bytes (bytes x) b e h = rw e (ground arith)
  chunk_value f kind_uint (uint8 n) b e h = rw e (ground arith)
  chunk_value f kind_uint (big_int n) b e h =
      rw e (grind (arith, little_endian-encode_integer f.size false (natural n) b))
  chunk_value f kind_int (big_int n) b e h =
      rw e (ap (λ i. ok (big_field i)) (little_endian-encode_integer f.size true (natural n) b h))
  chunk_value f kind_int (neg_int n) b e h =
      rw e
        (ap (λ i. ok (big_field i)) (little_endian-encode_integer f.size true (negative_by n) b h))
  chunk_value f kind_array (integers is) b e h =
      rw e (grind (arith, decode_array-encode_array f.elem_size f.elem_signed is b))
  chunk_value f kind_string (string x) b e h = rw e (ground arith)
  chunk_value f _ _ b e h = absurd (ground arith)

  pub chunk_size :
      (f : FieldLayout) (k : FieldKind) (v : Field) (b : Text)
      → k ≢ kind_string
      → encode_kind k f v ≡ some b
      → length b ≡ f.size
  unfolding encode_kind
  chunk_size f kind_pubkey (identity x) b s h = ground arith
  chunk_size f kind_bool (flag true) b s h = ground arith
  chunk_size f kind_bool (flag false) b s h = ground arith
  chunk_size f kind_enum (string x) b s h = grind (arith, variant_round f x b)
  chunk_size f kind_bytes (bytes32 x) b s h = ground arith
  chunk_size f kind_bytes (bytes x) b s h = ground arith
  chunk_size f kind_uint (uint8 n) b s h = ground arith
  chunk_size f kind_uint (big_int n) b s h =
      grind (arith, length-encode_integer f.size false (natural n) b)
  chunk_size f kind_int (big_int n) b s h = length-encode_integer f.size true (natural n) b h
  chunk_size f kind_int (neg_int n) b s h = length-encode_integer f.size true (negative_by n) b h
  chunk_size f kind_array (integers is) b s h =
      grind (arith, length-encode_array f.elem_size f.elem_signed is b)
  chunk_size f kind_string v b s h = absurd (s refl)
  chunk_size f _ _ b s h = absurd (ground arith)
