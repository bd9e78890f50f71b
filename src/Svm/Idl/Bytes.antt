-- ===== src/Svm/Idl/Bytes.antt =====
-- The bytes of integers, which internal/chain/svm/idl.go reads from the lowest on.
use aegis_protocol.Base.{
  ℕ, zero, suc, ◌+◌, ◌-◌, ◌*◌, ◌/◌, ◌%◌, ◌^◌, ◌≤◌, ◌<◌, ◌≡◌, refl, ap, sym, ◌∙◌, subst, Bool, true,
  false, List, [], ◌∷◌, ◌++◌, Option, none, some, length, ltb, leb, if◌then◌else◌, Text,
  take-append_length, drop-append_length, arith, length-append,
}
use aegis_protocol.Indexer.Event.{Integer, natural, negative_by}
use aegis_protocol.Svm.Idl.{magnitude, last_byte, little_endian, decode_array}

-- A number in `count` bytes, the lowest first.
unfoldable pub low_bytes : ℕ → ℕ → Text
low_bytes zero n = []
low_bytes (suc count) n = n % 256 ∷ low_bytes count (n / 256)

pub length-low_bytes : (k n : ℕ) → length (low_bytes k n) ≡ k
unfolding low_bytes
length-low_bytes zero n = refl
length-low_bytes (suc k) n = ap suc (length-low_bytes k (n / 256))

pub magnitude-low_bytes : (k n : ℕ) → n < 256 ^ k → magnitude (low_bytes k n) ≡ n
unfolding low_bytes magnitude
magnitude-low_bytes zero n h = ground arith
magnitude-low_bytes (suc k) n h = rw (magnitude-low_bytes k (n / 256) (omega arith)) (omega arith)

pow_suc : (k : ℕ) → 256 ^ suc k ≡ 256 * 256 ^ k
pow_suc k = omega arith

half : (p n : ℕ) → leb (128 * p) (n / 256) ≡ leb (128 * (256 * p)) n
half p n = ground arith

-- The highest byte has its high bit set exactly from one half of the range on.
last_byte-low_bytes :
    (k n : ℕ) → n < 256 ^ suc k → ltb 127 (last_byte (low_bytes (suc k) n)) ≡ leb (128 * 256 ^ k) n
unfolding low_bytes last_byte
last_byte-low_bytes zero n h = ground arith
last_byte-low_bytes (suc k) n h =
    last_byte-low_bytes k (n / 256) (omega arith)
    ∙ half (256 ^ k) n
    ∙ ap (λ p. leb (128 * p) n) (sym (pow_suc k))

-- An integer in `size` bytes, if it fits; a negative one by its complement.
unfoldable pub encode_integer : ℕ → Bool → Integer → Option Text
unfolding low_bytes
encode_integer size false (natural n) = if ltb n (256 ^ size) then some (low_bytes size n) else none
encode_integer size false (negative_by n) = none
encode_integer size true (natural n) =
    if ltb (2 * n) (256 ^ size) then some (low_bytes size n) else none
encode_integer size true (negative_by n) =
    if leb (2 * (n + 1)) (256 ^ size) then some (low_bytes size (256 ^ size - (n + 1))) else none

pub length-encode_integer :
    (size : ℕ) (signed : Bool) (i : Integer) (b : Text)
    → encode_integer size signed i ≡ some b
    → length b ≡ size
unfolding encode_integer
length-encode_integer size signed i b h = grind (arith, length-low_bytes)

unsigned_round :
    (size n : ℕ) (b : Text)
    → encode_integer size false (natural n) ≡ some b
    → little_endian b false ≡ natural n
unfolding encode_integer little_endian
unsigned_round size n b h = grind (arith, magnitude-low_bytes size n)

-- A signed integer that fits half of the range is read back by its sign.
signed_natural :
    (size n : ℕ) → 2 * n < 256 ^ size → little_endian (low_bytes size n) true ≡ natural n
unfolding little_endian low_bytes
signed_natural zero n h = let none_left : 0 ≡ n = omega arith in ap natural none_left
signed_natural (suc k) n h =
    rw (last_byte-low_bytes k n (omega arith), magnitude-low_bytes (suc k) n (omega arith))
      (ground arith)

signed_negative :
    (size n : ℕ)
    → 2 * (n + 1) ≤ 256 ^ size
    → little_endian (low_bytes size (256 ^ size - (n + 1))) true ≡ negative_by n
unfolding little_endian
signed_negative zero n h = absurd (omega arith)
signed_negative (suc k) n h =
    rw
      (
        last_byte-low_bytes k (256 ^ suc k - (n + 1)) (omega arith),
        magnitude-low_bytes (suc k) (256 ^ suc k - (n + 1)) (omega arith),
        length-low_bytes (suc k) (256 ^ suc k - (n + 1)),
      )
      (ground arith)

-- An integer that was encoded is read back.
pub little_endian-encode_integer :
    (size : ℕ) (signed : Bool) (i : Integer) (b : Text)
    → encode_integer size signed i ≡ some b
    → little_endian b signed ≡ i
unfolding encode_integer
little_endian-encode_integer size false (natural n) b h = unsigned_round size n b h
little_endian-encode_integer size false (negative_by n) b h = absurd (ground arith)
little_endian-encode_integer size true (natural n) b h = grind (arith, signed_natural size n)
little_endian-encode_integer size true (negative_by n) b h = grind (arith, signed_negative size n)

append_encoded : Option Text → Option Text → Option Text
append_encoded (some a) (some b) = some (a ++ b)
append_encoded (some a) none = none
append_encoded none _ = none

-- The elements one after the other.
unfoldable pub encode_array : ℕ → Bool → List Integer → Option Text
unfolding encode_integer append_encoded
encode_array size signed [] = some []
encode_array size signed (i ∷ is) =
    append_encoded (encode_integer size signed i) (encode_array size signed is)

array_step :
    (count size : ℕ) (signed : Bool) (i : Integer) (is : List Integer) (a b : Text)
    → length a ≡ size
    → little_endian a signed ≡ i
    → decode_array count size signed b ≡ is
    → decode_array (suc count) size signed (a ++ b) ≡ i ∷ is
unfolding decode_array
array_step count size signed i is a b l e d =
    subst (λ k. decode_array (suc count) k signed (a ++ b) ≡ i ∷ is) l
      (rw (take-append_length a b, drop-append_length a b, e, l, d) refl)

append_some :
    (x y : Option Text) (b : Text)
    → append_encoded x y ≡ some b
    → (p : Text) × (q : Text) × (x ≡ some p) × (y ≡ some q) × (p ++ q ≡ b)
unfolding append_encoded
append_some (some p) (some q) b h = (p, q, refl, refl, ground arith)
append_some (some p) none b h = absurd (ground arith)
append_some none y b h = absurd (ground arith)

pub decode_array-encode_array :
    (size : ℕ) (signed : Bool) (is : List Integer) (b : Text)
    → encode_array size signed is ≡ some b
    → decode_array (length is) size signed b ≡ is
unfolding encode_array decode_array
decode_array-encode_array size signed [] b h = refl
decode_array-encode_array size signed (i ∷ is) b h =
    let (p, q, x, y, e) =
      append_some (encode_integer size signed i) (encode_array size signed is) b h in
    subst (λ c. decode_array (suc (length is)) size signed c ≡ i ∷ is) e
      (array_step (length is) size signed i is p q (length-encode_integer size signed i p x)
        (little_endian-encode_integer size signed i p x)
        (decode_array-encode_array size signed is q y))

pub length-encode_array :
    (size : ℕ) (signed : Bool) (is : List Integer) (b : Text)
    → encode_array size signed is ≡ some b
    → length b ≡ size * length is
unfolding encode_array
length-encode_array size signed [] b h = ground arith
length-encode_array size signed (i ∷ is) b h =
    let (p, q, x, y, e) =
      append_some (encode_integer size signed i) (encode_array size signed is) b h in
    subst (λ c. length c ≡ size * suc (length is)) e
      (length-append p q
        ∙ rw (length-encode_integer size signed i p x, length-encode_array size signed is q y)
            (omega arith))
