-- ===== src/Svm/Transaction/Compact.antt =====
-- `compactU16` of internal/chain/svm/tx.go, against a reader of its bytes.
use aegis_protocol.Base.{
  ℕ, zero, suc, ◌+◌, ◌-◌, ◌*◌, ◌/◌, ◌%◌, ◌<◌, ◌≡◌, refl, inl, inr, [], ◌∷◌, ◌++◌, Option, none,
  some, ltb, ◌==◌, if◌then◌else◌, Text, arith, Bool-cases,
}
use aegis_protocol.Svm.Transaction.{compact_from, compact_option}

and_read : ℕ → Option (ℕ × Text) → Option (ℕ × Text)
and_read b none = none
and_read b (some (n, rest)) = some (b - 128 + 128 * n, rest)

-- The number at the start of the bytes: seven bits a byte, the lowest first, and the high bit says
-- that more follow.
unfoldable pub read_compact : Text → Option (ℕ × Text)
unfolding and_read
read_compact [] = none
read_compact (b ∷ bytes) = if ltb b 128 then some (b, bytes) else and_read b (read_compact bytes)

abbrev Reads : Option Text → ℕ → Text → Type 0
Reads out n rest =
    (bytes : Text) × (out ≡ some bytes) × (read_compact (bytes ++ rest) ≡ some (n, rest))

reads_last : (n : ℕ) (rest : Text) → n < 128 → read_compact ((n % 128) ∷ rest) ≡ some (n, rest)
unfolding read_compact
reads_last n rest h = ground arith

more_bytes :
    (n : ℕ) (bytes rest : Text)
    → read_compact bytes ≡ some (n / 128, rest)
    → read_compact ((n % 128 + 128) ∷ bytes) ≡ some (n, rest)
unfolding read_compact and_read
more_bytes n bytes rest h = grind arith

compact_from-Reads : (fuel n : ℕ) (rest : Text) → n < fuel → Reads (compact_from fuel n) n rest
unfolding compact_from
compact_from-Reads zero n rest h = absurd (ground arith)
compact_from-Reads (suc fuel) n rest h = elim (Bool-cases (n / 128 == 0)) [
  | inl e ↦ (n % 128 ∷ [], rw e refl, reads_last n rest (ground arith))
  | inr e ↦
      let (bytes, out, read) = compact_from-Reads fuel (n / 128) rest (ground arith) in
      ((n % 128 + 128) ∷ bytes, rw (e, out) refl, more_bytes n (bytes ++ rest) rest read)
]

-- The loop ends for every number, and a reader of its bytes finds the number and what follows them.
pub compact_u16-read_compact :
    (n : ℕ) (rest : Text)
    → (bytes : Text) × (compact_option n ≡ some bytes)
      × (read_compact (bytes ++ rest) ≡ some (n, rest))
unfolding compact_option
compact_u16-read_compact n rest = compact_from-Reads (suc n) n rest (omega arith)
