-- ===== src/OracleNode/Price/Digits.antt =====
-- Decimal digits, for internal/oraclenode/price.go: their value, padding and trimming.
use aegis_protocol.Base.{
  ℕ, zero, suc, ◌+◌, ◌-◌, ◌*◌, ◌/◌, ◌%◌, ◌≤◌, ◌<◌, ◌≡◌, refl, ap, ◌∙◌, Bool, true, false, [], ◌∷◌,
  ◌++◌, none, some, length, take, drop, replicate, ltb, ◌==◌, Text, if◌then◌else◌, All, arith,
  Bool-cases, inl, inr, ==_iff,
}
use aegis_protocol.OracleNode.Price.{
  is_digit, is_space, digits_value, digits_before, trim_right, trim_left, trim_space, cut,
}

abbrev pub AllDigits : Text → Type 0
AllDigits s = All (λ c. is_digit c ≡ true) s

-- The value without the test.
abbrev pub value_from : ℕ → Text → ℕ
value_from acc [] = acc
value_from acc (c ∷ s) = value_from (acc * 10 + (c - b'0')) s

pub digits_value_lem :
    (acc : ℕ) (s : Text) → AllDigits s → digits_value acc s ≡ some (value_from acc s)
unfolding digits_value
digits_value_lem acc [] h = refl
digits_value_lem acc (c ∷ s) h = rw h.0 (digits_value_lem (acc * 10 + (c - b'0')) s h.1)

pub All-append {κ} : (P : ℕ → Type κ) (s t : Text) → All P s → All P t → All P (s ++ t)
All-append P [] t h k = k
All-append P (c ∷ s) t h k = (h.0, All-append P s t h.1 k)

pub All-take {κ} : (P : ℕ → Type κ) (n : ℕ) (s : Text) → All P s → All P (take n s)
All-take P zero s h = tt
All-take P (suc n) [] h = tt
All-take P (suc n) (c ∷ s) h = (h.0, All-take P n s h.1)

pub All-drop {κ} : (P : ℕ → Type κ) (n : ℕ) (s : Text) → All P s → All P (drop n s)
All-drop P zero s h = h
All-drop P (suc n) [] h = tt
All-drop P (suc n) (c ∷ s) h = All-drop P n s h.1

pub AllDigits-zeros : (k : ℕ) → AllDigits (replicate k b'0')
AllDigits-zeros zero = tt
AllDigits-zeros (suc k) = (refl, AllDigits-zeros k)

pub value_from-zeros : (k : ℕ) (s : Text) → value_from 0 (replicate k b'0' ++ s) ≡ value_from 0 s
value_from-zeros zero s = refl
value_from-zeros (suc k) s = value_from-zeros k s

digit_digit : (n : ℕ) → is_digit (b'0' + n % 10) ≡ true
digit_digit n = ground arith

pub AllDigits-digits_before :
    (fuel n : ℕ) (rest : Text) → AllDigits rest → AllDigits (digits_before fuel n rest)
unfolding digits_before
AllDigits-digits_before zero n rest h = h
AllDigits-digits_before (suc fuel) n rest h = elim (Bool-cases (ltb n 10)) [
  | inl e ↦ rw e (digit_digit n, h)
  | inr e ↦ rw e (AllDigits-digits_before fuel (n / 10) ((b'0' + n % 10) ∷ rest) (digit_digit n, h))
]

pub value_from-digits_before :
    (fuel n : ℕ) (rest : Text)
    → n < fuel
    → value_from 0 (digits_before fuel n rest) ≡ value_from n rest
unfolding digits_before
value_from-digits_before zero n rest h = absurd (omega arith)
value_from-digits_before (suc fuel) n rest h = elim (Bool-cases (ltb n 10)) [
  | inl e ↦ rw e (ap (λ k. value_from k rest) (ground arith))
  | inr e ↦ rw e (
      value_from-digits_before fuel (n / 10) ((b'0' + n % 10) ∷ rest) (ground arith)
      ∙ ap (λ k. value_from k rest) (omega arith))
]

pub length-digits_before :
    (fuel n : ℕ) (rest : Text) → length rest ≤ length (digits_before fuel n rest)
unfolding digits_before
length-digits_before zero n rest = omega arith
length-digits_before (suc fuel) n rest =
    ground (arith, length-digits_before fuel (n / 10) ((b'0' + n % 10) ∷ rest))

pub digits_before-pos : (fuel n : ℕ) → 0 < length (digits_before (suc fuel) n [])
unfolding digits_before
digits_before-pos fuel n = ground (arith, length-digits_before fuel (n / 10) ((b'0' + n % 10) ∷ []))

-- Zeros that were trimmed at the end come back by padding to the old length.
pub trim_right-pad :
    (s : Text)
    → trim_right (λ c. c == b'0') s
        ++ replicate (length s - length (trim_right (λ c. c == b'0') s)) b'0'
      ≡ s
unfolding trim_right
trim_right-pad [] = refl
trim_right-pad (c ∷ s) = go (trim_right (λ d. d == b'0') s) (trim_right-pad s)
  where
    keep : suc (length s) - 0 ≡ suc (length s - 0)
    keep = omega arith

    drop_one : suc (length s) - 1 ≡ length s - 0
    drop_one = omega arith

    go :
        (t : Text)
        → t ++ replicate (length s - length t) b'0' ≡ s
        → let r : Text = elim t [ [] ↦ if c == b'0' then [] else c ∷ [] | d ∷ u ↦ c ∷ d ∷ u ] in
          r ++ replicate (suc (length s) - length r) b'0' ≡ c ∷ s
    go [] h = elim (Bool-cases (c == b'0')) [
      | inl e ↦ rw (e, keep) (cc ((==_iff c b'0').0 e, h))
      | inr e ↦ rw (e, drop_one) (ap (λ t. c ∷ t) h)
    ]
    go (d ∷ u) h =
        let drop_two : suc (length s) - suc (suc (length u)) ≡ length s - suc (length u) =
          omega arith in
        rw drop_two (ap (λ t. c ∷ t) h)

pub length-trim_right : (p : ℕ → Bool) (s : Text) → length (trim_right p s) ≤ length s
unfolding trim_right
length-trim_right p [] = omega arith
length-trim_right p (c ∷ s) = ground (arith, length-trim_right p s)

pub All-trim_right {κ} :
    (P : ℕ → Type κ) (p : ℕ → Bool) (s : Text) → All P s → All P (trim_right p s)
unfolding trim_right
All-trim_right P p [] h = tt
All-trim_right P p (c ∷ s) h = go (trim_right p s) (All-trim_right P p s h.1)
  where
    go :
        (t : Text)
        → All P t
        → All P (elim t [ [] ↦ if p c then [] else c ∷ [] | d ∷ u ↦ c ∷ d ∷ u ])
    go [] k = elim (Bool-cases (p c)) [ inl e ↦ rw e tt | inr e ↦ rw e (h.0, tt) ]
    go (d ∷ u) k = (h.0, k)

trim_right_keeps : (p : ℕ → Bool) (s : Text) → All (λ c. p c ≡ false) s → trim_right p s ≡ s
unfolding trim_right
trim_right_keeps p [] h = refl
trim_right_keeps p (c ∷ []) h = rw h.0
trim_right_keeps p (c ∷ d ∷ s) h = rw (trim_right_keeps p (d ∷ s) h.1, trim_right)

trim_left_keeps : (s : Text) → All (λ c. is_space c ≡ false) s → trim_left s ≡ s
unfolding trim_left
trim_left_keeps [] h = refl
trim_left_keeps (c ∷ s) h = rw h.0

pub trim_space_keeps : (s : Text) → All (λ c. is_space c ≡ false) s → trim_space s ≡ s
unfolding trim_space
trim_space_keeps s h = rw (trim_left_keeps s h) (trim_right_keeps is_space s h)

pub cut-append :
    (whole frac : Text) → AllDigits whole → cut b'.' (whole ++ b'.' ∷ frac) ≡ (whole, some frac)
unfolding cut
cut-append [] frac h = refl
cut-append (c ∷ s) frac h = ground (arith, cut-append s frac h.1)

pub cut-digits : (whole : Text) → AllDigits whole → cut b'.' whole ≡ (whole, none)
unfolding cut
cut-digits [] h = refl
cut-digits (c ∷ s) h = ground (arith, cut-digits s h.1)
