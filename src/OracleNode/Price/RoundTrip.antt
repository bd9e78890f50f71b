-- ===== src/OracleNode/Price/RoundTrip.antt =====
-- ParseScaled after FormatScaled (internal/oraclenode/price.go).
use aegis_protocol.Base.{
  ℕ, zero, suc, ◌+◌, ◌-◌, ◌≤◌, ◌<◌, ◌≡◌, ◌⊎◌, refl, ap, ◌∙◌, subst, inl, inr, true, false, ◌||◌, [],
  ◌∷◌, ◌++◌, Option, none, some, length, take, drop, replicate, any_of, ltb, leb, ◌==◌,
  if◌then◌else◌, Text, ok, All, All-map, arith, Bool-cases, ==_iff, length-append, length-replicate,
  take-append_length,
}
use aegis_protocol.OracleNode.Price.{
  printed, is_digit, is_space, trim_right, cut, scaled_digits, set_string, parse_trimmed,
  parse_scaled, digits_of, format_digits, format_scaled, text_or_empty, or_zero, or_not_decimal,
  starts_with_minus, trailing,
}
use mathlib.Core.List.{append-nil}
use aegis_protocol.OracleNode.Price.Digits.{
  AllDigits, value_from, digits_value_lem, All-append, All-take, All-drop, AllDigits-zeros,
  value_from-zeros, AllDigits-digits_before, value_from-digits_before, digits_before-pos,
  trim_right-pad, length-trim_right, All-trim_right, trim_space_keeps, cut-append, cut-digits,
}

-- A byte that FormatScaled writes.
abbrev IsPlain : ℕ → Type 0
IsPlain c = (is_digit c || c == b'.') ≡ true

take-append-drop : (n : ℕ) (s : Text) → take n s ++ drop n s ≡ s
take-append-drop zero s = refl
take-append-drop (suc n) [] = refl
take-append-drop (suc n) (c ∷ s) = ap (λ t. c ∷ t) (take-append-drop n s)

length-drop : (n : ℕ) (s : Text) → length (drop n s) ≡ length s - n
length-drop zero s = omega arith
length-drop (suc n) [] = omega arith
length-drop (suc n) (c ∷ s) = omega (arith, length-drop n s)

length-take_pos : (n : ℕ) (s : Text) → 0 < n → 0 < length s → 0 < length (take n s)
length-take_pos zero s h k = absurd (omega arith)
length-take_pos (suc n) [] h k = absurd (omega arith)
length-take_pos (suc n) (c ∷ s) h k = omega arith

-- A byte that neither TrimSpace drops nor the exponent test refuses.
abbrev pub IsInert : ℕ → Type 0
IsInert c = (is_space c || (c == b'e' || c == b'E')) ≡ false

inert_no_exponent : (s : Text) → All IsInert s → any_of (λ d. d == b'e' || d == b'E') s ≡ false
inert_no_exponent [] h = refl
inert_no_exponent (c ∷ s) h = ground (arith, inert_no_exponent s h.1)

plain_no_minus : (s : Text) → All IsPlain s → starts_with_minus s ≡ false
plain_no_minus [] h = refl
plain_no_minus (c ∷ s) h = ground (arith, h.0)

set_string-digits : (s : Text) → AllDigits s → 0 < length s → set_string s ≡ some (value_from 0 s)
unfolding set_string
set_string-digits [] h k = absurd (omega arith)
set_string-digits (c ∷ s) h k =
    let plus : (c == b'+') ≡ false = ground arith in rw plus (digits_value_lem 0 (c ∷ s) h)

or_zero_keeps : (s : Text) → 0 < length s → or_zero s ≡ s
or_zero_keeps [] h = absurd (omega arith)
or_zero_keeps (c ∷ s) h = refl

-- What `ParseScaled` reads from text that cuts into a whole part and a fraction.
parse_inert :
    (s whole : Text) (after : Option Text) (decimals : ℕ)
    → All IsInert s
    → starts_with_minus s ≡ false
    → 0 < length s
    → cut b'.' s ≡ (whole, after)
    → trailing after ≡ false
    → parse_scaled s decimals
      ≡ or_not_decimal (set_string (scaled_digits (or_zero whole) (text_or_empty after) decimals))
unfolding parse_scaled
parse_inert [] whole after decimals h m k e t = absurd (omega arith)
parse_inert (c ∷ s) whole after decimals h m k e t = rw (
  trim_space_keeps (c ∷ s) (All-map (λ d p. ground arith) (c ∷ s) h),
  parse_trimmed,
  e,
  inert_no_exponent (c ∷ s) h,
  m,
  t,
)

parse_plain :
    (s whole : Text) (after : Option Text) (decimals : ℕ)
    → All IsPlain s
    → 0 < length s
    → cut b'.' s ≡ (whole, after)
    → trailing after ≡ false
    → parse_scaled s decimals
      ≡ or_not_decimal (set_string (scaled_digits (or_zero whole) (text_or_empty after) decimals))
parse_plain s whole after decimals h k e t =
    parse_inert s whole after decimals (All-map (λ c p. ground arith) s h) (plain_no_minus s h) k e
      t

IsPlain-digits : (s : Text) → AllDigits s → All IsPlain s
IsPlain-digits s h = All-map (λ c p. ground arith) s h

-- Reading back what was printed gives the digits.
module _ (padded : Text) (scale : ℕ) (ds : AllDigits padded) (long : scale < length padded) where
  abbrev whole_of : Text
  whole_of = take (length padded - scale) padded

  abbrev tail_of : Text
  tail_of = drop (length padded - scale) padded

  whole_digits : AllDigits whole_of
  whole_digits = All-take _ (length padded - scale) padded ds

  whole_pos : 0 < length whole_of
  whole_pos = length-take_pos (length padded - scale) padded (omega arith) (omega arith)

  tail_length : length tail_of ≡ scale
  tail_length = omega (arith, length-drop (length padded - scale) padded)

  read_scaled :
      (frac : Text)
      → length frac ≤ scale
      → frac ++ replicate (scale - length frac) b'0' ≡ tail_of
      → scaled_digits (or_zero whole_of) frac scale ≡ padded
  unfolding scaled_digits
  read_scaled frac h e =
      let short : ltb scale (length frac) ≡ false = ground arith in
      rw (short, or_zero_keeps whole_of whole_pos, e)
        (take-append-drop (length padded - scale) padded)

  read_printed :
      (frac : Text)
      → AllDigits frac
      → length frac ≤ scale
      → frac ++ replicate (scale - length frac) b'0' ≡ tail_of
      → parse_scaled (elim frac [ [] ↦ whole_of | c ∷ f ↦ whole_of ++ b'.' ∷ c ∷ f ]) scale
        ≡ or_not_decimal (set_string padded)
  read_printed [] d h e =
      parse_plain whole_of whole_of none scale (IsPlain-digits _ whole_digits) whole_pos
        (cut-digits whole_of whole_digits) refl
      ∙ ap (λ t. or_not_decimal (set_string t)) (read_scaled [] h e)
  read_printed (c ∷ f) d h e =
      parse_plain (whole_of ++ b'.' ∷ c ∷ f) whole_of (some (c ∷ f)) scale
        (All-append IsPlain whole_of (b'.' ∷ c ∷ f) (IsPlain-digits _ whole_digits)
          (refl, IsPlain-digits (c ∷ f) d))
        (omega (arith, length-append whole_of (b'.' ∷ c ∷ f)))
        (cut-append whole_of (c ∷ f) whole_digits) refl
      ∙ ap (λ t. or_not_decimal (set_string t)) (read_scaled (c ∷ f) h e)

  printed_back : parse_scaled (printed padded scale) scale ≡ ok (value_from 0 padded)
  printed_back =
      read_printed (trim_right (λ c. c == b'0') tail_of)
        (All-trim_right _ (λ c. c == b'0') tail_of (All-drop _ (length padded - scale) padded ds))
        (omega (arith, length-trim_right (λ c. c == b'0') tail_of, tail_length))
        (subst
          (λ k.
            trim_right (λ c. c == b'0') tail_of
              ++ replicate (k - length (trim_right (λ c. c == b'0') tail_of)) b'0'
            ≡ tail_of)
          tail_length (trim_right-pad tail_of))
      ∙ ap or_not_decimal (set_string-digits padded ds (omega arith))

AllDigits-digits_of : (n : ℕ) → AllDigits (digits_of n)
unfolding digits_of
AllDigits-digits_of n = AllDigits-digits_before (suc n) n [] tt

value_from-digits_of : (n : ℕ) → value_from 0 (digits_of n) ≡ n
unfolding digits_of
value_from-digits_of n = value_from-digits_before (suc n) n [] (omega arith)

digits_of-pos : (n : ℕ) → 0 < length (digits_of n)
unfolding digits_of
digits_of-pos n = digits_before-pos n n

format_digits_lem :
    (ds : Text) (scale : ℕ)
    → format_digits ds scale
      ≡ printed
          (if leb (length ds) scale then replicate (scale - length ds + 1) b'0' ++ ds else ds)
          scale
unfolding format_digits
format_digits_lem ds scale = refl

format_digits-back :
    (ds : Text) (scale : ℕ)
    → AllDigits ds
    → parse_scaled (format_digits ds scale) scale ≡ ok (value_from 0 ds)
format_digits-back ds scale h = elim (Bool-cases (leb (length ds) scale)) [
  | inl e ↦
      let zeros : Text = replicate (scale - length ds + 1) b'0' in
      rw (format_digits_lem ds scale, e)
        (printed_back (zeros ++ ds) scale (All-append _ zeros ds (AllDigits-zeros _) h) (
            ground (
              arith,
              length-append zeros ds,
              length-replicate {A = ℕ} (scale - length ds + 1) b'0',
            ))
          ∙ ap ok (value_from-zeros (scale - length ds + 1) ds))
  | inr e ↦ rw (format_digits_lem ds scale, e) (printed_back ds scale h (ground arith))
]

digits_scaled : (ds : Text) → 0 < length ds → scaled_digits (or_zero ds) [] 0 ≡ ds
unfolding scaled_digits
digits_scaled ds k = rw (or_zero_keeps ds k) (append-nil ds)

digits_of-back :
    (ds : Text) → AllDigits ds → 0 < length ds → parse_scaled ds 0 ≡ ok (value_from 0 ds)
digits_of-back ds h k =
    parse_plain ds ds none 0 (IsPlain-digits ds h) k (cut-digits ds h) refl
    ∙ ap (λ t. or_not_decimal (set_string t)) (digits_scaled ds k)
    ∙ ap or_not_decimal (set_string-digits ds h k)

-- Formatting a value at any number of decimals and parsing the result at the same number gives the
-- value back, with no digit lost.
pub parse_scaled-format_scaled :
    (value decimals : ℕ) → parse_scaled (format_scaled value decimals) decimals ≡ ok value
parse_scaled-format_scaled value decimals =
    rw (format_scaled_lem value decimals) (go (Bool-cases (decimals == 0)))
  where
    format_scaled_lem :
        (v d : ℕ)
        → format_scaled v d ≡ (if d == 0 then digits_of v else format_digits (digits_of v) d)
    format_scaled_lem v d = unfold format_scaled in refl

    go :
        ((decimals == 0) ≡ true) ⊎ ((decimals == 0) ≡ false)
        → parse_scaled
            (if decimals == 0 then digits_of value else format_digits (digits_of value) decimals)
            decimals
          ≡ ok value
    go (inl e) =
        rw (e, (==_iff decimals 0).0 e)
          (digits_of-back (digits_of value) (AllDigits-digits_of value) (digits_of-pos value)
            ∙ ap ok (value_from-digits_of value))
    go (inr e) = rw e (
        format_digits-back (digits_of value) decimals (AllDigits-digits_of value)
        ∙ ap ok (value_from-digits_of value))

digits-IsInert : (s : Text) → AllDigits s → All IsInert s
digits-IsInert s h = All-map (λ c p. ground arith) s h

digits_no_minus : (s t : Text) → AllDigits s → 0 < length s → starts_with_minus (s ++ t) ≡ false
digits_no_minus [] t h k = absurd (omega arith)
digits_no_minus (c ∷ s) t h k = ground (arith, h.0)

take_all : (s : Text) → take (length s) s ≡ s
take_all [] = refl
take_all (c ∷ s) = ap (λ t. c ∷ t) (take_all s)

chosen :
    (frac junk : Text)
    → (if ltb (length frac) (length (frac ++ junk))
        then take (length frac) (frac ++ junk)
        else frac ++ junk)
      ≡ frac
chosen frac [] = rw append-nil (ground (arith, append-nil frac, take_all frac))
chosen frac (c ∷ junk) =
    let longer : ltb (length frac) (length (frac ++ c ∷ junk)) ≡ true =
      ground (arith, length-append frac (c ∷ junk)) in
    rw longer (take-append_length frac (c ∷ junk))

cut_scaled :
    (whole frac junk : Text)
    → 0 < length whole
    → 0 < length frac
    → scaled_digits (or_zero whole) (frac ++ junk) (length frac) ≡ whole ++ frac
unfolding scaled_digits
cut_scaled whole frac junk p q =
    let none_left : length frac - length frac ≡ 0 = omega arith in
    rw (or_zero_keeps whole p, chosen frac junk, none_left) (rw (append-nil frac))

some-trailing : (frac junk : Text) → 0 < length frac → trailing (some (frac ++ junk)) ≡ false
some-trailing [] junk h = absurd (omega arith)
some-trailing (c ∷ frac) junk h = refl

-- What stands beyond the scale is never read: a price of digits, a point and exactly as many digits
-- as the scale (at least one) has the same value whatever follows it, if that is no white space and
-- holds no `e` or `E`. In particular bytes that are not digits do not make such a price an error.
pub parse_scaled-ignores_rest :
    (whole frac junk : Text)
    → AllDigits whole
    → AllDigits frac
    → 0 < length whole
    → 0 < length frac
    → All IsInert junk
    → parse_scaled (whole ++ b'.' ∷ (frac ++ junk)) (length frac)
      ≡ ok (value_from 0 (whole ++ frac))
parse_scaled-ignores_rest whole frac junk h k p q j =
    parse_inert (whole ++ b'.' ∷ (frac ++ junk)) whole (some (frac ++ junk)) (length frac)
      (All-append IsInert whole _ (digits-IsInert whole h)
        (refl, All-append IsInert frac junk (digits-IsInert frac k) j))
      (digits_no_minus whole _ h p) (omega (arith, length-append whole (b'.' ∷ (frac ++ junk))))
      (cut-append whole (frac ++ junk) h) (some-trailing frac junk q)
    ∙ ap (λ t. or_not_decimal (set_string t)) (cut_scaled whole frac junk p q)
    ∙ ap or_not_decimal (
        set_string-digits (whole ++ frac) (All-append _ whole frac h k)
          (omega (arith, length-append whole frac)))
