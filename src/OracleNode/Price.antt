-- ===== src/OracleNode/Price.antt =====
-- internal/oraclenode/price.go: ParseScaled and FormatScaled, over the bytes of a string, with what
-- they use of `strings` and `big.Int.SetString` written out.
pub mod Digits
pub mod RoundTrip
use aegis_protocol.Base.{
  ℕ, zero, suc, ◌+◌, ◌-◌, ◌*◌, ◌/◌, ◌%◌, Bool, true, false, not, ◌&&◌, ◌||◌, List, [], ◌∷◌, ◌++◌,
  Option, none, some, length, take, drop, replicate, any_of, ltb, leb, ◌==◌, Text, Result, ok, err,
  if◌then◌else◌,
}

pub data PriceError : Type 0 where
  empty_price exponent_form negative_price trailing_separator not_decimal : PriceError

-- The ASCII characters that `unicode.IsSpace` accepts.
abbrev is_space : ℕ → Bool
is_space c = c == 32 || leb 9 c && leb c 13

trim_left : Text → Text
trim_left [] = []
trim_left (c ∷ s) = if is_space c then trim_left s else c ∷ s

-- Drops the bytes at the end that pass the test.
pub trim_right : (ℕ → Bool) → Text → Text
trim_right p [] = []
trim_right p (c ∷ s) = elim (trim_right p s) [ [] ↦ if p c then [] else c ∷ [] | d ∷ t ↦ c ∷ d ∷ t ]

-- `strings.TrimSpace`.
unfoldable pub trim_space : Text → Text
unfolding trim_left trim_right
trim_space s = trim_right is_space (trim_left s)

-- `strings.Cut` at a byte: what stands before it, and what stands after it if it was found.
pub cut : ℕ → Text → Text × Option Text
cut sep [] = ([], none)
cut sep (c ∷ s) =
    let (before, after) = cut sep s in if c == sep then ([], some s) else (c ∷ before, after)

abbrev is_digit : ℕ → Bool
is_digit c = leb b'0' c && leb c b'9'

-- The value of decimal digits, most significant first, after `acc`.
pub digits_value : ℕ → Text → Option ℕ
digits_value acc [] = some acc
digits_value acc (c ∷ s) =
    let rest = digits_value (acc * 10 + (c - b'0')) s in if is_digit c then rest else none

unsigned_value : Text → Option ℕ
unfolding digits_value
unsigned_value [] = none
unsigned_value (c ∷ s) = digits_value 0 (c ∷ s)

-- `big.Int.SetString(s, 10)` where no minus sign stands in front: an optional plus, then digits, of
-- which there is one at least.
set_string : Text → Option ℕ
unfolding unsigned_value
set_string [] = none
set_string (c ∷ s) = if c == b'+' then unsigned_value s else unsigned_value (c ∷ s)

abbrev starts_with_minus : Text → Bool
starts_with_minus [] = false
starts_with_minus (c ∷ s) = c == b'-'

abbrev or_zero : Text → Text
or_zero [] = b'0' ∷ []
or_zero (c ∷ s) = c ∷ s

-- `hasFrac && frac == ""`.
abbrev trailing : Option Text → Bool
trailing none = false
trailing (some []) = true
trailing (some (_ ∷ _)) = false

abbrev text_or_empty : Option Text → Text
text_or_empty none = []
text_or_empty (some s) = s

-- The digits handed to `SetString`: the fraction cut to the scale, or padded to it.
scaled_digits : Text → Text → ℕ → Text
scaled_digits whole frac scale =
    let frac' = if ltb scale (length frac) then take scale frac else frac in
    whole ++ (frac' ++ replicate (scale - length frac') b'0')

abbrev or_not_decimal : Option ℕ → Result PriceError ℕ
or_not_decimal none = err not_decimal
or_not_decimal (some n) = ok n

parse_trimmed : Text → ℕ → Result PriceError ℕ
unfolding cut scaled_digits set_string
parse_trimmed [] decimals = err empty_price
parse_trimmed (c ∷ s) decimals =
    let (whole, after) = cut b'.' (c ∷ s) in
    if any_of (λ d. d == b'e' || d == b'E') (c ∷ s)
    then err exponent_form
    else if starts_with_minus (c ∷ s)
    then err negative_price
    else if trailing after
    then err trailing_separator
    else or_not_decimal (set_string (scaled_digits (or_zero whole) (text_or_empty after) decimals))

pub parse_scaled : Text → ℕ → Result PriceError ℕ
unfolding parse_trimmed trim_space
parse_scaled value decimals = parse_trimmed (trim_space value) decimals

-- `big.Int.String`: the digits of a number in front of `rest`. A number has at most as many digits
-- as its value and one more, which is the fuel.
pub digits_before : ℕ → ℕ → Text → Text
digits_before zero n rest = rest
digits_before (suc fuel) n rest =
    let digit = b'0' + n % 10 in
    let more = digits_before fuel (n / 10) (digit ∷ rest) in if ltb n 10 then digit ∷ rest else more

digits_of : ℕ → Text
unfolding digits_before
digits_of n = digits_before (suc n) n []

-- The digits with a point in front of the last `scale`, and the zeros at the end trimmed.
abbrev pub printed : Text → ℕ → Text
printed padded scale =
    let split = length padded - scale in
    let frac = trim_right (λ c. c == b'0') (drop split padded) in
    elim frac [ [] ↦ take split padded | c ∷ f ↦ take split padded ++ b'.' ∷ c ∷ f ]

format_digits : Text → ℕ → Text
unfolding trim_right
format_digits ds scale =
    printed (if leb (length ds) scale then replicate (scale - length ds + 1) b'0' ++ ds else ds)
      scale

-- `FormatScaled`.
pub format_scaled : ℕ → ℕ → Text
unfolding digits_of format_digits
format_scaled value decimals =
    if decimals == 0 then digits_of value else format_digits (digits_of value) decimals
