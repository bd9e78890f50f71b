-- ===== src/Oracle/Aggregate.antt =====
-- internal/oracle/aggregate.go: Median, average, Deviation and DetectOutliers.
pub mod Median
pub mod Outliers
use aegis_protocol.Base.{
  ℕ, ◌+◌, ◌-◌, ◌*◌, ◌/◌, ◌%◌, Bool, List, [], ◌∷◌, length, get_or, ltb, leb, ◌==◌, Text,
  if◌then◌else◌,
}
use aegis_protocol.Base.Sort.{sort_ℕ}

-- floor((a+b)/2) as low + (high-low)>>1.
pub average : ℕ → ℕ → ℕ
average a b =
    let low = if ltb b a then b else a in
    let high = if ltb b a then a else b in low + (high - low) / 2

median_at : List ℕ → ℕ
unfolding average
median_at sorted =
    let mid = length sorted / 2 in
    if length sorted % 2 == 1
    then get_or sorted mid 0
    else average (get_or sorted (mid - 1) 0) (get_or sorted mid 0)

-- `Median`: zero for no values, else the middle of the sorted values.
unfoldable pub median : List ℕ → ℕ
unfolding median_at
median [] = 0
median (v ∷ values) = median_at (sort_ℕ (v ∷ values))

-- `Deviation`: the distance from the median in basis points, 0 at a zero median.
pub deviation : ℕ → ℕ → ℕ
deviation value m = if m == 0 then 0 else (if ltb value m then m - value else value - m) * 10000 / m

-- The fields of `types.OracleSubmission` that the oracle service reads.
pub record OracleSubmission : Type 0 where
  pub node : Text
  pub value : ℕ
  pub nonce : ℕ
  pub nonce_known : Bool

pub record Outlier : Type 0 where
  pub node : Text
  pub value : ℕ
  pub deviation_bps : ℕ

unfoldable pub outliers_in : List OracleSubmission → ℕ → ℕ → List Outlier
outliers_in [] m threshold = []
outliers_in (sub ∷ submissions) m threshold =
    let d = deviation sub.value m in
    if ltb threshold d
    then record { node = sub.node; value = sub.value; deviation_bps = d }
      ∷ outliers_in submissions m threshold
    else outliers_in submissions m threshold

-- `DetectOutliers`: strictly above the threshold, none at a zero median.
unfoldable pub detect_outliers : List OracleSubmission → ℕ → ℕ → List Outlier
unfolding outliers_in
detect_outliers submissions m threshold = if m == 0 then [] else outliers_in submissions m threshold
