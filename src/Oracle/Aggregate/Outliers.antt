-- ===== src/Oracle/Aggregate/Outliers.antt =====
-- `DetectOutliers` of internal/oracle/aggregate.go against distances from the median.
use native.Mathlib.Nat.{mod-lt, div-add-mod}
use aegis_protocol.Base.{
  ℕ, suc, ◌+◌, ◌-◌, ◌*◌, ◌/◌, ◌≤◌, ◌<◌, ◌≡◌, ◌⊎◌, ◌↔◌, inl, inr, true, false, List, [], ◌∷◌, Any,
  ltb, ◌==◌, arith, Bool-cases, ltb→lt, ltb→ge, if◌then◌else◌, Text,
}
use aegis_protocol.Oracle.Aggregate.{
  deviation, OracleSubmission, Outlier, outliers_in, detect_outliers,
}

-- The distance of two numbers.
abbrev pub distance : ℕ → ℕ → ℕ
distance a b = (a - b) + (b - a)

lt-div : (t a m : ℕ) → 0 < m → t < a / m → suc t * m ≤ a
lt-div t a m p h = grind (arith, div-add-mod a m, mod-lt)

div-lt : (t a m : ℕ) → 0 < m → suc t * m ≤ a → t < a / m
div-lt t a m p h = grind (arith, div-add-mod a m, mod-lt)

distance_eq : (value m : ℕ) → (if ltb value m then m - value else value - m) ≡ distance value m
distance_eq value m = ground arith

-- A deviation above the threshold is a distance of at least the next basis point.
pub deviation-lt_iff :
    (threshold value m : ℕ)
    → 0 < m
    → (threshold < deviation value m) ↔ (suc threshold * m ≤ distance value m * 10000)
unfolding deviation
deviation-lt_iff threshold value m p = rw (distance_eq value m) (go (Bool-cases (m == 0)))
  where
    go :
        ((m == 0) ≡ true) ⊎ ((m == 0) ≡ false)
        → (threshold < (if m == 0 then 0 else distance value m * 10000 / m))
          ↔ (suc threshold * m ≤ distance value m * 10000)
    go (inl e) = absurd (ground arith)
    go (inr e) = rw e (lt-div threshold _ m p, div-lt threshold _ m p)

abbrev IsFlagged : Text → ℕ → Outlier → Type 0
IsFlagged n v o = (o.node ≡ n) × (o.value ≡ v)

abbrev IsFar : ℕ → ℕ → Text → ℕ → OracleSubmission → Type 0
IsFar m threshold n v s = (s.node ≡ n) × (s.value ≡ v) × (suc threshold * m ≤ distance v m * 10000)

module _ (s : OracleSubmission) (m threshold : ℕ) (n : Text) (v : ℕ) (p : 0 < m) where
  IsFar-test :
      ltb threshold (deviation s.value m) ≡ true
      → (s.node ≡ n) × (s.value ≡ v)
      → IsFar m threshold n v s
  IsFar-test e h = (h.0, h.1, (deviation-lt_iff threshold v m p).0 (rw h.1 at (ltb→lt _ _ e)))

  IsFar-near_test : ltb threshold (deviation s.value m) ≡ false → ¬ (IsFar m threshold n v s)
  IsFar-near_test e h =
      absurd (omega (arith, (deviation-lt_iff threshold v m p).1 h.2, rw h.1 at (ltb→ge _ _ e)))

outliers_in_iff :
    (submissions : List OracleSubmission) (m threshold : ℕ) (n : Text) (v : ℕ)
    → 0 < m
    → Any (IsFlagged n v) (outliers_in submissions m threshold)
      ↔ Any (IsFar m threshold n v) submissions
unfolding outliers_in
outliers_in_iff [] m threshold n v p = (λ h. h, λ h. h)
outliers_in_iff (s ∷ submissions) m threshold n v p =
    let rest = outliers_in_iff submissions m threshold n v p in
    elim (Bool-cases (ltb threshold (deviation s.value m))) [
      | inl e ↦ rw e (
        λ h. elim h [ inl k ↦ inl (IsFar-test s m threshold n v p e k) | inr k ↦ inr (rest.0 k) ],
        λ h. elim h [ inl k ↦ inl (k.0, k.1) | inr k ↦ inr (rest.1 k) ],
      )
      | inr e ↦ rw e (
        λ h. inr (rest.0 h),
        λ h. elim h [ inl k ↦ absurd (IsFar-near_test s m threshold n v p e k) | inr k ↦ rest.1 k ],
      )
    ]

-- With a median that is not zero, a node is flagged with a value exactly when it submitted that
-- value and the value's distance from the median, in units of median / 10000, is at least
-- `threshold + 1`; with a zero median no node is flagged.
pub detect_outliers_iff :
    (submissions : List OracleSubmission) (m threshold : ℕ) (n : Text) (v : ℕ)
    → Any (λ o. (o.node ≡ n) × (o.value ≡ v)) (detect_outliers submissions m threshold) ↔ (
        (0 < m)
        × Any
            (λ s. (s.node ≡ n) × (s.value ≡ v) × (suc threshold * m ≤ distance v m * 10000))
            submissions)
unfolding detect_outliers
detect_outliers_iff submissions m threshold n v = elim (Bool-cases (m == 0)) [
  | inl e ↦ rw e (λ h. absurd h, λ h. absurd (ground (arith, h.0)))
  | inr e ↦ rw e (
    λ h. (ground arith, (outliers_in_iff submissions m threshold n v (ground arith)).0 h),
    λ h. (outliers_in_iff submissions m threshold n v h.0).1 h.1,
  )
]
