-- ===== src/Oracle/Aggregate/Median.antt =====
-- `Median` of internal/oracle/aggregate.go: orderings and majorities of the values.
use mathlib.Core.List.{Perm, Permᴰ}
use mathlib.Core.Logic.{∥∥₁_elim}
use native.Mathlib.Nat.{ℕ_set}
use aegis_protocol.Base.{
  ℕ, zero, suc, ◌+◌, ◌-◌, ◌*◌, ◌/◌, ◌%◌, ◌≤◌, ◌<◌, ◌≡◌, refl, inl, inr, Bool, false, ◌∙◌, ◌&&◌,
  List, [], ◌∷◌, length, get_or, count_if, All, ltb, leb, ◌==◌, arith, Bool-cases,
  count_if-le_length,
}
use aegis_protocol.Base.Sort.{
  sort_ℕ, sort_by, IsSortedBy, sort_ℕ-IsSortedBy, sort_ℕ-Permᴰ, count_if-sort_by, length-sort_by,
}
use aegis_protocol.Oracle.Aggregate.{average, median, median_at}

-- `average` is the floored mean, whichever argument is the larger.
pub average_lem : (a b : ℕ) → average a b ≡ (a + b) / 2
unfolding average
average_lem a b = ground arith

-- A test for the closed range.
abbrev pub within : ℕ → ℕ → ℕ → Bool
within lo hi v = leb lo v && leb v hi

head_le :
    (x : ℕ) (s : List ℕ) (i : ℕ) → All (λ y. ltb y x ≡ false) s → i < length s → x ≤ get_or s i 0
head_le x [] i h k = absurd (omega arith)
head_le x (y ∷ s) zero h k = ground (arith, h.0)
head_le x (y ∷ s) (suc i) h k = head_le x s i h.1 (omega arith)

-- In a sorted list, what stands before a member below `lo` lies below it too.
low_count :
    (lo : ℕ) (s : List ℕ) (i : ℕ)
    → IsSortedBy ltb s
    → i < length s
    → get_or s i 0 < lo
    → suc i ≤ count_if (λ v. ltb v lo) s
low_count lo [] i h k l = absurd (omega arith)
low_count lo (x ∷ s) zero h k l = ground arith
low_count lo (x ∷ s) (suc i) h k l =
    ground (arith, head_le x s i h.0, low_count lo s i h.1 (omega arith) l)

All-above :
    (hi x : ℕ) (s : List ℕ)
    → All (λ y. ltb y x ≡ false) s
    → hi < x
    → count_if (λ v. ltb hi v) s ≡ length s
All-above hi x [] h l = refl
All-above hi x (y ∷ s) h l = ground (arith, h.0, All-above hi x s h.1 l)

-- And what stands after a member above `hi` lies above it too.
high_count :
    (hi : ℕ) (s : List ℕ) (i : ℕ)
    → IsSortedBy ltb s
    → i < length s
    → hi < get_or s i 0
    → length s ≤ i + count_if (λ v. ltb hi v) s
high_count hi [] i h k l = absurd (omega arith)
high_count hi (x ∷ s) zero h k l = ground (arith, All-above hi x s h.0 l)
high_count hi (x ∷ s) (suc i) h k l = ground (arith, high_count hi s i h.1 (omega arith) l)

-- A value is below, inside or above the range.
three_ways :
    (lo hi : ℕ) (s : List ℕ)
    → lo ≤ hi
    → count_if (λ v. ltb v lo) s + count_if (within lo hi) s + count_if (λ v. ltb hi v) s ≡ length s
three_ways lo hi [] h = refl
three_ways lo hi (x ∷ s) h = ground (arith, three_ways lo hi s h)

-- A position that fewer members than it counts can undercut or overtop is inside the range.
position_within :
    (lo hi : ℕ) (s : List ℕ) (i : ℕ)
    → lo ≤ hi
    → IsSortedBy ltb s
    → i < length s
    → length s < count_if (within lo hi) s + suc i
    → i < count_if (within lo hi) s
    → (lo ≤ get_or s i 0) × (get_or s i 0 ≤ hi)
position_within lo hi s i r h k l m = (low, high)
  where
    low : lo ≤ get_or s i 0
    low = elim (Bool-cases (ltb (get_or s i 0) lo)) [
      | inl e ↦ absurd (ground (arith, low_count lo s i h k, three_ways lo hi s r))
      | inr e ↦ ground arith
    ]

    high : get_or s i 0 ≤ hi
    high = elim (Bool-cases (ltb hi (get_or s i 0))) [
      | inl e ↦ absurd (ground (arith, high_count hi s i h k, three_ways lo hi s r))
      | inr e ↦ ground arith
    ]

average_within :
    (lo hi a b : ℕ)
    → (lo ≤ a) × (a ≤ hi)
    → (lo ≤ b) × (b ≤ hi)
    → (lo ≤ average a b) × (average a b ≤ hi)
unfolding average
average_within lo hi a b h k = ground arith

median_at-within :
    (lo hi : ℕ) (s : List ℕ)
    → lo ≤ hi
    → IsSortedBy ltb s
    → length s < 2 * count_if (within lo hi) s
    → (lo ≤ median_at s) × (median_at s ≤ hi)
unfolding median_at
median_at-within lo hi s r h m = elim (Bool-cases (length s % 2 == 1)) [
  | inl e ↦ rw e (
      position_within lo hi s (length s / 2) r h
        (omega (arith, count_if-le_length (within lo hi) s)) (ground arith) (omega arith))
  | inr e ↦ rw e (
      average_within lo hi (get_or s (length s / 2 - 1) 0) (get_or s (length s / 2) 0)
        (position_within lo hi s (length s / 2 - 1) r h
          (omega (arith, count_if-le_length (within lo hi) s)) (ground arith) (omega arith))
        (position_within lo hi s (length s / 2) r h
          (omega (arith, count_if-le_length (within lo hi) s)) (omega arith) (ground arith)))
]

-- If more than half of the values lie in a closed range, the median lies in it: what the others
-- report, a minority cannot move the result out.
pub median-majority :
    (lo hi : ℕ) (values : List ℕ)
    → lo ≤ hi
    → length values < 2 * count_if (within lo hi) values
    → (lo ≤ median values) × (median values ≤ hi)
unfolding median sort_ℕ
median-majority lo hi [] r m = absurd (omega arith)
median-majority lo hi (v ∷ values) r m =
    let s = sort_by ltb (v ∷ values) in
    median_at-within lo hi s r (unfold sort_ℕ in sort_ℕ-IsSortedBy (v ∷ values))
      (rw (length-sort_by ltb (v ∷ values), count_if-sort_by ltb (within lo hi) (v ∷ values)) m)

median-Permᴰ : {xs ys : List ℕ} → Permᴰ xs ys → median xs ≡ median ys
unfolding median
median-Permᴰ Permᴰ.nil = refl
median-Permᴰ (Permᴰ.cons {a} {b} {l₁ = l} {l₂ = l'} e p) = rw (sort_ℕ-Permᴰ (Permᴰ.cons e p))
median-Permᴰ (Permᴰ.swap {a} {b} {a' = c} {b' = d} {l = l} e e') =
    rw (sort_ℕ-Permᴰ (Permᴰ.swap {l = l} e e'))
median-Permᴰ (Permᴰ.trans p q) = median-Permᴰ p ∙ median-Permᴰ q

-- The median does not depend on the order in which the values are given.
pub median-perm : {xs ys : List ℕ} → Perm xs ys → median xs ≡ median ys
median-perm p = ∥∥₁_elim p (ℕ_set _ _) (λ q. median-Permᴰ q)
