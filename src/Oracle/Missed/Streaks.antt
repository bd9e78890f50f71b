-- ===== src/Oracle/Missed/Streaks.antt =====
-- `PenaltiesFor` of internal/oracle/missed.go, against a count of the run of misses that knows no
-- restart.
use aegis_protocol.Base.{
  ℕ, suc, ◌+◌, ◌*◌, ◌%◌, ◌≤◌, ◌≡◌, refl, ap, inl, inr, Bool, true, false, List, [], ◌∷◌, ◌++◌,
  Option, none, some, length, get_or, take, count_if, leb, ◌==◌, arith, Bool-cases, if◌then◌else◌,
}
use aegis_protocol.Oracle.Missed.{
  Outcome, submitted, missed, excused, Penalty, penalties_for, penalties_from,
  consecutive_misses_penalty, missed_round_penalty,
}

-- How many misses stand at the end since the last submission, excused rounds aside.
abbrev run_from : ℕ → List Outcome → ℕ
run_from k [] = k
run_from k (submitted ∷ os) = run_from 0 os
run_from k (excused ∷ os) = run_from k os
run_from k (missed ∷ os) = run_from (suc k) os

abbrev pub run_length : List Outcome → ℕ
run_length os = run_from 0 os

-- What the last round costs by that count.
abbrev pub cost_of_miss : ℕ → Penalty
cost_of_miss k = if k % 3 == 0 then consecutive_misses_penalty else missed_round_penalty

penalties_from-at :
    (streak k : ℕ) (os : List Outcome)
    → streak ≡ k % 3
    → get_or (penalties_from streak (os ++ missed ∷ [])) (length os) none
      ≡ some (cost_of_miss (suc (run_from k os)))
unfolding penalties_from
penalties_from-at streak k [] h = ground arith
penalties_from-at streak k (submitted ∷ os) h = penalties_from-at 0 0 os refl
penalties_from-at streak k (excused ∷ os) h = penalties_from-at streak k os h
penalties_from-at streak k (missed ∷ os) h = elim (Bool-cases (leb 3 (suc streak))) [
  | inl e ↦ rw e (penalties_from-at 0 (suc k) os (ground arith))
  | inr e ↦ rw e (penalties_from-at (suc streak) (suc k) os (ground arith))
]

-- A miss always costs something, and what it costs depends only on the run of misses since the last
-- submission: every third miss of a run costs the consecutive penalty, the others the single one.
pub penalties_for-last_miss :
    (history : List Outcome)
    → get_or (penalties_for (history ++ missed ∷ [])) (length history) none
      ≡ some (cost_of_miss (suc (run_length history)))
unfolding penalties_for
penalties_for-last_miss history = penalties_from-at 0 0 history refl

penalties_from-prefix :
    (streak : ℕ) (os more : List Outcome)
    → take (length os) (penalties_from streak (os ++ more)) ≡ penalties_from streak os
unfolding penalties_from
penalties_from-prefix streak [] more = refl
penalties_from-prefix streak (submitted ∷ os) more =
    ap (λ t. none ∷ t) (penalties_from-prefix 0 os more)
penalties_from-prefix streak (excused ∷ os) more =
    ap (λ t. none ∷ t) (penalties_from-prefix streak os more)
penalties_from-prefix streak (missed ∷ os) more = elim (Bool-cases (leb 3 (suc streak))) [
  | inl e ↦ rw e (ap (λ t. some consecutive_misses_penalty ∷ t) (penalties_from-prefix 0 os more))
  | inr e ↦
      rw e (ap (λ t. some missed_round_penalty ∷ t) (penalties_from-prefix (suc streak) os more))
]

-- Later rounds never change what an earlier round cost.
pub penalties_for-prefix :
    (history more : List Outcome)
    → take (length history) (penalties_for (history ++ more)) ≡ penalties_for history
unfolding penalties_for
penalties_for-prefix history more = penalties_from-prefix 0 history more

abbrev pub is_missed : Outcome → Bool
is_missed missed = true
is_missed _ = false

abbrev pub is_penalty : Option Penalty → Bool
is_penalty none = false
is_penalty (some _) = true

abbrev pub is_consecutive : Option Penalty → Bool
is_consecutive none = false
is_consecutive (some p) = p.bps == 1000

penalties_from-count :
    (streak : ℕ) (os : List Outcome)
    → (count_if is_penalty (penalties_from streak os) ≡ count_if is_missed os)
      × (3 * count_if is_consecutive (penalties_from streak os) ≤ streak + count_if is_missed os)
      × (length (penalties_from streak os) ≡ length os)
unfolding penalties_from
penalties_from-count streak [] = omega arith
penalties_from-count streak (submitted ∷ os) = omega (arith, penalties_from-count 0 os)
penalties_from-count streak (excused ∷ os) = omega (arith, penalties_from-count streak os)
penalties_from-count streak (missed ∷ os) =
    ground (arith, penalties_from-count 0 os, penalties_from-count (suc streak) os)

-- One entry for each round, one penalty for each miss, and at most one consecutive penalty for
-- every three misses.
pub penalties_for-count :
    (history : List Outcome)
    → (count_if is_penalty (penalties_for history) ≡ count_if is_missed history)
      × (3 * count_if is_consecutive (penalties_for history) ≤ count_if is_missed history)
      × (length (penalties_for history) ≡ length history)
unfolding penalties_for
penalties_for-count history = omega (arith, penalties_from-count 0 history)
