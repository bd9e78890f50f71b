-- ===== src/Oracle/Judge/Loop.antt =====
-- `JudgeMisses` of internal/oracle/aggregator.go from one call to the next.
use aegis_protocol.Base.{
  ℕ, zero, suc, ◌+◌, ◌≡◌, refl, sym, subst, inl, inr, true, List, Option, none, some, length, ltb,
  Text, World, ◌>>=◌, pure, Keeps, Bool-cases,
}
use aegis_protocol.Base.Effects.{then_from, read_from, Keeps-pure}
use aegis_protocol.Oracle.Judge.{
  RoundRow, JudgeTables, JudgeAction, store_failed, next_round, judge_one, judge_submitted,
  judge_next, judge_misses, is_finished, recorded, submitters_of,
}
use aegis_protocol.Oracle.Judge.Order.{Marked, one_Marked}
use aegis_protocol.Oracle.Judge.Prefix.{judged_below, IsNext, IsNext-from, mark_below}

-- Of a chain's rounds exactly those below some bound are judged.
abbrev pub IsPrefix : ℕ → JudgeTables → Type 0
IsPrefix c s = (bound : ℕ) × (judged_below c bound s.rounds ≡ true)

module _ (c now : ℕ) where
  Marked-IsPrefix :
      (bound : ℕ) (rows : List RoundRow) (r : RoundRow) (s : JudgeTables)
      → judged_below c bound rows ≡ true
      → IsNext c bound rows r
      → Marked c now r.round.round_id rows s
      → IsPrefix c s
  Marked-IsPrefix bound rows r s b next (inl e) =
      (bound, subst (λ x. judged_below c bound x ≡ true) (sym e) b)
  Marked-IsPrefix bound rows r s b (l, f) (inr e) = (
    r.round.round_id + 1,
    subst (λ x. judged_below c (r.round.round_id + 1) x ≡ true) (sym e)
        (mark_below c now bound r.round.round_id rows l b f),
  )

  submitted_IsPrefix :
      (r : RoundRow) (rest : JudgeAction ℕ) (subs : List Text) (bound : ℕ) (w : World JudgeTables)
      → Keeps (IsPrefix c) rest
      → judged_below c bound w.state.rounds ≡ true
      → IsNext c bound w.state.rounds r
      → IsPrefix c (judge_submitted c now r rest subs w).1.state
  unfolding judge_submitted
  submitted_IsPrefix r rest subs bound w k b next =
      elim (Bool-cases (ltb (length subs) (recorded c now r.round.submission_count))) [
        | inl y ↦ rw y (bound, b)
        | inr n ↦ rw n (
            then_from (IsPrefix c) (judge_one c now r.round subs)
              (rest >>= λ count. pure (suc count)) w
              (Keeps-pure (IsPrefix c) rest (λ count. suc count) k)
              (Marked-IsPrefix bound w.state.rounds r (judge_one c now r.round subs w).1.state b
                next (one_Marked c now r.round subs w.state.rounds w (inl refl))))
      ]

  next_IsPrefix :
      (rest : JudgeAction ℕ) (o : Option RoundRow) (w : World JudgeTables)
      → Keeps (IsPrefix c) rest
      → IsPrefix c w.state
      → next_round c w.state.rounds ≡ o
      → IsPrefix c (judge_next c now rest o w).1.state
  unfolding judge_next
  next_IsPrefix rest none w k h e = h
  next_IsPrefix rest (some r) w k (bound, b) e =
      elim (Bool-cases (is_finished c now r.round.state)) [
        | inl y ↦ rw y (
            read_from (IsPrefix c) store_failed
              (λ s. submitters_of c r.round.round_id s.submissions) (judge_submitted c now r rest) w
              (bound, b)
              (λ fs.
                submitted_IsPrefix r rest (submitters_of c r.round.round_id w.state.submissions)
                  bound (record w { faults = fs }) k b (IsNext-from c bound w.state.rounds r b e)))
        | inr n ↦ rw n (bound, b)
      ]

  misses_IsPrefix : (left : ℕ) → Keeps (IsPrefix c) (judge_misses c now left)
  unfolding judge_misses
  misses_IsPrefix zero w h = h
  misses_IsPrefix (suc left) w h =
      read_from (IsPrefix c) store_failed (λ s. next_round c s.rounds)
        (judge_next c now (judge_misses c now left)) w h
        (λ fs.
          next_IsPrefix (judge_misses c now left) (next_round c w.state.rounds)
            (record w { faults = fs }) (misses_IsPrefix left) h refl)

-- If exactly the rounds below some bound were judged before a call of JudgeMisses, then, whatever fails
-- and wherever the call stops, exactly those below some bound are judged after it: the call judges no
-- round before a lower one.
pub judge_misses-IsPrefix :
    (c now left : ℕ) (w : World JudgeTables)
    → IsPrefix c w.state
    → IsPrefix c (judge_misses c now left w).1.state
judge_misses-IsPrefix c now left w h = misses_IsPrefix c now left w h
