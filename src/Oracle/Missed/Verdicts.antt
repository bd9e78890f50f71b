-- ===== src/Oracle/Missed/Verdicts.antt =====
-- `JudgeRound` of internal/oracle/missed.go: which nodes have a verdict, and what explains it.
use aegis_protocol.Base.{
  ℕ, ◌≤◌, ◌<◌, ◌≡◌, ◌⊎◌, inl, inr, Bool, true, false, not, ◌&&◌, ◌||◌, List, [], ◌∷◌, some,
  count_if, any_of, All, All-map, Any, arith, Bool-cases, Option-cases, if◌then◌else◌, Text,
  text_eq, text_eq→eq,
}
use aegis_protocol.Base.Sort.{count_if-sort_by, All-sort_by}
use aegis_protocol.Oracle.Missed.{
  NodeInterval, JudgedRound, Verdict, submitted, missed, excused, contains, mem_text, is_empty,
  removed_within_window, closed_early, verdict_for, judge_from, deactivation_manual,
  deactivation_below_stake_floor, judge_round, by_node,
}

verdict_for-node : (round : JudgedRound) (iv : NodeInterval) → (verdict_for round iv).node ≡ iv.node
unfolding verdict_for
verdict_for-node round iv = ground arith

-- Whether some interval of the node contains the round's frozen version.
abbrev pub is_eligible : JudgedRound → List NodeInterval → Text → Bool
is_eligible round intervals n =
    any_of (λ iv. text_eq iv.node n && contains iv round.node_set_version) intervals

abbrev verdicts_of : Text → List Verdict → ℕ
verdicts_of n = count_if (λ v. text_eq v.node n)

judge_from-once :
    (round : JudgedRound) (seen : List Text) (intervals : List NodeInterval) (n : Text)
    → verdicts_of n (judge_from round seen intervals)
      ≡ (if mem_text n seen then 0 else if is_eligible round intervals n then 1 else 0)
unfolding judge_from
judge_from-once round seen [] n = ground arith
judge_from-once round seen (iv ∷ intervals) n = ground (
  arith,
  text_eq→eq iv.node n,
  verdict_for-node round iv,
  judge_from-once round seen intervals n,
  judge_from-once round (iv.node ∷ seen) intervals n,
)

-- A node has exactly one verdict if one of its intervals contains the round's frozen version, and
-- none if no interval does, however many intervals are given for it.
pub judge_round-once :
    (round : JudgedRound) (intervals : List NodeInterval) (n : Text)
    → count_if (λ v. text_eq v.node n) (judge_round round intervals)
      ≡ (if is_eligible round intervals n then 1 else 0)
unfolding judge_round
judge_round-once round intervals n =
    rw (count_if-sort_by by_node (λ v. text_eq v.node n) (judge_from round [] intervals))
      (judge_from-once round [] intervals n)

-- The round ended its submissions before the deadline.
abbrev pub ClosedEarly : JudgedRound → Type 0
ClosedEarly round = (at : ℕ) × (round.settled_at ≡ some at) × (at < round.deadline)

-- The node was put out of the set before the deadline, and not at its own request.
abbrev pub RemovedBefore : NodeInterval → ℕ → Type 0
RemovedBefore iv deadline =
    (d : ℕ) × (at : ℕ) × (iv.deactivated ≡ some d)
    × (iv.deactivated_at ≡ some at)
    × ((text_eq iv.reason deactivation_manual || text_eq iv.reason deactivation_below_stake_floor)
        ≡ true)
    × (at < deadline)

-- What a verdict says of the round and of the interval that it rests on.
pub record Explains (round : JudgedRound) (v : Verdict) (iv : NodeInterval) : Type 0 where
  pub same_node : iv.node ≡ v.node
  pub begun : iv.activated ≤ round.node_set_version
  pub not_ended : (d : ℕ) → iv.deactivated ≡ some d → round.node_set_version < d
  pub if_submitted : v.outcome ≡ submitted → mem_text v.node round.submitters ≡ true
  pub if_missed :
      v.outcome ≡ missed
      → (mem_text v.node round.submitters ≡ false)
        × (is_empty round.submitters ≡ false)
        × (¬ (ClosedEarly round))
        × (¬ (RemovedBefore iv round.deadline))
  pub if_excused :
      v.outcome ≡ excused
      → (mem_text v.node round.submitters ≡ false)
        × ((is_empty round.submitters ≡ true) ⊎ ClosedEarly round ⊎ RemovedBefore iv round.deadline)

closed_early→ClosedEarly : (round : JudgedRound) → closed_early round ≡ true → ClosedEarly round
unfolding closed_early
closed_early→ClosedEarly round h = elim (Option-cases round.settled_at) [
  | inl e ↦ ground arith
  | inr (at, e) ↦ (at, e, ground arith)
]

removed→RemovedBefore :
    (iv : NodeInterval) (deadline : ℕ)
    → removed_within_window iv deadline ≡ true
    → RemovedBefore iv deadline
unfolding removed_within_window
removed→RemovedBefore iv deadline h = elim (Option-cases iv.deactivated) [
  | inl e ↦ ground arith
  | inr (d, e) ↦ elim (Option-cases iv.deactivated_at) [
    | inl f ↦ ground arith
    | inr (at, f) ↦ (d, at, e, f, ground arith, ground arith)
  ]
]

excused_why :
    (round : JudgedRound) (iv : NodeInterval)
    → (verdict_for round iv).outcome ≡ excused
    → (is_empty round.submitters ≡ true) ⊎ ClosedEarly round ⊎ RemovedBefore iv round.deadline
excused_why round iv h = elim (Bool-cases (is_empty round.submitters)) [
  | inl e ↦ inl e
  | inr e ↦ inr (elim (Bool-cases (closed_early round)) [
    | inl c ↦ inl (closed_early→ClosedEarly round c)
    | inr c ↦ inr (removed→RemovedBefore iv round.deadline (removed e c))
  ])
]
  where
    removed :
        is_empty round.submitters ≡ false
        → closed_early round ≡ false
        → removed_within_window iv round.deadline ≡ true
    removed e c = unfold verdict_for in ground arith

verdict_for-Explains :
    (round : JudgedRound) (iv : NodeInterval)
    → contains iv round.node_set_version ≡ true
    → Explains round (verdict_for round iv) iv
unfolding verdict_for contains
verdict_for-Explains round iv h = record {
  same_node = ground arith;
  begun = ground arith;
  not_ended = λ d e. ground arith;
  if_submitted = λ e. ground arith;
  if_missed = λ e. (ground arith, ground arith, λ c. ground arith, λ c. ground arith);
  if_excused = λ e. (ground arith, excused_why round iv e);
}

judge_from-Explains :
    (round : JudgedRound) (seen : List Text) (intervals : List NodeInterval)
    → All (λ v. Any (Explains round v) intervals) (judge_from round seen intervals)
unfolding judge_from
judge_from-Explains round seen [] = tt
judge_from-Explains round seen (iv ∷ intervals) =
    elim (Bool-cases (mem_text iv.node seen || not (contains iv round.node_set_version))) [
      | inl e ↦ rw e (later seen (judge_from-Explains round seen intervals))
      | inr e ↦ rw e (
        inl (verdict_for-Explains round iv (ground arith)),
        later (iv.node ∷ seen) (judge_from-Explains round (iv.node ∷ seen) intervals),
      )
    ]
  where
    later :
        (s : List Text)
        → All (λ v. Any (Explains round v) intervals) (judge_from round s intervals)
        → All (λ v. Any (Explains round v) (iv ∷ intervals)) (judge_from round s intervals)
    later s = All-map (λ v h. inr h) (judge_from round s intervals)

-- Every verdict rests on an interval of its node that contains the round's frozen version. It is
-- "submitted" only of a node that submitted; "missed" only of a silent node in a round where some
-- node submitted, that was not settled before its deadline, and where that interval was not ended
-- before the deadline for a reason other than the node's own request; "excused" only of a silent
-- node in a round without submissions, settled early, or before whose deadline that interval ended
-- for such a reason.
pub judge_round-Explains :
    (round : JudgedRound) (intervals : List NodeInterval)
    → All (λ v. Any (Explains round v) intervals) (judge_round round intervals)
unfolding judge_round
judge_round-Explains round intervals =
    All-sort_by by_node (λ v. Any (Explains round v) intervals) (judge_from round [] intervals)
      (judge_from-Explains round [] intervals)
