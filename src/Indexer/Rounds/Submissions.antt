-- ===== src/Indexer/Rounds/Submissions.antt =====
-- The rounds and submissions that the handler of internal/indexer/oracle.go leaves in the tables.
use aegis_protocol.Base.{
  ℕ, ◌≡◌, refl, ◌∙◌, inl, inr, Bool, true, false, not, ◌&&◌, List, [], ◌∷◌, ◌++◌, map, Option, none,
  some, any_of, World, exec_cases, arith, Bool-cases,
}
use aegis_protocol.Indexer.Event.{store_failed}
use aegis_protocol.Indexer.Table.{insert_new}
use aegis_protocol.Indexer.Distinct.{Distinct, Distinct-append}
use aegis_protocol.Indexer.RoundTables.{
  Feed, Round, RoundState, Submission, RoundTables, opened, quorum_met, settled, failed, same_round,
  same_submission, same_node_round, is_round, may_insert_submission, may_insert_round,
  update_rounds, quorum_row, settle_row, fail_row, insert_oracle_round, insert_oracle_submission,
}

abbrev is_some : {A : Type 0} → Option A → Bool
is_some none = false
is_some (some a) = true

-- Which of the result's columns a round in each state has.
abbrev pub has_result : RoundState → Bool → Bool → Bool
has_result opened value at = not value && not at
has_result quorum_met value at = not value && not at
has_result settled value at = value && at
has_result failed value at = not value && at

abbrev pub all_have_results : List Round → Bool
all_have_results [] = true
all_have_results (r ∷ rows) =
    has_result r.state (is_some r.aggregated_value) (is_some r.settled_at) && all_have_results rows

-- Every submission's round is there.
abbrev pub all_have_rounds : List Round → List Submission → Bool
all_have_rounds rounds [] = true
all_have_rounds rounds (sub ∷ rows) =
    any_of (is_round sub.chain_id sub.round_id) rounds && all_have_rounds rounds rows

-- A round has a value exactly when it is settled and an end exactly when it is settled or failed;
-- no round stands twice; a submission belongs to a round that is there, and no node has two in one
-- round.
pub data IsOrderly (s : RoundTables) : Type 0 where
  orderly :
      all_have_results s.rounds ≡ true
      → Distinct same_round s.rounds
      → all_have_rounds s.rounds s.submissions ≡ true
      → Distinct same_node_round s.submissions
      → IsOrderly s

-- A change of rows that keeps their keys and their results in order.
pub record KeepsOrder (f : Round → Round) : Type 0 where
  chain : (r : Round) → (f r).chain_id ≡ r.chain_id
  id : (r : Round) → (f r).round_id ≡ r.round_id
  result :
      (r : Round)
      → has_result r.state (is_some r.aggregated_value) (is_some r.settled_at) ≡ true
      → has_result (f r).state (is_some (f r).aggregated_value) (is_some (f r).settled_at) ≡ true

module _ (f : Round → Round) (k : KeepsOrder f) where
  map_results :
      (rows : List Round) → all_have_results rows ≡ true → all_have_results (map f rows) ≡ true
  map_results [] h = refl
  map_results (r ∷ rows) h = ground (arith, k.result r, map_results rows)

  map_any_round :
      (c i : ℕ) (rows : List Round)
      → any_of (is_round c i) (map f rows) ≡ any_of (is_round c i) rows
  map_any_round c i [] = refl
  map_any_round c i (r ∷ rows) = rw (k.chain r, k.id r, map_any_round c i rows)

  map-same_round :
      (b : Round) (rows : List Round)
      → any_of (λ c. same_round c (f b)) (map f rows) ≡ any_of (λ c. same_round c b) rows
  map-same_round b [] = refl
  map-same_round b (r ∷ rows) = rw (k.chain r, k.id r, k.chain b, k.id b, map-same_round b rows)

  map-Distinct : (rows : List Round) → Distinct same_round rows → Distinct same_round (map f rows)
  map-Distinct [] d = tt
  map-Distinct (r ∷ rows) (n, d) = (map-same_round r rows ∙ n, map-Distinct rows d)

  map_have_rounds :
      (rows : List Round) (subs : List Submission)
      → all_have_rounds (map f rows) subs ≡ all_have_rounds rows subs
  map_have_rounds rows [] = refl
  map_have_rounds rows (s ∷ subs) =
      rw (map_any_round s.chain_id s.round_id rows, map_have_rounds rows subs)

  map-IsOrderly : (s : RoundTables) → IsOrderly s → IsOrderly (record s { rounds = map f s.rounds })
  map-IsOrderly s (orderly a b c d) =
      orderly (map_results s.rounds a) (map-Distinct s.rounds b)
        (map_have_rounds s.rounds s.submissions ∙ c) d

pub quorum_row-KeepsOrder : (c i n : ℕ) → KeepsOrder (quorum_row c i n)
unfolding quorum_row
quorum_row-KeepsOrder c i n = record {
  chain = λ r. ground arith;
  id = λ r. ground arith;
  result = λ r h. ground arith;
}

pub settle_row-KeepsOrder : (c i v n t : ℕ) → KeepsOrder (settle_row c i v n t)
unfolding settle_row
settle_row-KeepsOrder c i v n t = record {
  chain = λ r. ground arith;
  id = λ r. ground arith;
  result = λ r h. ground arith;
}

pub fail_row-KeepsOrder : (c i n t : ℕ) → KeepsOrder (fail_row c i n t)
unfolding fail_row
fail_row-KeepsOrder c i n t = record {
  chain = λ r. ground arith;
  id = λ r. ground arith;
  result = λ r h. ground arith;
}

abbrev Orderly : World RoundTables → Type 0
Orderly w = IsOrderly w.state

pub update_IsOrderly :
    (f : Round → Round) (w : World RoundTables)
    → KeepsOrder f
    → Orderly w
    → Orderly (update_rounds f w).1
update_IsOrderly f w k h = exec_cases IsOrderly store_failed _ w h (map-IsOrderly f k w.state h)

append_results :
    (rows : List Round) (r : Round)
    → all_have_results rows ≡ true
    → has_result r.state (is_some r.aggregated_value) (is_some r.settled_at) ≡ true
    → all_have_results (rows ++ r ∷ []) ≡ true
append_results [] r h k = ground arith
append_results (q ∷ rows) r h k = ground (arith, append_results rows r)

any_of-append :
    {A : Type 0} (p : A → Bool) (rows more : List A)
    → any_of p rows ≡ true
    → any_of p (rows ++ more) ≡ true
any_of-append p [] more h = absurd (ground arith)
any_of-append p (r ∷ rows) more h = ground (arith, any_of-append p rows more)

append_have_rounds :
    (rows more : List Round) (subs : List Submission)
    → all_have_rounds rows subs ≡ true
    → all_have_rounds (rows ++ more) subs ≡ true
append_have_rounds rows more [] h = refl
append_have_rounds rows more (s ∷ subs) h = ground (
  arith,
  any_of-append (is_round s.chain_id s.round_id) rows more,
  append_have_rounds rows more subs,
)

insert_round_IsOrderly :
    (r : Round) (s : RoundTables)
    → has_result r.state (is_some r.aggregated_value) (is_some r.settled_at) ≡ true
    → IsOrderly s
    → IsOrderly (record s { rounds = insert_new same_round r s.rounds })
unfolding insert_new
insert_round_IsOrderly r s k (orderly a b c d) =
    elim (Bool-cases (any_of (same_round r) s.rounds)) [
      | inl e ↦ rw e (orderly a b c d)
      | inr e ↦ rw e (
          orderly (append_results s.rounds r a k) (Distinct-append same_round s.rounds r b e)
            (append_have_rounds s.rounds (r ∷ []) s.submissions c) d)
    ]

append_submission :
    (rounds : List Round) (subs : List Submission) (sub : Submission)
    → all_have_rounds rounds subs ≡ true
    → any_of (is_round sub.chain_id sub.round_id) rounds ≡ true
    → all_have_rounds rounds (subs ++ sub ∷ []) ≡ true
append_submission rounds [] sub h k = ground arith
append_submission rounds (t ∷ subs) sub h k = ground (arith, append_submission rounds subs sub)

insert_submission_IsOrderly :
    (sub : Submission) (s : RoundTables)
    → may_insert_submission sub s ≡ true
    → IsOrderly s
    → IsOrderly (record s { submissions = insert_new same_submission sub s.submissions })
unfolding insert_new
insert_submission_IsOrderly sub s k (orderly a b c d) =
    elim (Bool-cases (any_of (same_submission sub) s.submissions)) [
      | inl e ↦ rw e (orderly a b c d)
      | inr e ↦
          let (free, there) = allowed sub s k e in
          rw e (
            orderly a b (append_submission s.rounds s.submissions sub c there)
              (Distinct-append same_node_round s.submissions sub d free))
    ]
  where
    allowed :
        (sub : Submission) (s : RoundTables)
        → may_insert_submission sub s ≡ true
        → any_of (same_submission sub) s.submissions ≡ false
        → (any_of (same_node_round sub) s.submissions ≡ false)
          × (any_of (is_round sub.chain_id sub.round_id) s.rounds ≡ true)
    allowed sub s k e = ground arith

pub insert_round_Orderly :
    (r : Round) (w : World RoundTables)
    → has_result r.state (is_some r.aggregated_value) (is_some r.settled_at) ≡ true
    → Orderly w
    → Orderly (insert_oracle_round r w).1
unfolding insert_oracle_round
insert_round_Orderly r w k h = elim (Bool-cases (may_insert_round r w.state)) [
  | inl e ↦ rw e (exec_cases IsOrderly store_failed _ w h (insert_round_IsOrderly r w.state k h))
  | inr e ↦ rw e h
]

pub insert_submission_Orderly :
    (sub : Submission) (w : World RoundTables)
    → Orderly w
    → Orderly (insert_oracle_submission sub w).1
unfolding insert_oracle_submission
insert_submission_Orderly sub w h = elim (Bool-cases (may_insert_submission sub w.state)) [
  | inl e ↦
      rw e (exec_cases IsOrderly store_failed _ w h (insert_submission_IsOrderly sub w.state e h))
  | inr e ↦ rw e h
]

-- Feeds are no part of the order.
pub feeds_IsOrderly :
    (fs : List Feed) (s : RoundTables) → IsOrderly s → IsOrderly (record s { feeds = fs })
feeds_IsOrderly fs s (orderly a b c d) = orderly a b c d
