-- ===== src/Indexer/Staking/History.antt =====
-- The intervals of the staking handler (internal/indexer/oracle_staking.go) from one delivery to the
-- next.
use aegis_protocol.Base.{
  ℕ, ◌≡◌, refl, ◌∙◌, inl, inr, Bool, true, false, ◌&&◌, List, [], ◌∷◌, ◌++◌, map, Option, none,
  some, any_of, ltb, ◌==◌, Text, World, returning, exec_cases, arith, Bool-cases,
}
use aegis_protocol.Indexer.Event.{Event, store_failed}
use aegis_protocol.Indexer.Table.{insert_new}
use aegis_protocol.Indexer.Grown.{Grown, Grown-refl, Grown-map, Grown-insert_new}
use aegis_protocol.Indexer.Distinct.{Distinct, Distinct-insert_new}
use aegis_protocol.Indexer.StakingTables.{
  Interval, Deactivation, StakingState, same_interval, is_closed_by, close_row, close_interval,
  open_oracle_node_interval, close_oracle_node_interval,
}
use aegis_protocol.Indexer.Staking.{OracleStakingHandler}
use aegis_protocol.Indexer.Staking.Deliver.{KeepsIntervals, deliver, deliver_kept}

abbrev pub stays_at : Option Deactivation → Option Deactivation → Bool
stays_at none _ = true
stays_at (some d) none = false
stays_at (some d) (some e) = e.version == d.version

-- What an interval may become: an open one may be closed, and a closed one keeps its end.
pub data IntervalStep (q r : Interval) : Type 0 where
  interval_step :
      r.chain_id ≡ q.chain_id
      → r.node ≡ q.node
      → r.activated_version ≡ q.activated_version
      → r.activated_at ≡ q.activated_at
      → stays_at q.deactivated r.deactivated ≡ true
      → IntervalStep q r

stays_refl : (o : Option Deactivation) → stays_at o o ≡ true
stays_refl o = ground arith

step_refl : (q : Interval) → IntervalStep q q
step_refl q = interval_step refl refl refl refl (stays_refl q.deactivated)

stays_closed :
    (c : ℕ) (a : Text) (d : Deactivation) (rows : List Interval) (o : Option Deactivation)
    (r : Interval)
    → stays_at o r.deactivated ≡ true
    → stays_at o (close_row c a d rows r).deactivated ≡ true
unfolding is_closed_by
stays_closed c a d rows o r h = ground arith

step_close :
    (c : ℕ) (a : Text) (d : Deactivation) (rows : List Interval) (q r : Interval)
    → IntervalStep q r
    → IntervalStep q (close_row c a d rows r)
step_close c a d rows q r (interval_step e f g h k) =
    elim (Bool-cases (is_closed_by c a d.version rows r)) [
      | inl y ↦
          interval_step (ground arith) (ground arith) (ground arith) (ground arith)
            (stays_closed c a d rows q.deactivated r k)
      | inr n ↦ rw n (interval_step e f g h k)
    ]

abbrev pub ends_after : ℕ → Option Deactivation → Bool
ends_after began none = true
ends_after began (some d) = ltb began d.version

abbrev pub all_end_after : List Interval → Bool
all_end_after [] = true
all_end_after (i ∷ rows) = ends_after i.activated_version i.deactivated && all_end_after rows

-- No two intervals of a node began at one version, and each closed one ends after it began.
pub data IsTimed (rows : List Interval) : Type 0 where
  timed : Distinct same_interval rows → all_end_after rows ≡ true → IsTimed rows

close_key :
    (c : ℕ) (a : Text) (d : Deactivation) (all : List Interval) (b i : Interval)
    → same_interval (close_row c a d all i) (close_row c a d all b) ≡ same_interval i b
close_key c a d all b i = ground arith

close_same :
    (c : ℕ) (a : Text) (d : Deactivation) (all : List Interval) (b : Interval)
    (rows : List Interval)
    → any_of (λ i. same_interval i (close_row c a d all b)) (map (close_row c a d all) rows)
      ≡ any_of (λ i. same_interval i b) rows
close_same c a d all b [] = refl
close_same c a d all b (i ∷ rows) = rw (close_key c a d all b i, close_same c a d all b rows) refl

close-Distinct :
    (c : ℕ) (a : Text) (d : Deactivation) (all rows : List Interval)
    → Distinct same_interval rows
    → Distinct same_interval (map (close_row c a d all) rows)
close-Distinct c a d all [] h = tt
close-Distinct c a d all (i ∷ rows) (n, h) =
    (close_same c a d all i rows ∙ n, close-Distinct c a d all rows h)

close_ends :
    (c : ℕ) (a : Text) (d : Deactivation) (all rows : List Interval)
    → all_end_after rows ≡ true
    → all_end_after (map (close_row c a d all) rows) ≡ true
unfolding is_closed_by
close_ends c a d all [] h = refl
close_ends c a d all (i ∷ rows) h = ground (arith, close_ends c a d all rows)

insert_ends :
    (i : Interval) (rows : List Interval)
    → i.deactivated ≡ none
    → all_end_after rows ≡ true
    → all_end_after (insert_new same_interval i rows) ≡ true
unfolding insert_new
insert_ends i rows e h = elim (Bool-cases (any_of (same_interval i) rows)) [
  | inl y ↦ rw y h
  | inr n ↦ rw n (last rows h)
]
  where
    last :
        (rows : List Interval) → all_end_after rows ≡ true → all_end_after (rows ++ i ∷ []) ≡ true
    last [] h = rw e refl
    last (j ∷ rows) h = ground (arith, last rows)

opened :
    (c : ℕ) (a : Text) (v t : ℕ) (w : World StakingState)
    → IsTimed w.state.intervals
    → IsTimed (open_oracle_node_interval c a v t w).1.state.intervals
unfolding open_oracle_node_interval
opened c a v t w (timed u e) =
    exec_cases (λ s. IsTimed s.intervals) store_failed _ w (timed u e)
      (timed (Distinct-insert_new same_interval _ w.state.intervals u)
        (insert_ends _ w.state.intervals refl e))

close_cases :
    (P : List Interval → Type 0) (c : ℕ) (a : Text) (d : Deactivation) (w : World StakingState)
    → P w.state.intervals
    → P (map (close_row c a d w.state.intervals) w.state.intervals)
    → P (close_oracle_node_interval c a d w).1.state.intervals
unfolding close_oracle_node_interval close_interval returning
close_cases P c a d w before after = grind arith

closed :
    (c : ℕ) (a : Text) (d : Deactivation) (w : World StakingState)
    → IsTimed w.state.intervals
    → IsTimed (close_oracle_node_interval c a d w).1.state.intervals
closed c a d w (timed u e) = close_cases IsTimed c a d w (timed u e) (
    timed (close-Distinct c a d w.state.intervals w.state.intervals u)
      (close_ends c a d w.state.intervals w.state.intervals e))

IsTimed-KeepsIntervals : KeepsIntervals IsTimed
IsTimed-KeepsIntervals = record { open_kept = opened; close_kept = closed }

module _ (before : List Interval) where
  abbrev LaterIntervals : List Interval → Type 0
  LaterIntervals rows = Grown IntervalStep before rows

  open_Later :
      (c : ℕ) (a : Text) (v t : ℕ) (w : World StakingState)
      → LaterIntervals w.state.intervals
      → LaterIntervals (open_oracle_node_interval c a v t w).1.state.intervals
  unfolding open_oracle_node_interval
  open_Later c a v t w h =
      exec_cases (λ s. LaterIntervals s.intervals) store_failed _ w h
        (Grown-insert_new IntervalStep same_interval _ before w.state.intervals h)

  close_Later :
      (c : ℕ) (a : Text) (d : Deactivation) (w : World StakingState)
      → LaterIntervals w.state.intervals
      → LaterIntervals (close_oracle_node_interval c a d w).1.state.intervals
  close_Later c a d w h = close_cases LaterIntervals c a d w h (
      Grown-map IntervalStep (close_row c a d w.state.intervals) before w.state.intervals
        (step_close c a d w.state.intervals) h)

-- Whatever events are delivered, in whatever order and however often, and whatever fails, every
-- interval stays as it began, and once it is closed at a version it stays closed at that version.
pub deliver-IntervalStep :
    (g : OracleStakingHandler) (events : List Event) (w : World StakingState)
    → Grown IntervalStep w.state.intervals (deliver g events w).state.intervals
deliver-IntervalStep g events w =
    let before = w.state.intervals in
    deliver_kept (LaterIntervals before)
      (record { open_kept = open_Later before; close_kept = close_Later before }) g events w
      (Grown-refl IntervalStep step_refl before)

-- Whatever events are delivered, in whatever order and however often, and whatever fails, no two
-- intervals of a node begin at one version and each closed interval ends after it began, if that
-- was so at the start.
pub deliver-IsTimed :
    (g : OracleStakingHandler) (events : List Event) (w : World StakingState)
    → IsTimed w.state.intervals
    → IsTimed (deliver g events w).state.intervals
deliver-IsTimed g events w = deliver_kept IsTimed IsTimed-KeepsIntervals g events w
