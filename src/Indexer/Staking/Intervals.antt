-- ===== src/Indexer/Staking/Intervals.antt =====
-- The intervals that the staking handler keeps (internal/db/oracle.go), as the aggregator reads them
-- (internal/db/oracle_misses.go).
use aegis_protocol.Base.{
  ℕ, ◌<◌, ◌≡◌, refl, ap, ◌∙◌, Bool, true, false, ◌&&◌, ◌||◌, List, [], ◌∷◌, ◌++◌, map, Option, none,
  some, any_of, keep_if, ltb, leb, ◌==◌, Text, text_eq, text_eq_refl, text_eq_sym, arith,
}
use aegis_protocol.Indexer.Table.{insert_new}
use aegis_protocol.Indexer.StakingTables.{
  Interval, Deactivation, same_interval, none_later, is_closed_by, close_row, close_interval,
}
use aegis_protocol.Oracle.Missed.{NodeInterval}

abbrev version_of : Option Deactivation → Option ℕ
version_of none = none
version_of (some d) = some d.version

abbrev at_of : Option Deactivation → Option ℕ
at_of none = none
at_of (some d) = some d.at

-- `COALESCE(deactivation_reason, '')`.
abbrev reason_of : Option Deactivation → Text
reason_of none = []
reason_of (some d) = d.reason

abbrev pub node_interval : Interval → NodeInterval
node_interval i = record {
  node = i.node;
  activated = i.activated_version;
  deactivated = version_of i.deactivated;
  deactivated_at = at_of i.deactivated;
  reason = reason_of i.deactivated;
}

abbrev still_in : ℕ → Option Deactivation → Bool
still_in version none = true
still_in version (some d) = ltb version d.version

-- The `WHERE` of qIntervalsAt.
abbrev pub is_at : ℕ → ℕ → Interval → Bool
is_at chain_id version i =
    i.chain_id == chain_id && leb i.activated_version version && still_in version i.deactivated

-- `NodeIntervalsAt`.
unfoldable pub node_intervals_at : ℕ → ℕ → List Interval → List NodeInterval
node_intervals_at chain_id version rows = map node_interval (keep_if (is_at chain_id version) rows)

-- The rows after qOpenNodeInterval.
unfoldable pub open_interval : ℕ → Text → ℕ → ℕ → List Interval → List Interval
open_interval chain_id node version at rows =
    insert_new same_interval
      (record {
        chain_id = chain_id;
        node = node;
        activated_version = version;
        activated_at = at;
        deactivated = none;
      })
      rows

-- The aggregator expects the node at the version.
unfoldable pub is_expected : ℕ → Text → ℕ → List Interval → Bool
unfolding node_intervals_at
is_expected chain_id node version rows =
    any_of (λ iv. text_eq iv.node node) (node_intervals_at chain_id version rows)

abbrev is_mine : ℕ → Text → ℕ → Interval → Bool
is_mine c a v i = is_at c v i && text_eq i.node a

expected_iff :
    (c : ℕ) (a : Text) (v : ℕ) (rows : List Interval)
    → is_expected c a v rows ≡ any_of (is_mine c a v) rows
unfolding is_expected
expected_iff c a v [] = refl
expected_iff c a v (i ∷ rows) = ground (arith, expected_iff c a v rows)

-- The node has an interval that began at the version or later.
abbrev pub began_since : ℕ → Text → ℕ → Interval → Bool
began_since c a version i = i.chain_id == c && text_eq i.node a && leb version i.activated_version

module _ (c : ℕ) (a : Text) (x t : ℕ) (d : Deactivation) (later : x < d.version) where
  abbrev new : Interval
  new = record {
    chain_id = c;
    node = a;
    activated_version = x;
    activated_at = t;
    deactivated = none;
  }

  none_same :
      (rows : List Interval)
      → any_of (began_since c a x) rows ≡ false
      → any_of (same_interval new) rows ≡ false
  none_same [] h = refl
  none_same (i ∷ rows) h = ground (arith, none_same rows, text_eq_sym a i.node)

  outdone :
      (bound : ℕ) (rows : List Interval)
      → bound < x
      → none_later c a d.version bound (rows ++ new ∷ []) ≡ false
  unfolding none_later
  outdone bound [] h = ground (arith, text_eq_refl a)
  outdone bound (i ∷ rows) h = ground (arith, outdone bound rows h)

  none_after :
      (rows : List Interval)
      → any_of (began_since c a x) rows ≡ false
      → none_later c a d.version x (rows ++ new ∷ []) ≡ true
  unfolding none_later
  none_after [] h = ground arith
  none_after (i ∷ rows) h = ground (arith, none_after rows)

  kept :
      (all rows : List Interval)
      → any_of (began_since c a x) rows ≡ false
      → map (close_row c a d (all ++ new ∷ [])) rows ≡ rows
  unfolding is_closed_by
  kept all [] h = refl
  kept all (i ∷ rows) h = ground (arith, kept all rows, outdone i.activated_version all)

  any_of-append_mine :
      (v : ℕ) (rows : List Interval) (i : Interval)
      → any_of (is_mine c a v) (rows ++ i ∷ []) ≡ any_of (is_mine c a v) rows || is_mine c a v i
  any_of-append_mine v [] i = ground arith
  any_of-append_mine v (j ∷ rows) i = ground (arith, any_of-append_mine v rows i)

  map-append :
      (f : Interval → Interval) (rows : List Interval) (i : Interval)
      → map f (rows ++ i ∷ []) ≡ map f rows ++ f i ∷ []
  map-append f [] i = refl
  map-append f (j ∷ rows) i = rw (map-append f rows i) refl

  closed :
      (rows : List Interval)
      → any_of (began_since c a x) rows ≡ false
      → close_row c a d (rows ++ new ∷ []) new ≡ record new { deactivated = some d }
  unfolding is_closed_by
  closed rows h = ground (arith, none_after rows h, text_eq_refl a)

  -- The rows after the two statements: the interval is closed and every other is as it was.
  open-close_rows :
      (rows : List Interval)
      → any_of (began_since c a x) rows ≡ false
      → (close_interval c a d (open_interval c a x t rows)).1
        ≡ rows ++ record new { deactivated = some d } ∷ []
  unfolding close_interval open_interval insert_new is_closed_by
  open-close_rows rows h =
      rw
        (
          none_same rows h,
          map-append (close_row c a d (rows ++ new ∷ [])) rows new,
          kept rows rows h,
        )
        (ap (λ i. rows ++ i ∷ []) (closed rows h))

closed_mine :
    (c : ℕ) (a : Text) (x t v : ℕ) (d : Deactivation)
    → is_mine c a v (record {
      chain_id = c;
      node = a;
      activated_version = x;
      activated_at = t;
      deactivated = some d;
    })
      ≡ leb x v && ltb v d.version
closed_mine c a x t v d = ground (arith, text_eq_refl a)

-- If no interval of the node began at version `x` or later, and then its activation at `x` is recorded
-- and its deactivation at a later version, the node is expected in a round exactly if it was before or
-- the round's version is at least `x` and below the deactivation's.
pub open-close-is_expected :
    (c : ℕ) (a : Text) (x t v : ℕ) (d : Deactivation) (rows : List Interval)
    → x < d.version
    → any_of (began_since c a x) rows ≡ false
    → is_expected c a v (close_interval c a d (open_interval c a x t rows)).1
      ≡ is_expected c a v rows || (leb x v && ltb v d.version)
open-close-is_expected c a x t v d rows later h =
    let new' : Interval = record {
      chain_id = c;
      node = a;
      activated_version = x;
      activated_at = t;
      deactivated = some d;
    } in
    ap (is_expected c a v) (open-close_rows c a x t d later rows h)
    ∙ expected_iff c a v (rows ++ new' ∷ [])
    ∙ any_of-append_mine c a x t d later v rows new'
    ∙ rw (expected_iff c a v rows)
        (ap (λ b. any_of (is_mine c a v) rows || b) (closed_mine c a x t v d))
