-- ===== src/Indexer/Rounds/Feeds.antt =====
-- The scales of the feeds that internal/indexer/oracle.go and internal/db/oracle.go record.
use aegis_protocol.Base.{
  ℕ, ◌≡◌, refl, inl, inr, List, [], ◌∷◌, Text, World, exec, exec_cases, arith, Bool-cases,
}
use aegis_protocol.Indexer.Event.{Event, store_failed}
use aegis_protocol.Indexer.Grown.{Grown, Grown-refl, Grown-map, Grown-insert_new}
use aegis_protocol.Indexer.RoundTables.{
  Feed, RoundTables, same_feed, is_feed, upsert_feed, deactivate_feed, upsert_oracle_feed,
  ensure_oracle_feed, deactivate_oracle_feed, insert_oracle_round, insert_oracle_submission,
  mark_oracle_round_quorum_met, settle_oracle_round, fail_oracle_round,
}
use aegis_protocol.Indexer.Rounds.{OracleRoundsHandler}
use aegis_protocol.Indexer.Rounds.Deliver.{IsKept, deliver, deliver_kept}

-- The same feed with the same scale.
pub data SameScale (f g : Feed) : Type 0 where
  same_scale :
      g.chain_id ≡ f.chain_id → g.feed_id ≡ f.feed_id → g.decimals ≡ f.decimals → SameScale f g

SameScale-refl : (f : Feed) → SameScale f f
SameScale-refl f = same_scale refl refl refl

upsert_SameScale :
    (f : Feed) (before rows : List Feed)
    → Grown SameScale before rows
    → Grown SameScale before (upsert_feed f rows)
unfolding upsert_feed
upsert_SameScale f [] rows h = tt
upsert_SameScale f (a ∷ before) [] h = absurd h
upsert_SameScale f (a ∷ before) (g ∷ rows) (same_scale c i d, h) =
    elim (Bool-cases (same_feed f g)) [
      | inl e ↦ rw e (same_scale c i d, h)
      | inr e ↦ rw e (same_scale c i d, upsert_SameScale f before rows h)
    ]

deactivate_SameScale :
    (c : ℕ) (i : Text) (f g : Feed) → SameScale f g → SameScale f (deactivate_feed c i g)
deactivate_SameScale c i f g (same_scale a b d) = elim (Bool-cases (is_feed c i g)) [
  | inl e ↦ rw e (same_scale a b d)
  | inr e ↦ rw e (same_scale a b d)
]

module _ (before : List Feed) where
  abbrev Kept : RoundTables → Type 0
  Kept s = Grown SameScale before s.feeds

  ensure_Kept :
      (c : ℕ) (i : Text) (d : ℕ) (w : World RoundTables)
      → Kept w.state
      → Kept (ensure_oracle_feed c i d w).1.state
  unfolding ensure_oracle_feed
  ensure_Kept c i d w h =
      exec_cases (λ s. Grown SameScale before s.feeds) store_failed _ w h
        (Grown-insert_new SameScale same_feed _ before w.state.feeds h)

  upsert_Kept :
      (f : Feed) (w : World RoundTables) → Kept w.state → Kept (upsert_oracle_feed f w).1.state
  unfolding upsert_oracle_feed
  upsert_Kept f w h = grind (arith, upsert_SameScale)

  deactivate_Kept :
      (c : ℕ) (i : Text) (w : World RoundTables)
      → Kept w.state
      → Kept (deactivate_oracle_feed c i w).1.state
  unfolding deactivate_oracle_feed
  deactivate_Kept c i w h =
      exec_cases (λ s. Grown SameScale before s.feeds) store_failed _ w h
        (Grown-map SameScale (deactivate_feed c i) before w.state.feeds (deactivate_SameScale c i)
          h)

  pub feeds-IsKept : IsKept Kept
  unfolding insert_oracle_round insert_oracle_submission mark_oracle_round_quorum_met
      settle_oracle_round fail_oracle_round exec
  feeds-IsKept = record {
    upsert_kept = upsert_Kept;
    ensure_kept = ensure_Kept;
    deactivate_kept = deactivate_Kept;
    insert_kept = λ r e v t w h. ground arith;
    quorum_kept = λ c i n w h. ground arith;
    settle_kept = λ c i v n t w h. ground arith;
    fail_kept = λ c i n t w h. ground arith;
    submission_kept = λ sub w h. ground arith;
  }

-- Whatever events are delivered, and whatever fails, a feed that has a row keeps it with the scale
-- that the row was made with, so a registration that is indexed after a round of its feed never
-- corrects the fallback scale.
pub deliver-SameScale :
    (g : OracleRoundsHandler) (events : List Event) (w : World RoundTables)
    → Grown SameScale w.state.feeds (deliver g events w).state.feeds
deliver-SameScale g events w =
    deliver_kept (Kept w.state.feeds) (feeds-IsKept w.state.feeds) g events w
      (Grown-refl SameScale SameScale-refl w.state.feeds)
