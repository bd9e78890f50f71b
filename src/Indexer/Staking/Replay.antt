-- ===== src/Indexer/Staking/Replay.antt =====
-- The staking handler (internal/indexer/oracle_staking.go) on an event delivered again.
use aegis_protocol.Base.{
  ℕ, ◌≡◌, refl, Bool, true, false, not, List, [], ◌∷◌, map, Option, none, any_of, Text, codes,
  text_eq, text_eq_refl, ok, quiet, arith,
}
use aegis_protocol.Indexer.Event.{Event, identity_field}
use aegis_protocol.Indexer.Table.{insert_new, insert_new_idem, upsert, upsert_idem}
use aegis_protocol.Indexer.Again.{Settles, Settles-choice, Settles-skip, Settles-lift, Settles-pure}
use aegis_protocol.Indexer.Vault.{AssetMetadata, same_asset}
use aegis_protocol.Indexer.StakingTables.{
  OracleNode, NodeStakeEvent, Interval, Deactivation, StakingState, is_node, upsert_node, stake_row,
  unstake_row, active_row, same_interval, none_later, is_closed_by, close_row, close_interval,
}
use aegis_protocol.Indexer.Staking.{
  OracleStakingHandler, handle_registered, handle_staked, handle_unstake_requested,
  handle_unstake_cancelled, handle_unstaked, handle_deactivated, handle_reactivated, staking_event,
  handle, event_node_registered, event_node_staked, event_unstake_request, event_unstake_cancel,
  event_node_unstaked, event_node_slashed, event_node_deactivated, event_node_reactivated,
  on_staking, names,
}

node_again :
    (e : NodeStakeEvent) (rows : List OracleNode)
    → upsert_node e (upsert_node e rows) ≡ upsert_node e rows
unfolding upsert_node
node_again e [] = ground (arith, text_eq_refl e.address)
node_again e (n ∷ rows) = ground (arith, node_again e rows)

node_there :
    (e : NodeStakeEvent) (rows : List OracleNode)
    → any_of (is_node e.chain_id e.address) (upsert_node e rows) ≡ true
unfolding upsert_node
node_there e [] = ground (arith, text_eq_refl e.address)
node_there e (n ∷ rows) = ground (arith, node_there e rows)

stake_again :
    (c : ℕ) (a : Text) (v : ℕ) (rows : List OracleNode)
    → map (stake_row c a v) (map (stake_row c a v) rows) ≡ map (stake_row c a v) rows
unfolding stake_row
stake_again c a v [] = refl
stake_again c a v (n ∷ rows) = ground (arith, stake_again c a v rows)

unstake_again :
    (c : ℕ) (a : Text) (v : ℕ) (t : Option ℕ) (rows : List OracleNode)
    → map (unstake_row c a v t) (map (unstake_row c a v t) rows) ≡ map (unstake_row c a v t) rows
unfolding unstake_row
unstake_again c a v t [] = refl
unstake_again c a v t (n ∷ rows) = ground (arith, unstake_again c a v t rows)

unstaked_again :
    (c : ℕ) (a : Text) (v : ℕ) (rows : List OracleNode)
    → let f = map (stake_row c a v) in
      let g = map (unstake_row c a 0 none) in f (g (f (g rows))) ≡ f (g rows)
unfolding stake_row unstake_row
unstaked_again c a v [] = refl
unstaked_again c a v (n ∷ rows) = ground (arith, unstaked_again c a v rows)

active_again :
    (c : ℕ) (a : Text) (b : Bool) (rows : List OracleNode)
    → map (active_row c a b) (map (active_row c a b) rows) ≡ map (active_row c a b) rows
unfolding active_row
active_again c a b [] = refl
active_again c a b (n ∷ rows) = ground (arith, active_again c a b rows)

interval_again :
    (i : Interval) (rows : List Interval)
    → insert_new same_interval i (insert_new same_interval i rows) ≡ insert_new same_interval i rows
interval_again i rows = insert_new_idem same_interval i rows (ground (arith, text_eq_refl i.node))

-- A close changes no column that the choice of the row looks at, but for the version it writes.
none_later_closed :
    (c : ℕ) (a : Text) (d : Deactivation) (all : List Interval) (v bound : ℕ) (rows : List Interval)
    → none_later c a v bound (map (close_row c a d all) rows) ≡ none_later c a v bound rows
unfolding none_later is_closed_by
none_later_closed c a d all v bound [] = refl
none_later_closed c a d all v bound (i ∷ rows) =
    ground (arith, none_later_closed c a d all v bound rows)

close_twice :
    (c : ℕ) (a : Text) (d : Deactivation) (rows : List Interval) (i : Interval)
    → close_row c a d (map (close_row c a d rows) rows) (close_row c a d rows i)
      ≡ close_row c a d rows i
unfolding is_closed_by
close_twice c a d rows i =
    ground (arith, none_later_closed c a d rows d.version i.activated_version rows)

close_all_twice :
    (c : ℕ) (a : Text) (d : Deactivation) (all rows : List Interval)
    → map (close_row c a d (map (close_row c a d all) all)) (map (close_row c a d all) rows)
      ≡ map (close_row c a d all) rows
close_all_twice c a d all [] = refl
close_all_twice c a d all (i ∷ rows) = rw (close_twice c a d all i, close_all_twice c a d all rows)

close_again :
    (c : ℕ) (a : Text) (d : Deactivation) (rows : List Interval)
    → (close_interval c a d (close_interval c a d rows).1).1 ≡ (close_interval c a d rows).1
unfolding close_interval
close_again c a d rows = close_all_twice c a d rows rows

asset_again :
    (x : AssetMetadata) (rows : List AssetMetadata)
    → upsert same_asset x (upsert same_asset x rows) ≡ upsert same_asset x rows
asset_again x rows = upsert_idem same_asset x rows (ground (arith, text_eq_refl x.address))

module _ (h : OracleStakingHandler) (ev : Event) (s : StakingState) (a : Text) where
  registered_replay : Settles (handle_registered h ev a) s
  unfolding handle_registered
  registered_replay e = grind (arith, asset_again, node_again, node_there)

  staked_replay : Settles (handle_staked ev a) s
  unfolding handle_staked
  staked_replay e = grind (arith, stake_again)

  unstake_requested_replay : Settles (handle_unstake_requested ev a) s
  unfolding handle_unstake_requested
  unstake_requested_replay e = grind (arith, unstake_again)

  unstake_cancelled_replay : Settles (handle_unstake_cancelled ev a) s
  unfolding handle_unstake_cancelled
  unstake_cancelled_replay e = grind (arith, unstake_again)

  unstaked_replay : Settles (handle_unstaked ev a) s
  unfolding handle_unstaked
  unstaked_replay e = grind (arith, unstaked_again)

  deactivated_replay : Settles (handle_deactivated ev a) s
  unfolding handle_deactivated
  deactivated_replay e = grind (arith, close_again, active_again)

  reactivated_replay : Settles (handle_reactivated ev a) s
  unfolding handle_reactivated
  reactivated_replay e = grind (arith, interval_again, active_again)

  event_replay : text_eq ev.name event_node_slashed ≡ false → Settles (staking_event h ev a) s
  unfolding staking_event
  event_replay other =
      Settles-choice (text_eq ev.name event_node_registered) _ _ s registered_replay (
        Settles-choice (text_eq ev.name event_node_staked) _ _ s staked_replay (
          Settles-choice (text_eq ev.name event_unstake_request) _ _ s unstake_requested_replay (
            Settles-choice (text_eq ev.name event_unstake_cancel) _ _ s unstake_cancelled_replay (
              Settles-choice (text_eq ev.name event_node_unstaked) _ _ s unstaked_replay (
                Settles-skip (text_eq ev.name event_node_slashed) _ _ s other (
                  Settles-choice (text_eq ev.name event_node_deactivated) _ _ s deactivated_replay (
                    Settles-choice (text_eq ev.name event_node_reactivated) _ _ s reactivated_replay
                      (Settles-pure s))))))))

-- An event other than NodeSlashed that was handled without an error changes no row, and nothing
-- that the process keeps, when it is delivered again at once, with no other event in between.
pub staking_handle-replay :
    (h : OracleStakingHandler) (ev : Event) (s : StakingState)
    → text_eq ev.name event_node_slashed ≡ false
    → (handle h ev (quiet s)).0 ≡ ok tt
    → let s' = (handle h ev (quiet s)).1.state in handle h ev (quiet s') ≡ (ok tt, quiet s')
unfolding handle on_staking
staking_handle-replay h ev s other =
    Settles-choice (not (text_eq ev.contract h.contract)) _ _ s (Settles-pure s) (
      Settles-choice (not (any_of (text_eq ev.name) (names h))) _ _ s (Settles-pure s) (
        Settles-lift (identity_field ev (codes "node")) (λ n. staking_event h ev (h.encode n)) s
          (λ n. event_replay h ev s (h.encode n) other)))
