-- ===== src/Indexer/Staking.antt =====
-- internal/indexer/oracle_staking.go: the handler, over the statements of StakingTables.antt and SlashTables.antt.
pub mod Replay
pub mod Slashes
pub mod Intervals
pub mod Deliver
pub mod History
use aegis_protocol.Base.{
  ℕ, zero, suc, ◌+◌, ◌-◌, ◌*◌, ◌/◌, ◌%◌, ◌^◌, ◌≤◌, ◌<◌, ◌≡◌, ◌≢◌, ◌↔◌, ◌⊎◌, refl, ap, sym, ◌∙◌,
  subst, inl, inr, Bool, true, false, not, ◌&&◌, ◌||◌, List, [], ◌∷◌, ◌++◌, map, Option, none, some,
  length, take, drop, replicate, get_or, any_of, count_if, keep_if, ltb, leb, ◌==◌, if◌then◌else◌,
  Text, codes, text_eq, text_lt, text_eq_refl, text_eq→eq, text_eq_iff, Result, ok, err, World,
  Action, ◌>>=◌, ◌>>◌, pure, throw, lift, gets, modify, exec, query, returning, exec_cases, quiet,
  Keeps, All, Any, All-map, arith, Bool-cases, Option-cases, ==_iff, length-append,
  length-replicate, ltb→lt, ltb→ge, lt→ltb, leb→le,
}
use aegis_protocol.Indexer.Event.{
  Identity, Event, Filter, IndexError, resolve_failed, identity_field, raw_field, bytes32_field,
  unix_field,
}
use aegis_protocol.Indexer.Vault.{TokenMeta}
use aegis_protocol.Indexer.StakingTables.{
  Slash, StakingState, StakingAction, upsert_asset, upsert_oracle_node, set_oracle_node_stake,
  set_oracle_node_unstake, set_oracle_node_active, open_oracle_node_interval,
  close_oracle_node_interval,
}
use aegis_protocol.Indexer.SlashTables.{record_oracle_slash}

abbrev pub event_node_registered : Text
event_node_registered = codes "NodeRegistered"

abbrev pub event_node_staked : Text
event_node_staked = codes "NodeStaked"

abbrev pub event_unstake_request : Text
event_unstake_request = codes "UnstakeRequested"

abbrev pub event_unstake_cancel : Text
event_unstake_cancel = codes "UnstakeCancelled"

abbrev pub event_node_unstaked : Text
event_node_unstaked = codes "NodeUnstaked"

abbrev pub event_node_slashed : Text
event_node_slashed = codes "NodeSlashed"

abbrev pub event_node_deactivated : Text
event_node_deactivated = codes "NodeDeactivated"

abbrev pub event_node_reactivated : Text
event_node_reactivated = codes "NodeReactivated"

-- The handler's fixed fields; `token_metadata` is the resolver's answer on the stake asset.
pub record OracleStakingHandler : Type 0 where
  pub contract : Identity
  pub stake_asset : Identity
  pub encode : Identity → Text
  pub token_metadata : Option TokenMeta
  pub chain_id : ℕ

-- The text without the zeros at its end.
unfoldable pub trim_zeros : Text → Text
trim_zeros [] = []
trim_zeros (c ∷ b) =
    let rest = trim_zeros b in
    elim rest [ [] ↦ if c == 0 then [] else c ∷ [] | d ∷ ds ↦ c ∷ d ∷ ds ]

module _ (h : OracleStakingHandler) where
  abbrev names : List Text
  names =
      event_node_registered ∷ event_node_staked ∷ event_unstake_request ∷ event_unstake_cancel
      ∷ event_node_unstaked ∷ event_node_slashed ∷ event_node_deactivated ∷ event_node_reactivated
      ∷ []

  -- `Filters`.
  unfoldable pub filters : List Filter
  filters = record { contract = h.contract; names = names } ∷ []

  save_asset : Option TokenMeta → StakingAction (Unit {0})
  unfolding upsert_asset
  save_asset none = throw resolve_failed
  save_asset (some meta) = do
    upsert_asset (record {
      chain_id = h.chain_id;
      address = h.encode h.stake_asset;
      decimals = meta.decimals;
      symbol = meta.symbol;
      name = meta.name;
    })
    modify (λ s. record s { asset_saved = true })

  -- `ensureStakeAsset`: `once` has fired for good exactly when the asset was saved.
  ensure_stake_asset : StakingAction (Unit {0})
  unfolding save_asset
  ensure_stake_asset = do
    done ← gets (λ s. s.asset_saved)
    if done then pure tt else save_asset h.token_metadata

  handle_registered : Event → Text → StakingAction (Unit {0})
  unfolding ensure_stake_asset upsert_oracle_node
  handle_registered ev address = do
    stake ← lift (raw_field ev (codes "stake"))
    ensure_stake_asset
    upsert_oracle_node (record {
      chain_id = ev.chain_id;
      address = address;
      stake_asset = h.encode h.stake_asset;
      staked_amount = stake;
      at = ev.block_time;
    })

handle_staked : Event → Text → StakingAction (Unit {0})
unfolding set_oracle_node_stake
handle_staked ev address = do
  total ← lift (raw_field ev (codes "totalStake"))
  set_oracle_node_stake ev.chain_id address total

handle_unstake_requested : Event → Text → StakingAction (Unit {0})
unfolding set_oracle_node_unstake
handle_unstake_requested ev address = do
  amount ← lift (raw_field ev (codes "amount"))
  claimable_at ← lift (unix_field ev (codes "claimableAt"))
  set_oracle_node_unstake ev.chain_id address amount (some claimable_at)

handle_unstake_cancelled : Event → Text → StakingAction (Unit {0})
unfolding set_oracle_node_unstake
handle_unstake_cancelled ev address = set_oracle_node_unstake ev.chain_id address 0 none

handle_unstaked : Event → Text → StakingAction (Unit {0})
unfolding set_oracle_node_unstake set_oracle_node_stake
handle_unstaked ev address = do
  remaining ← lift (raw_field ev (codes "remainingStake"))
  set_oracle_node_unstake ev.chain_id address 0 none
  set_oracle_node_stake ev.chain_id address remaining

-- The penalty of a NodeSlashed event with these fields.
abbrev pub slash_of : Event → Text → ℕ → ℕ → Text → ℕ → Slash
slash_of ev address amount remaining reason round_id = record {
  chain_id = ev.chain_id;
  node = address;
  round_id = round_id;
  amount = amount;
  remaining_stake = remaining;
  reason = trim_zeros reason;
  tx_hash = ev.tx_hash;
  log_index = ev.log_index;
  block_number = ev.block_number;
  at = ev.block_time;
}

handle_slashed : Event → Text → StakingAction (Unit {0})
unfolding record_oracle_slash
handle_slashed ev address = do
  amount ← lift (raw_field ev (codes "amount"))
  remaining ← lift (raw_field ev (codes "remainingStake"))
  reason ← lift (bytes32_field ev (codes "reason"))
  round_id ← lift (raw_field ev (codes "roundId"))
  record_oracle_slash (slash_of ev address amount remaining reason round_id)

handle_deactivated : Event → Text → StakingAction (Unit {0})
unfolding close_oracle_node_interval set_oracle_node_active
handle_deactivated ev address = do
  version ← lift (raw_field ev (codes "nodeSetVersion"))
  reason ← lift (bytes32_field ev (codes "reason"))
  found ←
      close_oracle_node_interval ev.chain_id address
        (record { version = version; at = ev.block_time; reason = trim_zeros reason })
  set_oracle_node_active ev.chain_id address false

handle_reactivated : Event → Text → StakingAction (Unit {0})
unfolding open_oracle_node_interval set_oracle_node_active
handle_reactivated ev address = do
  version ← lift (raw_field ev (codes "nodeSetVersion"))
  open_oracle_node_interval ev.chain_id address version ev.block_time
  set_oracle_node_active ev.chain_id address true

module _ (h : OracleStakingHandler) where
  -- The second `switch` of `Handle`.
  pub staking_event : Event → Text → StakingAction (Unit {0})
  unfolding handle_registered handle_staked handle_unstake_requested handle_unstake_cancelled
      handle_unstaked handle_slashed handle_deactivated handle_reactivated
  staking_event ev address =
      if text_eq ev.name event_node_registered
      then handle_registered h ev address
      else if text_eq ev.name event_node_staked
      then handle_staked ev address
      else if text_eq ev.name event_unstake_request
      then handle_unstake_requested ev address
      else if text_eq ev.name event_unstake_cancel
      then handle_unstake_cancelled ev address
      else if text_eq ev.name event_node_unstaked
      then handle_unstaked ev address
      else if text_eq ev.name event_node_slashed
      then handle_slashed ev address
      else if text_eq ev.name event_node_deactivated
      then handle_deactivated ev address
      else if text_eq ev.name event_node_reactivated
      then handle_reactivated ev address
      else pure tt

  on_staking : Event → StakingAction (Unit {0})
  unfolding staking_event
  on_staking ev = do
    node ← lift (identity_field ev (codes "node"))
    staking_event ev (h.encode node)

  -- `Handle`.
  unfoldable pub handle : Event → StakingAction (Unit {0})
  unfolding on_staking
  handle ev =
      if not (text_eq ev.contract h.contract)
      then pure tt
      else if not (any_of (text_eq ev.name) (names h))
      then pure tt
      else on_staking ev
