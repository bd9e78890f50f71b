-- ===== src/Witnesses/IndexerRuns.antt =====
-- The theorems on the indexer at concrete inputs.
use aegis_protocol.Base.{
  ℕ, ◌≡◌, ◌≢◌, inl, refl, true, false, List, [], ◌∷◌, some, Text, codes, text_eq, ok, err, World,
  quiet, arith,
}
use aegis_protocol.Indexer.Event.{
  Event, Field, Identity, foreign_key, identity, bytes32, string, bytes, big_int, uint8,
  identity_field, raw_field, bytes32_field, unix_field,
}
use aegis_protocol.Indexer.Loop.{Client, Options, IndexerState, Handler}
use aegis_protocol.Indexer.Loop
use aegis_protocol.Indexer.Loop.Cursor.{Advances, IsDurable, step-Advances, step-IsDurable}
use aegis_protocol.Indexer.Loop.Coverage.{
  recorder, client_of, HasSeen, run_steps, run_steps-HasSeen,
}
use aegis_protocol.Indexer.Vault.{VaultHandler, VaultState, TokenMeta, Located, event_deposited}
use aegis_protocol.Indexer.Vault
use aegis_protocol.Indexer.Table.{upsert}
use aegis_protocol.Indexer.Vault.Metadata.{IsBacked}
use aegis_protocol.Indexer.Vault.Scaled.{handle-IsBacked}
use aegis_protocol.Indexer.Vault.Replay.{vault_handle-replay}
use aegis_protocol.Indexer.Zk.{ZkHandler, ZkState, event_commitment_inserted}
use aegis_protocol.Indexer.Zk
use aegis_protocol.Indexer.Zk.Replay.{handle-unread, with_field}
use aegis_protocol.Indexer.Zk.Lasting.{after, handle-lasting}
use aegis_protocol.Indexer.GovernanceTables.{GovernanceState}
use aegis_protocol.Indexer.Governance.{GovernanceHandler, event_proposal_created, event_vote_cast}
use aegis_protocol.Indexer.Governance.States.{Follows, deliver, deliver-Follows}
use aegis_protocol.Indexer.Governance.Tally.{consistent}
use aegis_protocol.Indexer.Governance.Consistency.{Sound, deliver-Sound}

abbrev contract : Identity
contract = codes "contract"

abbrev tx : Text
tx = codes "0x01"

abbrev event : Text → List (Text × Field) → Event
event name payload = record {
  chain_id = 1;
  block_number = 5;
  block_time = 1000;
  tx_hash = tx;
  log_index = 0;
  contract = contract;
  name = name;
  payload = payload;
}

-- The loop, over a chain with one event in each block.
abbrev blocks : ℕ → List Event
blocks n = event event_deposited [] ∷ []

abbrev options : Options
options = record { start_block = 3; batch_size = 2 }

abbrev started : IndexerState (List Event)
started = record { cursor = 3; saved = some 3; inner = [] }

abbrev failing : World (IndexerState (List Event))
failing = record { state = started; faults = true ∷ [] }

step-Advances_example :
    Advances
      (client_of blocks 1 9)
      options
      3
      (Loop.step (client_of blocks 1 9) options (recorder ∷ []) failing).1.state.cursor
step-Advances_example = step-Advances (client_of blocks 1 9) options (recorder ∷ []) failing

step-IsDurable_example :
    let s = (Loop.step (client_of blocks 1 9) options (recorder ∷ []) failing).1.state in
    IsDurable s.saved s.cursor
step-IsDurable_example =
    step-IsDurable (client_of blocks 1 9) options (recorder ∷ []) failing (omega arith)

run_steps-HasSeen_example :
    HasSeen blocks 3 (run_steps blocks options 1 3 (λ n. (refl, tt)) (6 ∷ 9 ∷ []) started)
run_steps-HasSeen_example =
    run_steps-HasSeen blocks options 1 3 (λ n. (refl, tt)) (6 ∷ 9 ∷ []) started (omega arith, refl)

abbrev token : TokenMeta
token = record { decimals = 6; symbol = codes "USDC"; name = codes "USD Coin" }

abbrev vault_handler : VaultHandler
vault_handler = record {
  contract = contract;
  chain_id = 1;
  encode = λ i. i;
  token_metadata = λ asset. some token;
  locate_vault =
      λ emitter asset. some (record { vault = emitter; asset = asset; share_offset = 3 });
}

abbrev no_vaults : VaultState
no_vaults = record {
  assets = [];
  vaults = [];
  deposits = [];
  withdrawals = [];
  cached_assets = [];
  cached_vaults = [];
}

abbrev deposit : Event
deposit = event event_deposited (
    (codes "asset", identity (codes "usdc"))
    ∷ (codes "user", identity (codes "alice"))
    ∷ (codes "amount", big_int 5000)
    ∷ (codes "shares", big_int 5000000)
    ∷ [])

deposit_handled : (Vault.handle vault_handler deposit (quiet no_vaults)).0 ≡ ok tt
unfolding Vault.refusal Vault.handle upsert text_eq identity_field raw_field
deposit_handled = refl

vault_handle-replay_example :
    let s = (Vault.handle vault_handler deposit (quiet no_vaults)).1.state in
    Vault.handle vault_handler deposit (quiet s) ≡ (ok tt, quiet s)
vault_handle-replay_example = vault_handle-replay vault_handler deposit no_vaults deposit_handled

handle-IsBacked_example :
    let r =
      Vault.handle vault_handler deposit
        (record { state = no_vaults; faults = false ∷ true ∷ [] }) in
    IsBacked vault_handler r.1.state × (r.0 ≢ err foreign_key)
handle-IsBacked_example =
    handle-IsBacked vault_handler deposit (record { state = no_vaults; faults = false ∷ true ∷ [] })
      refl (record { deposits = tt; withdrawals = tt; cached_assets = tt; cached_vaults = tt })

abbrev zk_handler : ZkHandler
zk_handler = record {
  tree = contract;
  gate = codes "gate";
  encode = λ i. i;
  gate_metadata = some (contract, codes "verifier");
  chain_id = 1;
}

abbrev no_commitments : ZkState
no_commitments = record {
  gates = [];
  commitments = [];
  actions = [];
  private_actions = [];
  gate_set = false;
}

abbrev commitment : Event
commitment = event event_commitment_inserted (
    (codes "leafIndex", big_int 4)
    ∷ (codes "commitment", bytes32 (codes "c"))
    ∷ (codes "root", bytes32 (codes "r"))
    ∷ (codes "timestamp", big_int 1000)
    ∷ [])

commitment_handled : (Zk.handle zk_handler commitment (quiet no_commitments)).0 ≡ ok tt
unfolding Zk.handle text_eq raw_field bytes32_field unix_field
commitment_handled = refl

handle-lasting_example :
    let t = after zk_handler commitment (commitment ∷ deposit ∷ []) no_commitments (true ∷ []) in
    Zk.handle zk_handler commitment (quiet t) ≡ (ok tt, quiet t)
handle-lasting_example =
    handle-lasting zk_handler commitment (commitment ∷ deposit ∷ []) no_commitments (true ∷ [])
      (inl refl) commitment_handled

handle-unread_example :
    Zk.handle zk_handler
      (with_field (codes "sender") (identity (codes "alice")) commitment)
      (quiet no_commitments)
    ≡ Zk.handle zk_handler commitment (quiet no_commitments)
unfolding text_eq
handle-unread_example =
    handle-unread zk_handler (codes "sender") (identity (codes "alice")) commitment
      (quiet no_commitments)
      (record {
        not_leaf_index = refl;
        not_commitment = refl;
        not_root = refl;
        not_timestamp = refl;
        not_nullifier = refl;
        not_action_id = refl;
        not_name = refl;
      })

abbrev governance_handler : GovernanceHandler
governance_handler = record {
  contract = contract;
  chain_id = 1;
  encode = λ i. i;
  token_metadata = λ asset. some token;
  governor_metadata = some (codes "token", codes "timelock");
}

abbrev proposed : Event
proposed = event event_proposal_created (
    (codes "proposalId", big_int 9)
    ∷ (codes "proposer", identity (codes "alice"))
    ∷ (codes "targetChainId", big_int 1)
    ∷ (codes "target", bytes32 (codes "t"))
    ∷ (codes "value", big_int 0)
    ∷ (codes "payload", bytes [])
    ∷ (codes "voteStart", big_int 10)
    ∷ (codes "voteEnd", big_int 20)
    ∷ (codes "title", string (codes "raise"))
    ∷ (codes "description", string [])
    ∷ [])

abbrev voted : Event
voted = event event_vote_cast (
    (codes "proposalId", big_int 9)
    ∷ (codes "voter", identity (codes "bob"))
    ∷ (codes "support", uint8 1)
    ∷ (codes "weight", big_int 300)
    ∷ (codes "reason", string [])
    ∷ [])

abbrev no_proposals : GovernanceState
no_proposals = record {
  assets = [];
  governors = [];
  proposals = [];
  votes = [];
  governor_set = false;
}

-- A vote that comes before its proposal, then the proposal, and the vote twice.
abbrev deliveries : List Event
deliveries = voted ∷ proposed ∷ voted ∷ voted ∷ []

deliver-Sound_example : Sound (deliver governance_handler deliveries (quiet no_proposals))
deliver-Sound_example =
    deliver-Sound governance_handler deliveries (quiet no_proposals) (consistent tt tt)

deliver-Follows_example :
    Follows [] (deliver governance_handler deliveries (quiet no_proposals)).state.proposals
deliver-Follows_example = deliver-Follows governance_handler deliveries (quiet no_proposals)
