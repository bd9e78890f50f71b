-- ===== src/Indexer/Receiver.antt =====
-- internal/indexer/governance_receiver.go with the statements of internal/db/governance_remote.go that
-- it runs, and the constraints of migrations/000011_governance_remote_actions.up.sql.
pub mod Replay
pub mod Closed
use aegis_protocol.Base.{
  ℕ, zero, suc, ◌+◌, ◌-◌, ◌*◌, ◌/◌, ◌%◌, ◌^◌, ◌≤◌, ◌<◌, ◌≡◌, ◌≢◌, ◌↔◌, ◌⊎◌, refl, ap, sym, ◌∙◌,
  subst, inl, inr, Bool, true, false, not, ◌&&◌, ◌||◌, List, [], ◌∷◌, ◌++◌, map, Option, none, some,
  length, take, drop, replicate, get_or, any_of, count_if, keep_if, ltb, leb, ◌==◌, if◌then◌else◌,
  Text, codes, text_eq, text_lt, text_eq_refl, text_eq_sym, text_eq→eq, text_eq_iff, Result, ok,
  err, World, Action, ◌>>=◌, ◌>>◌, pure, throw, lift, gets, modify, exec, query, returning,
  exec_cases, quiet, Keeps, All, Any, All-map, arith, Bool-cases, Option-cases, ==_iff,
  length-append, length-replicate, ltb→lt, ltb→ge, lt→ltb, leb→le,
}
use aegis_protocol.Indexer.Event.{
  Identity, Event, Filter, IndexError, store_failed, never_received, does_not_fit, identity_field,
  raw_field, bytes32_field, unix_field,
}
use aegis_protocol.Indexer.Table.{insert_new}

abbrev pub event_message_received : Text
event_message_received = codes "MessageReceived"

abbrev pub event_message_executed : Text
event_message_executed = codes "MessageExecuted"

abbrev pub event_message_cancelled : Text
event_message_cancelled = codes "MessageCancelled"

-- The values of the column `status`.
pub data RemoteStatus : Type 0 where
  pending executed cancelled : RemoteStatus

-- The columns that a close sets together.
pub record Closing : Type 0 where
  pub at : ℕ
  pub tx_hash : Text
  pub by : Text

-- A row of governance_remote_actions: `RemoteActionReceived` and what a close sets.
pub record RemoteAction : Type 0 where
  pub chain_id : ℕ
  pub receiver : Text
  pub emitter_chain : ℕ
  pub sequence : ℕ
  pub source_chain_id : ℕ
  pub operation_id : ℕ
  pub target : Text
  pub declared_value : ℕ
  pub accounts_hash : Text
  pub executable_at : ℕ
  pub received_at : ℕ
  pub received_tx : Text
  pub status : RemoteStatus
  pub closing : Option Closing

abbrev pub ReceiverAction : Type 0 → Type 0
ReceiverAction A = Action IndexError (List RemoteAction) A

abbrev pub is_message : ℕ → ℕ → ℕ → RemoteAction → Bool
is_message chain_id emitter_chain sequence a =
    a.chain_id == chain_id && a.emitter_chain == emitter_chain && a.sequence == sequence

abbrev pub same_message : RemoteAction → RemoteAction → Bool
same_message a b = is_message a.chain_id a.emitter_chain a.sequence b

-- The table's NUMERIC(20, 0) columns, and its CHECK on the operation.
abbrev pub fits_row : RemoteAction → Bool
fits_row a =
    ltb a.sequence 100000000000000000000
    && ltb a.operation_id 100000000000000000000
    && ltb 0 a.operation_id

unfoldable pub insert_remote_action : RemoteAction → ReceiverAction (Unit {0})
unfolding exec
insert_remote_action a =
    if fits_row a then exec store_failed (insert_new same_message a) else throw store_failed

pub is_pending : RemoteStatus → Bool
is_pending pending = true
is_pending _ = false

-- The `WHERE` of qCloseRemoteAction.
unfoldable pub is_open : ℕ → ℕ → ℕ → RemoteAction → Bool
unfolding is_pending
is_open chain_id emitter_chain sequence a =
    is_message chain_id emitter_chain sequence a && is_pending a.status

unfoldable pub close_row : ℕ → ℕ → ℕ → RemoteStatus → Closing → RemoteAction → RemoteAction
unfolding is_open
close_row chain_id emitter_chain sequence status c a =
    if is_open chain_id emitter_chain sequence a
    then record a { status = status; closing = some c }
    else a

-- An update that changed no row is followed by a read, which tells a closed action from one that was
-- never received.
unfoldable pub close_remote_action : ℕ → ℕ → ℕ → RemoteStatus → Closing → ReceiverAction (Unit {0})
unfolding returning query close_row
close_remote_action chain_id emitter_chain sequence status c = do
  changed ← returning store_failed (λ rows. (
    any_of (is_open chain_id emitter_chain sequence) rows,
    map (close_row chain_id emitter_chain sequence status c) rows,
  ))
  if changed then pure tt else do
    received ← query store_failed (any_of (is_message chain_id emitter_chain sequence))
    if received then pure tt else throw never_received

pub record GovernanceReceiverHandler : Type 0 where
  pub contract : Identity
  pub encode : Identity → Text

as_u16 : ℕ → Result IndexError ℕ
as_u16 n = if leb n 65535 then ok n else err (does_not_fit (codes "emitterChain"))

as_key : Result IndexError ℕ → Result IndexError ℕ → Result IndexError (ℕ × ℕ)
as_key (ok c) (ok s) = ok (c, s)
as_key (ok c) (err e) = err e
as_key (err e) _ = err e

-- `messageKey`: the emitter's chain, which must fit a u16, and then the sequence.
unfoldable pub message_key : Event → Result IndexError (ℕ × ℕ)
unfolding as_u16 as_key
message_key ev =
    as_key (elim (raw_field ev (codes "emitterChain")) [ ok n ↦ as_u16 n | err e ↦ err e ])
      (raw_field ev (codes "sequence"))

as_int64 : Text → Result IndexError ℕ → Result IndexError ℕ
as_int64 key (err e) = err e
as_int64 key (ok n) = if ltb n 9223372036854775808 then ok n else err (does_not_fit key)

-- `int64Field`.
unfoldable pub int64_field : Event → Text → Result IndexError ℕ
unfolding as_int64
int64_field ev key = as_int64 key (raw_field ev key)

-- `big.Int.SetBytes`.
big_endian_from : ℕ → Text → ℕ
big_endian_from n [] = n
big_endian_from n (b ∷ bytes) = big_endian_from (n * 256 + b) bytes

unfoldable pub big_endian : Text → ℕ
unfolding big_endian_from
big_endian bytes = big_endian_from 0 bytes

module _ (h : GovernanceReceiverHandler) where
  -- `Filters`.
  unfoldable pub filters : List Filter
  filters =
      record {
        contract = h.contract;
        names = event_message_received ∷ event_message_executed ∷ event_message_cancelled ∷ [];
      }
      ∷ []

  handle_received : Event → ReceiverAction (Unit {0})
  unfolding insert_remote_action
  handle_received ev = do
    key ← lift (message_key ev)
    source ← lift (int64_field ev (codes "sourceChainId"))
    operation_id ← lift (raw_field ev (codes "operationId"))
    target ← lift (identity_field ev (codes "target"))
    declared ← lift (bytes32_field ev (codes "declaredValue"))
    accounts_hash ← lift (bytes32_field ev (codes "accountsHash"))
    executable_at ← lift (unix_field ev (codes "executableAt"))
    insert_remote_action (record {
      chain_id = ev.chain_id;
      receiver = h.encode h.contract;
      emitter_chain = key.0;
      sequence = key.1;
      source_chain_id = source;
      operation_id = operation_id;
      target = h.encode target;
      declared_value = big_endian declared;
      accounts_hash = accounts_hash;
      executable_at = executable_at;
      received_at = ev.block_time;
      received_tx = ev.tx_hash;
      status = pending;
      closing = none;
    })

  handle_closed : Event → RemoteStatus → Text → ReceiverAction (Unit {0})
  unfolding close_remote_action
  handle_closed ev status by_field = do
    key ← lift (message_key ev)
    by ← lift (identity_field ev by_field)
    close_remote_action ev.chain_id key.0 key.1 status
        (record { at = ev.block_time; tx_hash = ev.tx_hash; by = h.encode by })

  -- The `switch` of `Handle`.
  pub receiver_event : Event → ReceiverAction (Unit {0})
  unfolding handle_received handle_closed
  receiver_event ev =
      if text_eq ev.name event_message_received
      then handle_received ev
      else if text_eq ev.name event_message_executed
      then handle_closed ev executed (codes "executor")
      else if text_eq ev.name event_message_cancelled
      then handle_closed ev cancelled (codes "by")
      else pure tt

  -- `Handle`.
  unfoldable pub handle : Event → ReceiverAction (Unit {0})
  unfolding receiver_event
  handle ev = if not (text_eq ev.contract h.contract) then pure tt else receiver_event ev
