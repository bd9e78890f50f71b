-- ===== src/Indexer/Receiver/Replay.antt =====
-- The receiver handler (internal/indexer/governance_receiver.go) on an event delivered again, and on
-- actions that are closed twice or were never received.
use aegis_protocol.Base.{
  ℕ, ◌≤◌, ◌≡◌, refl, true, not, List, [], ◌∷◌, map, any_of, if◌then◌else◌, Text, codes, text_eq, ok,
  err, quiet, arith,
}
use aegis_protocol.Indexer.Event.{Event, never_received, raw_field}
use aegis_protocol.Indexer.Table.{insert_new, insert_new_idem}
use aegis_protocol.Indexer.Again.{Settles, Settles-choice, Settles-pure}
use aegis_protocol.Indexer.Receiver.{
  GovernanceReceiverHandler, RemoteAction, RemoteStatus, Closing, executed, cancelled, same_message,
  is_message, is_open, close_row, close_remote_action, message_key, handle_received, handle_closed,
  receiver_event, handle, event_message_received, event_message_executed, event_message_cancelled,
}

action_again :
    (a : RemoteAction) (rows : List RemoteAction)
    → insert_new same_message a (insert_new same_message a rows) ≡ insert_new same_message a rows
action_again a rows = insert_new_idem same_message a rows (ground arith)

-- A close is by the status of an execution or a cancellation.
close_again :
    (c e s : ℕ) (st : RemoteStatus) (x : Closing) (rows : List RemoteAction)
    → map (close_row c e s st x) (map (close_row c e s st x) rows) ≡ map (close_row c e s st x) rows
unfolding close_row is_open
close_again c e s st x [] = refl
close_again c e s st x (a ∷ rows) = ground (arith, close_again c e s st x rows)

messages_kept :
    (c e s : ℕ) (st : RemoteStatus) (x : Closing) (rows : List RemoteAction)
    → any_of (is_message c e s) (map (close_row c e s st x) rows) ≡ any_of (is_message c e s) rows
unfolding close_row is_open
messages_kept c e s st x [] = refl
messages_kept c e s st x (a ∷ rows) = ground (arith, messages_kept c e s st x rows)

open_message :
    (c e s : ℕ) (rows : List RemoteAction)
    → any_of (is_open c e s) rows ≡ true
    → any_of (is_message c e s) rows ≡ true
unfolding is_open
open_message c e s [] h = h
open_message c e s (a ∷ rows) h = ground (arith, open_message c e s rows)

close_replay :
    (c e s : ℕ) (st : RemoteStatus) (x : Closing) (rows : List RemoteAction)
    → Settles (close_remote_action c e s st x) rows
unfolding close_remote_action
close_replay c e s st x rows h = grind (arith, close_again, messages_kept, open_message)

-- Where no call fails, a close succeeds if the action was received, open or closed, and says that it
-- was never received otherwise.
pub close_remote_action-received :
    (c e s : ℕ) (st : RemoteStatus) (x : Closing) (rows : List RemoteAction)
    → (close_remote_action c e s st x (quiet rows)).0
      ≡ (if any_of (is_message c e s) rows then ok tt else err never_received)
unfolding close_remote_action
close_remote_action-received c e s st x rows =
    grind (arith, messages_kept c e s st x rows, open_message c e s rows)

module _ (h : GovernanceReceiverHandler) (ev : Event) (rows : List RemoteAction) where
  received_replay : Settles (handle_received h ev) rows
  unfolding handle_received
  received_replay e = grind (arith, action_again)

  closed_replay : (st : RemoteStatus) (by : Text) → Settles (handle_closed h ev st by) rows
  unfolding handle_closed
  closed_replay st by e = grind (arith, close_replay)

-- An event that was handled without an error changes no row when it is delivered again at once.
pub receiver_handle-replay :
    (h : GovernanceReceiverHandler) (ev : Event) (rows : List RemoteAction)
    → (handle h ev (quiet rows)).0 ≡ ok tt
    → let s' = (handle h ev (quiet rows)).1.state in handle h ev (quiet s') ≡ (ok tt, quiet s')
unfolding handle receiver_event
receiver_handle-replay h ev rows =
    Settles-choice (not (text_eq ev.contract h.contract)) _ _ rows (Settles-pure rows) (
      Settles-choice (text_eq ev.name event_message_received) _ _ rows (received_replay h ev rows) (
        Settles-choice (text_eq ev.name event_message_executed) _ _ rows
          (closed_replay h ev rows executed (codes "executor"))
          (Settles-choice (text_eq ev.name event_message_cancelled) _ _ rows
            (closed_replay h ev rows cancelled (codes "by")) (Settles-pure rows))))

-- The emitter's chain that a message's key holds fits a u16, and is the one that the event holds.
pub message_key-fits :
    (ev : Event) (c s : ℕ)
    → message_key ev ≡ ok (c, s)
    → (c ≤ 65535)
      × (raw_field ev (codes "emitterChain") ≡ ok c)
      × (raw_field ev (codes "sequence") ≡ ok s)
unfolding message_key
message_key-fits ev c s h = grind arith
