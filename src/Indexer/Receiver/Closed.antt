-- ===== src/Indexer/Receiver/Closed.antt =====
-- The rows of the receiver handler (internal/indexer/governance_receiver.go) from one delivery to the
-- next.
use aegis_protocol.Base.{
  ℕ, ◌≡◌, refl, sym, ◌∙◌, subst, inl, inr, Bool, true, false, ◌&&◌, List, [], ◌∷◌, ◌++◌, map,
  Option, none, some, any_of, Text, codes, Result, ok, err, World, ◌>>=◌, lift, query, returning,
  exec_cases, Keeps, arith, Bool-cases,
}
use aegis_protocol.Indexer.Event.{Event, Identity, IndexError, store_failed, identity_field}
use aegis_protocol.Indexer.Table.{insert_new}
use aegis_protocol.Indexer.Grown.{Grown, Grown-refl, Grown-map, Grown-insert_new}
use aegis_protocol.Indexer.Distinct.{Distinct, Distinct-insert_new}
use aegis_protocol.Indexer.Receiver.{
  GovernanceReceiverHandler, RemoteAction, RemoteStatus, Closing, pending, executed, cancelled,
  same_message, is_open, close_row, fits_row, insert_remote_action, close_remote_action,
  message_key, handle_received, handle_closed, receiver_event, handle,
}

abbrev pub is_closed : RemoteStatus → Bool
is_closed pending = false
is_closed _ = true

-- What a row may become: a pending action may be executed or cancelled, with nothing that was
-- received changed; a closed one stays as it is.
pub data RemoteStep (q r : RemoteAction) : Type 0 where
  unchanged : r ≡ q → RemoteStep q r
  closed :
      q.status ≡ pending
      → is_closed r.status ≡ true
      → record r { status = q.status; closing = q.closing } ≡ q
      → RemoteStep q r

abbrev has_closing : RemoteStatus → Option Closing → Bool
has_closing pending none = true
has_closing pending (some c) = false
has_closing _ none = false
has_closing _ (some c) = true

abbrev pub all_have_closings : List RemoteAction → Bool
all_have_closings [] = true
all_have_closings (a ∷ rows) = has_closing a.status a.closing && all_have_closings rows

-- No message has two rows, and a row says when and by whom it was closed exactly if it is closed.
pub data IsOrderly (rows : List RemoteAction) : Type 0 where
  orderly : Distinct same_message rows → all_have_closings rows ≡ true → IsOrderly rows

module _ (c e s : ℕ) (st : RemoteStatus) (x : Closing) where
  closed_same : (r : RemoteAction) → is_closed r.status ≡ true → close_row c e s st x r ≡ r
  unfolding close_row is_open
  closed_same r d = ground arith

  open_pending : (q : RemoteAction) → is_open c e s q ≡ true → q.status ≡ pending
  unfolding is_open
  open_pending q o = ground arith

  first_step : (q : RemoteAction) → is_closed st ≡ true → RemoteStep q (close_row c e s st x q)
  unfolding close_row
  first_step q k = elim (Bool-cases (is_open c e s q)) [
    | inl o ↦ closed (open_pending q o) (rw o k) (rw o refl)
    | inr n ↦ unchanged (rw n refl)
  ]

  row_step :
      is_closed st ≡ true
      → (q r : RemoteAction) → RemoteStep q r
      → RemoteStep q (close_row c e s st x r)
  row_step k q r (closed p d f) = subst (λ t. RemoteStep q t) (sym (closed_same r d)) (closed p d f)
  row_step k q r (unchanged f) =
      subst (λ t. RemoteStep q (close_row c e s st x t)) (sym f) (first_step q k)

  same_key :
      (b a : RemoteAction)
      → same_message (close_row c e s st x a) (close_row c e s st x b) ≡ same_message a b
  unfolding close_row is_open
  same_key b a = ground arith

  same_keys :
      (b : RemoteAction) (rows : List RemoteAction)
      → any_of (λ a. same_message a (close_row c e s st x b)) (map (close_row c e s st x) rows)
        ≡ any_of (λ a. same_message a b) rows
  same_keys b [] = refl
  same_keys b (a ∷ rows) = rw (same_key b a, same_keys b rows) refl

  close-Distinct :
      (rows : List RemoteAction)
      → Distinct same_message rows
      → Distinct same_message (map (close_row c e s st x) rows)
  close-Distinct [] h = tt
  close-Distinct (a ∷ rows) (n, h) = (same_keys a rows ∙ n, close-Distinct rows h)

  close_closings :
      (rows : List RemoteAction)
      → is_closed st ≡ true
      → all_have_closings rows ≡ true
      → all_have_closings (map (close_row c e s st x) rows) ≡ true
  unfolding close_row is_open
  close_closings [] k h = refl
  close_closings (a ∷ rows) k h = ground (arith, close_closings rows k)

  -- Whatever fails, a close leaves the rows or closes what it is to close.
  close_cases :
      (P : List RemoteAction → Type 0) (w : World (List RemoteAction))
      → P w.state
      → P (map (close_row c e s st x) w.state)
      → P (close_remote_action c e s st x w).1.state
  unfolding close_remote_action returning query
  close_cases P w before after = go w.faults
    where
      go : (fs : List Bool) → P (close_remote_action c e s st x (record w { faults = fs })).1.state
      go [] = ground arith
      go (true ∷ fs) = before
      go (false ∷ []) = ground arith
      go (false ∷ true ∷ fs) = ground arith
      go (false ∷ false ∷ fs) = ground arith

insert_closings :
    (a : RemoteAction) (rows : List RemoteAction)
    → has_closing a.status a.closing ≡ true
    → all_have_closings rows ≡ true
    → all_have_closings (insert_new same_message a rows) ≡ true
unfolding insert_new
insert_closings a rows k h = elim (Bool-cases (any_of (same_message a) rows)) [
  | inl y ↦ rw y h
  | inr n ↦ rw n (last rows h)
]
  where
    last :
        (rows : List RemoteAction)
        → all_have_closings rows ≡ true
        → all_have_closings (rows ++ a ∷ []) ≡ true
    last [] h = rw k refl
    last (b ∷ rows) h = ground (arith, last rows)

-- A property of the rows that both statements keep.
record IsKept (P : List RemoteAction → Type 0) : Type 0 where
  insert_kept :
      (a : RemoteAction) → a.status ≡ pending → a.closing ≡ none → Keeps P (insert_remote_action a)
  close_kept :
      (c e s : ℕ) (st : RemoteStatus) (x : Closing)
      → is_closed st ≡ true
      → Keeps P (close_remote_action c e s st x)

-- The handler over a sequence of deliveries, in any order, repeated or not.
unfoldable pub deliver :
    GovernanceReceiverHandler → List Event → World (List RemoteAction) → World (List RemoteAction)
deliver g [] w = w
deliver g (ev ∷ events) w = deliver g events (handle g ev w).1

module _ (P : List RemoteAction → Type 0) (k : IsKept P) (g : GovernanceReceiverHandler) where
  received_kept :
      (ev : Event) (w : World (List RemoteAction)) → P w.state → P (handle_received g ev w).1.state
  unfolding handle_received
  received_kept ev w h = grind (arith, k.insert_kept)

  closed_kept :
      (ev : Event) (st : RemoteStatus) (by : Text) (w : World (List RemoteAction))
      → is_closed st ≡ true
      → P w.state
      → P (handle_closed g ev st by w).1.state
  unfolding handle_closed
  closed_kept ev st by w d h = go (message_key ev) (identity_field ev by)
    where
      go :
          (r : Result IndexError (ℕ × ℕ)) (b : Result IndexError Identity)
          → P
              ((do
                key ← lift r
                by ← lift b
                close_remote_action ev.chain_id key.0 key.1 st
                    (record { at = ev.block_time; tx_hash = ev.tx_hash; by = g.encode by }))
                w).1.state
      go (ok key) (ok by) = k.close_kept ev.chain_id key.0 key.1 st _ d w h
      go (ok key) (err e) = h
      go (err e) b = h

  handle_kept : (ev : Event) (w : World (List RemoteAction)) → P w.state → P (handle g ev w).1.state
  unfolding handle receiver_event
  handle_kept ev w h = ground (
    arith,
    received_kept ev w h,
    closed_kept ev executed (codes "executor") w refl h,
    closed_kept ev cancelled (codes "by") w refl h,
  )

  deliver_kept :
      (events : List Event) (w : World (List RemoteAction))
      → P w.state
      → P (deliver g events w).state
  unfolding deliver
  deliver_kept [] w h = h
  deliver_kept (ev ∷ events) w h = deliver_kept events (handle g ev w).1 (handle_kept ev w h)

insert_Orderly :
    (a : RemoteAction)
    → a.status ≡ pending
    → a.closing ≡ none
    → Keeps IsOrderly (insert_remote_action a)
unfolding insert_remote_action
insert_Orderly a p n w (orderly d h) = elim (Bool-cases (fits_row a)) [
  | inl y ↦ rw y (
      exec_cases IsOrderly store_failed _ w (orderly d h) (
        orderly (Distinct-insert_new same_message a w.state d)
          (insert_closings a w.state (rw (p, n) refl) h)))
  | inr m ↦ rw m (orderly d h)
]

close_Orderly :
    (c e s : ℕ) (st : RemoteStatus) (x : Closing)
    → is_closed st ≡ true
    → Keeps IsOrderly (close_remote_action c e s st x)
close_Orderly c e s st x k w (orderly d h) =
    close_cases c e s st x IsOrderly w (orderly d h)
      (orderly (close-Distinct c e s st x w.state d) (close_closings c e s st x w.state k h))

insert_Grown :
    (before : List RemoteAction) (a : RemoteAction) (w : World (List RemoteAction))
    → Grown RemoteStep before w.state
    → Grown RemoteStep before (insert_remote_action a w).1.state
unfolding insert_remote_action
insert_Grown before a w h =
    grind (arith, Grown-insert_new RemoteStep same_message a before w.state h)

-- Whatever events are delivered, in whatever order and however often, and whatever fails, every
-- received action stays with all that was received of it; a pending one may be executed or
-- cancelled, and what is executed or cancelled never changes again.
pub deliver-RemoteStep :
    (g : GovernanceReceiverHandler) (events : List Event) (w : World (List RemoteAction))
    → Grown RemoteStep w.state (deliver g events w).state
deliver-RemoteStep g events w =
    deliver_kept (Grown RemoteStep w.state)
      (record {
        insert_kept = λ a p n v. insert_Grown w.state a v;
        close_kept = λ c e s st x k v h.
            close_cases c e s st x (Grown RemoteStep w.state) v h (
              Grown-map RemoteStep (close_row c e s st x) w.state v.state (row_step c e s st x k)
                h);
      })
      g events w (Grown-refl RemoteStep (λ a. unchanged refl) w.state)

-- Whatever events are delivered, in whatever order and however often, and whatever fails, no message
-- has two rows, and a row says when and by whom it was closed exactly if it is executed or
-- cancelled, if that was so at the start.
pub deliver-actions_IsOrderly :
    (g : GovernanceReceiverHandler) (events : List Event) (w : World (List RemoteAction))
    → IsOrderly w.state
    → IsOrderly (deliver g events w).state
deliver-actions_IsOrderly g events w =
    deliver_kept IsOrderly (record { insert_kept = insert_Orderly; close_kept = close_Orderly }) g
      events w
