-- ===== src/Indexer/Loop.antt =====
-- internal/indexer/indexer.go, with LoadCursor and SaveCursor of internal/db/cursor.go: the cursor
-- loop. What the chain client answers is the parameter `client`; what the handlers keep is the
-- state `S`. The lag metrics and the log are left out: they change nothing that is read back.
pub mod Cursor
pub mod Coverage
use aegis_protocol.Base.{
  ℕ, zero, suc, ◌+◌, ◌-◌, ◌*◌, ◌/◌, ◌%◌, ◌^◌, ◌≤◌, ◌<◌, ◌≡◌, ◌≢◌, ◌↔◌, ◌⊎◌, refl, ap, sym, ◌∙◌,
  subst, inl, inr, Bool, true, false, not, ◌&&◌, ◌||◌, List, [], ◌∷◌, ◌++◌, map, Option, none, some,
  length, take, drop, replicate, get_or, any_of, count_if, keep_if, ltb, leb, ◌==◌, if◌then◌else◌,
  Text, codes, text_eq, text_lt, text_eq_refl, text_eq→eq, text_eq_iff, Result, ok, err, World,
  Action, ◌>>=◌, ◌>>◌, pure, throw, lift, gets, modify, exec, query, returning, exec_cases, All,
  Any, All-map, arith, Bool-cases, Option-cases, ==_iff, length-append, length-replicate, ltb→lt,
  ltb→ge, lt→ltb, leb→le,
}
use aegis_protocol.Indexer.Event.{
  Event, IndexError, no_tx_hash, head_failed, logs_failed, store_failed,
}

-- The answers of `chain.Client`: `none` is an error.
pub record Client : Type 0 where
  pub head : Option ℕ
  pub confirmation_depth : ℕ
  pub logs_in_range : ℕ → ℕ → Option (List Event)

pub record Options : Type 0 where
  pub start_block : ℕ
  pub batch_size : ℕ

-- The indexer's cursor, the row of indexer_cursors, and the handlers' state.
pub record IndexerState (S : Type 0) : Type 0 where
  pub cursor : ℕ
  pub saved : Option ℕ
  pub inner : S

abbrev pub IndexerAction : Type 0 → Type 0 → Type 0
IndexerAction S A = Action IndexError (IndexerState S) A

abbrev pub Handler : Type 0 → Type 0
Handler S = Event → Action IndexError S (Unit {0})

-- The upsert of qSaveCursor, whose WHERE keeps the row from going back.
abbrev advance : ℕ → Option ℕ → Option ℕ
advance block none = some block
advance block (some last) = if ltb last block then some block else some last

abbrev or_fail : {A S : Type 0} → IndexError → Option A → Action IndexError S A
or_fail e none = throw e
or_fail e (some a) = pure a

-- A handler's action on its own state.
abbrev within_handlers : {S A : Type 0} → Action IndexError S A → IndexerAction S A
within_handlers m w =
    let (r, w') = m (record { state = w.state.inner; faults = w.faults }) in
    (r, record { state = record w.state { inner = w'.state }; faults = w'.faults })

abbrev is_empty_text : Text → Bool
is_empty_text [] = true
is_empty_text (_ ∷ _) = false

module _ {S : Type 0} where
  run_handlers : List (Handler S) → Handler S
  run_handlers [] ev = pure tt
  run_handlers (h ∷ handlers) ev = let rest = run_handlers handlers ev in h ev >> rest

  -- `dispatch`: every handler in turn, for an event that has a transaction identifier.
  dispatch : List (Handler S) → Handler S
  unfolding run_handlers
  dispatch handlers ev =
      if is_empty_text ev.tx_hash then throw no_tx_hash else run_handlers handlers ev

  dispatch_all : List (Handler S) → List Event → Action IndexError S (Unit {0})
  unfolding dispatch
  dispatch_all handlers [] = pure tt
  dispatch_all handlers (ev ∷ events) =
      let rest = dispatch_all handlers events in dispatch handlers ev >> rest

  save_cursor : ℕ → IndexerAction S (Unit {0})
  unfolding exec
  save_cursor block = exec store_failed (λ s. record s { saved = advance block s.saved })

  process_batch : Client → Options → List (Handler S) → ℕ → ℕ → IndexerAction S Bool
  unfolding save_cursor dispatch_all
  process_batch client opts handlers cursor safe_head = do
    let to =
        if ltb safe_head (cursor + opts.batch_size) then safe_head else cursor + opts.batch_size
    events ← or_fail logs_failed (client.logs_in_range (cursor + 1) to)
    within_handlers (dispatch_all handlers events)
    save_cursor to
    modify (λ s. record s { cursor = to })
    pure true

  -- `Step`: at most one batch; reports whether the cursor moved.
  unfoldable pub step : Client → Options → List (Handler S) → IndexerAction S Bool
  unfolding process_batch
  step client opts handlers = do
    head ← or_fail head_failed client.head
    cursor ← gets (λ s. s.cursor)
    if ltb head client.confirmation_depth
        then pure false
        else if leb (head - client.confirmation_depth) cursor
        then pure false
        else process_batch client opts handlers cursor (head - client.confirmation_depth)

  restored : Options → Option ℕ → IndexerAction S (Unit {0})
  unfolding save_cursor
  restored opts none = do
    modify (λ s. record s { cursor = opts.start_block })
    save_cursor opts.start_block
  restored opts (some last) = modify (λ s. record s { cursor = last })

  -- `restoreCursor`: from the row if there is one, else from the configured start.
  unfoldable pub restore_cursor : Options → IndexerAction S (Unit {0})
  unfolding restored query
  restore_cursor opts = do last ← query store_failed (λ s. s.saved); restored opts last
