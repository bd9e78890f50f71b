-- ===== src/Indexer/Zk/Lasting.antt =====
-- The zk handler (internal/indexer/zk.go) on an event delivered again after any others.
use aegis_protocol.Base.{
  ◌≡◌, ◌⊎◌, refl, ap, sym, ◌∙◌, subst, inl, inr, Bool, true, List, [], ◌∷◌, ◌++◌, any_of,
  if◌then◌else◌, text_eq, ok, World, quiet, arith, Bool-cases,
}
use aegis_protocol.Indexer.Event.{Event}
use aegis_protocol.Indexer.Table.{insert_new}
use aegis_protocol.Indexer.Zk.{
  ZkCommitment, ZkPrivateAction, ZkHandler, ZkState, same_commitment, same_private_action,
  handle_commitment_inserted, handle_private_action, handle_action_registered,
  handle_action_deregistered, handle, event_commitment_inserted, event_private_action_executed,
}
use aegis_protocol.Indexer.Zk.Replay.{commitment_there, private_action_there}

any_of-last_stays :
    {A : Type 0} (p : A → Bool) (a : A) (rows : List A)
    → any_of p rows ≡ true
    → any_of p (rows ++ a ∷ []) ≡ true
any_of-last_stays p a [] h = absurd (ground arith)
any_of-last_stays p a (b ∷ rows) h = ground (arith, any_of-last_stays p a rows)

any_of-insert_new_stays :
    {A : Type 0} (same : A → A → Bool) (p : A → Bool) (a : A) (rows : List A)
    → any_of p rows ≡ true
    → any_of p (insert_new same a rows) ≡ true
unfolding insert_new
any_of-insert_new_stays same p a rows h = ground (arith, any_of-last_stays p a rows h)

insert_new_same :
    {A : Type 0} (same : A → A → Bool) (a : A) (rows : List A)
    → any_of (same a) rows ≡ true
    → insert_new same a rows ≡ rows
unfolding insert_new
insert_new_same same a rows h = rw h refl

module _ (h : ZkHandler) where
  -- The events of the list, each with what may fail of it.
  unfoldable pub deliver : List Event → World ZkState → World ZkState
  deliver [] w = w
  deliver (ev ∷ events) w = deliver events (handle h ev w).1

  module _ (c : ZkCommitment) (ev : Event) (w : World ZkState)
      (there : any_of (same_commitment c) w.state.commitments ≡ true) where
    commitment_kept :
        any_of (same_commitment c) (handle_commitment_inserted h ev w).1.state.commitments ≡ true
    unfolding handle_commitment_inserted
    commitment_kept = grind (arith, any_of-insert_new_stays)

    private_action_kept :
        any_of (same_commitment c) (handle_private_action h ev w).1.state.commitments ≡ true
    unfolding handle_private_action
    private_action_kept = grind arith

    registered_kept :
        any_of (same_commitment c) (handle_action_registered h ev w).1.state.commitments ≡ true
    unfolding handle_action_registered
    registered_kept = grind arith

    deregistered_kept :
        any_of (same_commitment c) (handle_action_deregistered h ev w).1.state.commitments ≡ true
    unfolding handle_action_deregistered
    deregistered_kept = grind arith

    handle_kept : any_of (same_commitment c) (handle h ev w).1.state.commitments ≡ true
    unfolding handle
    handle_kept =
        ground (arith, commitment_kept, private_action_kept, registered_kept, deregistered_kept)

  deliver_kept :
      (c : ZkCommitment) (events : List Event) (w : World ZkState)
      → any_of (same_commitment c) w.state.commitments ≡ true
      → any_of (same_commitment c) (deliver events w).state.commitments ≡ true
  unfolding deliver
  deliver_kept c [] w there = there
  deliver_kept c (ev ∷ events) w there =
      deliver_kept c events (handle h ev w).1 (handle_kept c ev w there)

  module _ (a : ZkPrivateAction) (ev : Event) (w : World ZkState)
      (there : any_of (same_private_action a) w.state.private_actions ≡ true)
      (set : w.state.gate_set ≡ true) where
    abbrev Done : ZkState → Type 0
    Done t = (any_of (same_private_action a) t.private_actions ≡ true) × (t.gate_set ≡ true)

    commitment-Done : Done (handle_commitment_inserted h ev w).1.state
    unfolding handle_commitment_inserted
    commitment-Done = grind arith

    private_action-Done : Done (handle_private_action h ev w).1.state
    unfolding handle_private_action
    private_action-Done = grind (arith, any_of-insert_new_stays)

    registered-Done : Done (handle_action_registered h ev w).1.state
    unfolding handle_action_registered
    registered-Done = grind arith

    deregistered-Done : Done (handle_action_deregistered h ev w).1.state
    unfolding handle_action_deregistered
    deregistered-Done = grind arith

    handle-Done : Done (handle h ev w).1.state
    unfolding handle
    handle-Done =
        ground (arith, commitment-Done, private_action-Done, registered-Done, deregistered-Done)

  handle_set :
      (ev : Event) (w : World ZkState)
      → w.state.gate_set ≡ true
      → (handle h ev w).1.state.gate_set ≡ true
  unfolding handle handle_commitment_inserted handle_private_action handle_action_registered
      handle_action_deregistered
  handle_set ev w set = grind arith

  deliver_set :
      (events : List Event) (w : World ZkState)
      → w.state.gate_set ≡ true
      → (deliver events w).state.gate_set ≡ true
  unfolding deliver
  deliver_set [] w set = set
  deliver_set (ev ∷ events) w set = deliver_set events (handle h ev w).1 (handle_set ev w set)

  -- A commitment or an action of which the row is there is handled without an effect.
  commitment_again :
      (ev : Event) (s t : ZkState)
      → (handle_commitment_inserted h ev (quiet s)).0 ≡ ok tt
      → ((c : ZkCommitment)
          → any_of
              (same_commitment c)
              (handle_commitment_inserted h ev (quiet s)).1.state.commitments
            ≡ true
          → any_of (same_commitment c) t.commitments ≡ true)
      → handle_commitment_inserted h ev (quiet t) ≡ (ok tt, quiet t)
  unfolding handle_commitment_inserted
  commitment_again ev s t e k = grind (arith, k, commitment_there, insert_new_same same_commitment)

  private_action_again :
      (ev : Event) (s t : ZkState)
      → (handle_private_action h ev (quiet s)).0 ≡ ok tt
      → t.gate_set ≡ true
      → ((a : ZkPrivateAction)
          → any_of
              (same_private_action a)
              (handle_private_action h ev (quiet s)).1.state.private_actions
            ≡ true
          → any_of (same_private_action a) t.private_actions ≡ true)
      → handle_private_action h ev (quiet t) ≡ (ok tt, quiet t)
  unfolding handle_private_action
  private_action_again ev s t e set k =
      grind (arith, k, private_action_there, insert_new_same same_private_action)

  private_action_set :
      (ev : Event) (s : ZkState)
      → (handle_private_action h ev (quiet s)).0 ≡ ok tt
      → (handle_private_action h ev (quiet s)).1.state.gate_set ≡ true
  unfolding handle_private_action
  private_action_set ev s e = grind arith

  deliver-Done :
      (a : ZkPrivateAction) (events : List Event) (w : World ZkState)
      → any_of (same_private_action a) w.state.private_actions ≡ true
      → w.state.gate_set ≡ true
      → (any_of (same_private_action a) (deliver events w).state.private_actions ≡ true)
        × ((deliver events w).state.gate_set ≡ true)
  unfolding deliver
  deliver-Done a [] w there set = (there, set)
  deliver-Done a (ev ∷ events) w there set =
      let (there', set') = handle-Done a ev w there set in
      deliver-Done a events (handle h ev w).1 there' set'

  -- What `handle` comes to on an event of either name.
  commitment_event :
      (ev : Event) (w : World ZkState)
      → ev.name ≡ event_commitment_inserted
      → handle h ev w
        ≡ (if text_eq ev.contract h.tree then handle_commitment_inserted h ev w else (ok tt, w))
  unfolding handle text_eq
  commitment_event ev w n = ground (arith, n)

  private_action_event :
      (ev : Event) (w : World ZkState)
      → ev.name ≡ event_private_action_executed
      → handle h ev w
        ≡ (if text_eq ev.contract h.gate then handle_private_action h ev w else (ok tt, w))
  unfolding handle text_eq
  private_action_event ev w n = ground (arith, n)

  module _ (ev : Event) (events : List Event) (s : ZkState) (faults : List Bool) where
    -- The state after the event and then the others, of whose pool calls some may fail.
    pub after : ZkState
    after =
        (deliver events (record { state = (handle h ev (quiet s)).1.state; faults = faults })).state

    commitment_lasting :
        ev.name ≡ event_commitment_inserted
        → (handle h ev (quiet s)).0 ≡ ok tt
        → handle h ev (quiet after) ≡ (ok tt, quiet after)
    unfolding after
    commitment_lasting n e = elim (Bool-cases (text_eq ev.contract h.tree)) [
      | inr y ↦ commitment_event ev (quiet after) n ∙ rw y refl
      | inl y ↦
          let same : handle h ev (quiet s) ≡ handle_commitment_inserted h ev (quiet s) =
            commitment_event ev (quiet s) n ∙ rw y refl in
          commitment_event ev (quiet after) n
          ∙ rw y (
              commitment_again ev s after (sym (ap (λ r. r.0) same) ∙ e) (λ c there.
                deliver_kept c events
                  (record { state = (handle h ev (quiet s)).1.state; faults = faults })
                  (subst (λ r. any_of (same_commitment c) r.1.state.commitments ≡ true) (sym same)
                    there)))
    ]

    private_action_lasting :
        ev.name ≡ event_private_action_executed
        → (handle h ev (quiet s)).0 ≡ ok tt
        → handle h ev (quiet after) ≡ (ok tt, quiet after)
    unfolding after
    private_action_lasting n e = elim (Bool-cases (text_eq ev.contract h.gate)) [
      | inr y ↦ private_action_event ev (quiet after) n ∙ rw y refl
      | inl y ↦
          let same : handle h ev (quiet s) ≡ handle_private_action h ev (quiet s) =
            private_action_event ev (quiet s) n ∙ rw y refl in
          let handled = sym (ap (λ r. r.0) same) ∙ e in
          let next : World ZkState = record {
            state = (handle h ev (quiet s)).1.state;
            faults = faults;
          } in
          let set : next.state.gate_set ≡ true =
            ap (λ r. r.1.state.gate_set) same ∙ private_action_set ev s handled in
          private_action_event ev (quiet after) n
          ∙ rw y (
              private_action_again ev s after handled (deliver_set events next set) (λ a there.
                (deliver-Done a events next
                  (subst (λ r. any_of (same_private_action a) r.1.state.private_actions ≡ true)
                    (sym same) there)
                  set).0))
    ]

-- A commitment or a private action that was handled without an error changes nothing, and nothing that
-- the process keeps, when it is delivered again, whatever events were delivered in between and
-- whatever failed of them.
pub handle-lasting :
    (h : ZkHandler) (ev : Event) (events : List Event) (s : ZkState) (faults : List Bool)
    → (ev.name ≡ event_commitment_inserted) ⊎ (ev.name ≡ event_private_action_executed)
    → (handle h ev (quiet s)).0 ≡ ok tt
    → let t = after h ev events s faults in handle h ev (quiet t) ≡ (ok tt, quiet t)
handle-lasting h ev events s faults (inl n) e = commitment_lasting h ev events s faults n e
handle-lasting h ev events s faults (inr n) e = private_action_lasting h ev events s faults n e
