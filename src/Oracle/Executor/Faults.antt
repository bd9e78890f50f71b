-- ===== src/Oracle/Executor/Faults.antt =====
-- `Executor.Step` (internal/oracle/executor.go) when calls of the pool fail.
use aegis_protocol.Base.{
  ℕ, ◌+◌, ◌-◌, ◌≤◌, ◌<◌, ◌≡◌, inl, inr, Bool, true, false, ◌&&◌, List, [], ◌∷◌, ltb, leb, map, All,
  arith, Bool-cases, World, exec_cases,
}
use aegis_protocol.Oracle.Executor.{
  Slashing, PendingSlash, ExecutorOptions, SlashAnswer, sent, already_slashed, failed, claimable,
  claim, claimed, submit, submit_all, step, on_answer, mark_submitted_row, mark_abandoned_row,
}

abbrev pub WithinAttempts : ℕ → List Slashing → Type 0
WithinAttempts max rows = All (λ s. s.attempts ≤ max) rows

claim-WithinAttempts :
    (limit max : ℕ) (rows : List Slashing)
    → WithinAttempts max rows
    → WithinAttempts max (claim limit max rows).1
unfolding claim
claim-WithinAttempts limit max [] h = tt
claim-WithinAttempts limit max (s ∷ rows) h = elim (Bool-cases (ltb 0 limit && claimable max s)) [
  | inl e ↦ rw e ((unfold claimable in ground arith), claim-WithinAttempts (limit - 1) max rows h.1)
  | inr e ↦ rw e (h.0, claim-WithinAttempts limit max rows h.1)
]

marked-WithinAttempts :
    (max : ℕ) (f : Slashing → Slashing)
    → ((s : Slashing) → (f s).attempts ≡ s.attempts)
    → (rows : List Slashing) → WithinAttempts max rows
    → WithinAttempts max (map f rows)
marked-WithinAttempts max f e [] h = tt
marked-WithinAttempts max f e (s ∷ rows) h = (rw (e s) h.0, marked-WithinAttempts max f e rows h.1)

on_answer-WithinAttempts :
    (max : ℕ) (opts : ExecutorOptions) (p : PendingSlash) (a : SlashAnswer)
    (w : World (List Slashing))
    → WithinAttempts max w.state
    → WithinAttempts max (on_answer opts p a w).1.state
unfolding on_answer
on_answer-WithinAttempts max opts p (sent tx) w h =
    exec_cases (WithinAttempts max) _ _ w h
      (marked-WithinAttempts max (mark_submitted_row p.id tx) (λ s. ground arith) w.state h)
on_answer-WithinAttempts max opts p already_slashed w h =
    exec_cases (WithinAttempts max) _ _ w h
      (marked-WithinAttempts max (mark_abandoned_row p.id _) (λ s. ground arith) w.state h)
on_answer-WithinAttempts max opts p (failed reason) w h =
    elim (Bool-cases (leb opts.max_attempts (p.attempts + 1))) [
      | inl e ↦ rw e (
          exec_cases (WithinAttempts max) _ _ w h (
            marked-WithinAttempts max (mark_abandoned_row p.id reason) (λ s. ground arith) w.state
              h))
      | inr e ↦ rw e h
    ]

claimed_rows : ExecutorOptions → List Slashing → List Bool → World (List Slashing)
claimed_rows o rows faults = record {
  state = (claim o.batch_size o.max_attempts rows).1;
  faults = faults;
}

module _ (slasher : PendingSlash → SlashAnswer) (opts : ExecutorOptions) where
  submit_all-WithinAttempts :
      (max : ℕ) (ps : List PendingSlash) (n : ℕ) (w : World (List Slashing))
      → WithinAttempts max w.state
      → WithinAttempts max (submit_all slasher opts n ps w).1.state
  unfolding submit_all submit
  submit_all-WithinAttempts max [] n w h = h
  submit_all-WithinAttempts max (p ∷ ps) n w h =
      submit_all-WithinAttempts max ps _ (on_answer opts p (slasher p) w).1
        (on_answer-WithinAttempts max opts p (slasher p) w h)

  after_claim :
      (faults : List Bool) (rows : List Slashing)
      → WithinAttempts opts.max_attempts rows
      → WithinAttempts opts.max_attempts
          (step slasher opts (record { state = rows; faults = faults })).1.state
  unfolding step claimed_rows
  after_claim [] rows h =
      submit_all-WithinAttempts opts.max_attempts (claim opts.batch_size opts.max_attempts rows).0 0
        (claimed_rows opts rows []) (claim-WithinAttempts opts.batch_size opts.max_attempts rows h)
  after_claim (true ∷ faults) rows h = h
  after_claim (false ∷ faults) rows h =
      submit_all-WithinAttempts opts.max_attempts (claim opts.batch_size opts.max_attempts rows).0 0
        (claimed_rows opts rows faults)
        (claim-WithinAttempts opts.batch_size opts.max_attempts rows h)

-- Whatever fails, and whatever the chain answers, no decision is attempted more than `MaxAttempts`
-- times.
pub step-WithinAttempts :
    (slasher : PendingSlash → SlashAnswer) (opts : ExecutorOptions) (w : World (List Slashing))
    → WithinAttempts opts.max_attempts w.state
    → WithinAttempts opts.max_attempts (step slasher opts w).1.state
step-WithinAttempts slasher opts w h = after_claim slasher opts w.faults w.state h

-- If the call that should mark a decision fails on its last permitted attempt, the decision is left
-- neither submitted nor abandoned, and no later step, whatever fails in it, changes it.
pub step-last_attempt_lost :
    (slasher later : PendingSlash → SlashAnswer) (opts : ExecutorOptions) (s : Slashing)
    (faults : List Bool)
    → claimable opts.max_attempts s ≡ true
    → s.attempts + 1 ≡ opts.max_attempts
    → 0 < opts.batch_size
    → ((step slasher opts (record { state = s ∷ []; faults = false ∷ true ∷ [] })).1.state
        ≡ claimed s ∷ [])
      × ((step later opts (record { state = claimed s ∷ []; faults = faults })).1.state
          ≡ claimed s ∷ [])
unfolding step claimable
step-last_attempt_lost slasher later opts s [] c e b = (ground arith, ground arith)
step-last_attempt_lost slasher later opts s (true ∷ faults) c e b = (ground arith, ground arith)
step-last_attempt_lost slasher later opts s (false ∷ faults) c e b = (ground arith, ground arith)
