-- ===== src/Oracle/Executor.antt =====
-- internal/oracle/executor.go and the statements of internal/db/oracle_execution.go that it runs.
-- The rows are those of one chain (every statement filters by chain_id), in the order of
-- `decided_at`. What the chain answers to a penalty is the parameter `slasher`.
pub mod Settles
pub mod Faults
use aegis_protocol.Base.{
  ℕ, zero, suc, ◌+◌, ◌-◌, Bool, true, false, not, ◌&&◌, List, [], ◌∷◌, Option, none, some, ltb, leb,
  ◌==◌, Text, codes, map, if◌then◌else◌, Result, ok, err, World, Action, ◌>>=◌, exec, returning,
  pure, throw,
}

-- A row of oracle_slashings.
pub record Slashing : Type 0 where
  pub id : ℕ
  pub node : Text
  pub round_id : Option ℕ
  pub amount : ℕ
  pub reason : Text
  pub attempts : ℕ
  pub submitted : Option Text
  pub abandoned : Option Text
  pub executed : Bool

pub record PendingSlash : Type 0 where
  pub id : ℕ
  pub node : Text
  pub round_id : ℕ
  pub amount : ℕ
  pub reason : Text
  pub attempts : ℕ

abbrev pub is_none {ℓ} : {A : Type ℓ} → Option A → Bool
is_none none = true
is_none (some _) = false

abbrev number_of : Option ℕ → ℕ
number_of none = 0
number_of (some n) = n

-- The `WHERE` of the claim.
unfoldable pub claimable : ℕ → Slashing → Bool
claimable max_attempts s =
    not s.executed
    && is_none s.submitted
    && is_none s.abandoned
    && not (is_none s.round_id)
    && ltb s.attempts max_attempts

-- `SET attempts = attempts + 1`.
abbrev pub claimed : Slashing → Slashing
claimed s = record s { attempts = s.attempts + 1 }

-- A returned row, whose attempts the store counts back by one.
abbrev pub pending_of : Slashing → PendingSlash
pending_of s = record {
  id = s.id;
  node = s.node;
  round_id = number_of s.round_id;
  amount = s.amount;
  reason = s.reason;
  attempts = (claimed s).attempts - 1;
}

claim : ℕ → ℕ → List Slashing → List PendingSlash × List Slashing
unfolding claimable
claim limit max_attempts [] = ([], [])
claim limit max_attempts (s ∷ rows) =
    let taken = ltb 0 limit && claimable max_attempts s in
    let (ps, rows') = claim (if taken then limit - 1 else limit) max_attempts rows in
    (if taken then pending_of s ∷ ps else ps, (if taken then claimed s else s) ∷ rows')

abbrev mark_submitted_row : ℕ → Text → Slashing → Slashing
mark_submitted_row id tx s =
    if s.id == id && is_none s.submitted then record s { submitted = some tx } else s

abbrev mark_abandoned_row : ℕ → Text → Slashing → Slashing
mark_abandoned_row id reason s =
    if s.id == id && is_none s.abandoned then record s { abandoned = some reason } else s

pub data ExecutorError : Type 0 where
  claim_failed mark_failed slash_failed : ExecutorError

abbrev pub ExecutorAction : Type 0 → Type 0
ExecutorAction A = Action ExecutorError (List Slashing) A

claim_pending_slashes : ℕ → ℕ → ExecutorAction (List PendingSlash)
unfolding claim returning
claim_pending_slashes limit max_attempts = returning claim_failed (claim limit max_attempts)

mark_slash_submitted : ℕ → Text → ExecutorAction (Unit {0})
unfolding exec
mark_slash_submitted id tx = exec mark_failed (map (mark_submitted_row id tx))

mark_slash_abandoned : ℕ → Text → ExecutorAction (Unit {0})
unfolding exec
mark_slash_abandoned id reason = exec mark_failed (map (mark_abandoned_row id reason))

-- What the chain answers: a transaction, `ErrAlreadySlashed`, or another error.
pub data SlashAnswer : Type 0 where
  sent : Text → SlashAnswer
  already_slashed : SlashAnswer
  failed : Text → SlashAnswer

pub record ExecutorOptions : Type 0 where
  pub batch_size : ℕ
  pub max_attempts : ℕ

-- `NewExecutor`: zero options take the defaults.
unfoldable pub new_executor : ExecutorOptions → ExecutorOptions
new_executor opts = record {
  batch_size = if opts.batch_size == 0 then 10 else opts.batch_size;
  max_attempts = if opts.max_attempts == 0 then 3 else opts.max_attempts;
}

-- The `switch` of `submit`.
on_answer : ExecutorOptions → PendingSlash → SlashAnswer → ExecutorAction (Unit {0})
unfolding mark_slash_submitted mark_slash_abandoned
on_answer opts slash (sent tx) = mark_slash_submitted slash.id tx
on_answer opts slash already_slashed =
    mark_slash_abandoned slash.id (codes "already slashed on chain")
on_answer opts slash (failed reason) =
    if leb opts.max_attempts (slash.attempts + 1)
    then mark_slash_abandoned slash.id reason
    else throw slash_failed

module _ (slasher : PendingSlash → SlashAnswer) (opts : ExecutorOptions) where
  pub submit : PendingSlash → ExecutorAction (Unit {0})
  unfolding on_answer
  submit slash = on_answer opts slash (slasher slash)

  -- The loop of `Step`: a failure of one decision does not stop the batch.
  submit_all : ℕ → List PendingSlash → ExecutorAction ℕ
  unfolding submit
  submit_all handled [] = pure handled
  submit_all handled (slash ∷ pending) = λ w.
      let (r, w') = submit slash w in
      submit_all (elim r [ ok _ ↦ handled + 1 | err _ ↦ handled ]) pending w'

  -- `Executor.Step`.
  unfoldable pub step : ExecutorAction ℕ
  unfolding claim_pending_slashes submit_all
  step = do pending ← claim_pending_slashes opts.batch_size opts.max_attempts; submit_all 0 pending
