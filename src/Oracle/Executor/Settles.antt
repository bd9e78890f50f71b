-- ===== src/Oracle/Executor/Settles.antt =====
-- A specification of `Executor.Step` (internal/oracle/executor.go): each decision on its own, as one
-- function of the row.
use mathlib.Core.Path.{ap₂}
use aegis_protocol.Base.{
  quiet, ℕ, ◌+◌, ◌-◌, ◌≡◌, ◌≢◌, refl, ap, sym, ◌∙◌, inl, inr, Bool, true, false, ◌&&◌, List, [],
  ◌∷◌, some, ltb, leb, codes, map, All, arith, Bool-cases, if◌then◌else◌, ok, err, All-map,
}
use aegis_protocol.Oracle.Executor.{
  Slashing, PendingSlash, ExecutorOptions, SlashAnswer, sent, already_slashed, failed, claimable,
  claim, claimed, pending_of, submit, submit_all, step, mark_submitted_row, mark_abandoned_row,
  slash_failed,
}

-- What one attempt makes of a claimable row.
abbrev pub settle : (PendingSlash → SlashAnswer) → ℕ → Slashing → Slashing
settle slasher max_attempts s = elim (slasher (pending_of s)) [
  | sent tx ↦ record s { attempts = s.attempts + 1; submitted = some tx }
  | already_slashed ↦ record s {
    attempts = s.attempts + 1;
    abandoned = some (codes "already slashed on chain");
  }
  | failed reason ↦
      if leb max_attempts (s.attempts + 1)
      then record s { attempts = s.attempts + 1; abandoned = some reason }
      else record s { attempts = s.attempts + 1 }
]

-- Whether the attempt counts as handled.
abbrev pub settles : (PendingSlash → SlashAnswer) → ℕ → Slashing → Bool
settles slasher max_attempts s = elim (slasher (pending_of s)) [
  | sent tx ↦ true
  | already_slashed ↦ true
  | failed reason ↦ leb max_attempts (s.attempts + 1)
]

-- The first `limit` claimable rows are settled, the others stay.
abbrev pub settle_rows : (PendingSlash → SlashAnswer) → ℕ → ℕ → List Slashing → List Slashing
settle_rows slasher max_attempts limit [] = []
settle_rows slasher max_attempts limit (s ∷ rows) =
    let taken = ltb 0 limit && claimable max_attempts s in
    (if taken then settle slasher max_attempts s else s)
    ∷ settle_rows slasher max_attempts (if taken then limit - 1 else limit) rows

abbrev pub settled_count : (PendingSlash → SlashAnswer) → ℕ → ℕ → ℕ → List Slashing → ℕ
settled_count slasher max_attempts limit n [] = n
settled_count slasher max_attempts limit n (s ∷ rows) =
    let taken = ltb 0 limit && claimable max_attempts s in
    settled_count slasher max_attempts (if taken then limit - 1 else limit)
      (if taken && settles slasher max_attempts s then n + 1 else n) rows

abbrev pub Fresh : ℕ → List Slashing → Type 0
Fresh id rows = All (λ r. r.id ≢ id) rows

-- The primary key: no id stands twice.
abbrev pub UniqueIds : List Slashing → Type 0
UniqueIds [] = Unit
UniqueIds (s ∷ rows) = Fresh s.id rows × UniqueIds rows

abbrev FreshIn : ℕ → List PendingSlash → Type 0
FreshIn id ps = All (λ p. p.id ≢ id) ps

claim-Fresh :
    (limit max id : ℕ) (rows : List Slashing)
    → Fresh id rows
    → FreshIn id (claim limit max rows).0 × Fresh id (claim limit max rows).1
unfolding claim
claim-Fresh limit max id [] h = (tt, tt)
claim-Fresh limit max id (s ∷ rows) h = elim (Bool-cases (ltb 0 limit && claimable max s)) [
  | inl e ↦ rw e (let (ps, rs) = claim-Fresh (limit - 1) max id rows h.1 in ((h.0, ps), (h.0, rs)))
  | inr e ↦ rw e (let (ps, rs) = claim-Fresh limit max id rows h.1 in (ps, (h.0, rs)))
]

map_id :
    (f : Slashing → Slashing) (rows : List Slashing) → All (λ r. f r ≡ r) rows → map f rows ≡ rows
map_id f [] h = refl
map_id f (s ∷ rows) h = cc (h.0, map_id f rows h.1)

All-of : {P : Slashing → Type 0} → ((s : Slashing) → P s) → (rows : List Slashing) → All P rows
All-of f [] = tt
All-of f (s ∷ rows) = (f s, All-of f rows)

module _ (slasher : PendingSlash → SlashAnswer) (opts : ExecutorOptions) where
  -- `submit` without its effects: what it does to a row, and whether it succeeds.
  submit_row : PendingSlash → Slashing → Slashing
  submit_row p s = elim (slasher p) [
    | sent tx ↦ mark_submitted_row p.id tx s
    | already_slashed ↦ mark_abandoned_row p.id (codes "already slashed on chain") s
    | failed reason ↦
        if leb opts.max_attempts (p.attempts + 1) then mark_abandoned_row p.id reason s else s
  ]

  submit_ok : PendingSlash → Bool
  submit_ok p = elim (slasher p) [
    | sent tx ↦ true
    | already_slashed ↦ true
    | failed reason ↦ leb opts.max_attempts (p.attempts + 1)
  ]

  submit_rows : List PendingSlash → List Slashing → List Slashing
  submit_rows [] rows = rows
  submit_rows (p ∷ ps) rows = submit_rows ps (map (submit_row p) rows)

  ok_count : ℕ → List PendingSlash → ℕ
  ok_count n [] = n
  ok_count n (p ∷ ps) = ok_count (if submit_ok p then n + 1 else n) ps

  refused_row : (p : PendingSlash) (s : Slashing) → submit_ok p ≡ false → submit_row p s ≡ s
  unfolding submit_ok submit_row
  refused_row p s h = ground arith

  submit-quiet :
      (p : PendingSlash) (rows : List Slashing)
      → submit slasher opts p (quiet rows)
        ≡ (if submit_ok p then ok tt else err slash_failed, quiet (map (submit_row p) rows))
  submit-quiet p rows = elim (Bool-cases (submit_ok p)) [
    | inl e ↦ rw e (unfold submit submit_ok submit_row in ground arith)
    | inr e ↦
        rw (e, map_id (submit_row p) rows (All-of (λ s. refused_row p s e) rows))
          (unfold submit submit_ok submit_row in ground arith)
  ]

  submit_all-quiet :
      (n : ℕ) (ps : List PendingSlash) (rows : List Slashing)
      → submit_all slasher opts n ps (quiet rows)
        ≡ (ok (ok_count n ps), quiet (submit_rows ps rows))
  unfolding submit_all submit_rows ok_count
  submit_all-quiet n [] rows = refl
  submit_all-quiet n (p ∷ ps) rows = elim (Bool-cases (submit_ok p)) [
    | inl e ↦ rw (submit-quiet p rows, e) (submit_all-quiet (n + 1) ps (map (submit_row p) rows))
    | inr e ↦ rw (submit-quiet p rows, e) (submit_all-quiet n ps (map (submit_row p) rows))
  ]

  other_row : (p : PendingSlash) (s : Slashing) → s.id ≢ p.id → submit_row p s ≡ s
  unfolding submit_row
  other_row p s h = ground arith

  submit_rows-other :
      (ps : List PendingSlash) (s : Slashing) (rows : List Slashing)
      → FreshIn s.id ps
      → submit_rows ps (s ∷ rows) ≡ s ∷ submit_rows ps rows
  unfolding submit_rows
  submit_rows-other [] s rows h = refl
  submit_rows-other (p ∷ ps) s rows h =
      rw (other_row p s (λ e. h.0 (sym e))) (submit_rows-other ps s (map (submit_row p) rows) h.1)

  settle_lem :
      (s : Slashing)
      → claimable opts.max_attempts s ≡ true
      → submit_row (pending_of s) (claimed s) ≡ settle slasher opts.max_attempts s
  unfolding submit_row claimable
  settle_lem s h = ground arith

  settles_lem : (s : Slashing) → submit_ok (pending_of s) ≡ settles slasher opts.max_attempts s
  unfolding submit_ok
  settles_lem s = ground arith

  settle-id : (s : Slashing) → (settle slasher opts.max_attempts s).id ≡ s.id
  settle-id s = ground arith

  -- The first decision of the batch meets its own row, and the later ones do not.
  head_settles :
      (s : Slashing) (ps : List PendingSlash) (rows : List Slashing)
      → claimable opts.max_attempts s ≡ true
      → FreshIn s.id ps
      → Fresh s.id rows
      → submit_rows (pending_of s ∷ ps) (claimed s ∷ rows)
        ≡ settle slasher opts.max_attempts s ∷ submit_rows ps rows
  unfolding submit_rows
  head_settles s ps rows c fresh others =
      ap (λ x. submit_rows ps (x ∷ map (submit_row (pending_of s)) rows)) (settle_lem s c)
      ∙ ap (λ t. submit_rows ps (settle slasher opts.max_attempts s ∷ t))
          (map_id (submit_row (pending_of s)) rows
            (All-map (λ r k. other_row (pending_of s) r k) rows others))
      ∙ submit_rows-other ps (settle slasher opts.max_attempts s) rows (rw (settle-id s) fresh)

  claim_settles :
      (limit : ℕ) (rows : List Slashing)
      → UniqueIds rows
      → submit_rows (claim limit opts.max_attempts rows).0 (claim limit opts.max_attempts rows).1
        ≡ settle_rows slasher opts.max_attempts limit rows
  unfolding claim
  claim_settles limit [] h = unfold submit_rows in refl
  claim_settles limit (s ∷ rows) h =
      elim (Bool-cases (ltb 0 limit && claimable opts.max_attempts s)) [
        | inl e ↦
            let (fresh, others) = claim-Fresh (limit - 1) opts.max_attempts s.id rows h.0 in
            rw e (
              head_settles s _ _ (ground arith) fresh others
              ∙ ap (λ t. settle slasher opts.max_attempts s ∷ t)
                  (claim_settles (limit - 1) rows h.1))
        | inr e ↦
            let (fresh, others) = claim-Fresh limit opts.max_attempts s.id rows h.0 in
            rw e (submit_rows-other _ s _ fresh ∙ ap (λ t. s ∷ t) (claim_settles limit rows h.1))
      ]

  claim_counts :
      (limit n : ℕ) (rows : List Slashing)
      → ok_count n (claim limit opts.max_attempts rows).0
        ≡ settled_count slasher opts.max_attempts limit n rows
  unfolding claim ok_count
  claim_counts limit n [] = refl
  claim_counts limit n (s ∷ rows) =
      elim (Bool-cases (ltb 0 limit && claimable opts.max_attempts s)) [
        | inl e ↦ rw (e, ← settles_lem s) (claim_counts (limit - 1) _ rows)
        | inr e ↦ rw e (claim_counts limit n rows)
      ]

-- When the pool answers, `Step` settles the first `BatchSize` claimable rows, each by the answer
-- the chain gives to its own decision, leaves every other row as it was, and reports how many
-- attempts ended in a mark. A failed attempt never keeps another decision of the batch from its own.
pub step-settles :
    (slasher : PendingSlash → SlashAnswer) (opts : ExecutorOptions) (rows : List Slashing)
    → UniqueIds rows
    → step slasher opts (quiet rows) ≡ (
      ok (settled_count slasher opts.max_attempts opts.batch_size 0 rows),
      quiet (settle_rows slasher opts.max_attempts opts.batch_size rows),
    )
unfolding step
step-settles slasher opts rows h =
    submit_all-quiet slasher opts 0 _ _
    ∙ ap₂ (λ n rs. (ok n, quiet rs)) (claim_counts slasher opts opts.batch_size 0 rows)
        (claim_settles slasher opts opts.batch_size rows h)
