-- ===== src/Oracle/Judge/Prefix.antt =====
-- Which rounds internal/oracle/aggregator.go has judged, as a part of all of them.
use aegis_protocol.Base.{
  ℕ, ◌+◌, ◌≤◌, ◌≡◌, refl, subst, inl, inr, Bool, true, false, not, ◌&&◌, ◌||◌, List, [], ◌∷◌, map,
  Option, none, some, ltb, leb, ◌==◌, if◌then◌else◌, arith, Bool-cases,
}
use aegis_protocol.Oracle.Judge.{RoundRow, is_unjudged, next_round, mark_row, lower_of}

abbrev both_or_neither : Bool → Bool → Bool
both_or_neither true b = b
both_or_neither false b = not b

-- Of a chain's rounds exactly those below `bound` are judged.
abbrev pub judged_below : ℕ → ℕ → List RoundRow → Bool
judged_below c bound [] = true
judged_below c bound (r ∷ rows) =
    (not (r.round.chain_id == c) || both_or_neither r.judged (ltb r.round.round_id bound))
    && judged_below c bound rows

-- The rounds of the chain that are not judged start at `i` or later.
abbrev pub all_from : ℕ → ℕ → List RoundRow → Bool
all_from c i [] = true
all_from c i (r ∷ rows) = (not (is_unjudged c r) || leb i r.round.round_id) && all_from c i rows

module _ (c : ℕ) where
  from_lower :
      (i j : ℕ) (rows : List RoundRow) → i ≤ j → all_from c j rows ≡ true → all_from c i rows ≡ true
  from_lower i j [] l h = refl
  from_lower i j (r ∷ rows) l h = ground (arith, from_lower i j rows l)

  none_from : (i : ℕ) (rows : List RoundRow) → next_round c rows ≡ none → all_from c i rows ≡ true
  unfolding next_round
  none_from i [] h = refl
  none_from i (r ∷ rows) h = go (next_round c rows) refl h (none_from i rows)
    where
      go :
          (o : Option RoundRow)
          → next_round c rows ≡ o
          → (if is_unjudged c r then lower_of r o else o) ≡ none
          → (next_round c rows ≡ none → all_from c i rows ≡ true)
          → all_from c i (r ∷ rows) ≡ true
      go none e k ih = ground (arith, ih e)
      go (some p) e k ih = absurd (ground arith)

  -- What is known of the lowest round that is not judged.
  abbrev pub IsNext : ℕ → List RoundRow → RoundRow → Type 0
  IsNext bound rows r = (bound ≤ r.round.round_id) × (all_from c r.round.round_id rows ≡ true)

  here :
      (bound : ℕ) (q : RoundRow) (rows : List RoundRow)
      → judged_below c bound (q ∷ rows) ≡ true
      → is_unjudged c q ≡ true
      → all_from c q.round.round_id rows ≡ true
      → IsNext bound (q ∷ rows) q
  here bound q rows b y f = (ground arith, ground arith)

  further :
      (bound : ℕ) (q p : RoundRow) (rows : List RoundRow)
      → (not (is_unjudged c q) || leb p.round.round_id q.round.round_id) ≡ true
      → IsNext bound rows p
      → IsNext bound (q ∷ rows) p
  further bound q p rows y (l, f) = (l, ground arith)

  pub IsNext-from :
      (bound : ℕ) (rows : List RoundRow) (r : RoundRow)
      → judged_below c bound rows ≡ true
      → next_round c rows ≡ some r
      → IsNext bound rows r
  unfolding next_round
  IsNext-from bound [] r b h = absurd (ground arith)
  IsNext-from bound (q ∷ rows) r b h =
      go (next_round c rows) refl h (λ p. IsNext-from bound rows p (ground arith))
    where
      go :
          (o : Option RoundRow)
          → next_round c rows ≡ o
          → (if is_unjudged c q then lower_of q o else o) ≡ some r
          → ((p : RoundRow) → next_round c rows ≡ some p → IsNext bound rows p)
          → IsNext bound (q ∷ rows) r
      go none e k ih = elim (Bool-cases (is_unjudged c q)) [
        | inl y ↦
            let same : q ≡ r = ground arith in
            subst (IsNext bound (q ∷ rows)) same
              (here bound q rows b y (none_from q.round.round_id rows e))
        | inr n ↦ absurd (ground arith)
      ]
      go (some p) e k ih =
          let (l, f) = ih p e in
          elim (Bool-cases (is_unjudged c q && not (ltb p.round.round_id q.round.round_id))) [
            | inl y ↦
                let same : q ≡ r = ground arith in
                subst (IsNext bound (q ∷ rows)) same (
                  here bound q rows b (ground arith)
                    (from_lower q.round.round_id p.round.round_id rows (ground arith) f))
            | inr n ↦
                let same : p ≡ r = ground arith in
                subst (IsNext bound (q ∷ rows)) same (further bound q p rows (ground arith) (l, f))
          ]

  pub mark_below :
      (now bound i : ℕ) (rows : List RoundRow)
      → bound ≤ i
      → judged_below c bound rows ≡ true
      → all_from c i rows ≡ true
      → judged_below c (i + 1) (map (mark_row c now i) rows) ≡ true
  mark_below now bound i [] l b h = refl
  mark_below now bound i (r ∷ rows) l b h = ground (arith, mark_below now bound i rows l)
