-- ===== src/Indexer/Governance/Tally.antt =====
-- The tallies on a proposal's row and the stored votes (internal/db/governance.go).
use aegis_protocol.Base.{
  ℕ, ◌+◌, ◌≡◌, refl, sym, ◌∙◌, inl, inr, Bool, true, false, ◌&&◌, List, [], ◌∷◌, ◌++◌, map, any_of,
  ◌==◌, All, All-map, arith, Bool-cases,
}
use aegis_protocol.Indexer.Table.{insert_new}
use aegis_protocol.Indexer.GovernanceTables.{
  Proposal, Vote, same_proposal, same_vote, tally, retally, is_proposal,
}

-- The three columns of a row are the sums of the weights cast for, against and in abstention.
abbrev pub IsTallied : List Vote → Proposal → Type 0
IsTallied votes p =
    (p.votes_for ≡ tally p.chain_id p.proposal_id 1 votes)
    × (p.votes_against ≡ tally p.chain_id p.proposal_id 0 votes)
    × (p.votes_abstain ≡ tally p.chain_id p.proposal_id 2 votes)

-- Every vote names a proposal that has a row.
abbrev pub IsKnown : List Proposal → Vote → Type 0
IsKnown rows v = any_of (is_proposal v.chain_id v.proposal_id) rows ≡ true

pub data IsConsistent (proposals : List Proposal) (votes : List Vote) : Type 0 where
  consistent :
      All (IsTallied votes) proposals → All (IsKnown proposals) votes → IsConsistent proposals votes

tallied :
    (rows : List Proposal) (votes : List Vote)
    → IsConsistent rows votes
    → All (IsTallied votes) rows
tallied rows votes (consistent t k) = t

known :
    (rows : List Proposal) (votes : List Vote) → IsConsistent rows votes → All (IsKnown rows) votes
known rows votes (consistent t k) = k

tally-last :
    (c i k : ℕ) (votes : List Vote) (v : Vote)
    → tally c i k (votes ++ v ∷ []) ≡ tally c i k votes + tally c i k (v ∷ [])
unfolding tally
tally-last c i k [] v = omega arith
tally-last c i k (u ∷ votes) v = omega (arith, tally-last c i k votes v)

-- A vote on another proposal does not count.
tally-other :
    (c i k : ℕ) (votes : List Vote) (v : Vote)
    → (v.chain_id == c && v.proposal_id == i) ≡ false
    → tally c i k (insert_new same_vote v votes) ≡ tally c i k votes
unfolding insert_new tally
tally-other c i k votes v h = elim (Bool-cases (any_of (same_vote v) votes)) [
  | inl e ↦ rw e refl
  | inr e ↦ rw e (tally-last c i k votes v ∙ one)
]
  where
    one : tally c i k votes + tally c i k (v ∷ []) ≡ tally c i k votes
    one = ground arith

-- A proposal without a row has no votes.
tally-unknown :
    (c i k : ℕ) (rows : List Proposal) (votes : List Vote)
    → All (IsKnown rows) votes
    → any_of (is_proposal c i) rows ≡ false
    → tally c i k votes ≡ 0
unfolding tally
tally-unknown c i k rows [] all h = refl
tally-unknown c i k rows (v ∷ votes) all h =
    grind (arith, tally-unknown c i k rows votes all.1 h, all.0)

retally-IsTallied :
    (v : Vote) (votes : List Vote) (p : Proposal)
    → IsTallied votes p
    → let votes' = insert_new same_vote v votes in
      IsTallied votes' (retally v.chain_id v.proposal_id votes' p)
unfolding retally
retally-IsTallied v votes p h = ground (
  arith,
  tally-other p.chain_id p.proposal_id 0 votes v,
  tally-other p.chain_id p.proposal_id 1 votes v,
  tally-other p.chain_id p.proposal_id 2 votes v,
)

-- A change of a row that touches neither its key nor its tallies.
abbrev pub SparesTally : (Proposal → Proposal) → Type 0
SparesTally f =
    (p : Proposal)
    → ((f p).chain_id ≡ p.chain_id)
      × ((f p).proposal_id ≡ p.proposal_id)
      × ((f p).votes_for ≡ p.votes_for)
      × ((f p).votes_against ≡ p.votes_against)
      × ((f p).votes_abstain ≡ p.votes_abstain)

-- A change that keeps the key.
abbrev SparesKey : (Proposal → Proposal) → Type 0
SparesKey f = (p : Proposal) → ((f p).chain_id ≡ p.chain_id) × ((f p).proposal_id ≡ p.proposal_id)

any_of-map :
    (f : Proposal → Proposal) (c i : ℕ) (rows : List Proposal)
    → SparesKey f
    → any_of (is_proposal c i) (map f rows) ≡ any_of (is_proposal c i) rows
any_of-map f c i [] k = refl
any_of-map f c i (p ∷ rows) k = simp ((k p).0, (k p).1, any_of-map f c i rows k)

IsKnown-map :
    (f : Proposal → Proposal) (rows : List Proposal) (votes : List Vote)
    → SparesKey f
    → All (IsKnown rows) votes
    → All (IsKnown (map f rows)) votes
IsKnown-map f rows votes k = All-map (λ v h. any_of-map f v.chain_id v.proposal_id rows k ∙ h) votes

IsTallied-map :
    (f : Proposal → Proposal) (rows : List Proposal) (votes votes' : List Vote)
    → ((p : Proposal) → IsTallied votes p → IsTallied votes' (f p))
    → All (IsTallied votes) rows
    → All (IsTallied votes') (map f rows)
IsTallied-map f [] votes votes' k h = tt
IsTallied-map f (p ∷ rows) votes votes' k h = (k p h.0, IsTallied-map f rows votes votes' k h.1)

SparesTally-IsTallied :
    (f : Proposal → Proposal) (votes : List Vote) (p : Proposal)
    → SparesTally f
    → IsTallied votes p
    → IsTallied votes (f p)
SparesTally-IsTallied f votes p k h = rw ((k p).0, (k p).1, (k p).2, (k p).3, (k p).4) h

All-append : {A : Type 0} (P : A → Type 0) (xs ys : List A) → All P xs → All P ys → All P (xs ++ ys)
All-append P [] ys h k = k
All-append P (x ∷ xs) ys h k = (h.0, All-append P xs ys h.1 k)

any_of-append :
    {A : Type 0} (p : A → Bool) (xs ys : List A) → any_of p xs ≡ true → any_of p (xs ++ ys) ≡ true
any_of-append p [] ys h = ground arith
any_of-append p (x ∷ xs) ys h = ground (arith, any_of-append p xs ys)

pub map-IsConsistent :
    (f : Proposal → Proposal) (rows : List Proposal) (votes : List Vote)
    → SparesTally f
    → IsConsistent rows votes
    → IsConsistent (map f rows) votes
map-IsConsistent f rows votes k h =
    consistent
      (IsTallied-map f rows votes votes (λ p. SparesTally-IsTallied f votes p k)
        (tallied rows votes h))
      (IsKnown-map f rows votes (λ p. ((k p).0, (k p).1)) (known rows votes h))

same_proposal_flip :
    (p : Proposal) (rows : List Proposal)
    → any_of (is_proposal p.chain_id p.proposal_id) rows ≡ any_of (same_proposal p) rows
same_proposal_flip p [] = refl
same_proposal_flip p (q ∷ rows) = grind (arith, same_proposal_flip p rows)

pub insert-IsConsistent :
    (p : Proposal) (rows : List Proposal) (votes : List Vote)
    → p.votes_for ≡ 0
    → p.votes_against ≡ 0
    → p.votes_abstain ≡ 0
    → IsConsistent rows votes
    → IsConsistent (insert_new same_proposal p rows) votes
unfolding insert_new
insert-IsConsistent p rows votes f a b h = elim (Bool-cases (any_of (same_proposal p) rows)) [
  | inl e ↦ rw e h
  | inr e ↦ rw e (
      consistent
        (All-append (IsTallied votes) rows (p ∷ []) (tallied rows votes h)
          ((f ∙ sym (none_cast 1 e), a ∙ sym (none_cast 0 e), b ∙ sym (none_cast 2 e)), tt))
        (All-map (λ v k. any_of-append _ rows (p ∷ []) k) votes (known rows votes h)))
]
  where
    none_cast :
        (k : ℕ) → any_of (same_proposal p) rows ≡ false → tally p.chain_id p.proposal_id k votes ≡ 0
    none_cast k e =
        tally-unknown p.chain_id p.proposal_id k rows votes (known rows votes h)
          (same_proposal_flip p rows ∙ e)

retally-SparesKey : (c i : ℕ) (votes : List Vote) → SparesKey (retally c i votes)
unfolding retally
retally-SparesKey c i votes p = ground arith

IsKnown-insert :
    (v : Vote) (rows : List Proposal) (votes : List Vote)
    → IsKnown rows v
    → All (IsKnown rows) votes
    → All (IsKnown rows) (insert_new same_vote v votes)
unfolding insert_new
IsKnown-insert v rows votes kv h = elim (Bool-cases (any_of (same_vote v) votes)) [
  | inl e ↦ rw e h
  | inr e ↦ rw e (All-append (IsKnown rows) votes (v ∷ []) h (kv, tt))
]

pub vote-IsConsistent :
    (v : Vote) (rows : List Proposal) (votes : List Vote)
    → IsKnown rows v
    → IsConsistent rows votes
    → let votes' = insert_new same_vote v votes in
      IsConsistent (map (retally v.chain_id v.proposal_id votes') rows) votes'
vote-IsConsistent v rows votes kv h =
    consistent (IsTallied-map _ rows votes _ (retally-IsTallied v votes) (tallied rows votes h)) (
      IsKnown-map _ rows _ (retally-SparesKey v.chain_id v.proposal_id _)
        (IsKnown-insert v rows votes kv (known rows votes h)))
