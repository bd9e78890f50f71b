-- ===== src/Indexer/Table.antt =====
-- Tables as lists of rows: `INSERT … ON CONFLICT (key) DO NOTHING` and `… DO UPDATE`, where `same`
-- compares the keys of two rows.
use aegis_protocol.Base.{
  ◌≡◌, inl, inr, Bool, true, List, [], ◌∷◌, ◌++◌, any_of, if◌then◌else◌, arith, Bool-cases,
}

module _ {A : Type 0} (same : A → A → Bool) where
  unfoldable pub insert_new : A → List A → List A
  insert_new a rows = if any_of (same a) rows then rows else rows ++ a ∷ []

  unfoldable pub upsert : A → List A → List A
  upsert a [] = a ∷ []
  upsert a (b ∷ rows) = if same a b then a ∷ rows else b ∷ upsert a rows

  any_of-last : (a : A) (rows : List A) → same a a ≡ true → any_of (same a) (rows ++ a ∷ []) ≡ true
  any_of-last a [] h = ground arith
  any_of-last a (b ∷ rows) h = ground (arith, any_of-last a rows h)

  -- Inserting a row again changes nothing.
  pub insert_new_idem :
      (a : A) (rows : List A)
      → same a a ≡ true
      → insert_new a (insert_new a rows) ≡ insert_new a rows
  unfolding insert_new
  insert_new_idem a rows h = elim (Bool-cases (any_of (same a) rows)) [
    | inl e ↦ rw (e, e)
    | inr e ↦ rw (e, any_of-last a rows h)
  ]

  -- A row that was inserted is there.
  pub any_of-insert_new :
      (a : A) (rows : List A) → same a a ≡ true → any_of (same a) (insert_new a rows) ≡ true
  unfolding insert_new
  any_of-insert_new a rows h = elim (Bool-cases (any_of (same a) rows)) [
    | inl e ↦ rw (e, e)
    | inr e ↦ rw (e, any_of-last a rows h)
  ]

  pub upsert_idem :
      (a : A) (rows : List A) → same a a ≡ true → upsert a (upsert a rows) ≡ upsert a rows
  unfolding upsert
  upsert_idem a [] h = ground arith
  upsert_idem a (b ∷ rows) h = ground (arith, upsert_idem a rows h)

  -- A key that is there stays, and one that is written is there.
  pub any_of-upsert :
      (p : A → Bool) (a : A) (rows : List A)
      → ((b : A) → same a b ≡ true → p b ≡ true → p a ≡ true)
      → any_of p rows ≡ true
      → any_of p (upsert a rows) ≡ true
  unfolding upsert
  any_of-upsert p a [] k h = cc
  any_of-upsert p a (b ∷ rows) k h = ground (arith, k b, any_of-upsert p a rows k)

  pub any_of-upsert_self :
      (p : A → Bool) (a : A) (rows : List A) → p a ≡ true → any_of p (upsert a rows) ≡ true
  unfolding upsert
  any_of-upsert_self p a [] h = ground arith
  any_of-upsert_self p a (b ∷ rows) h = ground (arith, any_of-upsert_self p a rows h)
