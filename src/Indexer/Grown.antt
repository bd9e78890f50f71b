-- ===== src/Indexer/Grown.antt =====
-- What later rows of a table say of earlier ones: the same rows in the same places, each changed as
-- `R` permits, and perhaps more rows behind.
use aegis_protocol.Base.{inl, inr, Bool, List, [], ◌∷◌, ◌++◌, map, any_of, Bool-cases}
use aegis_protocol.Indexer.Table.{insert_new}

module _ {A : Type 0} (R : A → A → Type 0) where
  abbrev pub Grown : List A → List A → Type 0
  Grown [] later = Unit
  Grown (a ∷ before) [] = ⊥
  Grown (a ∷ before) (b ∷ later) = R a b × Grown before later

  pub Grown-refl : ((a : A) → R a a) → (rows : List A) → Grown rows rows
  Grown-refl r [] = tt
  Grown-refl r (a ∷ rows) = (r a, Grown-refl r rows)

  pub Grown-map :
      (f : A → A) (before rows : List A)
      → ((a b : A) → R a b → R a (f b))
      → Grown before rows
      → Grown before (map f rows)
  Grown-map f [] rows st h = tt
  Grown-map f (a ∷ before) [] st h = h
  Grown-map f (a ∷ before) (b ∷ rows) st h = (st a b h.0, Grown-map f before rows st h.1)

  pub Grown-more : (before rows more : List A) → Grown before rows → Grown before (rows ++ more)
  Grown-more [] rows more h = tt
  Grown-more (a ∷ before) [] more h = absurd h
  Grown-more (a ∷ before) (b ∷ rows) more h = (h.0, Grown-more before rows more h.1)

  pub Grown-insert_new :
      (same : A → A → Bool) (a : A) (before rows : List A)
      → Grown before rows
      → Grown before (insert_new same a rows)
  unfolding insert_new
  Grown-insert_new same a before rows h = elim (Bool-cases (any_of (same a) rows)) [
    | inl e ↦ rw e h
    | inr e ↦ rw e (Grown-more before rows (a ∷ []) h)
  ]
