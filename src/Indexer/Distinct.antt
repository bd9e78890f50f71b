-- ===== src/Indexer/Distinct.antt =====
-- Tables no two of whose rows have one key.
use aegis_protocol.Base.{
  ◌≡◌, refl, inl, inr, Bool, false, List, [], ◌∷◌, ◌++◌, any_of, arith, Bool-cases,
}
use aegis_protocol.Indexer.Table.{insert_new}

module _ {A : Type 0} (same : A → A → Bool) where
  -- No row has the key of one before it.
  abbrev pub Distinct : List A → Type 0
  Distinct [] = Unit
  Distinct (b ∷ rows) = (any_of (λ c. same c b) rows ≡ false) × Distinct rows

  any_of-append_false :
      (p : A → Bool) (rows : List A) (a : A)
      → any_of p rows ≡ false
      → p a ≡ false
      → any_of p (rows ++ a ∷ []) ≡ false
  any_of-append_false p [] a h k = ground arith
  any_of-append_false p (b ∷ rows) a h k = ground (arith, any_of-append_false p rows a)

  pub Distinct-append :
      (rows : List A) (a : A)
      → Distinct rows
      → any_of (same a) rows ≡ false
      → Distinct (rows ++ a ∷ [])
  Distinct-append [] a d h = (refl, tt)
  Distinct-append (b ∷ rows) a (n, d) h = elim (Bool-cases (same a b)) [
    | inl e ↦ absurd (ground arith)
    | inr e ↦
        (any_of-append_false (λ c. same c b) rows a n e, Distinct-append rows a d (ground arith))
  ]

  pub Distinct-insert_new :
      (a : A) (rows : List A) → Distinct rows → Distinct (insert_new same a rows)
  unfolding insert_new
  Distinct-insert_new a rows d = elim (Bool-cases (any_of (same a) rows)) [
    | inl e ↦ rw e d
    | inr e ↦ rw e (Distinct-append rows a d e)
  ]
