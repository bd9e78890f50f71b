-- ===== src/Base/Effects.antt =====
-- Fallible code as a result, and code over a database whose pool can fail. Each call of the pool
-- takes the next entry of `faults`: `true` means that the call fails and changes nothing, so a
-- statement over all `faults` is one about errors at every call. After the last entry
-- no call fails.
use mathlib.Core.Bool.{Bool, true, false}
use mathlib.Core.List.{List, [], ◌∷◌}

-- A Go result `(value, err)`: one of the two.
pub data Result (E : Type 0) (A : Type 0) : Type 0 where
  ok : A → Result E A
  err : E → Result E A

-- The state that a component works on, and the outcome of the pool calls to come.
pub record World (S : Type 0) : Type 0 where
  pub state : S
  pub faults : List Bool

abbrev pub Action : Type 0 → Type 0 → Type 0 → Type 0
Action E S A = World S → Result E A × World S

module _ {E S A B : Type 0} where
  infixl 5 ◌>>=◌
  abbrev pub ◌>>=◌ : Action E S A → (A → Action E S B) → Action E S B
  ◌>>=◌ m f w = let (r, w') = m w in elim r [ ok a ↦ f a w' | err e ↦ (err e, w') ]

module _ {E S B : Type 0} where
  infixl 5 ◌>>◌
  abbrev pub ◌>>◌ : Action E S (Unit {0}) → Action E S B → Action E S B
  ◌>>◌ m k w = let (r, w') = m w in elim r [ ok a ↦ k w' | err e ↦ (err e, w') ]

module _ {E S A : Type 0} where
  abbrev pub pure : A → Action E S A
  pure a w = (ok a, w)

  abbrev pub throw : E → Action E S A
  throw e w = (err e, w)

  abbrev pub lift : Result E A → Action E S A
  lift r w = (r, w)

module _ {E S : Type 0} where
  abbrev pub gets : {A : Type 0} → (S → A) → Action E S A
  gets f w = (ok (f w.state), w)

  -- A change of the process's own memory, which cannot fail.
  abbrev pub modify : (S → S) → Action E S (Unit {0})
  modify f w = (ok tt, record w { state = f w.state })

  on_faults : E → List Bool → (S → S) → S → Result E (Unit {0}) × World S
  on_faults e [] f s = (ok tt, record { state = f s; faults = [] })
  on_faults e (true ∷ fs) f s = (err e, record { state = s; faults = fs })
  on_faults e (false ∷ fs) f s = (ok tt, record { state = f s; faults = fs })

  -- `pool.Exec`: one statement, all of it or nothing.
  unfoldable pub exec : E → (S → S) → Action E S (Unit {0})
  unfolding on_faults
  exec e f w = on_faults e w.faults f w.state

-- `pool.Query` and `pool.QueryRow`: what they read, or a failure.
module _ {E S A : Type 0} where
  on_query : E → List Bool → (S → A) → S → Result E A × World S
  on_query e [] f s = (ok (f s), record { state = s; faults = [] })
  on_query e (true ∷ fs) f s = (err e, record { state = s; faults = fs })
  on_query e (false ∷ fs) f s = (ok (f s), record { state = s; faults = fs })

  unfoldable pub query : E → (S → A) → Action E S A
  unfolding on_query
  query e f w = on_query e w.faults f w.state

-- `UPDATE … RETURNING`: one statement that changes the state and reads.
module _ {E S A : Type 0} where
  on_returning : E → List Bool → (S → A × S) → S → Result E A × World S
  on_returning e [] f s = let (a, s') = f s in (ok a, record { state = s'; faults = [] })
  on_returning e (true ∷ fs) f s = (err e, record { state = s; faults = fs })
  on_returning e (false ∷ fs) f s = let (a, s') = f s in (ok a, record { state = s'; faults = fs })

  unfoldable pub returning : E → (S → A × S) → Action E S A
  unfolding on_returning
  returning e f w = on_returning e w.faults f w.state

-- Whatever fails, a statement leaves the state or changes it as it says.
pub exec_cases :
    {E S : Type 0} (P : S → Type 0) (e : E) (f : S → S) (w : World S)
    → P w.state
    → P (f w.state)
    → P (exec e f w).1.state
unfolding exec
exec_cases P e f w before after = go w.faults
  where
    go : (fs : List Bool) → P (on_faults e fs f w.state).1.state
    go [] = after
    go (true ∷ fs) = before
    go (false ∷ fs) = after

-- A world in which no call of the pool fails.
abbrev pub quiet : {S : Type 0} → S → World S
quiet s = record { state = s; faults = [] }

-- Actions that keep a property of the state, whatever fails.
module _ {E S : Type 0} (P : S → Type 0) where
  abbrev pub Keeps : {A : Type 0} → Action E S A → Type 0
  Keeps m = (w : World S) → P w.state → P (m w).1.state

  -- What holds after the first action still does after the second.
  pub then_from :
      {B : Type 0} (m : Action E S (Unit {0})) (k : Action E S B) (w : World S)
      → Keeps k
      → P (m w).1.state
      → P ((m >> k) w).1.state
  then_from m k w q h = go (m w) h
    where
      go : (x : Result E (Unit {0}) × World S) → P x.1.state → P (((λ v. x) >> k) w).1.state
      go (ok a, w') h' = q w' h'
      go (err e, w') h' = h'

  pub Keeps-then :
      {B : Type 0} (m : Action E S (Unit {0})) (k : Action E S B)
      → Keeps m
      → Keeps k
      → Keeps (m >> k)
  Keeps-then m k p q w h = then_from m k w q (p w h)

  pub Keeps-pure :
      {A B : Type 0} (m : Action E S A) (f : A → B) → Keeps m → Keeps (m >>= λ a. pure (f a))
  Keeps-pure {A = A} {B = B} m f p w h = go (m w) (p w h)
    where
      go : (x : Result E A × World S) → P x.1.state → P (((λ v. x) >>= λ a. pure (f a)) w).1.state
      go (ok a, w') h' = h'
      go (err e, w') h' = h'

  pub Keeps-exec : (e : E) (f : S → S) → ((s : S) → P s → P (f s)) → Keeps (exec e f)
  Keeps-exec e f k w h = exec_cases P e f w h (k w.state h)

  -- A read: what is read is of the state, which stays as it is.
  pub read_from :
      {A B : Type 0} (e : E) (f : S → A) (k : A → Action E S B) (w : World S)
      → P w.state
      → ((fs : List Bool) → P (k (f w.state) (record w { faults = fs })).1.state)
      → P ((query e f >>= k) w).1.state
  unfolding query
  read_from e f k w h q = go w.faults
    where
      go : (fs : List Bool) → P ((query e f >>= k) (record w { faults = fs })).1.state
      go [] = q []
      go (true ∷ fs) = h
      go (false ∷ fs) = q fs

  pub Keeps-query :
      {A B : Type 0} (e : E) (f : S → A) (k : A → Action E S B)
      → ((a : A) → Keeps (k a))
      → Keeps (query e f >>= k)
  Keeps-query e f k q w h = read_from e f k w h (λ fs. q (f w.state) (record w { faults = fs }) h)
