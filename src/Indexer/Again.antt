-- ===== src/Indexer/Again.antt =====
-- What it means that a handler (internal/indexer) may see an event twice: an action that succeeds
-- leaves a state on which it succeeds again and changes nothing.
use aegis_protocol.Base.{
  ◌≡◌, refl, Bool, true, false, if◌then◌else◌, ok, err, Result, Action, ◌>>=◌, lift, pure, quiet,
  arith,
}
use aegis_protocol.Indexer.Event.{IndexError}

module _ {S : Type 0} where
  abbrev pub Settles : Action IndexError S (Unit {0}) → S → Type 0
  Settles m s =
      (m (quiet s)).0 ≡ ok tt → let s' = (m (quiet s)).1.state in m (quiet s') ≡ (ok tt, quiet s')

  -- A choice that the event makes, not the state.
  pub Settles-choice :
      (b : Bool) (m k : Action IndexError S (Unit {0})) (s : S)
      → Settles m s
      → Settles k s
      → Settles (if b then m else k) s
  Settles-choice true m k s p q = p
  Settles-choice false m k s p q = q

  pub Settles-skip :
      (b : Bool) (m k : Action IndexError S (Unit {0})) (s : S)
      → b ≡ false
      → Settles k s
      → Settles (if b then m else k) s
  Settles-skip b m k s e q = rw e q

  pub Settles-lift :
      {A : Type 0} (r : Result IndexError A) (f : A → Action IndexError S (Unit {0})) (s : S)
      → ((a : A) → Settles (f a) s)
      → Settles (lift r >>= f) s
  Settles-lift (ok a) f s k h = k a h
  Settles-lift (err e) f s k h = absurd (ground arith)

  pub Settles-pure : (s : S) → Settles (pure tt) s
  Settles-pure s e = refl
