-- ===== src/Indexer/Loop/Coverage.antt =====
-- What the loop of internal/indexer/indexer.go gives the handlers while no call fails.
use aegis_protocol.Base.{
  ℕ, zero, suc, ◌+◌, ◌-◌, ◌≤◌, ◌≡◌, ap, sym, ◌∙◌, false, List, [], ◌∷◌, ◌++◌, some, ltb,
  if◌then◌else◌, ok, modify, quiet, All, arith,
}
use mathlib.Core.Path.{ap₂}
use mathlib.Core.List.{append_assoc, append-nil}
use aegis_protocol.Indexer.Event.{Event}
use aegis_protocol.Indexer.Loop.{
  Client, Options, IndexerState, Handler, dispatch_all, save_cursor, process_batch, step,
  is_empty_text,
}

-- A handler that notes each event.
abbrev pub recorder : Handler (List Event)
recorder ev = modify (λ l. l ++ ev ∷ [])

-- The events of the `n` blocks from block `a` on.
abbrev pub collect : (ℕ → List Event) → ℕ → ℕ → List Event
collect blocks a zero = []
collect blocks a (suc n) = blocks a ++ collect blocks (suc a) n

-- A client whose head is given and that answers a range by the events of its blocks.
abbrev pub client_of : (ℕ → List Event) → ℕ → ℕ → Client
client_of blocks depth head = record {
  head = some head;
  confirmation_depth = depth;
  logs_in_range = λ from to. some (collect blocks from (suc to - from));
}

abbrev pub Identified : List Event → Type 0
Identified events = All (λ ev. is_empty_text ev.tx_hash ≡ false) events

All-append {κ} : (P : Event → Type κ) (xs ys : List Event) → All P xs → All P ys → All P (xs ++ ys)
All-append P [] ys h k = k
All-append P (x ∷ xs) ys h k = (h.0, All-append P xs ys h.1 k)

collect-Identified :
    (blocks : ℕ → List Event)
    → ((n : ℕ) → Identified (blocks n))
    → (a n : ℕ) → Identified (collect blocks a n)
collect-Identified blocks h a zero = tt
collect-Identified blocks h a (suc n) =
    All-append _ (blocks a) _ (h a) (collect-Identified blocks h (suc a) n)

collect-add :
    (blocks : ℕ → List Event) (a m n : ℕ)
    → collect blocks a m ++ collect blocks (a + m) n ≡ collect blocks a (m + n)
collect-add blocks a zero n =
    let start : a + 0 ≡ a = omega arith in let count : 0 + n ≡ n = omega arith in rw (start, count)
collect-add blocks a (suc m) n =
    let start : a + suc m ≡ suc a + m = omega arith in
    let count : suc m + n ≡ suc (m + n) = omega arith in
    rw (start, count)
      (append_assoc (blocks a) _ _ ∙ ap (λ t. blocks a ++ t) (collect-add blocks (suc a) m n))

dispatch_all-recorder :
    (events seen : List Event)
    → Identified events
    → dispatch_all (recorder ∷ []) events (quiet seen) ≡ (ok tt, quiet (seen ++ events))
unfolding dispatch_all
dispatch_all-recorder [] seen h = rw append-nil
dispatch_all-recorder (ev ∷ events) seen h = rw h.0 (
    dispatch_all-recorder events (seen ++ ev ∷ []) h.1
    ∙ ap (λ l. (ok tt, quiet l)) (append_assoc seen (ev ∷ []) events))

-- What holds between two steps.
abbrev pub HasSeen : (ℕ → List Event) → ℕ → IndexerState (List Event) → Type 0
HasSeen blocks start s =
    (start ≤ s.cursor) × (s.inner ≡ collect blocks (suc start) (s.cursor - start))

module _ (blocks : ℕ → List Event) (opts : Options) (depth start : ℕ)
    (known : (n : ℕ) → Identified (blocks n)) where
  abbrev batch_end : ℕ → ℕ → ℕ
  batch_end cursor safe_head =
      if ltb safe_head (cursor + opts.batch_size) then safe_head else cursor + opts.batch_size

  batch_result :
      (head safe_head : ℕ) (s : IndexerState (List Event))
      → let to = batch_end s.cursor safe_head in
        let s' =
          (process_batch
            (client_of blocks depth head)
            opts
            (recorder ∷ [])
            s.cursor
            safe_head
            (quiet s)).1.state in
        (s'.cursor ≡ to)
        × (s'.inner ≡ s.inner ++ collect blocks (s.cursor + 1) (suc to - (s.cursor + 1)))
  unfolding process_batch save_cursor
  batch_result head safe_head s = ground (
    arith,
    dispatch_all-recorder
        (collect blocks (s.cursor + 1) (suc (batch_end s.cursor safe_head) - (s.cursor + 1)))
        s.inner
        (collect-Identified blocks known (s.cursor + 1)
          (suc (batch_end s.cursor safe_head) - (s.cursor + 1))),
  )

  batch-HasSeen :
      (head safe_head : ℕ) (s : IndexerState (List Event))
      → s.cursor ≤ safe_head
      → HasSeen blocks start s
      → HasSeen blocks start
          (process_batch
            (client_of blocks depth head)
            opts
            (recorder ∷ [])
            s.cursor
            safe_head
            (quiet s)).1.state
  batch-HasSeen head safe_head s r h =
      let (moved, seen) = batch_result head safe_head s in
      let to = batch_end s.cursor safe_head in
      let ahead : s.cursor ≤ to = ground arith in
      let first : s.cursor + 1 ≡ suc start + (s.cursor - start) = omega arith in
      let count : suc to - (s.cursor + 1) ≡ to - s.cursor = omega arith in
      let total : s.cursor - start + (to - s.cursor) ≡ to - start = omega arith in
      (
        omega arith,
        seen
            ∙ ap₂ (λ l n. l ++ collect blocks (s.cursor + 1) n) (h.1) count
            ∙ ap
                (λ a.
                  collect blocks (suc start) (s.cursor - start) ++ collect blocks a (to - s.cursor))
                first
            ∙ collect-add blocks (suc start) (s.cursor - start) (to - s.cursor)
            ∙ ap (λ n. collect blocks (suc start) n) (total ∙ ap (λ c. c - start) (sym moved)),
      )

  step-HasSeen :
      (head : ℕ) (s : IndexerState (List Event))
      → HasSeen blocks start s
      → HasSeen blocks start
          (step (client_of blocks depth head) opts (recorder ∷ []) (quiet s)).1.state
  unfolding step
  step-HasSeen head s h = ground (arith, batch-HasSeen head (head - depth) s)

  -- A step for each head that the chain reports.
  pub run_steps : List ℕ → IndexerState (List Event) → IndexerState (List Event)
  run_steps [] s = s
  run_steps (head ∷ heads) s =
      run_steps heads (step (client_of blocks depth head) opts (recorder ∷ []) (quiet s)).1.state

  -- While no call fails, after any number of steps, at whatever heads, the handlers have been given
  -- the events of exactly the blocks after the start up to the cursor, in order and each once.
  pub run_steps-HasSeen :
      (heads : List ℕ) (s : IndexerState (List Event))
      → HasSeen blocks start s
      → HasSeen blocks start (run_steps heads s)
  unfolding run_steps
  run_steps-HasSeen [] s h = h
  run_steps-HasSeen (head ∷ heads) s h = run_steps-HasSeen heads _ (step-HasSeen head s h)
