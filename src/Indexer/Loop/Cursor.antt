-- ===== src/Indexer/Loop/Cursor.antt =====
-- Where a step of internal/indexer/indexer.go takes the cursor, in memory and in the database.
use aegis_protocol.Base.{
  ℕ, ◌+◌, ◌-◌, ◌≤◌, ◌<◌, ◌≡◌, ◌⊎◌, refl, inl, inr, List, Option, none, some, World, arith,
  Option-cases,
}
use aegis_protocol.Indexer.Loop.{
  Client, Options, IndexerState, Handler, save_cursor, process_batch, step,
}

-- What one step may do to the cursor.
pub record Advances (client : Client) (opts : Options) (before after : ℕ) : Type 0 where
  pub no_rewind : before ≤ after
  pub one_batch : after ≤ before + opts.batch_size
  pub confirmed :
      (after ≡ before)
      ⊎ ((head : ℕ) × (client.head ≡ some head) × (after + client.confirmation_depth ≤ head))

stays : (client : Client) (opts : Options) (c : ℕ) → Advances client opts c c
stays client opts c = record {
  no_rewind = omega arith;
  one_batch = omega arith;
  confirmed = inl refl;
}

module _ {S : Type 0} (client : Client) (opts : Options) (handlers : List (Handler S)) where
  process_batch-Advances :
      (head : ℕ) (w : World (IndexerState S))
      → client.head ≡ some head
      → w.state.cursor + client.confirmation_depth < head
      → Advances client opts w.state.cursor
          (process_batch client opts handlers w.state.cursor
            (head - client.confirmation_depth)
            w).1.state.cursor
  unfolding process_batch save_cursor
  process_batch-Advances head w e h = ground arith

  -- Whatever fails, a step never takes the cursor back, takes it forward by one batch at most, and
  -- never past the head less the confirmation depth.
  pub step-Advances :
      (w : World (IndexerState S))
      → Advances client opts w.state.cursor (step client opts handlers w).1.state.cursor
  unfolding step
  step-Advances w = elim (Option-cases client.head) [
    | inl e ↦ ground arith
    | inr (head, e) ↦ ground (arith, process_batch-Advances head w e)
  ]

-- The persisted cursor is there, and not behind the one in memory.
abbrev pub IsDurable : Option ℕ → ℕ → Type 0
IsDurable none cursor = ⊥
IsDurable (some last) cursor = cursor ≤ last

module _ {S : Type 0} (client : Client) (opts : Options) (handlers : List (Handler S)) where
  process_batch-IsDurable :
      (safe_head : ℕ) (w : World (IndexerState S))
      → IsDurable w.state.saved w.state.cursor
      → let s = (process_batch client opts handlers w.state.cursor safe_head w).1.state in
        IsDurable s.saved s.cursor
  unfolding process_batch save_cursor
  process_batch-IsDurable safe_head w h = ground arith

  -- Whatever fails, a step keeps the persisted cursor at or ahead of the one in memory: a restart
  -- skips no block that a step had not finished.
  pub step-IsDurable :
      (w : World (IndexerState S))
      → IsDurable w.state.saved w.state.cursor
      → let s = (step client opts handlers w).1.state in IsDurable s.saved s.cursor
  unfolding step
  step-IsDurable w h = elim (Option-cases client.head) [
    | inl e ↦ ground arith
    | inr (head, e) ↦ ground (arith, process_batch-IsDurable (head - client.confirmation_depth) w h)
  ]
