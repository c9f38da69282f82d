-- ===== src/ClickHouse/Insert.antt =====
-- pkg/clickhouse/insert.go: one batch, appended row by row and sent once. The driver is not part of
-- the repository: a connection is a parameter, by the state of the server that it leaves.
use event_tracking.Prelude.{
  ◌≡◌, sym, ap, ◌∙◌, List, [], ◌∷◌, ◌++◌, Option, none, some, Bool, true, false, arith, inl, inr,
  Option-cases,
}
use mathlib.Core.List.{append-nil, append_assoc}
use event_tracking.ClickHouse.{Row}

-- github.com/ClickHouse/clickhouse-go: PrepareBatch, Batch.Append, Batch.Send. `none` and `false`
-- are their errors.
pub record Driver : Type 1 where
  pub Server : Type 0
  pub Batch : Type 0
  pub prepare_batch : Server → Option Batch
  pub append : Batch → Row → Option Batch
  pub send : Batch → Server → Bool × Server

module _ (d : Driver) where
  -- the loop over the rows
  unfoldable pub append_all : d.Batch → List Row → Option d.Batch
  append_all b [] = some b
  append_all b (r ∷ rows) = elim (d.append b r) [ none ↦ none | some b' ↦ append_all b' rows ]

  unfoldable pub insert_events : List Row → d.Server → Bool × d.Server
  insert_events [] s = (true, s)
  insert_events (r ∷ rows) s = elim (d.prepare_batch s) [
    | none ↦ (false, s)
    | some b ↦ elim (append_all b (r ∷ rows)) [ none ↦ (false, s) | some b' ↦ d.send b' s ]
  ]

  -- What the driver documents: a prepared batch is empty, `Append` adds a row at its end, and a
  -- `Send` that succeeds has stored the rows of the batch (with wait_for_async_insert=1, flushed).
  pub record IsDriver : Type 0 where
    pub rows_of : d.Batch → List Row
    pub stored : d.Server → List Row
    pub prepared_empty : (s : d.Server) (b : d.Batch) → d.prepare_batch s ≡ some b → rows_of b ≡ []
    pub appended :
        (b b' : d.Batch) (r : Row) → d.append b r ≡ some b' → rows_of b' ≡ rows_of b ++ r ∷ []
    pub sent :
        (b : d.Batch) (s : d.Server)
        → (d.send b s).0 ≡ true
        → stored (d.send b s).1 ≡ stored s ++ rows_of b

  module _ (l : IsDriver) where
    append_all-rows_of :
        (b b' : d.Batch) (rows : List Row)
        → append_all b rows ≡ some b'
        → l.rows_of b' ≡ l.rows_of b ++ rows
    unfolding append_all
    append_all-rows_of b b' [] h = ground (arith, append-nil (l.rows_of b))
    append_all-rows_of b b' (r ∷ rows) h = elim (Option-cases (d.append b r)) [
      | inl e ↦ absurd (ground arith)
      | inr (c, e) ↦
          append_all-rows_of c b' rows (ground arith)
          ∙ ap (λ x. x ++ rows) (l.appended b c r e)
          ∙ append_assoc (l.rows_of b) (r ∷ []) rows
    ]

    -- A call that returns no error has stored every row, in order, after what was stored before.
    pub stored-insert_events :
        (rows : List Row) (s : d.Server)
        → (insert_events rows s).0 ≡ true
        → l.stored (insert_events rows s).1 ≡ l.stored s ++ rows
    unfolding insert_events
    stored-insert_events [] s h = sym (append-nil _)
    stored-insert_events (r ∷ rows) s h = elim (Option-cases (d.prepare_batch s)) [
      | inl e ↦ absurd (ground arith)
      | inr (b, e) ↦ elim (Option-cases (append_all b (r ∷ rows))) [
        | inl f ↦ absurd (ground arith)
        | inr (b', f) ↦
            ground
              (arith, l.sent b' s, append_all-rows_of b b' (r ∷ rows) f, l.prepared_empty s b e)
      ]
    ]
