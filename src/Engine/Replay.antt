-- ===== src/Engine/Replay.antt =====
-- `Store.reconstruct` of orch/storage.py: the events of a task replayed in the order of their
-- sequence numbers, and what that gives for a log that the engine wrote.
use orchd_ai.Prelude.{
  ℕ, suc, ◌≡◌, refl, ◌∙◌, Option, none, some, List, [], ◌∷◌, length, ◌==◌, not, arith, Result, ok,
  ◌>>◌, ◌>>=◌, raise_if, or_raise, is_some, true, Option-cases, inl, inr,
}
use orchd_ai.Table.{find}
use orchd_ai.Records.{Task, Event, World}
use orchd_ai.Engine.{Refusal, unknown_task, event_gap, unreadable, log}
use orchd_ai.Engine.Log.{Numbered, IsLog, Logged, row-Logged}

-- ORDER BY sequence, of a log that has the latest event first
unfoldable pub rising : List Event → List Event → List Event
rising [] tail = tail
rising (e ∷ es) tail = rising es (e ∷ tail)

-- What the artifact of a snapshot reads back as: its text was redacted when it was stored, so that
-- it can be another row, or none.
module _ (read : Task → Option Task) where
  -- The loop of `reconstruct`: an event out of its place is refused, the last snapshot is the result.
  unfoldable pub replay : ℕ → Option Task → List Event → Result Refusal (Option Task)
  replay sequence result [] = ok result
  replay sequence result (e ∷ es) = do
    raise_if (not (e.sequence == sequence)) event_gap
    row ← or_raise (read e.payload) unreadable
    replay (suc sequence) (some row) es

  -- `reconstruct`
  unfoldable pub reconstruct : World → ℕ → Result Refusal (Option Task)
  reconstruct w t = do or_raise (find t w.tasks) unknown_task; replay 1 none (rising (log w t) [])

  -- Every snapshot reads back.
  abbrev pub AllRead : List Event → Type 0
  AllRead [] = Unit
  AllRead (e ∷ es) = (is_some (read e.payload) ≡ true) × AllRead es

  -- The snapshot of the latest event.
  abbrev latest : List Event → Option Task
  latest [] = none
  latest (e ∷ _) = read e.payload

  replay-step :
      (n : ℕ) (result : Option Task) (e : Event) (es : List Event)
      → e.sequence ≡ n
      → is_some (read e.payload) ≡ true
      → replay n result (e ∷ es) ≡ replay (suc n) (read e.payload) es
  unfolding replay
  replay-step n result e es same readable = elim (Option-cases (read e.payload)) [
    | inl nothing ↦ absurd (ground arith)
    | inr (row, there) ↦ rw there (ground (arith, same))
  ]

  replay-rising :
      (es tail : List Event)
      → Numbered es
      → AllRead es
      → replay 1 none (rising es tail) ≡ replay (suc (length es)) (latest es) tail
  unfolding rising
  replay-rising [] tail h readable = refl
  replay-rising (e ∷ es) tail (same, h) (first, readable) =
      replay-rising es (e ∷ tail) h readable
      ∙ replay-step (suc (length es)) (latest es) e tail same first

  replay-IsLog :
      (es : List Event) (row : Task)
      → IsLog es row
      → AllRead es
      → replay 1 none (rising es []) ≡ ok (read row)
  unfolding replay
  replay-IsLog [] row h readable = absurd h
  replay-IsLog (e ∷ es) row (same, _, numbered) readable =
      rw (replay-rising (e ∷ es) [] numbered readable, same) refl

  -- Replaying such a log gives the row of the task, as its snapshot reads back.
  pub reconstruct-Logged :
      (w : World) (t : ℕ) (row : Task)
      → Logged w
      → AllRead (log w t)
      → find t w.tasks ≡ some row
      → reconstruct w t ≡ ok (read row)
  unfolding reconstruct
  reconstruct-Logged w t row logged readable there =
      rw (there, replay-IsLog (log w t) row (row-Logged w t logged there).1 readable) refl
