-- ===== src/Histories/Rows.antt =====
-- The rows of the tasks through the calls: what a call may do to a row, and what its revision tells.
use orchd_ai.Prelude.{
  ℕ, ◌≤◌, none, ok, ◌<◌, ◌≡◌, refl, sym, ◌∙◌, ◌≢◌, ◌⊎◌, inl, inr, true, false, String, some,
  some-eq, subst, ap, arith, ◌==◌, Bool-cases, none-some,
}
use orchd_ai.Table.{find}
use orchd_ai.Workflow.{is_terminal}
use orchd_ai.Records.{Scope, Document, Task, World, EventType}
use orchd_ai.Engine.Log.{Logged}
use orchd_ai.Engine.{Session, open_task, event}
use orchd_ai.Engine.Changes.{
  Change, Advance, Framed, row_of, id-event, at-event, revision-event, event-Framed, event-Written,
  opened-there, opened-id, opened-Framed, transition-Change,
}
use orchd_ai.Engine.Outcomes.{Outcome, approve-Outcome, renew_approval-Outcome, cancel-Outcome}
use orchd_ai.Engine.Creation.Rows.{create_task-rows}
use orchd_ai.Drafts.Changes.{draft-Change, ask-Change, answer-Change, confirm-Change}
use orchd_ai.Histories.{
  Step, creates, drafts, asks, answers_, confirms, approves, renews, cancels, notes, moves, Working,
  Step-Logged, Reach, Reach-Logged,
}

-- The state of the workflow and the revision are the same.
abbrev pub Noted : Task → Task → Type 0
Noted row row' = (row'.state.state ≡ row.state.state) × (row'.state.revision ≡ row.state.revision)

-- A row stays, or another one takes its place: one with an event on it, or one that advances it.
abbrev pub Kept : World → ℕ → Task → Type 0
Kept w t row =
    (find t w.tasks ≡ some row)
    ⊎ ((row' : Task) × (find t w.tasks ≡ some row') × (Noted row row' ⊎ Advance row row'))

Change-Kept :
    (w : World) (u : ℕ) (w' : World) (t : ℕ) (row : Task)
    → Change w u w'
    → find t w.tasks ≡ some row
    → Kept w' t row
Change-Kept w u w' t row c there = elim (Bool-cases (t == u)) [
  | inr other ↦ inl (c.others t (ground arith) ∙ there)
  | inl same ↦
      let at : u ≡ t = ground arith in
      let first : c.before ≡ row = some-eq (sym c.there ∙ ap (λ k. find k w.tasks) at ∙ there) in
      inr (
        c.after,
        subst (λ k. find k w'.tasks ≡ some c.after) at c.written,
        inr (subst (λ b. Advance b c.after) first c.advance),
      )
]

Outcome-Kept :
    (w : World) (u : ℕ) (w' : World) (t : ℕ) (row : Task)
    → Outcome w u w'
    → find t w.tasks ≡ some row
    → Kept w' t row
Outcome-Kept w u w' t row (inl same) there = inl (ap (λ (v : World). find t v.tasks) same ∙ there)
Outcome-Kept w u w' t row (inr c) there = Change-Kept w u w' t row c there

Working-Framed :
    (w : World) (t : ℕ) {s s' : Session}
    → Logged w
    → open_task w t ≡ ok s
    → Working s s'
    → Framed w s'
Working-Framed w t logged opened work u ne =
    ap (find u) work.log.tasks
    ∙ opened-Framed w t logged opened u (subst (λ k. u ≢ k) work.log.id ne)

-- A transaction that ends in an event.
notes-Kept :
    (w : World) (u : ℕ) (type : EventType) {s s' : Session} (t : ℕ) (row : Task)
    → Logged w
    → open_task w u ≡ ok s
    → Working s s'
    → find t w.tasks ≡ some row
    → Kept (event type none s').world t row
notes-Kept w u type {s} {s'} t row logged opened work there = elim (Bool-cases (t == u)) [
  | inr other ↦
      let id : (event type none s').state.task_id ≡ u =
        id-event type none s' ∙ work.log.id ∙ opened-id w u logged opened in
      let ne : t ≢ (event type none s').state.task_id = λ e. absurd (ground (arith, e ∙ id)) in
      inl (event-Framed type none s' w (Working-Framed w u logged opened work) t ne ∙ there)
  | inl same ↦
      let at : u ≡ t = ground arith in
      let id : (event type none s').state.task_id ≡ t =
        id-event type none s' ∙ work.log.id ∙ opened-id w u logged opened ∙ at in
      let first : row_of s ≡ row =
        some-eq (sym (opened-there w u logged opened) ∙ ap (λ k. find k w.tasks) at ∙ there) in
      inr (
        row_of (event type none s'),
        subst (λ k. find k (event type none s').world.tasks ≡ some (row_of (event type none s'))) id
            (event-Written type none s'),
        inl (
          at-event type none s' ∙ work.at ∙ ap (λ (x : Task). x.state.state) first,
          revision-event type none s' ∙ work.revision ∙ ap (λ (x : Task). x.state.revision) first,
        ),
      )
]

module _ (digest : Document → ℕ) (scope_digest : Scope → ℕ) (redact : String → String) where
  Step-Kept :
      (w w' : World) (t : ℕ) (row : Task)
      → Logged w
      → Step digest scope_digest redact w w'
      → find t w.tasks ≡ some row
      → Kept w' t row
  Step-Kept w w' t row l (creates now id spec_id title principal is_draft h) there =
      let (free, others) =
        create_task-rows digest scope_digest redact now id spec_id title principal is_draft w h in
      let ne : t ≢ id = λ e. none-some (sym (ap (λ k. find k w.tasks) e ∙ free) ∙ there) in
      inl (others t ne ∙ there)
  Step-Kept w w' t row l (drafts now id u value expected h) there =
      Change-Kept w u w' t row
        (draft-Change digest scope_digest redact now id u expected w value l h) there
  Step-Kept w w' t row l (asks now id u value expected h) there =
      Change-Kept w u w' t row (ask-Change digest scope_digest redact now id u expected w value l h)
        there
  Step-Kept w w' t row l (answers_ now id u value who expected h) there =
      Change-Kept w u w' t row
        (answer-Change digest scope_digest redact now id u expected w value who l h) there
  Step-Kept w w' t row l (confirms now id u sha who expected h) there =
      Change-Kept w u w' t row
        (confirm-Change digest scope_digest redact now id u expected w sha who l h) there
  Step-Kept w w' t row l (approves now id u request_id d expected principal r h) there =
      Outcome-Kept w u w' t row
        (approve-Outcome digest scope_digest now u w id request_id d expected principal l h) there
  Step-Kept w w' t row l (renews now id u request_id expected principal h) there =
      Outcome-Kept w u w' t row
        (renew_approval-Outcome digest scope_digest now u w id request_id expected principal l h)
        there
  Step-Kept w w' t row l (cancels now u expected reason principal h) there =
      Outcome-Kept w u w' t row
        (cancel-Outcome digest scope_digest now u w redact expected reason principal l h) there
  Step-Kept w w' t row l (notes u type opened work end) there =
      subst (λ v. Kept v t row) end (notes-Kept w u type t row l opened work there)
  Step-Kept w w' t row l (moves now u target {s' = s'} opened work moved end) there =
      subst (λ v. Kept v t row) end
        (Change-Kept w u _ t row
          (transition-Change digest scope_digest now w u target s' l opened
            (Working-Framed w u l opened work) work.log.id work.at work.resumes
            (omega (arith, work.revision)) moved)
          there)

  -- Any number of calls after `w`.
  pub data Calls (w : World) : World → Type 0 where
    no_call : Calls w w
    call : {v v' : World} → Calls w v → Step digest scope_digest redact v v' → Calls w v'

  Calls-Logged : (w w' : World) → Logged w → Calls w w' → Logged w'
  Calls-Logged w w' l no_call = l
  Calls-Logged w w' l (call {v = v} c s) =
      Step-Logged digest scope_digest redact v w' (Calls-Logged w v l c) s

  -- In a store that the steps have made, one more step leaves the row of a task as it is, or writes
  -- a row in its place: with the same state and the same revision, or else the task was in no
  -- terminal state, its revision is higher, and its state is the same or one to which the workflow
  -- allows a transition, the state to resume being the one on record or none.
  pub Step-Advance :
      (w w' : World) (t : ℕ) {row : Task}
      → Reach digest scope_digest redact w
      → Step digest scope_digest redact w w'
      → find t w.tasks ≡ some row
      → (find t w'.tasks ≡ some row)
        ⊎ ((row' : Task) × (find t w'.tasks ≡ some row') × (Noted row row' ⊎ Advance row row'))
  Step-Advance w w' t {row} reached step there =
      Step-Kept w w' t row (Reach-Logged digest scope_digest redact w reached) step there

  -- A row of the same state and revision, or one of a higher revision.
  abbrev LaterRow : Task → Task → Type 0
  LaterRow first row =
      Noted first row
      ⊎ ((is_terminal first.state.state ≡ false) × (first.state.revision < row.state.revision))

  LaterRow-Noted :
      (first row row' : Task) → LaterRow first row → Noted row row' → LaterRow first row'
  LaterRow-Noted first row row' (inl (at, revision)) (at', revision') =
      inl (at' ∙ at, revision' ∙ revision)
  LaterRow-Noted first row row' (inr (live, higher)) (at', revision') =
      inr (live, omega (arith, higher, revision'))

  LaterRow-Advance :
      (first row row' : Task) → LaterRow first row → Advance row row' → LaterRow first row'
  LaterRow-Advance first row row' (inl (at, revision)) a =
      inr (subst (λ x. is_terminal x ≡ false) at a.live, omega (arith, revision, a.higher))
  LaterRow-Advance first row row' (inr (live, higher)) a =
      inr (live, omega (arith, higher, a.higher))

  Kept-LaterRow :
      (w : World) (t : ℕ) (first row : Task)
      → LaterRow first row
      → Kept w t row
      → (row' : Task) × (find t w.tasks ≡ some row') × LaterRow first row'
  Kept-LaterRow w t first row before (inl there) = (row, there, before)
  Kept-LaterRow w t first row before (inr (row', there, inl noted)) =
      (row', there, LaterRow-Noted first row row' before noted)
  Kept-LaterRow w t first row before (inr (row', there, inr a)) =
      (row', there, LaterRow-Advance first row row' before a)

  Calls-LaterRow :
      (w w' : World) (t : ℕ) (row : Task)
      → Logged w
      → find t w.tasks ≡ some row
      → Calls w w'
      → (row' : Task) × (find t w'.tasks ≡ some row') × LaterRow row row'
  Calls-LaterRow w w' t row l there no_call = (row, there, inl (refl, refl))
  Calls-LaterRow w w' t row l there (call {v = v} c s) =
      let (row1, there1, before) = Calls-LaterRow w v t row l there c in
      Kept-LaterRow w' t row row1 before (Step-Kept v w' t row1 (Calls-Logged w v l c) s there1)

  -- The revision of a task tells whether its state has changed: whatever steps follow on a store that
  -- the steps have made, the revision of a task is never lower than before them, and if it is the
  -- same, so is the task's state of the workflow.
  pub Calls-revision :
      (w w' : World) (t : ℕ) {row row' : Task}
      → Reach digest scope_digest redact w
      → Calls w w'
      → find t w.tasks ≡ some row
      → find t w'.tasks ≡ some row'
      → (row.state.revision ≤ row'.state.revision)
        × (row'.state.revision ≡ row.state.revision → row'.state.state ≡ row.state.state)
  Calls-revision w w' t {row} {row'} reached c there there' =
      let (r, now_there, kept) =
        Calls-LaterRow w w' t row (Reach-Logged digest scope_digest redact w reached) there c in
      let last : r ≡ row' = some-eq (sym now_there ∙ there') in
      subst
        (λ (x : Task).
          (row.state.revision ≤ x.state.revision)
          × (x.state.revision ≡ row.state.revision → x.state.state ≡ row.state.state))
        last
        (elim kept [
          | inl (at, revision) ↦ (omega (arith, revision), λ _. at)
          | inr (_, higher) ↦ (omega (arith, higher), λ same. absurd (omega (arith, same, higher)))
        ])

  -- A terminal state is final: whatever steps follow on a store that the steps have made, a task
  -- that is COMPLETED, FAILED or CANCELLED keeps that state and its revision, though events may be
  -- noted on it.
  pub Calls-terminal :
      (w w' : World) (t : ℕ) {row : Task}
      → Reach digest scope_digest redact w
      → Calls w w'
      → find t w.tasks ≡ some row
      → is_terminal row.state.state ≡ true
      → (row' : Task) × (find t w'.tasks ≡ some row') × Noted row row'
  Calls-terminal w w' t {row} reached c there ended =
      let (r, now_there, kept) =
        Calls-LaterRow w w' t row (Reach-Logged digest scope_digest redact w reached) there c in
      elim kept [ inl same ↦ (r, now_there, same) | inr (live, _) ↦ cc ]
