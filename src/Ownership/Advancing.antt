-- ===== src/Ownership/Advancing.antt =====
-- What a worker that advances a task has on record.
use orchd_ai.Prelude.{
  ℕ, ◌+◌, ◌≡◌, refl, sym, ap, subst, ◌∙◌, Bool, true, false, ◌&&◌, Option, none, some, List,
  contains, length, leb, arith, if◌then◌else◌, is_some, Result, ok, err, ok-bind, ok-eq,
  ok-raise_if, inl, inr, if-eq, some-eq, none-some,
}
use orchd_ai.Table.{find, find-put}
use orchd_ai.Records.{World, is_later}
use orchd_ai.Engine.{Session, open_task}
use orchd_ai.Ownership.{
  Owner, same_owner, Holding, Registry, Locks, live, admitted, claim, deciding, advancing,
  of_engine, Denied, registered, already_advancing, too_many, held_by_agent,
}

find-claim :
    (now t : ℕ) (me : Owner) (revision generation : ℕ) (reg : Registry)
    → (h : Holding) × (find t (claim now t me revision generation none reg) ≡ some h)
      × (h.owner ≡ me)
      × (h.expires_at ≡ none)
unfolding claim
find-claim now t me revision generation reg =
    let h : Holding = record {
      task_id = t;
      owner = me;
      claimed_at = now;
      revision = revision;
      generation = generation;
      expires_at = none;
    } in
    (h, find-put t t h reg ∙ ground arith, refl, refl)

lapsed :
    (now : ℕ) (l : Locks) (h : Holding) (end : ℕ)
    → h.expires_at ≡ some end
    → (is_some h.expires_at && live now l h) ≡ false
    → is_later end now ≡ false
unfolding live
lapsed now l h end lease over = ground (arith, lease)

-- A worker that has registered.
abbrev pub Registered : ℕ → Owner → Registry → Type 0
Registered t me reg = (h : Holding) × (find t reg ≡ some h) × (h.owner ≡ me) × (h.expires_at ≡ none)

pub if-ok :
    {A : Type 0} {a : A} (test : Bool) {stop : Result Denied A}
    → (if test then err held_by_agent else stop) ≡ ok a
    → (test ≡ false) × (stop ≡ ok a)
if-ok true h = cc
if-ok false h = (refl, h)

registered-Registered :
    (now : ℕ) (l : Locks) (me : Owner) (t : ℕ) (existing : Option Holding) (s : Session)
    (reg : Registry) {out : World × Registry}
    → find t reg ≡ existing
    → registered now l me t existing s reg ≡ ok out
    → Registered t me out.1
      × ((h : Holding) (end : ℕ)
          → find t reg ≡ some h
          → h.expires_at ≡ some end
          → is_later end now ≡ false)
unfolding registered live
registered-Registered now l me t none s reg nobody h = (
  subst (λ (o : World × Registry). Registered t me o.1) (ok-eq h)
      (find-claim now t me s.state.revision 1 reg),
  λ held end there lease. absurd (none-some (sym nobody ∙ there)),
)
registered-Registered now l me t (some old) s reg there h =
    let (over, h1) = if-ok (is_some old.expires_at && live now l old) h in
    let late : (held : Holding) (end : ℕ)
        → find t reg ≡ some held
        → held.expires_at ≡ some end
        → is_later end now ≡ false =
      λ held end found lease.
        let same : old ≡ held = some-eq (sym there ∙ found) in
        lapsed now l old end (ap (λ (x : Holding). x.expires_at) same ∙ lease) over in
    elim (if-eq (same_owner old.owner me) h1) [
      | inl (_, again) ↦ (
        subst (λ (o : World × Registry). Registered t me o.1) (ok-eq again)
            (find-claim now t me s.state.revision
              (if leb 1 old.generation then old.generation else 1) reg),
        late,
      )
      | inr (_, taken) ↦ (
        subst (λ (o : World × Registry). Registered t me o.1) (ok-eq taken)
            (find-claim now t me s.state.revision (old.generation + 1) reg),
        late,
      )
    ]

-- A worker that begins to advance a task is on record as its owner, without an end; no agent had a
-- lease on the task that was still running.
pub advancing-Registered :
    (now bound : ℕ) (l : Locks) (mine : List ℕ) (me : Owner) (t : ℕ) (w : World) (reg : Registry)
    {out : World × Registry}
    → advancing now bound l mine me t w reg ≡ ok out
    → Registered t me out.1
      × ((h : Holding) (end : ℕ)
          → find t reg ≡ some h
          → h.expires_at ≡ some end
          → is_later end now ≡ false)
unfolding advancing
advancing-Registered now bound l mine me t w reg h =
    let (_, h1) = ok-raise_if (contains t mine) already_advancing h in
    let (l', h2, _) = ok-bind (deciding t l) h1 in
    let (_, h3) = ok-raise_if (leb bound (length (admitted now l' t reg))) too_many h2 in
    let (s, h4, _) = ok-bind (of_engine (open_task w t)) h3 in
    registered-Registered now l' me t (find t reg) s reg refl h4
