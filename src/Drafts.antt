-- ===== src/Drafts.antt =====
-- orch/task_drafts.py: the project manager drafts a specification, asks about it, and a person
-- answers and confirms the exact specification that was read. `redact` and the digests are
-- parameters. A value of the wrong type or with an unknown field has no counterpart here.
pub mod Log
pub mod Changes
pub mod Confirmation
use orchd_ai.Prelude.{
  ℕ, ◌+◌, String, Bool, true, false, not, ◌&&◌, ◌||◌, Option, none, some, List, [], ◌∷◌, any, all,
  map, length, codes, is_blank, is_alnum, is_word, ◌==◌, if◌then◌else◌, is_some, Result, ok, err,
  ◌>>=◌, ◌>>◌, raise_if, or_raise, str_eq, ltb,
}
use orchd_ai.Workflow.{State, draft_spec, awaiting_clarification, spec_ready, same_state}
use orchd_ai.Roles.{is_principal}
use orchd_ai.Records.{Ref, Scope, Spec, Body, Document, EventType, World}
use orchd_ai.Engine.{
  Refusal, missing_key, bad_text, bad_list, bad_draft, bad_questions, bad_answers, revision_changed,
  not_drafting, no_draft, not_waiting, no_question, revised, bad_principal, Session, open_task,
  event, fetch, store, transition,
}

-- What a project manager writes.
pub record Draft : Type 0 where
  pub title : String
  pub request : String
  pub acceptance_criteria : List String
  pub constraints : List String
  pub allowed_paths : List String
  pub external_references : List String

pub record Question : Type 0 where
  pub question_id : String
  pub question : String

pub record Answer : Type 0 where
  pub question_id : String
  pub answer : String

abbrev pub is_empty {ℓ} : {A : Type ℓ} → List A → Bool
is_empty [] = true
is_empty (_ ∷ _) = false

-- `value in values`
abbrev pub holds : String → List String → Bool
holds v = any (λ x. str_eq v x)

-- `len(set(values)) == len(values)`
abbrev pub is_distinct : List String → Bool
is_distinct [] = true
is_distinct (x ∷ xs) = not (holds x xs) && is_distinct xs

abbrev pub without : String → List String → List String
without v [] = []
without v (x ∷ xs) = let rest = without v xs in if str_eq v x then xs else x ∷ rest

-- `sorted(given) == sorted(asked)`: the same texts, as often.
unfoldable pub same_items : List String → List String → Bool
same_items [] ys = is_empty ys
same_items (x ∷ xs) ys = holds x ys && same_items xs (without x ys)

abbrev pub as_spec : Body → Option Spec
as_spec (Body.task_spec s) = some s
as_spec _ = none

abbrev pub as_questions : Body → Option (Ref × List String)
as_questions (Body.clarification_request r ids) = some (r, ids)
as_questions _ = none

-- `drafting`: no revision to expect, or the current one; and the task is in DRAFT_SPEC.
abbrev pub is_revision : Option ℕ → ℕ → Bool
is_revision none n = true
is_revision (some m) n = m == n

unfoldable pub drafting : Option ℕ → Session → Result Refusal (Unit {0})
drafting expected s = do
  raise_if (not (is_revision expected s.state.revision)) revision_changed
  raise_if (not (same_state s.state.state draft_spec)) not_drafting

-- The specification that a draft becomes.
abbrev pub drafted : ℕ → Draft → Spec
drafted revision d = record {
  revision = revision;
  title = d.title;
  request = d.request;
  acceptance_criteria = d.acceptance_criteria;
  constraints = d.constraints;
  allowed_paths = d.allowed_paths;
  external_references = d.external_references;
  confirmed_by = none;
}

-- `state["spec"] = ...; state["revision"] += 1`
abbrev pub with_revision : World × Ref → Session → Session
with_revision kept s = record s {
  world = kept.0;
  state = record s.state { spec = some kept.1; revision = s.state.revision + 1 };
}

abbrev pub with_questions : World × Ref → List String → Session → Session
with_questions kept ids s = record s {
  world = kept.0;
  context = record s.context { clarification_request = some kept.1; clarification_questions = ids };
}

abbrev pub with_answers : World × Ref → Session → Session
with_answers kept s = record s {
  world = kept.0;
  context = record s.context {
    clarification_response = some kept.1;
    clarification_questions = [];
    clarification_request = none;
  };
}

abbrev pub with_confirmation : World × Ref → ℕ → Session → Session
with_confirmation kept sha s = record s {
  world = kept.0;
  state = record s.state { spec = some kept.1; revision = s.state.revision + 1 };
  context = record s.context { spec_confirmed = true; confirmed_sha = some sha };
}

module _ (redact : String → String) where
  unfoldable pub text : ℕ → String → Result Refusal String
  text limit value = do
    raise_if (is_blank (codes value) || ltb limit (length (codes value))) bad_text
    raise_if (not (str_eq (redact value) value)) bad_text
    ok value

  unfoldable pub texts : ℕ → List String → Result Refusal (Unit {0})
  texts limit [] = ok tt
  texts limit (v ∷ vs) = let rest = texts limit vs in text limit v >> rest

  -- `lines`, for a field with the given limit
  unfoldable pub lines : ℕ → List String → Result Refusal (List String)
  lines limit values = do
    raise_if (ltb limit (length values)) bad_list
    texts 500 values
    raise_if (not (is_distinct values)) bad_list
    ok values

  unfoldable pub written : Draft → Result Refusal Draft
  written d = do
    text 200 d.title
    text 4000 d.request
    lines 20 d.acceptance_criteria
    lines 20 d.constraints
    lines 50 d.allowed_paths
    lines 20 d.external_references
    raise_if (is_empty d.acceptance_criteria) bad_draft
    raise_if (is_empty d.allowed_paths) bad_draft
    ok d

  -- `IDENTIFIER` is the pattern of a principal too.
  unfoldable pub each_question : List Question → Result Refusal (Unit {0})
  each_question [] = ok tt
  each_question (q ∷ qs) =
      let rest = each_question qs in
      do raise_if (not (is_principal q.question_id)) bad_questions; text 500 q.question; rest

  unfoldable pub questions : List Question → Result Refusal (List Question)
  questions qs = do
    raise_if (is_empty qs || ltb 10 (length qs)) bad_questions
    each_question qs
    raise_if (not (is_distinct (map (λ (q : Question). q.question_id) qs))) bad_questions
    ok qs

  unfoldable pub answers : List Answer → List String → Result Refusal (List Answer)
  answers given asked = do
    texts 2000 (map (λ (a : Answer). a.answer) given)
    raise_if (not (same_items (map (λ (a : Answer). a.question_id) given) asked)) bad_answers
    ok given

module _ (digest : Document → ℕ) where
  -- The revision of the next specification: 0, or one more than that of the last.
  unfoldable pub next_revision : Session → Result Refusal ℕ
  next_revision s = elim s.state.spec [
    | none ↦ ok 0
    | some r ↦ do spec ← fetch digest as_spec s.world s.state.task_id r; ok (spec.revision + 1)
  ]

  module _ (scope_digest : Scope → ℕ) (redact : String → String) (now : ℕ) where
    -- In each of these `id` is the identifier of the document that is written.
    unfoldable pub draft : ℕ → ℕ → Draft → Option ℕ → World → Result Refusal World
    draft id t value expected w = do
      content ← written redact value
      s ← open_task w t
      drafting expected s
      revision ← next_revision s
      kept ←
          store digest
            (record { id = id; task_id = t; body = Body.task_spec (drafted revision content) })
            s.world
      ok (event EventType.spec_drafted none (with_revision kept s)).world

    unfoldable pub ask : ℕ → ℕ → List Question → Option ℕ → World → Result Refusal World
    ask id t value expected w = do
      asked ← questions redact value
      s ← open_task w t
      drafting expected s
      spec ← or_raise s.state.spec no_draft
      fetch digest as_spec s.world t spec
      let ids = map (λ (q : Question). q.question_id) asked
      kept ←
          store digest (record { id = id; task_id = t; body = Body.clarification_request spec ids })
            s.world
      s' ←
          transition digest scope_digest now awaiting_clarification
            (event EventType.clarification_requested none (with_questions kept ids s))
      ok s'.world

    unfoldable pub answer : ℕ → ℕ → List Answer → String → Option ℕ → World → Result Refusal World
    answer id t value who expected w = do
      raise_if (not (is_principal who)) bad_principal
      s ← open_task w t
      raise_if (not (is_revision expected s.state.revision)) revision_changed
      raise_if (not (same_state s.state.state awaiting_clarification)) not_waiting
      pending ← or_raise s.context.clarification_request no_question
      request ← fetch digest as_questions s.world t pending
      answers redact value request.1
      kept ←
          store digest
            (record { id = id; task_id = t; body = Body.clarification_response pending who })
            s.world
      s' ←
          transition digest scope_digest now draft_spec
            (event EventType.clarification_answered none (with_answers kept s))
      ok s'.world

    unfoldable pub confirm : ℕ → ℕ → ℕ → String → Option ℕ → World → Result Refusal World
    confirm id t sha who expected w = do
      raise_if (not (is_principal who)) bad_principal
      s ← open_task w t
      drafting expected s
      current ← or_raise s.state.spec no_draft
      raise_if (not (current.sha == sha)) revised
      spec ← fetch digest as_spec s.world t current
      kept ←
          store digest
            (record {
              id = id;
              task_id = t;
              body =
                  Body.task_spec
                    (record spec { revision = spec.revision + 1; confirmed_by = some who });
            })
            s.world
      s' ←
          transition digest scope_digest now spec_ready
            (event EventType.spec_confirmed none (with_confirmation kept sha s))
      ok s'.world
