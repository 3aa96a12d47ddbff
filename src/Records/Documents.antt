-- ===== src/Records/Documents.antt =====
-- Contracts by their types, and references to them. Of each contract the fields are those that
-- orch/engine.py and orch/task_drafts.py read.
use orchd_ai.Prelude.{ℕ, String, Bool, true, false, ◌&&◌, Option, none, some, List, [], ◌∷◌, ◌==◌}

-- `ref(value)`: the identifier and the digest of a document.
pub record Ref : Type 0 where
  pub id : ℕ
  pub sha : ℕ

abbrev pub same_ref : Ref → Ref → Bool
same_ref a b = a.id == b.id && a.sha == b.sha

-- `==` on references that may be `None`, and on lists of them
abbrev pub same_link : Option Ref → Option Ref → Bool
same_link none none = true
same_link (some a) (some b) = same_ref a b
same_link _ _ = false

abbrev pub same_links : List (Option Ref) → List (Option Ref) → Bool
same_links [] [] = true
same_links (a ∷ as') (b ∷ bs) = same_link a b && same_links as' bs
same_links _ _ = false

pub data Kind : Type 0 where
  plan action : Kind

pub data Decision : Type 0 where
  approve reject : Decision

pub data Verdict : Type 0 where
  accept needs_changes rejected : Verdict

-- What an approval is bound to: the argument of the digest `subject_sha256`.
pub record Scope : Type 0 where
  pub subject : Option Ref
  pub evidence : List (Option Ref)
  pub task_id : ℕ
  pub revision : ℕ
  pub policy : String

pub record Spec : Type 0 where
  pub revision : ℕ
  pub title : String
  pub request : String
  pub acceptance_criteria : List String
  pub constraints : List String
  pub allowed_paths : List String
  pub external_references : List String
  pub confirmed_by : Option String

pub record Request : Type 0 where
  pub kind : Kind
  pub subject : Option Ref
  pub subject_sha : ℕ
  pub task_revision : ℕ
  pub policy : String
  pub evidence : List (Option Ref)
  pub expires_at : ℕ

pub record Ruling : Type 0 where
  pub request : Ref
  pub subject_sha : ℕ
  pub principal : String
  pub decision : Decision
  pub decided_at : ℕ

pub data Body : Type 0 where
  task_spec : Spec → Body
  -- the paths and the tests that the plan allows
  implementation_plan : List String → List String → Body
  -- the plan's approval and the attempt
  work_order : Option Ref → ℕ → Body
  patch_receipt : ℕ → Body
  -- the patch tested, whether the outcome is "passed", and the exit code
  test_receipt : Ref → Bool → Option ℕ → Body
  -- the patch reviewed and the tests shown
  review_request : Ref → List Ref → Body
  review_decision : Ref → Verdict → Body
  approval_request : Request → Body
  approval_decision : Ruling → Body
  -- the operation that it asks for
  tool_request : ℕ → Body
  -- whether the outcome is "succeeded", and whether it was simulated
  external_receipt : Bool → Bool → Body
  -- the draft asked about, and the questions' identifiers
  clarification_request : Ref → List String → Body
  clarification_response : Ref → String → Body

pub record Document : Type 0 where
  pub id : ℕ
  pub task_id : ℕ
  pub body : Body
