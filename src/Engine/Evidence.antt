-- ===== src/Engine/Evidence.antt =====
-- What the checks of `_transition` establish: the records behind a transition that succeeds.
use orchd_ai.Engine.Steps.{transition-ok}
use orchd_ai.Prelude.{
  ℕ, ◌≡◌, refl, sym, ap, Bool, true, false, not, ◌&&◌, ◌||◌, Option, none, some, List, [], ◌∷◌,
  arith, map, Result, ok, ok-bind, raise_if-ok, ◌>>◌, ◌==◌, ok-raise_if, ok-or_raise, ◌∙◌,
}
use orchd_ai.Table.{find}
use orchd_ai.Workflow.{State, allowed}
use orchd_ai.Records.{
  Ref, same_ref, same_link, same_links, Kind, plan, action, Decision, Verdict, accept, Scope,
  Request, Ruling, Document, is_over,
}
use orchd_ai.Engine.{
  Session, Refusal, fetch, approval_of, request_of, subject_of, evidence_of, same_id, is_approve,
  is_accept, is_zero_code, as_ruling, as_request, as_test, as_review, as_review_request, policy,
  when, approved, check_patch, check_test, check_review, checks, transition, needs_plan,
  needs_patch, needs_test, needs_review, needs_action, needs_confirmation, approval_required,
  missing_key, binding_mismatch, expired_or_changed, evidence_changed, no_passing_test,
  no_acceptance, wrong_workload, forbidden, confirmation_required,
}

same_ref-eq : (a b : Ref) → same_ref a b ≡ true → a ≡ b
same_ref-eq a b h = ground arith

same_link-eq : (a b : Option Ref) → same_link a b ≡ true → a ≡ b
same_link-eq none none h = refl
same_link-eq (some a) (some b) h = ap some (same_ref-eq a b h)
same_link-eq none (some b) h = cc
same_link-eq (some a) none h = cc

same_links-eq : (as' bs : List (Option Ref)) → same_links as' bs ≡ true → as' ≡ bs
same_links-eq [] [] h = refl
same_links-eq (a ∷ as') (b ∷ bs) h =
    let first = same_link-eq a b (ground arith) in
    let rest = same_links-eq as' bs (ground arith) in cc
same_links-eq [] (b ∷ bs) h = cc
same_links-eq (a ∷ as') [] h = cc

same_id-eq : (a : Option ℕ) (b : ℕ) → same_id a b ≡ true → a ≡ some b
same_id-eq none b h = cc
same_id-eq (some a) b h = ground arith

is_approve-eq : (d : Decision) → is_approve d ≡ true → d ≡ Decision.approve
is_approve-eq Decision.approve h = refl
is_approve-eq Decision.reject h = cc

is_accept-eq : (v : Verdict) → is_accept v ≡ true → v ≡ accept
is_accept-eq accept h = refl
is_accept-eq _ h = cc

is_zero_code-eq : (c : Option ℕ) → is_zero_code c ≡ true → c ≡ some 0
is_zero_code-eq none h = cc
is_zero_code-eq (some n) h = ground arith

and4 :
    (a b c d : Bool)
    → not (a && b && c && d) ≡ false
    → (a ≡ true) × (b ≡ true) × (c ≡ true) × (d ≡ true)
and4 a b c d h = (ground arith, ground arith, ground arith, ground arith)

and3 : (a b c : Bool) → not (a && b && c) ≡ false → (a ≡ true) × (b ≡ true) × (c ≡ true)
and3 a b c h = (ground arith, ground arith, ground arith)

not_or : (a b : Bool) → (not a || b) ≡ false → a ≡ true
not_or a b h = ground arith

or_right_false : (a b : Bool) → (a || b) ≡ false → b ≡ false
or_right_false a b h = ground arith

module _ (digest : Document → ℕ) (scope_digest : Scope → ℕ) (now : ℕ) where
  -- A person's approval of a kind: the decision is on record for the request that the task keeps,
  -- it approves, and the request is unexpired and bound to the subject and the evidence of now.
  pub record Granted (kind : Kind) (s : Session) : Type 0 where
    pub given : Ref
    pub asked : Ref
    pub ruling : Ruling
    pub request : Request
    pub kept : approval_of kind s.context ≡ some given
    pub pending : request_of kind s.context ≡ some asked
    pub read : fetch digest as_ruling s.world s.state.task_id given ≡ ok ruling
    pub read_request : fetch digest as_request s.world s.state.task_id asked ≡ ok request
    pub on_record : find asked.id s.world.approvals ≡ some given.id
    pub approves : ruling.decision ≡ Decision.approve
    pub of_request : ruling.request ≡ asked
    pub of_subject : request.subject ≡ subject_of kind s
    pub of_evidence : evidence_of kind s ≡ ok request.evidence
    pub unexpired : is_over request.expires_at now ≡ false

  -- A test of the current patch has passed.
  pub record Tested (s : Session) : Type 0 where
    pub test : Ref
    pub patch : Ref
    pub kept : s.context.test ≡ some test
    pub current : s.state.patch ≡ some patch
    pub read : fetch digest as_test s.world s.state.task_id test ≡ ok (patch, true, some 0)

  -- A review of the current patch and of its test has accepted.
  pub record Reviewed (s : Session) : Type 0 where
    pub chosen : Ref
    pub asked : Ref
    pub patch : Ref
    pub tests : List Ref
    pub kept : s.context.review ≡ some chosen
    pub current : s.state.patch ≡ some patch
    pub of_test : map some tests ≡ s.context.test ∷ []
    pub read : fetch digest as_review s.world s.state.task_id chosen ≡ ok (asked, accept)
    pub read_request :
        fetch digest as_review_request s.world s.state.task_id asked ≡ ok (patch, tests)

  pub approved-Granted :
      (kind : Kind) (s : Session) {r : Ruling}
      → approved digest scope_digest now kind s ≡ ok r
      → Granted kind s
  unfolding approved
  approved-Granted kind s h =
      let (given, h1, kept) = ok-or_raise (approval_of kind s.context) approval_required h in
      let (ruling, h2, read) = ok-bind (fetch digest as_ruling s.world s.state.task_id given) h1 in
      let (asked, h3, pending) = ok-or_raise (request_of kind s.context) missing_key h2 in
      let (request, h4, read_request) =
        ok-bind (fetch digest as_request s.world s.state.task_id asked) h3 in
      let (bound, h5) =
        ok-raise_if
          (not (
            same_id (find asked.id s.world.approvals) given.id
            && is_approve ruling.decision
            && same_ref ruling.request asked
            && same_link request.subject (subject_of kind s)))
          binding_mismatch h4 in
      let (fresh, h6) =
        ok-raise_if
          (not (ruling.subject_sha == request.subject_sha) || is_over request.expires_at now)
          expired_or_changed h5 in
      let (expected, h7, evidence) = ok-bind (evidence_of kind s) h6 in
      let (unchanged, _) =
        ok-raise_if
          (not (same_links request.evidence expected)
            || not (
                request.subject_sha
                == scope_digest (record {
                  subject = subject_of kind s;
                  evidence = expected;
                  task_id = s.state.task_id;
                  revision = request.task_revision;
                  policy = policy;
                })))
          evidence_changed h7 in
      let (recorded, approves, of_request, of_subject) =
        and4 (same_id (find asked.id s.world.approvals) given.id) (is_approve ruling.decision)
          (same_ref ruling.request asked) (same_link request.subject (subject_of kind s)) bound in
      let same = same_links-eq request.evidence expected (not_or _ _ unchanged) in
      record {
        given = given;
        asked = asked;
        ruling = ruling;
        request = request;
        kept = kept;
        pending = pending;
        read = read;
        read_request = read_request;
        on_record = same_id-eq (find asked.id s.world.approvals) given.id recorded;
        approves = is_approve-eq ruling.decision approves;
        of_request = same_ref-eq ruling.request asked of_request;
        of_subject = same_link-eq request.subject (subject_of kind s) of_subject;
        of_evidence = evidence ∙ ap ok (sym same);
        unexpired = or_right_false _ _ fresh;
      }

  check_test-Tested :
      (s : Session) {u : Unit {0}} → check_test digest scope_digest now s ≡ ok u → Tested s
  unfolding check_test
  check_test-Tested s h =
      let (test, h1, kept) = ok-or_raise s.context.test missing_key h in
      let ((of_patch, passed, code), h2, read) =
        ok-bind (fetch digest as_test s.world s.state.task_id test) h1 in
      let good =
        raise_if-ok (not (same_link (some of_patch) s.state.patch && passed && is_zero_code code))
          no_passing_test h2 in
      let (same, is_passed, zero) =
        and3 (same_link (some of_patch) s.state.patch) passed (is_zero_code code) good in
      record {
        test = test;
        patch = of_patch;
        kept = kept;
        current = sym (same_link-eq (some of_patch) s.state.patch same);
        read = rw⁻¹ (is_passed, is_zero_code-eq code zero) read;
      }

  check_review-Reviewed :
      (s : Session) {u : Unit {0}} → check_review digest scope_digest now s ≡ ok u → Reviewed s
  unfolding check_review
  check_review-Reviewed s h =
      let (chosen, h1, kept) = ok-or_raise s.context.review missing_key h in
      let ((asked, verdict), h2, read) =
        ok-bind (fetch digest as_review s.world s.state.task_id chosen) h1 in
      let ((patch, tests), h3, read_request) =
        ok-bind (fetch digest as_review_request s.world s.state.task_id asked) h2 in
      let good =
        raise_if-ok
          (not (
            is_accept verdict
            && same_link (some patch) s.state.patch
            && same_links (map some tests) (s.context.test ∷ [])))
          no_acceptance h3 in
      let (accepts, same, of_test) =
        and3 (is_accept verdict) (same_link (some patch) s.state.patch)
          (same_links (map some tests) (s.context.test ∷ [])) good in
      record {
        chosen = chosen;
        asked = asked;
        patch = patch;
        tests = tests;
        kept = kept;
        current = sym (same_link-eq (some patch) s.state.patch same);
        of_test = same_links-eq (map some tests) (s.context.test ∷ []) of_test;
        read = rw⁻¹ (is_accept-eq verdict accepts) read;
        read_request = read_request;
      }

  when-ok :
      (b : Bool) (m : Result Refusal (Unit {0})) {u : Unit {0}}
      → when b m ≡ ok u
      → b ≡ true
      → m ≡ ok u
  when-ok true m h e = h
  when-ok false m h e = cc

  given-Granted :
      (kind : Kind) (s : Session) {u : Unit {0}}
      → (approved digest scope_digest now kind s >> ok tt) ≡ ok u
      → Granted kind s
  given-Granted kind s h =
      let (r, _, granted) = ok-bind (approved digest scope_digest now kind s) h in
      approved-Granted kind s granted

  -- What the checks of a transition to `target` establish.
  pub record Evidence (target : State) (s : Session) : Type 0 where
    pub in_order : allowed s.state.state target s.state.resume_state ≡ true
    pub is_confirmed : needs_confirmation target ≡ true → s.context.spec_confirmed ≡ true
    pub has_plan : needs_plan target ≡ true → Granted plan s
    pub has_test : needs_test target ≡ true → Tested s
    pub has_review : needs_review target ≡ true → Reviewed s
    pub has_action : needs_action target ≡ true → Granted action s

  pub checks-Evidence :
      (target : State) (s : Session) {u : Unit {0}}
      → checks digest scope_digest now target s ≡ ok u
      → Evidence target s
  unfolding checks
  checks-Evidence target s h =
      let (_, h1) = ok-raise_if s.context.is_repository wrong_workload h in
      let (legal, h2) =
        ok-raise_if (not (allowed s.state.state target s.state.resume_state)) forbidden h1 in
      let (confirmed, h3) =
        ok-raise_if (needs_confirmation target && not s.context.spec_confirmed)
          confirmation_required h2 in
      let (_, h4, e4) =
        ok-bind (when (needs_plan target) (approved digest scope_digest now plan s >> ok tt)) h3 in
      let (_, h5, e5) =
        ok-bind (when (needs_patch target) (check_patch digest scope_digest now s)) h4 in
      let (_, h6, e6) =
        ok-bind (when (needs_test target) (check_test digest scope_digest now s)) h5 in
      let (_, h7, e7) =
        ok-bind (when (needs_review target) (check_review digest scope_digest now s)) h6 in
      let (_, h8, e8) =
        ok-bind (when (needs_action target) (approved digest scope_digest now action s >> ok tt))
          h7 in
      record {
        in_order = ground arith;
        is_confirmed = λ n. ground arith;
        has_plan = λ n. given-Granted plan s (when-ok _ _ e4 n);
        has_test = λ n. check_test-Tested s (when-ok _ _ e6 n);
        has_review = λ n. check_review-Reviewed s (when-ok _ _ e7 n);
        has_action = λ n. given-Granted action s (when-ok _ _ e8 n);
      }

  -- A transition that succeeds is allowed by the workflow, and rests on the records its target
  -- calls for: to SPEC_READY on a confirmed specification; to READY_FOR_IMPLEMENTATION,
  -- IMPLEMENTING, TESTING, REVIEWING or AWAITING_ACTION_APPROVAL on a person's approval of the
  -- plan; to REVIEWING, AWAITING_ACTION_APPROVAL, READY_FOR_PR or PR_CREATED on a test that passed
  -- for the current patch; to the last three of these on a review that accepted that patch with
  -- that test; and to the last two on a person's approval of the current action. An approval is on
  -- record for the request that the task keeps, has not run out, and is bound to the current
  -- subject and evidence.
  pub transition-Evidence :
      (target : State) (s : Session) {s' : Session}
      → transition digest scope_digest now target s ≡ ok s'
      → Evidence target s
  transition-Evidence target s h =
      checks-Evidence target s (transition-ok digest scope_digest now target s h).0
