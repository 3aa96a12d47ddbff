-- ===== src/Sessions/Lifetimes.antt =====
-- A lease from the claim over its renewals to the release.
use orchd_ai.Prelude.{
  ℕ, ◌+◌, ◌*◌, ◌≡◌, sym, ap, subst, ◌∙◌, ◌≢◌, true, not, Option, none, some, arith, ◌==◌,
  if◌then◌else◌, String, ok, ok-eq, ok-raise_if, eq_refl,
}
use orchd_ai.Table.{find, remove, find-put, find-remove}
use orchd_ai.Records.{World, is_later, second}
use orchd_ai.Roles.{Role, same_role, other, is_role}
use orchd_ai.Engine.{Session, open_task}
use orchd_ai.Ownership.{
  Owner, agent, worker, same_owner, Holding, Registry, Locks, live, claim, disclaim, deciding,
  human_role, unknown_role,
}
use orchd_ai.Sessions.{
  session, duration, identifier, is_human, next_generation, take, renew, release,
}
use orchd_ai.Sessions.Claims.{take-Claimed, session-owner, own_locks}

pub same_role_refl : (r : Role) → same_role r r ≡ true
same_role_refl (other s) = eq_refl s
same_role_refl _ = ground arith

same_owner_refl : (o : Owner) → same_owner o o ≡ true
same_owner_refl (worker n) = ground arith
same_owner_refl (agent s r n) = ground (arith, same_role_refl r, eq_refl s)

session-agent :
    (name : String) (role : Role) (session_id : ℕ) {owner : Owner}
    → session name role session_id ≡ ok owner
    → identifier name ≡ ok name
unfolding session identifier
session-agent name role session_id h =
    let (_, h1) = ok-raise_if (is_human role) human_role h in
    let (_, h2) = ok-raise_if (not (is_role role)) unknown_role h1 in ground (arith, h2)

-- The row that a claim records.
abbrev pub lease : ℕ → ℕ → Owner → ℕ → ℕ → ℕ → Holding
lease now t owner revision generation n = record {
  task_id = t;
  owner = owner;
  claimed_at = now;
  revision = revision;
  generation = generation;
  expires_at = some (now + n * second);
}

find-claim :
    (now t : ℕ) (owner : Owner) (revision generation n u : ℕ) (reg : Registry)
    → find u (claim now t owner revision generation (some n) reg)
      ≡ (if u == t then some (lease now t owner revision generation n) else find u reg)
unfolding claim
find-claim now t owner revision generation n u reg = find-put t u _ reg

release-lease :
    (l l' : Locks) (now t : ℕ) (name : String) (role : Role) (session_id revision generation n : ℕ)
    (reg : Registry)
    → find t reg ≡ some (lease now t (agent name role session_id) revision generation n)
    → identifier name ≡ ok name
    → deciding t l ≡ ok l'
    → release l t name reg ≡ ok (remove t reg)
unfolding release disclaim
release-lease l l' now t name role session_id revision generation n reg there named locked =
    ground (arith, same_owner_refl (agent name role session_id), eq_refl name)

module _ (now bound : ℕ) (l : Locks) (session_id t : ℕ) (name : String) (role : Role)
    (seconds expected : Option ℕ) (w : World) (reg : Registry) where
  find-take :
      {reg' : Registry}
      (h : take now bound l session_id t name role seconds expected w reg ≡ ok reg')
      → (find t reg'
          ≡ some (
              lease now t
                (agent name role session_id)
                (take-Claimed now bound l session_id t name role seconds expected w reg
                  h).s.state.revision
                (next_generation (find t reg))
                (take-Claimed now bound l session_id t name role seconds expected w reg h).seconds))
        × ((u : ℕ) → u ≢ t → find u reg' ≡ find u reg)
  find-take {reg'} h =
      let c = take-Claimed now bound l session_id t name role seconds expected w reg h in
      let generation = next_generation (find t reg) in
      let owner = session-owner name role session_id c.names in
      let result =
        subst (λ o. claim now t o c.s.state.revision generation (some c.seconds) reg ≡ reg') owner
          c.result in
      let row =
        find-claim now t (agent name role session_id) c.s.state.revision generation c.seconds in
      (
        ap (find t) (sym result) ∙ row t reg ∙ ground arith,
        λ u ne. ap (find u) (sym result) ∙ row u reg ∙ ground arith,
      )

-- An agent that has claimed a task can give it back: then nobody is on record for it, and the
-- claims on the other tasks are those from before.
pub take-release :
    (now bound : ℕ) (l : Locks) (session_id t : ℕ) (name : String) (role : Role)
    (seconds expected : Option ℕ) (w : World) (reg : Registry) {reg' : Registry}
    → take now bound l session_id t name role seconds expected w reg ≡ ok reg'
    → (reg'' : Registry) × (release l t name reg' ≡ ok reg'')
      × (find t reg'' ≡ none)
      × ((u : ℕ) → u ≢ t → find u reg'' ≡ find u reg)
take-release now bound l session_id t name role seconds expected w reg {reg'} h =
    let c = take-Claimed now bound l session_id t name role seconds expected w reg h in
    let (there, others) = find-take now bound l session_id t name role seconds expected w reg h in
    let own : find t reg'
        ≡ some (
            lease now t (agent name role session_id) c.s.state.revision
              (next_generation (find t reg)) c.seconds) =
      there in
    (
      remove t reg',
      release-lease l (own_locks t l) now t name role session_id c.s.state.revision
          (next_generation (find t reg)) c.seconds reg' own
          (session-agent name role session_id c.names) c.locked,
      find-remove t t reg' ∙ ground arith,
      λ u ne. find-remove t u reg' ∙ ground arith ∙ others u ne,
    )

renew-lease :
    (later : ℕ) (l : Locks) (now t : ℕ) (name : String) (role : Role)
    (session_id revision generation n m : ℕ) (more : Option ℕ) (reg : Registry)
    → find t reg ≡ some (lease now t (agent name role session_id) revision generation n)
    → identifier name ≡ ok name
    → deciding t l ≡ ok (own_locks t l)
    → duration more ≡ ok m
    → is_later (now + n * second) later ≡ true
    → renew later l t name more reg
      ≡ ok (claim later t (agent name role session_id) revision generation (some m) reg)
unfolding renew live
renew-lease later l now t name role session_id revision generation n m more reg there named locked
      length on_time =
    ground (arith, eq_refl name)

-- A claim is on record with the session, the revision of the task and the next generation, and is
-- renewed by the agent that made it while its lease runs: the lease then runs from the renewal, the
-- session, the revision and the generation stay, and so do all other claims.
pub take-renew :
    (now bound : ℕ) (l : Locks) (session_id t : ℕ) (name : String) (role : Role)
    (seconds expected : Option ℕ) (w : World) (reg : Registry) (n later m : ℕ) (more : Option ℕ)
    {reg' : Registry}
    → take now bound l session_id t name role seconds expected w reg ≡ ok reg'
    → duration seconds ≡ ok n
    → duration more ≡ ok m
    → is_later (now + n * second) later ≡ true
    → (reg'' : Registry) × (s : Session) × (open_task w t ≡ ok s)
      × (find t reg'
          ≡ some (
              lease now t
                (agent name role session_id)
                s.state.revision
                (next_generation (find t reg))
                n))
      × (renew later l t name more reg' ≡ ok reg'')
      × (find t reg''
          ≡ some (
              lease later t
                (agent name role session_id)
                s.state.revision
                (next_generation (find t reg))
                m))
      × ((u : ℕ) → u ≢ t → find u reg'' ≡ find u reg)
take-renew now bound l session_id t name role seconds expected w reg n later m more {reg'} h given
      given_more on_time =
    let c = take-Claimed now bound l session_id t name role seconds expected w reg h in
    let (there, others) = find-take now bound l session_id t name role seconds expected w reg h in
    let owner = agent name role session_id in
    let revision = c.s.state.revision in
    let generation = next_generation (find t reg) in
    let same : c.seconds ≡ n = ok-eq (sym c.given ∙ given) in
    (
      claim later t owner revision generation (some m) reg',
      c.s,
      c.opened,
      subst (λ x. find t reg' ≡ some (lease now t owner revision generation x)) same there,
      renew-lease later l now t name role session_id revision generation c.seconds m more reg' there
          (session-agent name role session_id c.names) c.locked given_more
          (subst (λ x. is_later (now + x * second) later ≡ true) (sym same) on_time),
      find-claim later t owner revision generation m t reg' ∙ ground arith,
      λ u ne. find-claim later t owner revision generation m u reg' ∙ ground arith ∙ others u ne,
    )
