-- ===== src/Sessions/Offers.antt =====
-- What `available` lists can be claimed.
use orchd_ai.Sessions.Lifetimes.{same_role_refl}
use orchd_ai.Sessions.Claims.{own_locks}
use orchd_ai.Prelude.{
  ℕ, ◌-◌, ◌≤◌, ◌<◌, ◌≡◌, refl, sym, subst, true, false, not, ◌||◌, none, some, List, [], ◌∷◌, All,
  length, arith, leb, ltb, if◌then◌else◌, String, ok, is_ok, is_some, Option-cases, inl, inr, if-eq,
  some-eq, ◌∙◌, Bool-cases,
}
use orchd_ai.Table.{Table, find, IsSorted, AllRows, find_rows}
use orchd_ai.Workflow.{State}
use orchd_ai.Records.{World, Task}
use orchd_ai.Roles.{Role, role_for, is_role, is_agent}
use orchd_ai.Engine.{open_task}
use orchd_ai.Ownership.{
  Owner, agent, Holding, Registry, Locks, live, exclusive_task, active_owners, admitted, deciding,
}
use orchd_ai.Sessions.{
  session, duration, identifier, is_human, is_held, is_taken, is_wanted, take, Offer, offered,
  offers, available,
}

-- Every claim on record is a lease.
abbrev pub AllLeases : Registry → Type 0
AllLeases [] = Unit
AllLeases ((k, h) ∷ reg) = (is_some h.expires_at ≡ true) × AllLeases reg

-- The work that is offered is claimed by an agent of the role.
abbrev pub CanClaim : ℕ → ℕ → Locks → ℕ → String → World → Registry → Offer → Type 0
CanClaim now bound l session_id name w reg o =
    is_ok (take now bound l session_id o.task_id name o.role none (some o.revision) w reg) ≡ true

find-AllLeases :
    (t : ℕ) (reg : Registry) {h : Holding}
    → AllLeases reg
    → find t reg ≡ some h
    → is_some h.expires_at ≡ true
unfolding find
find-AllLeases t [] leases there = cc
find-AllLeases t ((k, g) ∷ reg) {h} leases there =
    ground (arith, find-AllLeases t reg {h = h} leases.1)

-- A lease is live or not whatever locks are held.
live-lease :
    (now : ℕ) (l l' : Locks) (h : Holding)
    → is_some h.expires_at ≡ true
    → live now l h ≡ live now l' h
unfolding live
live-lease now l l' h lease = ground arith

length-admitted :
    (now : ℕ) (l l' : Locks) (t : ℕ) (reg : Registry)
    → AllLeases reg
    → length (admitted now l' t reg) ≤ length (active_owners now l reg)
unfolding admitted active_owners
length-admitted now l l' t [] leases = omega arith
length-admitted now l l' t ((k, h) ∷ reg) leases =
    ground (arith, length-admitted now l l' t reg leases.1, live-lease now l l' h leases.0)

role_for-role : (s : State) (r : Role) → role_for s ≡ some r → is_role r ≡ true
unfolding role_for
role_for-role s r h = ground arith

module _ (now bound : ℕ) (l : Locks) (session_id : ℕ) (name : String) (roles : List Role)
    (w : World) (reg : Registry) (leases : AllLeases reg) (named : is_agent name ≡ true)
    (free : (t : ℕ) → l.tasks t ≡ false) (whole : l.whole ≡ false)
    (room : length (active_owners now l reg) < bound) where
  free-deciding : (t : ℕ) → deciding t l ≡ ok (own_locks t l)
  unfolding deciding exclusive_task
  free-deciding t = ground (arith, free t)

  role-session :
      (r : Role)
      → is_human r ≡ false
      → is_role r ≡ true
      → session name r session_id ≡ ok (agent name r session_id)
  unfolding session identifier
  role-session r a b = ground (arith, named)

  not_held :
      (t : ℕ) (owner : Owner)
      → is_taken now l t reg ≡ false
      → is_held now (own_locks t l) owner (find t reg) ≡ false
  unfolding is_held
  not_held t owner taken = elim (Option-cases (find t reg)) [
    | inl nobody ↦ rw nobody refl
    | inr (h, there) ↦
        let same = live-lease now l (own_locks t l) h (find-AllLeases t reg leases there) in
        rw there (ground (arith, there, same))
  ]

  take-room :
      (t : ℕ) (row : Task) (r : Role)
      → find t w.tasks ≡ some row
      → role_for row.state.state ≡ some r
      → is_human r ≡ false
      → is_taken now l t reg ≡ false
      → is_ok (take now bound l session_id t name r none (some row.state.revision) w reg) ≡ true
  unfolding take duration open_task
  take-room t row r there of_state person taken =
      let fits : leb bound (length (admitted now (own_locks t l) t reg)) ≡ false =
        ground (arith, room, length-admitted now l (own_locks t l) t reg leases) in
      ground (
        arith,
        there,
        of_state,
        role-session r person (role_for-role row.state.state r of_state),
        free-deciding t,
        not_held t (agent name r session_id) taken,
        same_role_refl r,
        fits,
      )

  offered-eq :
      (t : ℕ) (row : Task) (r : Role)
      → role_for row.state.state ≡ some r
      → offered now l roles reg t row ≡ (
          if is_human r || not (is_wanted roles r) || is_taken now l t reg
          then none
          else some (record {
            task_id = t;
            state = row.state.state;
            role = r;
            revision = row.state.revision;
          }))
  unfolding offered
  offered-eq t row r of_state = ground (arith, of_state)

  take_offered :
      (t : ℕ) (row : Task) (o : Offer)
      → find t w.tasks ≡ some row
      → offered now l roles reg t row ≡ some o
      → CanClaim now bound l session_id name w reg o
  unfolding offered
  take_offered t row o there h = elim (Option-cases (role_for row.state.state)) [
    | inl nobody ↦ absurd (ground arith)
    | inr (r, of_state) ↦
        let o' : Offer = record {
          task_id = t;
          state = row.state.state;
          role = r;
          revision = row.state.revision;
        } in
        let same : (if is_human r || not (is_wanted roles r) || is_taken now l t reg
              then none
              else some o')
            ≡ some o =
          sym (offered-eq t row r of_state) ∙ h in
        elim (if-eq (is_human r || not (is_wanted roles r) || is_taken now l t reg) same) [
          | inl (_, none_left) ↦ cc
          | inr (kept, same) ↦
              subst (CanClaim now bound l session_id name w reg) (some-eq same)
                (take-room t row r there of_state (ground arith) (ground arith))
        ]
  ]

  offers-none :
      (limit : ℕ)
      → All (CanClaim now bound l session_id name w reg) (offers now l roles reg limit [])
  unfolding offers
  offers-none limit = tt

  offers-passed :
      (limit t : ℕ) (row : Task) (tasks : Table Task)
      → offered now l roles reg t row ≡ none
      → offers now l roles reg limit ((t, row) ∷ tasks) ≡ offers now l roles reg limit tasks
  unfolding offers
  offers-passed limit t row tasks passed = ground (arith, passed)

  offers-listed :
      (limit t : ℕ) (row : Task) (tasks : Table Task) (o : Offer)
      → offered now l roles reg t row ≡ some o
      → offers now l roles reg limit ((t, row) ∷ tasks)
        ≡ o ∷ (if ltb 1 limit then offers now l roles reg (limit - 1) tasks else [])
  unfolding offers
  offers-listed limit t row tasks o listed = ground (arith, listed)

  offers-CanClaim :
      (limit : ℕ) (tasks : Table Task)
      → AllRows (λ k row. find k w.tasks ≡ some row) tasks
      → All (CanClaim now bound l session_id name w reg) (offers now l roles reg limit tasks)
  offers-CanClaim limit [] h = offers-none limit
  offers-CanClaim limit ((t, row) ∷ tasks) (there, h) =
      elim (Option-cases (offered now l roles reg t row)) [
        | inl passed ↦ rw (offers-passed limit t row tasks passed) (offers-CanClaim limit tasks h)
        | inr (o, listed) ↦
            let first = take_offered t row o there listed in
            rw (offers-listed limit t row tasks o listed) (
              first,
              elim (Bool-cases (ltb 1 limit)) [
                | inl more ↦ rw more (offers-CanClaim (limit - 1) tasks h)
                | inr last ↦ rw last tt
              ],
            )
      ]

  -- When the admission bound is not reached, no lock is held and every claim on record is a lease,
  -- an agent with a valid name can claim each task that `available` lists, in the role listed and
  -- at the revision listed.
  pub available-CanClaim :
      (limit : ℕ)
      → IsSorted w.tasks
      → All
          (CanClaim now bound l session_id name w reg)
          (available now bound l roles limit w reg).available
  unfolding available
  available-CanClaim limit sorted = offers-CanClaim limit w.tasks (find_rows w.tasks sorted)
