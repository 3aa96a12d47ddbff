-- ===== src/Journal/Staging.antt =====
-- Staging a scope and reading it back.
use orchd_ai.Prelude.{
  ℕ, ◌≡◌, refl, sym, ap, subst, ◌∙◌, true, false, some, some-eq, [], ◌∷◌, arith, ltb, ◌==◌, ok,
  ok-bind, ok-eq, ok-raise_if, ok-or_raise,
}
use orchd_ai.Table.{Table, find, put, find-put}
use orchd_ai.Journal.{Family, Intent, Journal, not_a_journal, too_large, live_rows, get}
use orchd_ai.Journal.Succession.{Disk}
use orchd_ai.Journal.Operations.{staged, already_bound, admit, settle, stage_scope}
use orchd_ai.Journal.Lives.{get-Valid, admit-Grows}

module _ {ℓ} {V : Type ℓ} where
  put-again : (k : ℕ) (v : V) (t : Table V) → put k v (put k v t) ≡ put k v t
  unfolding put
  put-again k v [] = ground arith
  put-again k v ((j, w) ∷ t) = ground (arith, put-again k v t)

module _ {S : Type 0} where
  -- After an admission the clause finds the new row alone.
  live_rows-put :
      (operation task : ℕ) (i : Intent S) (t : Table (Intent S))
      → live_rows operation task t ≡ []
      → live_rows operation task (put operation i t) ≡ (operation, i) ∷ []
  unfolding live_rows put
  live_rows-put operation task i [] free = ground arith
  live_rows-put operation task i ((k, x) ∷ t) free =
      ground (arith, live_rows-put operation task i t)

module _ {S : Type 0} (f : Family S) where
  -- A row alone that is the scope's.
  bound_alone :
      (scope : S) (j : Journal S) (kept : Intent S)
      → get f (f.operation_of scope) j ≡ ok kept
      → (kept.sha == f.digest scope) ≡ true
      → already_bound f scope ((f.operation_of scope, staged f scope) ∷ []) j ≡ ok tt
  unfolding already_bound
  bound_alone scope j kept read own = rw read (ground (arith, own))

  admit-again :
      (disk : Disk S) (path : ℕ) (scope : S) (j : Journal S) {j' : Journal S} {kept : Intent S}
      → live_rows (f.operation_of scope) (f.task_of scope) j.intents ≡ []
      → admit f disk path scope j ≡ ok j'
      → get f (f.operation_of scope) j' ≡ ok kept
      → (disk' : Disk S)
      → settle f disk' path scope (live_rows (f.operation_of scope) (f.task_of scope) j'.intents) j'
        ≡ ok j'
  unfolding settle
  admit-again disk path scope j {j'} {kept} free admitted read disk' =
      let operation = f.operation_of scope in
      let made = (admit-Grows f disk path scope j free admitted).0 in
      let rows : live_rows operation (f.task_of scope) j'.intents
          ≡ (operation, staged f scope) ∷ [] =
        subst
          (λ (x : Journal S).
            live_rows operation (f.task_of scope) x.intents ≡ (operation, staged f scope) ∷ [])
          made (live_rows-put operation (f.task_of scope) (staged f scope) j.intents free) in
      let is_staged : staged f scope ≡ kept = some-eq (
        sym (find-put operation operation (staged f scope) j.intents ∙ ground arith)
        ∙ ap (λ (x : Journal S). find operation x.intents) made
        ∙ (get-Valid f operation j' read).0) in
      let own : (kept.sha == f.digest scope) ≡ true =
        subst (λ (x : Intent S). (x.sha == f.digest scope) ≡ true) is_staged (ground arith) in
      rw rows (rw (bound_alone scope j' kept read own) refl)

  settle-again :
      (disk : Disk S) (path : ℕ) (scope : S) (existing : Table (Intent S)) (j : Journal S)
      {j' : Journal S} {kept : Intent S}
      → live_rows (f.operation_of scope) (f.task_of scope) j.intents ≡ existing
      → settle f disk path scope existing j ≡ ok j'
      → get f (f.operation_of scope) j' ≡ ok kept
      → (disk' : Disk S)
      → settle f disk' path scope (live_rows (f.operation_of scope) (f.task_of scope) j'.intents) j'
        ≡ ok j'
  unfolding settle
  settle-again disk path scope [] j free settled read disk' =
      admit-again disk path scope j free settled read disk'
  settle-again disk path scope (row ∷ more) j {j'} found settled read disk' =
      let (_, same, _) = ok-bind (already_bound f scope (row ∷ more) j) settled in
      let stays : settle f disk' path scope
            (live_rows (f.operation_of scope) (f.task_of scope) j.intents) j
          ≡ ok j' =
        rw found settled in
      subst
        (λ (x : Journal S).
          settle f disk' path scope (live_rows (f.operation_of scope) (f.task_of scope) x.intents) x
          ≡ ok j')
        (ok-eq same) stays

  -- A staging of which each step is known.
  stage_scope-steps :
      (disk : Disk S) (path : ℕ) (scope : S) (j : Journal S) (kept : Intent S)
      → find path disk ≡ some j
      → ltb f.max_scope (f.bytes scope) ≡ false
      → settle f disk path scope (live_rows (f.operation_of scope) (f.task_of scope) j.intents) j
        ≡ ok j
      → get f (f.operation_of scope) j ≡ ok kept
      → put path j disk ≡ disk
      → stage_scope f disk path scope ≡ ok (disk, kept)
  unfolding stage_scope
  stage_scope-steps disk path scope j kept there fits settled read same =
      rw (there, fits, settled, read, same) refl

  -- A scope that was staged is there to read under its operation, and staging it again, which
  -- succeeds, changes nothing and gives the same record.
  pub stage_scope-again :
      (disk : Disk S) (path : ℕ) (scope : S) (out : Disk S × Intent S)
      → stage_scope f disk path scope ≡ ok out
      → ((j : Journal S) × (find path out.0 ≡ some j) × (get f (f.operation_of scope) j ≡ ok out.1))
        × (stage_scope f out.0 path scope ≡ ok out)
  unfolding stage_scope
  stage_scope-again disk path scope out h =
      let (j, h1, there) = ok-or_raise (find path disk) not_a_journal h in
      let (fits, h2) = ok-raise_if (ltb f.max_scope (f.bytes scope)) too_large h1 in
      let existing = live_rows (f.operation_of scope) (f.task_of scope) j.intents in
      let (j', h3, settled) = ok-bind (settle f disk path scope existing j) h2 in
      let (kept, end, read) = ok-bind (get f (f.operation_of scope) j') h3 in
      let disk' = put path j' disk in
      let again = settle-again disk path scope existing j refl settled read disk' in
      let found : find path disk' ≡ some j' = find-put path path j' disk ∙ ground arith in
      subst
        (λ (o : Disk S × Intent S).
          ((x : Journal S) × (find path o.0 ≡ some x) × (get f (f.operation_of scope) x ≡ ok o.1))
          × (stage_scope f o.0 path scope ≡ ok o))
        (ok-eq end)
        (
          (j', found, read),
          stage_scope-steps disk' path scope j' kept found fits again read (put-again path j' disk),
        )
