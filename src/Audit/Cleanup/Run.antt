-- ===== src/Audit/Cleanup/Run.antt =====
-- executeCleanupJob of internal/audit/cleanup.go: a cleanup job that runs alone comes to an end.
use newapi_usage.Prelude.{
  ℕ, zero, suc, ◌+◌, ◌≤◌, ◌<◌, ◌≡◌, refl, sym, subst, ◌∙◌, ◌⊎◌, inl, inr, Bool, true, false, Option,
  none, some, List, [], ◌∷◌, ◌++◌, map, arith, ◌==◌, length, Bool-cases, select_where, delete_where,
  sort_by, In, here, there, take-In, sort_by-In, select_where-In,
}
use newapi_usage.Audit.Types.{CleanupStatus, running, completed, canceled, CleanupJob}
use newapi_usage.Audit.Cleanup.{
  Store, CatalogRow, Alert, in_cleanup, join_entries, cleanup_entry_rows, cleanup_entry_batch,
  delete_entries, cleanup_alert_rows, cleanup_alert_batch, delete_alerts, catalog_order,
  alert_order, cleanup_entry_batch_size, cleanup_alert_batch_size,
}
use newapi_usage.Audit.Cleanup.Lifecycle.{cancel_requested, finish_cleanup_job}
use newapi_usage.Audit.Cleanup.Asked.{
  row, requested, status_of, cancel_requested-row, delete_entries-row, delete_alerts-row,
  finish-status,
}
use newapi_usage.Review.Database.{AuditRow}
use newapi_usage.Review.Jobs.Input.{contains_id}

-- `lost` is the error of a job whose row is gone.
pub data CleanupEnd : Type 0 where
  cleaned stopped lost out_of_fuel : CleanupEnd

module _ (now : ℕ) (j : CleanupJob) where
  -- The two loops: on entries, then on alerts. Each asks before a batch whether the job is canceled.
  unfoldable pub alert_loop : ℕ → Store → Store × CleanupEnd
  alert_loop zero s = (s, out_of_fuel)
  alert_loop (suc fuel) s = elim (cancel_requested s j.id) [
    | none ↦ (s, lost)
    | some asked ↦ elim asked [
      | true ↦ (finish_cleanup_job s now j.id canceled, stopped)
      | false ↦
          let (s', n) = cleanup_alert_batch now s j in
          elim (n == 0) [
            | true ↦ (finish_cleanup_job s' now j.id completed, cleaned)
            | false ↦ alert_loop fuel s'
          ]
    ]
  ]

  unfoldable pub execute_cleanup_job : ℕ → Store → Store × CleanupEnd
  execute_cleanup_job zero s = (s, out_of_fuel)
  execute_cleanup_job (suc fuel) s = elim (cancel_requested s j.id) [
    | none ↦ (s, lost)
    | some asked ↦ elim asked [
      | true ↦ (finish_cleanup_job s now j.id canceled, stopped)
      | false ↦
          let (s', n) = cleanup_entry_batch now s j in
          elim (n == 0) [ true ↦ alert_loop fuel s' | false ↦ execute_cleanup_job fuel s' ]
    ]
  ]

module _ {A : Type 0} where
  length-delete-le : (q : A → Bool) (xs : List A) → length (delete_where q xs) ≤ length xs
  unfolding delete_where
  length-delete-le q [] = omega arith
  length-delete-le q (x ∷ xs) = elim (Bool-cases (q x)) [
    | inl e ↦ rw e (omega (arith, length-delete-le q xs))
    | inr e ↦ rw e (omega (arith, length-delete-le q xs))
  ]

  length-delete-lt :
      (q : A → Bool) (x : A) (xs : List A)
      → In x xs
      → q x ≡ true
      → length (delete_where q xs) < length xs
  unfolding delete_where
  length-delete-lt q x [] m h = elim m [ ]
  length-delete-lt q x (y ∷ xs) here h = rw h (omega (arith, length-delete-le q xs))
  length-delete-lt q x (y ∷ xs) (there m) h = elim (Bool-cases (q y)) [
    | inl e ↦ rw e (omega (arith, length-delete-lt q x xs m h))
    | inr e ↦ rw e (omega (arith, length-delete-lt q x xs m h))
  ]

  list-cases : (xs : List A) → (xs ≡ []) ⊎ ((x : A) × (rest : List A) × (xs ≡ x ∷ rest))
  list-cases [] = inl refl
  list-cases (x ∷ rest) = inr (x, rest, refl)

asked-cases : (o : Option Bool) → (o ≡ none) ⊎ (o ≡ some false) ⊎ (o ≡ some true)
asked-cases none = inl refl
asked-cases (some false) = inr (inl refl)
asked-cases (some true) = inr (inr refl)

In-append-cases : {x : AuditRow} (xs ys : List AuditRow) → In x (xs ++ ys) → In x xs ⊎ In x ys
In-append-cases [] ys m = inr m
In-append-cases (y ∷ xs) ys here = inl here
In-append-cases (y ∷ xs) ys (there m) = elim (In-append-cases xs ys m) [
  | inl a ↦ inl (there a)
  | inr b ↦ inr b
]

join_entries-In :
    (rows : List AuditRow) (cs : List CatalogRow) (r : AuditRow)
    → In r (join_entries rows cs)
    → (c : CatalogRow) × In c cs × (r.id ≡ c.audit_entry_id)
unfolding join_entries
join_entries-In rows [] r m = elim m [ ]
join_entries-In rows (c ∷ cs) r m =
    elim (In-append-cases (select_where (λ x. x.id == c.audit_entry_id) rows) (join_entries rows cs)
      m) [
        | inl a ↦ (
          c,
          here,
          same c r (select_where-In (λ (x : AuditRow). x.id == c.audit_entry_id) {x = r} rows a).1,
        )
        | inr b ↦ let (d, i, e) = join_entries-In rows cs r b in (d, there i, e)
      ]
  where
    same :
        (c : CatalogRow) (r : AuditRow)
        → (r.id == c.audit_entry_id) ≡ true
        → r.id ≡ c.audit_entry_id
    same c r h = ground arith

first_contained : (ids : List ℕ) (x y : ℕ) → x ≡ y → contains_id (x ∷ ids) y ≡ true
unfolding contains_id
first_contained ids x y h = ground (arith, h)

-- A batch of entries leaves fewer rows in the catalog.
entry_batch-lt :
    (now : ℕ) (s : Store) (j : CleanupJob) (r : AuditRow) (rs : List AuditRow)
    → cleanup_entry_rows s j ≡ r ∷ rs
    → length (delete_entries now s j (r ∷ rs)).catalog < length s.catalog
unfolding cleanup_entry_rows delete_entries
entry_batch-lt now s j r rs h =
    let q : CatalogRow → Bool = λ c. in_cleanup j c.created_at in
    let joined = take-In cleanup_entry_batch_size _ (subst (In r) (sym h) here) in
    let (c, i, e) =
      join_entries-In s.review.audit_entries (sort_by catalog_order (select_where q s.catalog)) r
        joined in
    let found = select_where-In q {x = c} s.catalog (sort_by-In catalog_order _ i) in
    length-delete-lt _ c s.catalog found.0
      (first_contained (map (λ (x : AuditRow). x.id) rs) r.id c.audit_entry_id e)

alert_batch-lt :
    (now : ℕ) (s : Store) (j : CleanupJob) (a : Alert) (rest : List Alert)
    → cleanup_alert_rows s j ≡ a ∷ rest
    → length (delete_alerts now s j (a ∷ rest)).alerts < length s.alerts
unfolding cleanup_alert_rows delete_alerts
alert_batch-lt now s j a rest h =
    let q : Alert → Bool = λ x. in_cleanup j x.request_at in
    let found =
      select_where-In q {x = a} s.alerts (
        sort_by-In alert_order _
          (take-In cleanup_alert_batch_size _ (subst (In a) (sym h) here))) in
    length-delete-lt _ a s.alerts found.0
      (first_contained (map (λ (x : Alert). x.id) rest) a.id a.id refl)

-- What a statement on the cleanup jobs does not touch.
finished_rows :
    (s : Store) (now id : ℕ) (status : CleanupStatus) (j : CleanupJob)
    → (cleanup_entry_rows (finish_cleanup_job s now id status) j ≡ cleanup_entry_rows s j)
      × (cleanup_alert_rows (finish_cleanup_job s now id status) j ≡ cleanup_alert_rows s j)
unfolding finish_cleanup_job cleanup_entry_rows cleanup_alert_rows
finished_rows s now id status j = (refl, refl)

alerts_rows :
    (now : ℕ) (s : Store) (j : CleanupJob) (batch : List Alert)
    → cleanup_entry_rows (delete_alerts now s j batch) j ≡ cleanup_entry_rows s j
unfolding delete_alerts cleanup_entry_rows
alerts_rows now s j batch = refl

entries_alerts-le :
    (now : ℕ) (s : Store) (j : CleanupJob) (batch : List AuditRow)
    → length (delete_entries now s j batch).alerts ≤ length s.alerts
unfolding delete_entries
entries_alerts-le now s j batch = length-delete-le _ s.alerts

-- How a job ends whose row was asked to stop or not, and had this status.
abbrev pub EndedFrom : Option Bool → Option CleanupStatus → CleanupJob → Store × CleanupEnd → Type 0
EndedFrom asked status j r =
    ((r.1 ≡ stopped)
      × (asked ≡ some true)
      × (status ≡ some running → status_of (row r.0 j.id) ≡ some canceled))
    ⊎ ((r.1 ≡ lost) × (asked ≡ none))
    ⊎ ((r.1 ≡ cleaned)
        × (asked ≡ some false)
        × (status ≡ some running → status_of (row r.0 j.id) ≡ some completed)
        × (cleanup_entry_rows r.0 j ≡ [])
        × (cleanup_alert_rows r.0 j ≡ []))

-- The row of the job is gone, or it asks to stop, or nothing of the job's range is left.
abbrev pub Ended : CleanupJob → Store → Store × CleanupEnd → Type 0
Ended j s = EndedFrom (requested (row s j.id)) (status_of (row s j.id)) j

Ended-same :
    (j : CleanupJob) (s t : Store) (r : Store × CleanupEnd)
    → (requested (row t j.id) ≡ requested (row s j.id))
      × (status_of (row t j.id) ≡ status_of (row s j.id))
    → Ended j t r
    → Ended j s r
Ended-same j s t r e h = rw (← e.0, ← e.1) h

module _ (now : ℕ) (j : CleanupJob) where
  not_empty : {A : Type 0} (x : A) (xs : List A) → (length (x ∷ xs) == 0) ≡ false
  not_empty x xs = ground arith

  alert_batch_none :
      (s : Store)
      → cleanup_alert_rows s j ≡ []
      → ((cleanup_alert_batch now s j).0 ≡ s) × (((cleanup_alert_batch now s j).1 == 0) ≡ true)
  unfolding cleanup_alert_batch
  alert_batch_none s e = rw (e, cleanup_alert_batch) (refl, refl)

  alert_batch_some :
      (s : Store) (a : Alert) (rest : List Alert)
      → cleanup_alert_rows s j ≡ a ∷ rest
      → ((cleanup_alert_batch now s j).0 ≡ delete_alerts now s j (a ∷ rest))
        × (((cleanup_alert_batch now s j).1 == 0) ≡ false)
  unfolding cleanup_alert_batch
  alert_batch_some s a rest e = rw (e, cleanup_alert_batch) (refl, not_empty a rest)

  entry_batch_none :
      (s : Store)
      → cleanup_entry_rows s j ≡ []
      → ((cleanup_entry_batch now s j).0 ≡ s) × (((cleanup_entry_batch now s j).1 == 0) ≡ true)
  unfolding cleanup_entry_batch
  entry_batch_none s e = rw (e, cleanup_entry_batch) (refl, refl)

  entry_batch_some :
      (s : Store) (r : AuditRow) (rs : List AuditRow)
      → cleanup_entry_rows s j ≡ r ∷ rs
      → ((cleanup_entry_batch now s j).0 ≡ delete_entries now s j (r ∷ rs))
        × (((cleanup_entry_batch now s j).1 == 0) ≡ false)
  unfolding cleanup_entry_batch
  entry_batch_some s r rs e = rw (e, cleanup_entry_batch) (refl, not_empty r rs)

  alert_loop-Ended :
      (fuel : ℕ) (s : Store)
      → length s.alerts < fuel
      → cleanup_entry_rows s j ≡ []
      → Ended j s (alert_loop now j fuel s)
  unfolding alert_loop
  alert_loop-Ended zero s lt drained = absurd (omega arith)
  alert_loop-Ended (suc fuel) s lt drained = elim (asked-cases (requested (row s j.id))) [
    | inr (inr asked) ↦
        rw (cancel_requested-row s j.id ∙ asked, alert_loop)
          (inl (refl, asked, finish-status s now j.id canceled))
    | inl gone ↦ rw (cancel_requested-row s j.id ∙ gone, alert_loop) (inr (inl (refl, gone)))
    | inr (inl on) ↦ elim (list-cases (cleanup_alert_rows s j)) [
      | inl e ↦
          let kept = finished_rows s now j.id completed j in
          let b = alert_batch_none s e in
          rw (cancel_requested-row s j.id ∙ on, b.1, b.0, alert_loop)
            (inr (inr (refl, on, finish-status s now j.id completed, kept.0 ∙ drained, kept.1 ∙ e)))
      | inr (a, rest, e) ↦
          let s' = delete_alerts now s j (a ∷ rest) in
          let b = alert_batch_some s a rest e in
          rw (cancel_requested-row s j.id ∙ on, b.1, b.0, alert_loop)
            (Ended-same j s s' _ (delete_alerts-row now s j (a ∷ rest)) (
              alert_loop-Ended fuel s' (omega (arith, alert_batch-lt now s j a rest e, lt))
                (alerts_rows now s j (a ∷ rest) ∙ drained)))
    ]
  ]

  -- A cleanup job that runs alone comes to an end within two more rounds than there are rows in the
  -- catalog and alerts. Where its row asks to stop it stops, and a row that is running becomes canceled;
  -- where it has no row it is lost; and where its row does not ask to stop, no audited request that the
  -- catalog places in its range and no alert of its range is left, and a row that is running becomes
  -- completed.
  pub execute_cleanup_job-Ended :
      (fuel : ℕ) (s : Store)
      → length s.catalog + length s.alerts + 1 < fuel
      → Ended j s (execute_cleanup_job now j fuel s)
  unfolding execute_cleanup_job
  execute_cleanup_job-Ended zero s lt = absurd (omega arith)
  execute_cleanup_job-Ended (suc fuel) s lt = elim (asked-cases (requested (row s j.id))) [
    | inr (inr asked) ↦
        rw (cancel_requested-row s j.id ∙ asked, execute_cleanup_job)
          (inl (refl, asked, finish-status s now j.id canceled))
    | inl gone ↦
        rw (cancel_requested-row s j.id ∙ gone, execute_cleanup_job) (inr (inl (refl, gone)))
    | inr (inl on) ↦ elim (list-cases (cleanup_entry_rows s j)) [
      | inl e ↦
          let b = entry_batch_none s e in
          rw (cancel_requested-row s j.id ∙ on, b.1, b.0, execute_cleanup_job)
            (alert_loop-Ended fuel s (omega (arith, lt)) e)
      | inr (r, rs, e) ↦
          let s' = delete_entries now s j (r ∷ rs) in
          let b = entry_batch_some s r rs e in
          rw (cancel_requested-row s j.id ∙ on, b.1, b.0, execute_cleanup_job)
            (Ended-same j s s' _ (delete_entries-row now s j (r ∷ rs)) (
              execute_cleanup_job-Ended fuel s' (
                omega
                  (arith, entry_batch-lt now s j r rs e, entries_alerts-le now s j (r ∷ rs), lt))))
    ]
  ]
