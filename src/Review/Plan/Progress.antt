-- ===== src/Review/Plan/Progress.antt =====
-- planJob ends: each batch moves the cursor past rows that no later batch reads.
use newapi_usage.Prelude.{
  ℕ, zero, suc, ◌≤◌, ◌<◌, ◌≡◌, ◌≢◌, refl, sym, subst, ◌∙◌, inl, inr, Bool, true, false, ◌&&◌, List,
  [], ◌∷◌, some, arith, length, Bool-cases, Option-cases, count_where, In, here, there, take-In,
  sort_by-In, select_where-In, delete_where,
}
use newapi_usage.Review.Types.{Job}
use newapi_usage.Review.Database.{Database, AuditRow}
use newapi_usage.Review.Planner.{Runtime, AuditRequest, Branch, plan_requests}
use newapi_usage.Review.Worker.Calls.{Outside}
use newapi_usage.Review.Plan.{
  scan_audit_requests, scanned, by_cursor, after_cursor, in_range, batch_rows, insert_batch,
  ensure_job_active, Planned, PlanEnd, planned, stopped, out_of_fuel, plan_failed, Totals,
  no_totals, count_planned, last_cursor, with_branches, load_anchor_branches, plan_batches,
  plan_token, if_planned, plan_tokens, finish_plan, plan_job, is_own, plan_batch_size,
}
use newapi_usage.Review.Plan.Scope.{
  Scanned-cases, Anchors-cases, insert_batch-Scoped, plan_token-Scoped,
}

-- The rows that the batches from this cursor on may still read.
unfoldable rows_left : List AuditRow → Job → ℕ → ℕ × ℕ → ℕ
rows_left rows j token c = count_where (λ r. in_range j token r && after_cursor c r) rows

count-le :
    {p q : AuditRow → Bool} (rows : List AuditRow)
    → ((r : AuditRow) → p r ≡ true → q r ≡ true)
    → count_where p rows ≤ count_where q rows
unfolding count_where
count-le [] imp = omega arith
count-le {p} {q} (r ∷ rows) imp = elim (Bool-cases (p r)) [
  | inl e ↦ rw (e, imp r e) (omega (arith, count-le rows imp))
  | inr e ↦ rw e (omega (arith, count-le rows imp))
]

count-lt :
    {p q : AuditRow → Bool} (rows : List AuditRow) (x : AuditRow)
    → ((r : AuditRow) → p r ≡ true → q r ≡ true)
    → In x rows
    → p x ≡ false
    → q x ≡ true
    → count_where p rows < count_where q rows
unfolding count_where
count-lt [] x imp m misses hits = elim m [ ]
count-lt (r ∷ rows) x imp here misses hits = rw (misses, hits) (omega (arith, count-le rows imp))
count-lt {p} {q} (r ∷ rows) x imp (there m) misses hits = elim (Bool-cases (p r)) [
  | inl e ↦ rw (e, imp r e) (omega (arith, count-lt rows x imp m misses hits))
  | inr e ↦ rw e (omega (arith, count-lt rows x imp m misses hits))
]

count-length : (p : AuditRow → Bool) (rows : List AuditRow) → count_where p rows ≤ length rows
unfolding count_where
count-length p [] = omega arith
count-length p (r ∷ rows) = elim (Bool-cases (p r)) [
  | inl e ↦ rw e (omega (arith, count-length p rows))
  | inr e ↦ rw e (omega (arith, count-length p rows))
]

rows_left-le :
    (rows : List AuditRow) (j : Job) (token : ℕ) (c : ℕ × ℕ)
    → rows_left rows j token c ≤ length rows
unfolding rows_left
rows_left-le rows j token c = count-length _ rows

last-In :
    (c : ℕ × ℕ) (r : AuditRow) (rs : List AuditRow)
    → (x : AuditRow) × In x (r ∷ rs) × (last_cursor c (r ∷ rs) ≡ (x.created_at, x.id))
last-In c r [] = (r, here, refl)
last-In c r (s ∷ rs) = let (x, m, e) = last-In (r.created_at, r.id) s rs in (x, there m, e)

after_cursor_trans :
    (c : ℕ × ℕ) (x r : AuditRow)
    → after_cursor c x ≡ true
    → after_cursor (x.created_at, x.id) r ≡ true
    → after_cursor c r ≡ true
unfolding after_cursor
after_cursor_trans (time, id) x r h g = ground arith

after_cursor_irrefl : (x : AuditRow) → after_cursor (x.created_at, x.id) x ≡ false
unfolding after_cursor
after_cursor_irrefl x = ground arith

batch_rows-In :
    (db : Database) (j : Job) (token : ℕ) (c : ℕ × ℕ) (x : AuditRow)
    → In x (batch_rows db j token c)
    → In x db.audit_entries × ((in_range j token x && after_cursor c x) ≡ true)
unfolding batch_rows
batch_rows-In db j token c x m =
    select_where-In (λ y. in_range j token y && after_cursor c y) {x = x} db.audit_entries
      (sort_by-In by_cursor _ (take-In plan_batch_size _ m))

-- A batch with rows leaves fewer rows for the next one.
rows_left-lt :
    (db : Database) (j : Job) (token : ℕ) (c : ℕ × ℕ) (r : AuditRow) (rs : List AuditRow)
    → batch_rows db j token c ≡ r ∷ rs
    → rows_left db.audit_entries j token (last_cursor c (batch_rows db j token c))
      < rows_left db.audit_entries j token c
unfolding rows_left
rows_left-lt db j token c r rs h =
    let (x, m, e) = last-In c r rs in
    let found = batch_rows-In db j token c x (subst (In x) (sym h) m) in
    let both = and_parts _ _ found.1 in
    rw (h, e)
      (count-lt db.audit_entries x
        (λ y a. let b = and_parts _ _ a in and_true _ _ b.0 (after_cursor_trans c x y both.1 b.1))
        found.0 (and_false _ _ (after_cursor_irrefl x)) found.1)
  where
    and_parts : (a b : Bool) → (a && b) ≡ true → (a ≡ true) × (b ≡ true)
    and_parts a b h = ground arith

    and_true : (a b : Bool) → a ≡ true → b ≡ true → (a && b) ≡ true
    and_true a b h g = ground arith

    and_false : (a b : Bool) → b ≡ false → (a && b) ≡ false
    and_false a b h = ground arith

-- Rows that scan to a request are rows.
scanned-rows :
    (out : Outside) (rows : List AuditRow) (q : AuditRequest) (qs : List AuditRequest)
    → scan_audit_requests out rows ≡ scanned (q ∷ qs)
    → (r : AuditRow) × (rs : List AuditRow) × (rows ≡ r ∷ rs)
unfolding scan_audit_requests
scanned-rows out [] q qs h = cc
scanned-rows out (r ∷ rs) q qs h = (r, rs, refl)

-- The check of the status never ends with the fuel.
active_end :
    (db : Database) (id : ℕ) (e : PlanEnd) → ensure_job_active db id ≡ some e → e ≢ out_of_fuel
unfolding ensure_job_active
active_end db id e h = λ g. ground (arith, h, g)

module _ (rt : Runtime) (out : Outside) (now : ℕ) (j : Job) where
  plan_batches-ends :
      (fuel : ℕ) (db : Database) (token : ℕ) (bs : List Branch) (c : ℕ × ℕ) (t : Totals)
      → rows_left db.audit_entries j token c < fuel
      → (plan_batches rt out now j fuel db token bs c t).end ≢ out_of_fuel
  unfolding plan_batches
  plan_batches-ends zero db token bs c t lt = absurd (omega arith)
  plan_batches-ends (suc fuel) db token bs c t lt =
      elim (Scanned-cases (scan_audit_requests out (batch_rows db j token c))) [
        | inl (e, h) ↦ rw (h, plan_batches) (λ g. cc)
        | inr ([], h) ↦ rw (h, plan_batches) (λ g. cc)
        | inr (q ∷ qs, h) ↦
            let db' = insert_batch rt out now j db bs (q ∷ qs) in
            let c' = last_cursor c (batch_rows db j token c) in
            let (r, rs, some_rows) = scanned-rows out (batch_rows db j token c) q qs h in
            let same = (insert_batch-Scoped rt out now j db bs (q ∷ qs)).audit in
            let fewer = rows_left-lt db j token c r rs some_rows in
            elim (Option-cases (ensure_job_active db' j.id)) [
              | inl go ↦
                  rw (h, go, plan_batches)
                    (plan_batches-ends fuel db' token (with_branches rt out now j bs (q ∷ qs)) c'
                      (count_planned t (plan_requests rt (q ∷ qs) bs j.role_mode))
                      (rw same (omega (arith, fewer, lt))))
              | inr (e, stop) ↦ rw (h, stop, plan_batches) (active_end db' j.id e stop)
            ]
      ]

  plan_token-ends :
      (fuel : ℕ) (db : Database) (token : ℕ) (t : Totals)
      → length db.audit_entries < fuel
      → (plan_token rt out now j fuel db token t).end ≢ out_of_fuel
  unfolding plan_token
  plan_token-ends fuel db token t lt = elim (Option-cases (ensure_job_active db j.id)) [
    | inr (e, stop) ↦ rw (stop, plan_token) (active_end db j.id e stop)
    | inl go ↦ elim (Anchors-cases (load_anchor_branches rt out now j db token)) [
      | inl (e, h) ↦ rw (go, h, plan_token) (λ g. cc)
      | inr (bs, h) ↦
          rw (go, h, plan_token)
            (plan_batches-ends fuel db token bs (0, 0) t
              (omega (arith, rows_left-le db.audit_entries j token (0, 0), lt)))
    ]
  ]

  plan_tokens-ends :
      (fuel : ℕ) (db : Database) (tokens : List ℕ) (t : Totals)
      → length db.audit_entries < fuel
      → (plan_tokens rt out now j fuel db tokens t).end ≢ out_of_fuel
  unfolding plan_tokens
  plan_tokens-ends fuel db [] t lt = λ g. cc
  plan_tokens-ends fuel db (token ∷ tokens) t lt =
      let p = plan_token rt out now j fuel db token t in
      next_key p.end p (plan_tokens rt out now j fuel p.database tokens p.totals)
        (plan_token-ends fuel db token t lt) refl
        (plan_tokens-ends fuel p.database tokens p.totals
          (rw (plan_token-Scoped rt out now j fuel db token t).audit lt))
    where
      next_key :
          (e : PlanEnd) (p next : Planned)
          → e ≢ out_of_fuel
          → p.end ≡ e
          → next.end ≢ out_of_fuel
          → (if_planned e next p).end ≢ out_of_fuel
      next_key planned p next h same more = more
      next_key stopped p next h same more = λ g. h (sym same ∙ g)
      next_key out_of_fuel p next h same more = absurd (h refl)
      next_key (plan_failed m) p next h same more = λ g. h (sym same ∙ g)

  -- The planning of a job comes to an end within one more batch for each key than there are audited
  -- entries, whatever the tables hold: the cursor moves past rows with every batch.
  pub plan_job-ends :
      (fuel : ℕ) (db : Database)
      → length db.audit_entries < fuel
      → (plan_job rt out now fuel db j).1 ≢ out_of_fuel
  unfolding plan_job finish_plan
  plan_job-ends fuel db lt =
      let cleared : Database = record db { entries = delete_where (is_own j.id) db.entries } in
      let p = plan_tokens rt out now j fuel cleared j.token_ids no_totals in
      finished p.end p (plan_tokens-ends fuel cleared j.token_ids no_totals lt)
    where
      finished :
          (e : PlanEnd) (p : Planned)
          → e ≢ out_of_fuel
          → (finish_plan now j.id (record p { end = e })).1 ≢ out_of_fuel
      finished planned p h = λ g. cc
      finished stopped p h = λ g. cc
      finished out_of_fuel p h = absurd (h refl)
      finished (plan_failed m) p h = λ g. cc
