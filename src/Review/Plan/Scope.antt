-- ===== src/Review/Plan/Scope.antt =====
-- What planJob leaves alone, and the rows it writes.
use newapi_usage.Prelude.{
  ℕ, zero, suc, ◌≡◌, refl, ap, ◌∙◌, ◌⊎◌, inl, inr, Bool, true, false, not, Text, List, [], ◌∷◌,
  ◌++◌, arith, ◌==◌, All, All-append, Bool-cases, Option-cases, select_where, delete_where,
}
use newapi_usage.Review.Types.{Job, Entry, is_pending}
use newapi_usage.Review.Database.{Database}
use newapi_usage.Review.Planner.{Runtime, AuditRequest, Branch, PlannedEntry, plan_requests}
use newapi_usage.Review.Worker.Calls.{Outside}
use newapi_usage.Review.Plan.{
  Scanned, Anchors, PlanEnd, scan_audit_requests, scanned, unscanned, batch_rows, new_entry,
  same_key, insert_planned_entries, insert_batch, ensure_job_active, Planned, planned, stopped,
  out_of_fuel, plan_failed, Totals, no_totals, count_planned, last_cursor, with_branches,
  load_anchor_branches, anchors, no_anchors, plan_batches, plan_token, if_planned, plan_tokens,
  finish_plan, plan_job, is_own,
}

abbrev pub is_foreign : ℕ → Entry → Bool
is_foreign id e = not (is_own id e)

-- A row of the job as the planner writes it: pending, with no stored result under its two ids of
-- results, no inherited decision, no error and no tokens.
abbrev pub Unsettled : ℕ → Entry → Type 0
Unsettled id e =
    e.job_id ≡ id
    → (is_pending e.status ≡ true)
      × (e.result_id ≡ 0)
      × (e.effective_result_id ≡ 0)
      × (e.inherited ≡ false)
      × (e.error_text ≡ [])
      × (e.cache_hit ≡ false)
      × (e.prompt_tokens ≡ 0)
      × (e.completion_tokens ≡ 0)

-- What the insertions of planJob keep.
pub record Scoped (id : ℕ) (db db' : Database) : Type 0 where
  pub jobs : db'.jobs ≡ db.jobs
  pub audit : db'.audit_entries ≡ db.audit_entries
  pub others : select_where (is_foreign id) db'.entries ≡ select_where (is_foreign id) db.entries
  pub fresh : All (Unsettled id) db.entries → All (Unsettled id) db'.entries

Scoped-refl : (id : ℕ) (db : Database) → Scoped id db db
Scoped-refl id db = record { jobs = refl; audit = refl; others = refl; fresh = λ h. h }

Scoped-trans : (id : ℕ) (a b c : Database) → Scoped id a b → Scoped id b c → Scoped id a c
Scoped-trans id a b c f g = record {
  jobs = g.jobs ∙ f.jobs;
  audit = g.audit ∙ f.audit;
  others = g.others ∙ f.others;
  fresh = λ h. g.fresh (f.fresh h);
}

-- A row of the job goes: the others stay.
foreign-delete :
    (id : ℕ) (q : Entry → Bool) (es : List Entry)
    → ((e : Entry) → q e ≡ true → is_own id e ≡ true)
    → select_where (is_foreign id) (delete_where q es) ≡ select_where (is_foreign id) es
unfolding select_where delete_where
foreign-delete id q [] own = refl
foreign-delete id q (e ∷ es) own = elim (Bool-cases (q e)) [
  | inl hit ↦ rw (hit, own e hit) (foreign-delete id q es own)
  | inr miss ↦ elim (Bool-cases (is_own id e)) [
    | inl mine ↦ rw (miss, mine) (foreign-delete id q es own)
    | inr its ↦ rw (miss, its) (ap (◌∷◌ e) (foreign-delete id q es own))
  ]
]

foreign-append :
    (id : ℕ) (es : List Entry) (e : Entry)
    → is_own id e ≡ true
    → select_where (is_foreign id) (es ++ e ∷ []) ≡ select_where (is_foreign id) es
unfolding select_where
foreign-append id [] e own = rw own refl
foreign-append id (x ∷ es) e own = elim (Bool-cases (is_own id x)) [
  | inl mine ↦ rw mine (foreign-append id es e own)
  | inr its ↦ rw its (ap (◌∷◌ x) (foreign-append id es e own))
]

All-delete :
    (P : Entry → Type 0) (q : Entry → Bool) (es : List Entry) → All P es → All P (delete_where q es)
unfolding delete_where
All-delete P q [] h = tt
All-delete P q (e ∷ es) h = elim (Bool-cases (q e)) [
  | inl hit ↦ rw hit (All-delete P q es h.1)
  | inr miss ↦ rw miss (h.0, All-delete P q es h.1)
]

same_key-own : (id : ℕ) (p : PlannedEntry) (e : Entry) → same_key id p e ≡ true → is_own id e ≡ true
same_key-own id p e h = ground arith

own_refl : (id : ℕ) → (id == id) ≡ true
own_refl id = ground arith

insert_planned-Scoped :
    (db : Database) (now id : ℕ) (ps : List PlannedEntry)
    → Scoped id db (insert_planned_entries db now id ps)
unfolding insert_planned_entries
insert_planned-Scoped db now id [] = Scoped-refl id db
insert_planned-Scoped db now id (p ∷ ps) =
    let e = new_entry db.next_entry_id now id p in
    let kept = delete_where (same_key id p) db.entries in
    let db' : Database = record db {
      entries = kept ++ e ∷ [];
      next_entry_id = suc db.next_entry_id;
    } in
    Scoped-trans id db db' _
      (record {
        jobs = refl;
        audit = refl;
        others =
            foreign-append id kept e (own_refl id)
            ∙ foreign-delete id (same_key id p) db.entries (same_key-own id p);
        fresh = λ h.
            All-append (Unsettled id) kept (e ∷ [])
              (All-delete (Unsettled id) (same_key id p) db.entries h)
              ((λ own. (refl, refl, refl, refl, refl, refl, refl, refl)), tt);
      })
      (insert_planned-Scoped db' now id ps)

cleared_fresh : (id : ℕ) (es : List Entry) → All (Unsettled id) (delete_where (is_own id) es)
unfolding delete_where
cleared_fresh id [] = tt
cleared_fresh id (e ∷ es) = elim (Bool-cases (is_own id e)) [
  | inl mine ↦ rw mine (cleared_fresh id es)
  | inr its ↦ rw its ((λ h. absurd (apart id e its h)), cleared_fresh id es)
]
  where
    apart : (id : ℕ) (e : Entry) → is_own id e ≡ false → e.job_id ≡ id → ⊥
    apart id e its h = ground (arith, its, h)

pub Scanned-cases :
    (x : Scanned) → ((e : Text) × (x ≡ unscanned e)) ⊎ ((rs : List AuditRequest) × (x ≡ scanned rs))
Scanned-cases (unscanned e) = inl (e, refl)
Scanned-cases (scanned rs) = inr (rs, refl)

pub Anchors-cases :
    (x : Anchors) → ((e : Text) × (x ≡ no_anchors e)) ⊎ ((bs : List Branch) × (x ≡ anchors bs))
Anchors-cases (no_anchors e) = inl (e, refl)
Anchors-cases (anchors bs) = inr (bs, refl)

module _ (rt : Runtime) (out : Outside) (now : ℕ) (j : Job) where
  pub insert_batch-Scoped :
      (db : Database) (bs : List Branch) (rs : List AuditRequest)
      → Scoped j.id db (insert_batch rt out now j db bs rs)
  unfolding insert_batch
  insert_batch-Scoped db bs rs =
      insert_planned-Scoped db now j.id (plan_requests rt rs bs j.role_mode)

  plan_batches-Scoped :
      (fuel : ℕ) (db : Database) (token : ℕ) (bs : List Branch) (c : ℕ × ℕ) (t : Totals)
      → Scoped j.id db (plan_batches rt out now j fuel db token bs c t).database
  unfolding plan_batches
  plan_batches-Scoped zero db token bs c t = Scoped-refl j.id db
  plan_batches-Scoped (suc fuel) db token bs c t =
      elim (Scanned-cases (scan_audit_requests out (batch_rows db j token c))) [
        | inl (e, h) ↦ rw (h, plan_batches) (Scoped-refl j.id db)
        | inr ([], h) ↦ rw (h, plan_batches) (Scoped-refl j.id db)
        | inr (r ∷ rs, h) ↦
            let db' = insert_batch rt out now j db bs (r ∷ rs) in
            let one = insert_batch-Scoped db bs (r ∷ rs) in
            elim (Option-cases (ensure_job_active db' j.id)) [
              | inl go ↦
                  rw (h, go, plan_batches)
                    (Scoped-trans j.id db db' _ one (
                      plan_batches-Scoped fuel db' token (with_branches rt out now j bs (r ∷ rs))
                        (last_cursor c (batch_rows db j token c))
                        (count_planned t (plan_requests rt (r ∷ rs) bs j.role_mode))))
              | inr (e, stop) ↦ rw (h, stop, plan_batches) one
            ]
      ]

  pub plan_token-Scoped :
      (fuel : ℕ) (db : Database) (token : ℕ) (t : Totals)
      → Scoped j.id db (plan_token rt out now j fuel db token t).database
  unfolding plan_token
  plan_token-Scoped fuel db token t = elim (Option-cases (ensure_job_active db j.id)) [
    | inr (e, stop) ↦ rw (stop, plan_token) (Scoped-refl j.id db)
    | inl go ↦ elim (Anchors-cases (load_anchor_branches rt out now j db token)) [
      | inl (e, h) ↦ rw (go, h, plan_token) (Scoped-refl j.id db)
      | inr (bs, h) ↦ rw (go, h, plan_token) (plan_batches-Scoped fuel db token bs (0, 0) t)
    ]
  ]

  plan_tokens-Scoped :
      (fuel : ℕ) (db : Database) (tokens : List ℕ) (t : Totals)
      → Scoped j.id db (plan_tokens rt out now j fuel db tokens t).database
  unfolding plan_tokens
  plan_tokens-Scoped fuel db [] t = Scoped-refl j.id db
  plan_tokens-Scoped fuel db (token ∷ tokens) t =
      let p = plan_token rt out now j fuel db token t in
      next_key p.end p tokens (plan_token-Scoped fuel db token t)
        (plan_tokens-Scoped fuel p.database tokens p.totals)
    where
      next_key :
          (e : PlanEnd) (p : Planned) (rest : List ℕ)
          → Scoped j.id db p.database
          → Scoped j.id p.database (plan_tokens rt out now j fuel p.database rest p.totals).database
          → Scoped j.id db
              (if_planned e (plan_tokens rt out now j fuel p.database rest p.totals) p).database
      next_key planned p rest one more = Scoped-trans j.id db p.database _ one more
      next_key stopped p rest one more = one
      next_key out_of_fuel p rest one more = one
      next_key (plan_failed m) p rest one more = one

  -- However the planning of a job ends, the entries of other jobs are as they were, in their order, and
  -- every entry of the job is pending, with neither of its ids of results set, no inherited decision, no
  -- error, no cache hit and no tokens; and where it does not reach its last statement the table of
  -- jobs is as it was.
  pub plan_job-scope :
      (fuel : ℕ) (db : Database)
      → let r = plan_job rt out now fuel db j in
        (select_where (is_foreign j.id) r.0.entries ≡ select_where (is_foreign j.id) db.entries)
        × All (Unsettled j.id) r.0.entries
        × ((r.1 ≡ planned → ⊥) → r.0.jobs ≡ db.jobs)
  unfolding plan_job finish_plan
  plan_job-scope fuel db =
      let cleared : Database = record db { entries = delete_where (is_own j.id) db.entries } in
      let p = plan_tokens rt out now j fuel cleared j.token_ids no_totals in
      let s = plan_tokens-Scoped fuel cleared j.token_ids no_totals in
      finished p.end p (s.others ∙ foreign-delete j.id (is_own j.id) db.entries (λ e h. h))
        (s.fresh (cleared_fresh j.id db.entries)) s.jobs
    where
      finished :
          (e : PlanEnd) (p : Planned)
          → select_where (is_foreign j.id) p.database.entries
            ≡ select_where (is_foreign j.id) db.entries
          → All (Unsettled j.id) p.database.entries
          → p.database.jobs ≡ db.jobs
          → let r = finish_plan now j.id (record p { end = e }) in
            (select_where (is_foreign j.id) r.0.entries ≡ select_where (is_foreign j.id) db.entries)
            × All (Unsettled j.id) r.0.entries
            × ((r.1 ≡ planned → ⊥) → r.0.jobs ≡ db.jobs)
      finished planned p a b c = (a, b, λ h. absurd (h refl))
      finished stopped p a b c = (a, b, λ h. c)
      finished out_of_fuel p a b c = (a, b, λ h. c)
      finished (plan_failed m) p a b c = (a, b, λ h. c)
