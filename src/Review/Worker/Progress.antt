-- ===== src/Review/Worker/Progress.antt =====
-- The loop of a worker ends with the job completed.
use newapi_usage.Prelude.{
  ℕ, zero, suc, ◌<◌, ◌≡◌, refl, ◌∙◌, ◌⊎◌, inl, inr, true, Text, List, [], ◌∷◌, map, some, arith, In,
  here, Option-cases, find_where, find_where-In, select_where-In, sort_by-In, take-In, subst, ℤ,
  ◌≤ℤ◌, pos, pos_part,
}
use newapi_usage.Review.Types.{completed, Job, Entry, is_running}
use newapi_usage.Review.Database.{Database}
use newapi_usage.Review.Planner.{Runtime}
use newapi_usage.Review.Jobs.{job, has_id, allowed_job, as_completed, complete_job}
use newapi_usage.Review.Jobs.Exclusion.{find-update}
use newapi_usage.Review.Jobs.Keys.{normalize_concurrency_bounds}
use newapi_usage.Review.Jobs.Input.{normalize_concurrency}
use newapi_usage.Review.Worker.Calls.{Outside, CallSettings}
use newapi_usage.Review.Worker.Selection.{
  WorkEntry, work_entry, is_ready, is_open, next_ready_work_entries, pending_entries,
  job_is_running, ordered_cursor,
}
use newapi_usage.Review.Worker.Loop.{
  finished, batch_limit, process_work_batch, end_of_entries, run_loop,
}
use newapi_usage.Review.Worker.Ready.{ParentsEarlier, next_ready-nonempty}
use newapi_usage.Review.Worker.Kept.{Kept, row_runs, row_lost, process_work_batch-lt}

List-cases :
    (es : List WorkEntry)
    → (es ≡ []) ⊎ ((e : WorkEntry) × (rest : List WorkEntry) × (es ≡ e ∷ rest))
List-cases [] = inl refl
List-cases (e ∷ rest) = inr (e, rest, refl)

module _ (rt : Runtime) (out : Outside) (now : ℕ) (j : Job) (config : Text) where
  map-cons :
      (xs : List Entry) (e : WorkEntry) (es : List WorkEntry)
      → map work_entry xs ≡ e ∷ es
      → (x : Entry) × In x xs × (work_entry x ≡ e)
  map-cons [] e es h = cc
  map-cons (x ∷ xs) e es h = (x, here, cc)

  ready_open : (all : List Entry) (x : Entry) → is_ready all j.id x ≡ true → is_open j.id x ≡ true
  unfolding is_ready
  ready_open all x h = ground arith

  first_ready :
      (db : Database) (limit : ℕ) (e : WorkEntry) (es : List WorkEntry)
      → next_ready_work_entries db j.id limit ≡ e ∷ es
      → (x : Entry) × In x db.entries × (is_open j.id x ≡ true) × (work_entry x ≡ e)
  unfolding next_ready_work_entries
  first_ready db limit e es h =
      let r = map-cons _ e es h in
      let sorted = take-In limit _ r.1 in
      let row =
        select_where-In (is_ready db.entries j.id) {x = r.0} db.entries
          (sort_by-In ordered_cursor _ sorted) in
      (r.0, row.0, ready_open db.entries r.0 row.1, r.2)

  completed_pending :
      (db : Database) → pending_entries (complete_job db now j.id) j.id ≡ pending_entries db j.id
  unfolding pending_entries complete_job
  completed_pending db = refl

  completed_row :
      (db : Database)
      → job_is_running db j.id ≡ true
      → (k : Job) × (job (complete_job db now j.id) j.id ≡ some k) × (k.status ≡ completed)
  unfolding job_is_running complete_job job
  completed_row db runs = elim (Option-cases (find_where (has_id j.id) db.jobs)) [
    | inl none_there ↦ absurd (row_lost _ runs none_there)
    | inr (k, found) ↦
        let status = row_runs _ k runs found in
        let id = find_where-In (has_id j.id) db.jobs found in
        (
          as_completed now k,
          find-update j.id (allowed_job j.id is_running) (as_completed now) db.jobs k (λ x. refl)
                found
              ∙ rw (id.1, status) refl,
          refl,
        )
  ]

  loop_end :
      (s : CallSettings) (db : Database)
      → job_is_running db j.id ≡ true
      → pending_entries db j.id ≡ 0
      → let r = end_of_entries rt out now j s config db in
        (r.1 ≡ finished)
        × (pending_entries r.0 j.id ≡ 0)
        × ((k : Job) × (job r.0 j.id ≡ some k) × (k.status ≡ completed))
  unfolding end_of_entries
  loop_end s db runs z = rw z (refl, completed_pending db ∙ z, completed_row db runs)

  batch_progress :
      (s : CallSettings) (db : Database) (e : WorkEntry) (es : List WorkEntry)
      → job_is_running db j.id ≡ true
      → next_ready_work_entries db j.id (batch_limit j) ≡ e ∷ es
      → let db' = process_work_batch rt out now j s config db (e ∷ es) in
        Kept j.id db db' × (pending_entries db' j.id < pending_entries db j.id)
  batch_progress s db e es runs h =
      let (x, m, o, same) = first_ready db (batch_limit j) e es h in
      subst
        (λ w.
          Kept j.id db (process_work_batch rt out now j s config db (w ∷ es))
          × (pending_entries (process_work_batch rt out now j s config db (w ∷ es)) j.id
              < pending_entries db j.id))
        same (process_work_batch-lt rt out now j config s db x es runs m o)

  limit_pos : 0 < batch_limit j
  limit_pos =
      positive (normalize_concurrency j.concurrency) (normalize_concurrency_bounds j.concurrency).0
    where
      positive : (n : ℤ) → pos 1 ≤ℤ n → 0 < pos_part n
      positive n h = ground arith

  none_pending :
      (db : Database)
      → ParentsEarlier db.entries
      → next_ready_work_entries db j.id (batch_limit j) ≡ []
      → pending_entries db j.id ≡ 0
  none_pending db earlier e =
      zero_of (pending_entries db j.id)
        λ h. next_ready-nonempty db j.id (batch_limit j) earlier limit_pos h e
    where
      zero_of : (n : ℕ) → (0 < n → ⊥) → n ≡ 0
      zero_of n h = ground (arith, h)

  -- A worker that runs alone on a running job, whose entries name only earlier entries as parents,
  -- ends its loop with the job completed and no entry pending, within one more round than there
  -- are pending entries: it is never blocked, whatever the endpoint answers.
  pub run_loop-finishes :
      (s : CallSettings) (fuel : ℕ) (db : Database)
      → job_is_running db j.id ≡ true
      → ParentsEarlier db.entries
      → pending_entries db j.id < fuel
      → let r = run_loop rt out now j s config fuel db in
        (r.1 ≡ finished)
        × (pending_entries r.0 j.id ≡ 0)
        × ((k : Job) × (job r.0 j.id ≡ some k) × (k.status ≡ completed))
  unfolding run_loop
  run_loop-finishes s zero db runs earlier lt = absurd (omega arith)
  run_loop-finishes s (suc fuel) db runs earlier lt =
      elim (List-cases (next_ready_work_entries db j.id (batch_limit j))) [
        | inl e ↦ rw (runs, e, run_loop) (loop_end s db runs (none_pending db earlier e))
        | inr (e, es, h) ↦
            let b = batch_progress s db e es runs h in
            rw (runs, h, run_loop)
              (run_loop-finishes s fuel (process_work_batch rt out now j s config db (e ∷ es))
                (b.0.runs runs) (b.0.earlier earlier) (omega (arith, b.1)))
      ]
