-- ===== src/Review/Worker/Kept.antt =====
-- What the entries, groups and batches of a worker keep, and that a batch leaves fewer pending entries.
use newapi_usage.Prelude.{
  ℕ, ◌≤◌, ◌<◌, ◌≡◌, refl, inl, inr, Bool, true, false, Text, List, [], ◌∷◌, ◌++◌, Option, none,
  some, arith, if◌then◌else◌, In, Bool-cases, Option-cases, update_where, find_where,
}
use newapi_usage.Review.Types.{Job, Entry, is_running}
use newapi_usage.Review.Database.{Database}
use newapi_usage.Review.Planner.{Runtime}
use newapi_usage.Review.Jobs.{has_id}
use newapi_usage.Review.Jobs.Exclusion.{find-update}
use newapi_usage.Review.Worker.Calls.{Outside, CallSettings}
use newapi_usage.Review.Worker.Selection.{
  WorkEntry, work_entry, is_open, pending_entries, job_is_running, row_is_running, add_to_groups,
  group_entries, same_group,
}
use newapi_usage.Review.Worker.Content.{review_entry}
use newapi_usage.Review.Worker.Settle.{
  Settlement, settlement, counted_job, is_target, process_entry, parent_effective,
}
use newapi_usage.Review.Worker.Loop.{process_group, process_groups, process_work_batch}
use newapi_usage.Review.Worker.Updates.{
  settled_row-Keeps, ParentsEarlier-update, settle_open, count-update-le, count-update-lt,
}
use newapi_usage.Review.Worker.Ready.{ParentsEarlier}
use newapi_usage.Review.Worker.Tables.{process_entry-tables}

-- What one worker statement after the other keeps, for the job of this id.
pub record Kept (id : ℕ) (db db' : Database) : Type 0 where
  pub earlier : ParentsEarlier db.entries → ParentsEarlier db'.entries
  pub fewer : pending_entries db' id ≤ pending_entries db id
  pub runs : job_is_running db id ≡ true → job_is_running db' id ≡ true

Kept-refl : (id : ℕ) (db : Database) → Kept id db db
Kept-refl id db = record { earlier = λ h. h; fewer = omega arith; runs = λ h. h }

Kept-trans : (id : ℕ) (a b c : Database) → Kept id a b → Kept id b c → Kept id a c
Kept-trans id a b c f g = record {
  earlier = λ h. g.earlier (f.earlier h);
  fewer = omega (arith, f.fewer, g.fewer);
  runs = λ h. g.runs (f.runs h);
}

pub row_runs :
    (o : Option Job) (j : Job) → row_is_running o ≡ true → o ≡ some j → is_running j.status ≡ true
row_runs o j h e = ground arith

pub row_lost : (o : Option Job) → row_is_running o ≡ true → o ≡ none → ⊥
row_lost o h e = ground arith

counted_runs :
    (b : Bool) (now : ℕ) (t : Settlement) (j : Job)
    → is_running j.status ≡ true
    → is_running (if b then counted_job now t j else j).status ≡ true
unfolding counted_job
counted_runs true now t j h = h
counted_runs false now t j h = h

counted_id : (now : ℕ) (t : Settlement) (j : Job) → (counted_job now t j).id ≡ j.id
unfolding counted_job
counted_id now t j = refl

running_after :
    (db db' : Database) (id now : ℕ) (t : Settlement)
    → db'.jobs ≡ update_where (has_id id) (counted_job now t) db.jobs
    → job_is_running db id ≡ true
    → job_is_running db' id ≡ true
unfolding job_is_running
running_after db db' id now t e h = elim (Option-cases (find_where (has_id id) db.jobs)) [
  | inl none_there ↦ absurd (row_lost _ h none_there)
  | inr (j, found) ↦
      rw (e, found_after j found) (counted_runs (has_id id j) now t j (row_runs _ j h found))
]
  where
    found_after :
        (j : Job)
        → find_where (has_id id) db.jobs ≡ some j
        → find_where (has_id id) (update_where (has_id id) (counted_job now t) db.jobs)
          ≡ some (if has_id id j then counted_job now t j else j)
    found_after j f = find-update id (has_id id) (counted_job now t) db.jobs j (counted_id now t) f

module _ (rt : Runtime) (out : Outside) (now : ℕ) (j : Job) (config : Text) where
  process_entry-Kept :
      (db : Database) (e : WorkEntry) (s : CallSettings)
      → Kept j.id db (process_entry rt out db now j e s config).0
  unfolding pending_entries
  process_entry-Kept db e s =
      let t =
        settlement (parent_effective db j.id e.parent_entry_id)
          (review_entry rt out db now j.role_mode e s config) in
      let tables = process_entry-tables rt out db now j e s config in
      record {
        earlier =
            λ h. rw tables.0 (ParentsEarlier-update _ _ db.entries (settled_row-Keeps now t) h);
        fewer = rw tables.0 (count-update-le j.id _ _ db.entries (settle_open now t j.id));
        runs = λ h. running_after db _ j.id now t tables.1 h;
      }

  -- An entry that is pending in the table is pending no more.
  process_entry-lt :
      (db : Database) (x : Entry) (s : CallSettings)
      → In x db.entries
      → is_open j.id x ≡ true
      → pending_entries (process_entry rt out db now j (work_entry x) s config).0 j.id
        < pending_entries db j.id
  unfolding pending_entries
  process_entry-lt db x s m o =
      let t =
        settlement (parent_effective db j.id x.parent_audit_entry_id)
          (review_entry rt out db now j.role_mode (work_entry x) s config) in
      let tables = process_entry-tables rt out db now j (work_entry x) s config in
      rw tables.0 (count-update-lt j.id _ _ db.entries (settle_open now t j.id) m (target x o) o)
    where
      target : (x : Entry) → is_open j.id x ≡ true → is_target x.id x ≡ true
      target x o = ground arith

  process_group-Kept :
      (s : CallSettings) (db : Database) (local : CallSettings) (es : List WorkEntry)
      → Kept j.id db (process_group rt out now j s config db local es)
  unfolding process_group
  process_group-Kept s db local [] = Kept-refl j.id db
  process_group-Kept s db local (e ∷ es) = elim (Bool-cases (job_is_running db j.id)) [
    | inl runs ↦
        let r = process_entry rt out db now j e local config in
        rw (runs, process_group)
          (Kept-trans j.id db r.0 _ (process_entry-Kept db e local)
            (process_group-Kept s r.0 r.1 es))
    | inr stops ↦ rw (stops, process_group) (Kept-refl j.id db)
  ]

  process_groups-Kept :
      (s : CallSettings) (db : Database) (gs : List (WorkEntry × List WorkEntry))
      → Kept j.id db (process_groups rt out now j s config db gs)
  unfolding process_groups
  process_groups-Kept s db [] = Kept-refl j.id db
  process_groups-Kept s db ((first, rest) ∷ gs) =
      let db' = process_group rt out now j s config db s (first ∷ rest) in
      Kept-trans j.id db db' _ (process_group-Kept s db s (first ∷ rest))
        (process_groups-Kept s db' gs)

  first_group :
      (first : WorkEntry) (rest : List WorkEntry) (gs : List (WorkEntry × List WorkEntry))
      (es : List WorkEntry)
      → (r : List WorkEntry) × (hs : List (WorkEntry × List WorkEntry)) × (group_entries
            ((first, rest) ∷ gs)
            es
          ≡ (first, r) ∷ hs)
  unfolding group_entries add_to_groups
  first_group first rest gs [] = (rest, gs, refl)
  first_group first rest gs (e ∷ es) = elim (Bool-cases (same_group first e)) [
    | inl same ↦ rw (same, group_entries) (first_group first (rest ++ e ∷ []) gs es)
    | inr apart ↦ rw (apart, group_entries) (first_group first rest (add_to_groups gs e) es)
  ]

  process_group-step :
      (s local : CallSettings) (db : Database) (e : WorkEntry) (es : List WorkEntry)
      → job_is_running db j.id ≡ true
      → let r = process_entry rt out db now j e local config in
        process_group rt out now j s config db local (e ∷ es)
        ≡ process_group rt out now j s config r.0 r.1 es
  unfolding process_group
  process_group-step s local db e es runs = rw (runs, process_group) refl

  groups_step :
      (s : CallSettings) (db : Database) (first : WorkEntry) (rest : List WorkEntry)
      (gs : List (WorkEntry × List WorkEntry))
      → process_groups rt out now j s config db ((first, rest) ∷ gs)
        ≡ process_groups rt out now j s config
            (process_group rt out now j s config db s (first ∷ rest))
            gs
  unfolding process_groups
  groups_step s db first rest gs = refl

  -- A batch that starts with a pending entry of a running job leaves fewer pending entries.
  pub process_work_batch-lt :
      (s : CallSettings) (db : Database) (x : Entry) (es : List WorkEntry)
      → job_is_running db j.id ≡ true
      → In x db.entries
      → is_open j.id x ≡ true
      → let db' = process_work_batch rt out now j s config db (work_entry x ∷ es) in
        Kept j.id db db' × (pending_entries db' j.id < pending_entries db j.id)
  unfolding process_work_batch group_entries add_to_groups
  process_work_batch-lt s db x es runs m o =
      let g = first_group (work_entry x) [] [] es in
      let r = process_entry rt out db now j (work_entry x) s config in
      let a = process_entry-Kept db (work_entry x) s in
      let b = process_group-Kept s r.0 r.1 g.0 in
      let c = process_groups-Kept s (process_group rt out now j s config r.0 r.1 g.0) g.1 in
      let later = Kept-trans j.id r.0 _ _ b c in
      rw
        (
          g.2,
          groups_step s db (work_entry x) g.0 g.1,
          process_group-step s s db (work_entry x) g.0 runs,
        )
        (Kept-trans j.id db r.0 _ a later, omega (arith, process_entry-lt db x s m o, later.fewer))
