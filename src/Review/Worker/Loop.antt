-- ===== src/Review/Worker/Loop.antt =====
-- The loop of runNextJob in internal/review/worker.go, with processWorkBatch. The goroutines of a
-- batch run one after the other, group by group, and nothing else writes the tables meanwhile. A job
-- without a row counts as not running here, where currentJobStatus returns sql.ErrNoRows; no statement
-- of the loop takes the row away.
use newapi_usage.Prelude.{
  ℕ, zero, suc, true, false, Text, codes, decimal, List, [], ◌∷◌, ◌++◌, pos_part, ltb,
  if◌then◌else◌,
}
use newapi_usage.Review.Types.{Job}
use newapi_usage.Review.Database.{Database}
use newapi_usage.Review.Jobs.{complete_job, fail_job}
use newapi_usage.Review.Jobs.Input.{normalize_concurrency}
use newapi_usage.Review.Planner.{Runtime}
use newapi_usage.Review.Worker.Calls.{CallSettings, Outside}
use newapi_usage.Review.Worker.Selection.{
  WorkEntry, next_ready_work_entries, pending_entries, job_is_running, group_entries,
}
use newapi_usage.Review.Worker.Settle.{process_entry}

pub data LoopEnd : Type 0 where
  stopped finished blocked out_of_fuel : LoopEnd

abbrev pub batch_limit : Job → ℕ
batch_limit j = pos_part (normalize_concurrency j.concurrency)

module _ (rt : Runtime) (out : Outside) (now : ℕ) (j : Job) (s : CallSettings) (config : Text) where
  -- One goroutine: the entries of a group, while the job is running.
  unfoldable pub process_group : Database → CallSettings → List WorkEntry → Database
  process_group db local [] = db
  process_group db local (e ∷ es) = elim (job_is_running db j.id) [
    | true ↦
        let (db', local') = process_entry rt out db now j e local config in
        process_group db' local' es
    | false ↦ db
  ]

  unfoldable pub process_groups : Database → List (WorkEntry × List WorkEntry) → Database
  process_groups db [] = db
  process_groups db ((first, rest) ∷ gs) = process_groups (process_group db s (first ∷ rest)) gs

  unfoldable pub process_work_batch : Database → List WorkEntry → Database
  process_work_batch db entries = process_groups db (group_entries [] entries)

  unfoldable pub end_of_entries : Database → Database × LoopEnd
  end_of_entries db =
      if ltb 0 (pending_entries db j.id)
      then (
        fail_job db now j.id (
            codes "review job has "
            ++ (decimal (pending_entries db j.id) ++ codes " blocked entries")),
        blocked,
      )
      else (complete_job db now j.id, finished)

  unfoldable pub run_loop : ℕ → Database → Database × LoopEnd
  run_loop zero db = (db, out_of_fuel)
  run_loop (suc fuel) db = elim (job_is_running db j.id) [
    | false ↦ (db, stopped)
    | true ↦ elim (next_ready_work_entries db j.id (batch_limit j)) [
      | [] ↦ end_of_entries db
      | e ∷ es ↦ run_loop fuel (process_work_batch db (e ∷ es))
    ]
  ]
