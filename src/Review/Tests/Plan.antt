-- ===== src/Review/Tests/Plan.antt =====
-- The theorems about planJob at a concrete table.
use newapi_usage.Prelude.{ℕ, ◌≡◌, ◌≢◌, arith, [], ◌∷◌, codes, All, select_where, none}
use newapi_usage.Review.Types.{Job, planning, done}
use newapi_usage.Review.Database.{Database, AuditRow}
use newapi_usage.Review.Worker.Calls.{Outside, fetched, failed}
use newapi_usage.Review.Plan.{planned, out_of_fuel, plan_job}
use newapi_usage.Review.Plan.Scope.{is_foreign, Unsettled, plan_job-scope}
use newapi_usage.Review.Plan.Progress.{plan_job-ends}
use newapi_usage.Review.Tests.Rows.{job_row, entry_row, tables, runtime}

abbrev audited : ℕ → AuditRow
audited id = record {
  id = id;
  token_id = 7;
  created_at = id;
  model = codes "gpt";
  request_id = codes "r";
  bytes = 10;
}

abbrev planning_job : Job
planning_job = job_row 2 planning

-- Job 1 has an entry, and two requests are audited for job 2.
abbrev before_plan : Database
before_plan = record (tables (planning_job ∷ []) (entry_row 1 0 done ∷ [])) {
  audit_entries = audited 1 ∷ audited 2 ∷ [];
}

abbrev outside : Outside
outside = record {
  body = λ n. fetched (record { role = codes "user"; content = codes "hi" } ∷ []);
  call_review =
      λ entry s content attempt. failed (record { message = codes "down"; status = none });
}

plan_job-scope_example :
    let r = plan_job runtime outside 9 3 before_plan planning_job in
    (select_where (is_foreign 2) r.0.entries ≡ select_where (is_foreign 2) before_plan.entries)
    × All (Unsettled 2) r.0.entries
    × ((r.1 ≡ planned → ⊥) → r.0.jobs ≡ before_plan.jobs)
plan_job-scope_example = plan_job-scope runtime outside 9 planning_job 3 before_plan

plan_job-ends_example : (plan_job runtime outside 9 3 before_plan planning_job).1 ≢ out_of_fuel
plan_job-ends_example = plan_job-ends runtime outside 9 planning_job 3 before_plan (omega arith)
