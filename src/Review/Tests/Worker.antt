-- ===== src/Review/Tests/Worker.antt =====
-- The theorems about the worker at concrete tables.
use newapi_usage.Prelude.{
  ◌≡◌, ◌≢◌, ◌⊎◌, ◌↔◌, refl, arith, [], ◌∷◌, some, pos, codes, here, there, false, ltb,
  if◌then◌else◌, find_where, sum_by, count_where, select_where,
}
use newapi_usage.Review.Types.{Job, Entry, running, completed, pending, done, pass}
use newapi_usage.Review.Database.{Database}
use newapi_usage.Review.Jobs.{job}
use newapi_usage.Review.Worker.Calls.{
  Outside, CallSettings, CallError, Answer, answered, failed, retryable, learn, decided, fetched,
  call_review_with_retry,
}
use newapi_usage.Review.Worker.Selection.{
  work_entry, next_ready_work_entries, pending_entries, job_is_running,
}
use newapi_usage.Review.Worker.Settle.{process_entry}
use newapi_usage.Review.Worker.Loop.{run_loop, finished}
use newapi_usage.Review.Worker.Ready.{ParentsEarlier, next_ready-nonempty}
use newapi_usage.Review.Worker.Progress.{run_loop-finishes}
use newapi_usage.Review.Worker.Retry.{
  Fails, Transient, ask, call_review-decided, call_review-gave_up,
}
use newapi_usage.Review.Worker.Counters.{job_tally, process_entry-counted}
use newapi_usage.Review.Worker.Twice.{process_entry-again}
use newapi_usage.Audit.Reconcile.{tally}
use newapi_usage.Review.Tests.Rows.{job_row, entry_row, tables, runtime, digest}

abbrev verdict : Answer
verdict = record {
  decision = record {
    decision = pass;
    risk_score = pos 1;
    categories = [];
    reason = codes "fine";
    confidence = pos 0;
  };
  usage = record { prompt = 10; completion = 2 };
  mode = codes "schema";
  effort = codes "low";
}

abbrev busy : CallError
busy = record { message = codes "busy"; status = some 503 }

-- The endpoint is busy once and answers then.
abbrev outside : Outside
outside = record {
  body = λ n. fetched (record { role = codes "user"; content = codes "hi" } ∷ []);
  call_review = λ entry s content attempt. if ltb attempt 1 then failed busy else answered verdict;
}

-- The endpoint is always busy.
abbrev down : Outside
down = record { body = λ n. fetched []; call_review = λ entry s content attempt. failed busy }

abbrev call_settings : CallSettings
call_settings = record { response_mode = codes "auto"; reasoning_effort = codes "low" }

call_review-decided_example :
    let ask_x = ask outside 1 call_settings (codes "x") in
    (call_review_with_retry outside 1 call_settings (codes "x")
      ≡ decided verdict (learn call_settings verdict))
    ↔ ((ask_x 0 ≡ answered verdict)
        ⊎ (Fails outside 1 call_settings (codes "x") 0 × (ask_x 1 ≡ answered verdict))
        ⊎ (Fails outside 1 call_settings (codes "x") 0
            × Transient outside 1 call_settings (codes "x") 1
            × (ask_x 2 ≡ answered verdict)))
call_review-decided_example = call_review-decided outside 1 call_settings (codes "x") verdict

call_review-gave_up_example :
    let ask_x = ask down 1 call_settings (codes "x") in
    Fails down 1 call_settings (codes "x") 0
    × (((ask_x 1 ≡ failed busy) × (retryable busy ≡ false))
        ⊎ (Transient down 1 call_settings (codes "x") 1 × (ask_x 2 ≡ failed busy)))
unfolding call_review_with_retry
call_review-gave_up_example = call_review-gave_up down 1 call_settings (codes "x") busy refl

-- An entry with new content, which the body still gives.
abbrev content_row : Entry
content_row = record (entry_row 1 0 pending) {
  content_hash = digest (codes "[角色:user]\nhi");
  content_chars = 12;
}

abbrev running_job : Job
running_job = record (job_row 1 running) {
  total_entries = 2;
  review_units = 1;
  estimated_chars = 12;
}

abbrev two_entries : Database
two_entries = tables (running_job ∷ []) (content_row ∷ entry_row 2 1 pending ∷ [])

earlier : ParentsEarlier two_entries.entries
earlier e p here m job_of of nonzero = absurd (nonzero refl)
earlier e p (there here) here job_of of nonzero = omega arith
earlier _ p (there here) (there (there x)) job_of of nonzero = elim x [ ]
earlier e p (there (there x)) m job_of of nonzero = elim x [ ]
earlier e p (there here) (there here) job_of of nonzero = absurd (omega (arith, of))

next_ready-nonempty_example : next_ready_work_entries two_entries 1 5 ≢ []
unfolding pending_entries count_where
next_ready-nonempty_example =
    next_ready-nonempty two_entries 1 5 earlier (omega arith) (omega arith)

run_loop-finishes_example :
    let r = run_loop runtime outside 9 running_job call_settings (codes "cfg") 3 two_entries in
    (r.1 ≡ finished)
    × (pending_entries r.0 1 ≡ 0)
    × ((k : Job) × (job r.0 1 ≡ some k) × (k.status ≡ completed))
unfolding pending_entries job_is_running find_where count_where
run_loop-finishes_example =
    run_loop-finishes runtime outside 9 running_job (codes "cfg") call_settings 3 two_entries refl
      earlier (omega arith)

process_entry-counted_example :
    let db' =
      (process_entry runtime outside two_entries 9 running_job
        (work_entry content_row)
        call_settings
        (codes "cfg")).0 in
    (k : Job) × (job db' 1 ≡ some k) × (job_tally k ≡ tally 1 db'.entries)
unfolding job tally select_where find_where sum_by
process_entry-counted_example =
    process_entry-counted runtime outside 9 running_job (codes "cfg") two_entries call_settings
      content_row running_job (record { next = omega arith; given = tt })
      (record { no_hit = refl; no_prompt = refl; no_completion = refl }) refl refl refl refl

abbrev counted_job_row : Job
counted_job_row = record (job_row 1 running) { total_entries = 2; processed_entries = 2 }

abbrev all_done : Database
all_done = tables (counted_job_row ∷ []) (entry_row 1 0 done ∷ entry_row 2 1 done ∷ [])

process_entry-again_example :
    let db' =
      (process_entry runtime outside all_done 9 counted_job_row
        (work_entry (entry_row 1 0 pending))
        call_settings
        (codes "cfg")).0 in
    (db'.entries ≡ all_done.entries)
    × ((k : Job) × (job db' 1 ≡ some k)
        × (k.processed_entries ≡ 3)
        × (job_tally k ≢ tally 1 db'.entries))
unfolding job tally select_where find_where sum_by
process_entry-again_example =
    process_entry-again runtime outside 9 counted_job_row (codes "cfg") all_done call_settings
      (work_entry (entry_row 1 0 pending)) counted_job_row refl refl refl
