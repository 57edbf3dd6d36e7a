-- ===== src/Review/Plan.antt =====
-- planJob of internal/review/planner.go over the tables: the queries for anchors and batches, the
-- insertion of what is planned, and the loop over the keys of a job. What an audited body decodes to
-- comes from outside.
pub mod Scope
pub mod Progress
use newapi_usage.Prelude.{
  ℕ, zero, suc, ◌+◌, Bool, true, false, ◌&&◌, ◌||◌, Text, codes, is_blank, List, [], ◌∷◌, ◌++◌,
  Option, none, some, pos, ltb, leb, ◌==◌, if◌then◌else◌, length, take, update_where, select_where,
  delete_where, find_where, sort_by,
}
use newapi_usage.Review.Types.{Status, planning, Job, Entry, pending, other}
use newapi_usage.Review.Database.{Database, AuditRow}
use newapi_usage.Review.Planner.{
  Runtime, AuditRequest, Branch, PlannedEntry, append_branch, request_branch, plan_requests,
}
use newapi_usage.Review.Jobs.{job, has_id}
use newapi_usage.Review.Jobs.Input.{contains_text}
use newapi_usage.Review.Worker.Calls.{Outside, Fetched, fetched, unreadable}

pub data Scanned : Type 0 where
  scanned : List AuditRequest → Scanned
  unscanned : Text → Scanned

abbrev request_of : AuditRow → Fetched → Scanned → Scanned
request_of r (unreadable e) rest = unscanned e
request_of r (fetched ms) (unscanned e) = unscanned e
request_of r (fetched ms) (scanned rs) = scanned (
    record {
      id = r.id;
      token_id = r.token_id;
      created_at = r.created_at;
      model = r.model;
      messages = ms;
    }
    ∷ rs)

unfoldable pub scan_audit_requests : Outside → List AuditRow → Scanned
scan_audit_requests out [] = scanned []
scan_audit_requests out (r ∷ rs) = request_of r (out.body r.id) (scan_audit_requests out rs)

-- created_at, id
unfoldable pub by_cursor : AuditRow → AuditRow → Bool
by_cursor a b = ltb a.created_at b.created_at || (a.created_at == b.created_at && leb a.id b.id)

unfoldable pub after_cursor : ℕ × ℕ → AuditRow → Bool
after_cursor (time, id) r = ltb time r.created_at || (r.created_at == time && ltb id r.id)

abbrev pub model_matches : List Text → AuditRow → Bool
model_matches [] r = true
model_matches (m ∷ ms) r = contains_text (m ∷ ms) r.model

unfoldable pub in_range : Job → ℕ → AuditRow → Bool
in_range j token r =
    r.token_id == token
    && leb j.start r.created_at
    && leb r.created_at j.end
    && leb r.id j.max_entry_id
    && model_matches j.models r

abbrev pub plan_batch_size : ℕ
plan_batch_size = 200

abbrev anchor_entry_limit : ℕ
anchor_entry_limit = 50

-- The rows of a batch.
unfoldable pub batch_rows : Database → Job → ℕ → ℕ × ℕ → List AuditRow
unfolding by_cursor after_cursor in_range
batch_rows db j token cursor = take plan_batch_size (
    sort_by by_cursor
      (select_where (λ r. in_range j token r && after_cursor cursor r) db.audit_entries))

abbrev is_anchor : Job → ℕ → AuditRow → Bool
is_anchor j token r =
    r.token_id == token
    && ltb r.created_at j.start
    && leb r.id j.max_entry_id
    && model_matches j.models r

abbrev request_order : AuditRequest → AuditRequest → Bool
request_order a b = ltb a.created_at b.created_at || (a.created_at == b.created_at && leb a.id b.id)

-- The insertion of one planned entry: INSERT OR REPLACE under UNIQUE(job_id, audit_entry_id).
abbrev pub new_entry : ℕ → ℕ → ℕ → PlannedEntry → Entry
new_entry id now job_id p = record {
  id = id;
  job_id = job_id;
  audit_entry_id = p.audit_entry_id;
  token_id = p.token_id;
  created_at = p.created_at;
  request_model = p.model;
  parent_audit_entry_id = p.parent_entry_id;
  delta_start_index = p.delta_start;
  delta_message_count = p.delta_message_count;
  content_hash = p.content_hash;
  content_chars = p.content_chars;
  result_id = 0;
  delta_decision = other [];
  delta_risk_score = pos 0;
  effective_result_id = 0;
  effective_decision = other [];
  effective_risk_score = pos 0;
  inherited = false;
  cache_hit = false;
  prompt_tokens = 0;
  completion_tokens = 0;
  status = pending;
  error_text = [];
  updated_at = now;
}

abbrev pub same_key : ℕ → PlannedEntry → Entry → Bool
same_key job_id p e = e.job_id == job_id && e.audit_entry_id == p.audit_entry_id

unfoldable pub insert_planned_entries : Database → ℕ → ℕ → List PlannedEntry → Database
insert_planned_entries db now job_id [] = db
insert_planned_entries db now job_id (p ∷ ps) =
    insert_planned_entries
      (record db {
        entries =
            delete_where (same_key job_id p) db.entries
            ++ new_entry db.next_entry_id now job_id p ∷ [];
        next_entry_id = suc db.next_entry_id;
      })
      now job_id ps

pub data Anchors : Type 0 where
  anchors : List Branch → Anchors
  no_anchors : Text → Anchors

-- How planJob ends, and what it has counted.
pub data PlanEnd : Type 0 where
  planned stopped out_of_fuel : PlanEnd
  plan_failed : Text → PlanEnd

pub record Totals : Type 0 where
  pub total : ℕ
  pub units : ℕ
  pub chars : ℕ

abbrev pub no_totals : Totals
no_totals = record { total = 0; units = 0; chars = 0 }

abbrev is_planning : Status → Bool
is_planning planning = true
is_planning _ = false

-- ensureJobActive(…, StatusPlanning); `none` is its success.
unfoldable pub ensure_job_active : Database → ℕ → Option PlanEnd
unfolding job
ensure_job_active db id = elim (job db id) [
  | none ↦ some (plan_failed (codes "sql: no rows in result set"))
  | some j ↦ if is_planning j.status then none else some stopped
]

unfoldable pub count_planned : Totals → List PlannedEntry → Totals
count_planned t [] = t
count_planned t (p ∷ ps) =
    count_planned
      (record {
        total = t.total + 1;
        units = if is_blank p.content_hash then t.units else t.units + 1;
        chars = if is_blank p.content_hash then t.chars else t.chars + p.content_chars;
      })
      ps

pub record Planned : Type 0 where
  pub database : Database
  pub totals : Totals
  pub end : PlanEnd

-- A key that was planned is followed by the next one; any other end is the end of the loop.
abbrev pub if_planned : PlanEnd → Planned → Planned → Planned
if_planned planned next p = next
if_planned _ next p = p

abbrev pub last_cursor : ℕ × ℕ → List AuditRow → ℕ × ℕ
last_cursor c [] = c
last_cursor c (r ∷ rs) = last_cursor (r.created_at, r.id) rs

module _ (rt : Runtime) (out : Outside) (now : ℕ) (j : Job) where
  -- The branches after the requests.
  unfoldable pub with_branches : List Branch → List AuditRequest → List Branch
  unfolding append_branch request_branch
  with_branches bs [] = bs
  with_branches bs (r ∷ rs) = with_branches (append_branch bs (request_branch rt r)) rs

  unfoldable pub load_anchor_branches : Database → ℕ → Anchors
  unfolding scan_audit_requests by_cursor with_branches
  load_anchor_branches db token =
      let rows =
        take anchor_entry_limit
          (sort_by (λ a b. by_cursor b a) (select_where (is_anchor j token) db.audit_entries)) in
      elim (scan_audit_requests out rows) [
        | unscanned e ↦ no_anchors e
        | scanned rs ↦ anchors (with_branches [] (sort_by request_order rs))
      ]

  -- What the body of the loop over batches writes.
  unfoldable pub insert_batch : Database → List Branch → List AuditRequest → Database
  unfolding insert_planned_entries plan_requests
  insert_batch db bs rs = insert_planned_entries db now j.id (plan_requests rt rs bs j.role_mode)

  -- The loop over the batches of one key.
  unfoldable pub plan_batches : ℕ → Database → ℕ → List Branch → ℕ × ℕ → Totals → Planned
  plan_batches zero db token bs cursor t = record { database = db; totals = t; end = out_of_fuel }
  plan_batches (suc fuel) db token bs cursor t =
      let rows = batch_rows db j token cursor in
      elim (scan_audit_requests out rows) [
        | unscanned e ↦ record { database = db; totals = t; end = plan_failed e }
        | scanned [] ↦ record { database = db; totals = t; end = planned }
        | scanned (r ∷ rs) ↦
            let db' = insert_batch db bs (r ∷ rs) in
            let t' = count_planned t (plan_requests rt (r ∷ rs) bs j.role_mode) in
            elim (ensure_job_active db' j.id) [
              | some e ↦ record { database = db'; totals = t'; end = e }
              | none ↦
                  plan_batches fuel db' token (with_branches bs (r ∷ rs)) (last_cursor cursor rows)
                    t'
            ]
      ]

  -- One key: its anchors, then its batches.
  unfoldable pub plan_token : ℕ → Database → ℕ → Totals → Planned
  plan_token fuel db token t = elim (ensure_job_active db j.id) [
    | some e ↦ record { database = db; totals = t; end = e }
    | none ↦ elim (load_anchor_branches db token) [
      | no_anchors e ↦ record { database = db; totals = t; end = plan_failed e }
      | anchors bs ↦ plan_batches fuel db token bs (0, 0) t
    ]
  ]

  unfoldable pub plan_tokens : ℕ → Database → List ℕ → Totals → Planned
  plan_tokens fuel db [] t = record { database = db; totals = t; end = planned }
  plan_tokens fuel db (token ∷ tokens) t =
      let p = plan_token fuel db token t in
      if_planned p.end (plan_tokens fuel p.database tokens p.totals) p

abbrev pub with_totals : ℕ → Totals → Job → Job
with_totals now t j = record j {
  total_entries = t.total;
  review_units = t.units;
  estimated_chars = t.chars;
  processed_entries = 0;
  reviewed_units = 0;
  cache_hits = 0;
  flagged_entries = 0;
  error_entries = 0;
  prompt_tokens = 0;
  completion_tokens = 0;
  updated_at = now;
}

-- The statement that ends planJob, where no key has stopped it.
unfoldable pub finish_plan : ℕ → ℕ → Planned → Database × PlanEnd
finish_plan now id p = elim p.end [
  | planned ↦ (
    record p.database {
      jobs = update_where (has_id id) (with_totals now p.totals) p.database.jobs;
    },
    planned,
  )
  | stopped ↦ (p.database, stopped)
  | out_of_fuel ↦ (p.database, out_of_fuel)
  | plan_failed e ↦ (p.database, plan_failed e)
]

abbrev pub is_own : ℕ → Entry → Bool
is_own id e = e.job_id == id

unfoldable pub plan_job : Runtime → Outside → ℕ → ℕ → Database → Job → Database × PlanEnd
plan_job rt out now fuel db j =
    let cleared = record db { entries = delete_where (is_own j.id) db.entries } in
    finish_plan now j.id (plan_tokens rt out now j fuel cleared j.token_ids no_totals)
