-- ===== src/Review/Jobs/Claims.antt =====
-- claimNextQueuedJob takes the oldest job of the queue, and no two claims take the same job.
use newapi_usage.Prelude.{
  ℕ, ◌≤◌, ◌≡◌, ◌≢◌, refl, sym, ap, ◌∙◌, ◌⊎◌, inl, inr, true, false, ◌&&◌, List, [], ◌∷◌, Option,
  none, some, arith, ◌==◌, length, All, In, here, there, In-All, In-select_where, select_where-In,
  In-sort_by, sort_by-In, In-not-nil, Bool-cases, Option-cases, update_where, select_where, sort_by,
  insert_by,
}
use newapi_usage.Review.Types.{Status, queued, claimed, Job, is_queued}
use newapi_usage.Review.Database.{Database}
use newapi_usage.Review.Jobs.{claim_next_queued_job, first_row, by_id}

abbrev queue : Database → List Job
queue db = sort_by by_id (select_where (λ j. is_queued j.status) db.jobs)

-- In order of their ids.
abbrev Ordered : List Job → Type 0
Ordered [] = Unit {0}
Ordered (j ∷ js) = All (λ k. j.id ≤ k.id) js × Ordered js

All-le :
    (a b : ℕ) (js : List Job)
    → a ≤ b
    → All (λ (k : Job). b ≤ k.id) js
    → All (λ (k : Job). a ≤ k.id) js
All-le a b [] h g = tt
All-le a b (j ∷ js) h g = (omega arith, All-le a b js h g.1)

All-insert :
    (a : ℕ) (j : Job) (js : List Job)
    → a ≤ j.id
    → All (λ (k : Job). a ≤ k.id) js
    → All (λ (k : Job). a ≤ k.id) (insert_by by_id j js)
unfolding insert_by
All-insert a j [] h g = (h, tt)
All-insert a j (k ∷ js) h g = ground (arith, All-insert a j js h g.1)

insert-Ordered : (j : Job) (js : List Job) → Ordered js → Ordered (insert_by by_id j js)
unfolding insert_by
insert-Ordered j [] o = (tt, tt)
insert-Ordered j (k ∷ js) o = elim (Bool-cases (by_id j k)) [
  | inl e ↦ rw e ((ground arith, All-le j.id k.id js (ground arith) o.0), o)
  | inr e ↦ rw e (All-insert k.id j js (ground arith) o.0, insert-Ordered j js o.1)
]

sort-Ordered : (js : List Job) → Ordered (sort_by by_id js)
unfolding sort_by
sort-Ordered [] = tt
sort-Ordered (j ∷ js) = insert-Ordered j (sort_by by_id js) (sort-Ordered js)

first_row-least :
    (js : List Job) (j : Job)
    → first_row js ≡ some j
    → Ordered js
    → In j js × ((k : Job) → In k js → j.id ≤ k.id)
unfolding first_row
first_row-least [] j e o = cc
first_row-least (x ∷ js) j e o =
    let same : x ≡ j = ground arith in (rw (← same) here, λ k m. rw (← same) (least x js k o m))
  where
    least : (x : Job) (js : List Job) (k : Job) → Ordered (x ∷ js) → In k (x ∷ js) → x.id ≤ k.id
    least x js k o here = omega arith
    least x js k o (there m) = In-All _ m o.0

is_queued→≡ : (s : Status) → is_queued s ≡ true → s ≡ queued
is_queued→≡ s h = ground arith

abbrev claimed_database : Database → ℕ → Job → Database
claimed_database db now j = record db {
  jobs =
      update_where (λ r. r.id == j.id && is_queued r.status)
        (λ r. record r { status = claimed; updated_at = now }) db.jobs;
}

length_not_zero : (js : List Job) → (js ≡ [] → ⊥) → (length js == 0) ≡ false
length_not_zero [] h = absurd (h refl)
length_not_zero (j ∷ js) h = ground arith

-- The two outcomes of a claim.
abbrev Claims : Database → ℕ → Database × Option Job → Type 0
Claims db now r =
    ((first_row (queue db) ≡ none) × (r ≡ (db, none)))
    ⊎ ((old : Job) × In old db.jobs
        × (is_queued old.status ≡ true)
        × ((k : Job) → In k (queue db) → old.id ≤ k.id)
        × (r ≡ (claimed_database db now old, some (record old { status = claimed }))))

claim-Claims : (db : Database) (now : ℕ) → Claims db now (claim_next_queued_job db now)
unfolding claim_next_queued_job
claim-Claims db now = elim (Option-cases (first_row (queue db))) [
  | inl e ↦ inl (e, rw (e, claim_next_queued_job) refl)
  | inr (old, e) ↦
      let least = first_row-least (queue db) old e (sort-Ordered _) in
      let row =
        select_where-In (λ (j : Job). is_queued j.status) {x = old} db.jobs
          (sort_by-In by_id _ least.0) in
      let some_left : (length
              (select_where (λ (r : Job). r.id == old.id && is_queued r.status) db.jobs)
            == 0)
          ≡ false =
        length_not_zero _ (In-not-nil (In-select_where _ row.0 (rw row.1 (ground arith)))) in
      inr (old, row.0, row.1, least.1, rw (e, claim_next_queued_job, some_left) refl)
]

none_left :
    (id now : ℕ) (js : List Job)
    → All
        (λ (k : Job). k.id ≡ id → k.status ≢ queued)
        (update_where
          (λ (r : Job). r.id == id && is_queued r.status)
          (λ r. record r { status = claimed; updated_at = now })
          js)
unfolding update_where
none_left id now [] = tt
none_left id now (j ∷ js) = (ground arith, none_left id now js)

none-some : {j : Job} → ◌≡◌ {A = Option Job} none (some j) → ⊥
none-some e = cc

empty_queue : (js : List Job) → first_row js ≡ none → js ≡ []
unfolding first_row
empty_queue [] e = refl
empty_queue (j ∷ js) e = cc

-- A claim of a job returns a job that was in the queue, of the lowest id in it, and afterwards no
-- job of that id is in the queue.
pub claim-oldest :
    (db : Database) (now : ℕ) (j : Job)
    → (claim_next_queued_job db now).1 ≡ some j
    → ((old : Job) × In old db.jobs × (old.status ≡ queued) × (j ≡ record old { status = claimed }))
      × ((k : Job) → In k db.jobs → k.status ≡ queued → j.id ≤ k.id)
      × All (λ (k : Job). k.id ≡ j.id → k.status ≢ queued) (claim_next_queued_job db now).0.jobs
claim-oldest db now j h = elim (claim-Claims db now) [
  | inl (e, r) ↦ absurd (none-some (sym (ap (λ (x : Database × Option Job). x.1) r) ∙ h))
  | inr (old, m, q, least, r) ↦
      let same : record old { status = claimed } ≡ j =
        cc (ap (λ (x : Database × Option Job). x.1) r, h) in
      (
        (old, m, is_queued→≡ old.status q, sym same),
        (λ k i e. rw (← same) (least k (In-sort_by by_id _ (In-select_where _ i (rw e refl))))),
        rw (r, ← same) (none_left old.id now db.jobs),
      )
]

-- Where nothing is claimed, no job is in the queue, and nothing changes.
pub claim-none :
    (db : Database) (now : ℕ)
    → (claim_next_queued_job db now).1 ≡ none
    → ((k : Job) → In k db.jobs → k.status ≢ queued) × ((claim_next_queued_job db now).0 ≡ db)
claim-none db now h = elim (claim-Claims db now) [
  | inl (e, r) ↦ (
    (λ k m q.
        In-not-nil
          (In-sort_by by_id _ (In-select_where (λ (x : Job). is_queued x.status) m (rw q refl)))
          (empty_queue (queue db) e)),
    ap (λ (x : Database × Option Job). x.0) r,
  )
  | inr (old, m, q, least, r) ↦
      absurd (none-some (sym h ∙ ap (λ (x : Database × Option Job). x.1) r))
]
