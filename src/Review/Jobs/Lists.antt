-- ===== src/Review/Jobs/Lists.antt =====
-- ListJobs of internal/review/jobs.go: the newest jobs, at most a hundred.
use newapi_usage.Prelude.{
  ℕ, zero, suc, ◌≤◌, ◌≡◌, ◌⊎◌, inl, inr, Bool, true, false, ◌||◌, List, [], ◌∷◌, ℤ, pos, pos_part,
  leb_ℤ, ltb_ℤ, leb, arith, if◌then◌else◌, length, take, length-take, All, In, here, there, In-All,
  Bool-cases, sort_by, insert_by, take-In, sort_by-In, In-sort_by,
}
use newapi_usage.Review.Types.{Job}
use newapi_usage.Review.Database.{Database}

unfoldable pub list_limit : ℤ → ℕ
list_limit limit = if leb_ℤ limit (pos 0) || ltb_ℤ (pos 100) limit then 30 else pos_part limit

-- ORDER BY id DESC
abbrev pub newest : Job → Job → Bool
newest a b = leb b.id a.id

unfoldable pub list_jobs : Database → ℤ → List Job
unfolding list_limit
list_jobs db limit = take (list_limit limit) (sort_by newest db.jobs)

abbrev Sorted : List Job → Type 0
Sorted js = elim js [ [] ↦ Unit | j ∷ (rest → h) ↦ All (λ (k : Job). k.id ≤ j.id) rest × h ]

All-insert :
    (P : Job → Type 0) (j : Job) (js : List Job) → P j → All P js → All P (insert_by newest j js)
unfolding insert_by
All-insert P j [] p h = (p, tt)
All-insert P j (k ∷ js) p h = elim (Bool-cases (newest j k)) [
  | inl e ↦ rw e (p, h)
  | inr e ↦ rw e (h.0, All-insert P j js p h.1)
]

weaken :
    (a b : ℕ) (js : List Job)
    → a ≤ b
    → All (λ (k : Job). k.id ≤ a) js
    → All (λ (k : Job). k.id ≤ b) js
weaken a b [] le h = tt
weaken a b (k ∷ js) le h = (omega (arith, le, h.0), weaken a b js le h.1)

insert-Sorted : (j : Job) (js : List Job) → Sorted js → Sorted (insert_by newest j js)
unfolding insert_by
insert-Sorted j [] h = (tt, tt)
insert-Sorted j (k ∷ js) h = elim (Bool-cases (newest j k)) [
  | inl e ↦ rw e ((below e, weaken k.id j.id js (below e) h.0), h)
  | inr e ↦ rw e (All-insert (λ (x : Job). x.id ≤ k.id) j js (above e) h.0, insert-Sorted j js h.1)
]
  where
    below : newest j k ≡ true → k.id ≤ j.id
    below e = ground arith

    above : newest j k ≡ false → j.id ≤ k.id
    above e = ground arith

sort-Sorted : (js : List Job) → Sorted (sort_by newest js)
unfolding sort_by
sort-Sorted [] = tt
sort-Sorted (j ∷ js) = insert-Sorted j (sort_by newest js) (sort-Sorted js)

-- What a prefix leaves out is not newer than what it holds.
take-Sorted :
    (n : ℕ) (js : List Job) (k : Job)
    → Sorted js
    → In k js
    → In k (take n js) ⊎ ((j : Job) → In j (take n js) → k.id ≤ j.id)
take-Sorted zero js k h m = inr (λ j i. elim i [ ])
take-Sorted (suc n) [] k h m = elim m [ ]
take-Sorted (suc n) (y ∷ js) x h here = inl here
take-Sorted (suc n) (x ∷ js) k h (there m) = elim (take-Sorted n js k h.1 m) [
  | inl i ↦ inl (there i)
  | inr f ↦ inr (first f)
]
  where
    first :
        ((j : Job) → In j (take n js) → k.id ≤ j.id)
        → (j : Job) → In j (x ∷ take n js)
        → k.id ≤ j.id
    first f x here = In-All (λ (y : Job). y.id ≤ x.id) m h.0
    first f j (there i) = f j i

limit_bound : (limit : ℤ) → list_limit limit ≤ 100
unfolding list_limit
limit_bound limit = ground arith

-- The list has at most 100 jobs, each of them in the table, and a job of the table that is not listed
-- has an id no greater than any listed one's.
pub list_jobs-newest :
    (db : Database) (limit : ℤ)
    → (length (list_jobs db limit) ≤ 100)
      × ((j : Job) → In j (list_jobs db limit) → In j db.jobs)
      × ((k : Job)
          → In k db.jobs
          → In k (list_jobs db limit) ⊎ ((j : Job) → In j (list_jobs db limit) → k.id ≤ j.id))
unfolding list_jobs
list_jobs-newest db limit = (
  omega (arith, length-take (list_limit limit) (sort_by newest db.jobs), limit_bound limit),
  (λ j m. sort_by-In newest db.jobs (take-In (list_limit limit) _ m)),
  (λ k m.
      take-Sorted (list_limit limit) (sort_by newest db.jobs) k (sort-Sorted db.jobs)
        (In-sort_by newest db.jobs m)),
)
