-- ===== src/Review/Worker/Ready.antt =====
-- A job whose entries name only earlier entries as parents never blocks: while an entry is pending,
-- one is ready.
use newapi_usage.Prelude.{
  ℕ, zero, suc, ◌<◌, ◌≡◌, ◌≢◌, refl, inl, inr, Bool, true, false, ◌&&◌, List, [], ◌∷◌, map, arith,
  bool_int, take, In, here, there, In-exists_where, exists_where-In, In-select_where, In-sort_by,
  In-not-nil, Bool-cases, exists_where, count_where, sum_by,
}
use newapi_usage.Review.Types.{Entry, is_settled}
use newapi_usage.Review.Database.{Database}
use newapi_usage.Review.Worker.Selection.{
  work_entry, is_parent, is_ready, is_open, next_ready_work_entries, pending_entries,
  ordered_cursor,
}

-- A parent that is an entry of the same job was planned before its child.
abbrev pub ParentsEarlier : List Entry → Type 0
ParentsEarlier es =
    (e p : Entry)
    → In e es
    → In p es
    → p.job_id ≡ e.job_id
    → p.audit_entry_id ≡ e.parent_audit_entry_id
    → e.parent_audit_entry_id ≢ 0
    → p.id < e.id

module _ (es : List Entry) (job_id : ℕ) where
  abbrev parent_there : Entry → Bool
  parent_there e = exists_where (is_parent job_id e.parent_audit_entry_id) es

  abbrev parent_settled : Entry → Bool
  parent_settled e =
      exists_where (λ p. is_parent job_id e.parent_audit_entry_id p && is_settled p.status) es

  waits :
      (e : Entry)
      → is_open job_id e ≡ true
      → is_ready es job_id e ≡ false
      → (e.parent_audit_entry_id ≢ 0) × (parent_there e ≡ true) × (parent_settled e ≡ false)
  unfolding is_ready
  waits e o r = ground arith

  open_parent :
      (e p : Entry)
      → In p es
      → is_parent job_id e.parent_audit_entry_id p ≡ true
      → parent_settled e ≡ false
      → is_open job_id p ≡ true
  open_parent e p m h none_settled = elim (Bool-cases (is_settled p.status)) [
    | inl s ↦ absurd (clash (In-exists_where _ m (both p h s)) none_settled)
    | inr u ↦ still_open p h u
  ]
    where
      both :
          (p : Entry)
          → is_parent job_id e.parent_audit_entry_id p ≡ true
          → is_settled p.status ≡ true
          → (is_parent job_id e.parent_audit_entry_id p && is_settled p.status) ≡ true
      both p h s = rw (h, s) refl

      clash : {b : Bool} → b ≡ true → b ≡ false → ⊥
      clash t f = cc

      still_open :
          (p : Entry)
          → is_parent job_id e.parent_audit_entry_id p ≡ true
          → is_settled p.status ≡ false
          → is_open job_id p ≡ true
      still_open p h u = ground arith

  search_ready :
      (earlier : ParentsEarlier es) (n : ℕ) (e : Entry)
      → e.id < n
      → In e es
      → is_open job_id e ≡ true
      → (r : Entry) × In r es × (is_ready es job_id r ≡ true)
  search_ready earlier zero e lt m o = absurd (omega arith)
  search_ready earlier (suc n) e lt m o = elim (Bool-cases (is_ready es job_id e)) [
    | inl yes_ready ↦ (e, m, yes_ready)
    | inr no_ready ↦
        let w = waits e o no_ready in
        let p = exists_where-In _ es w.1 in
        let same : p.0.job_id ≡ e.job_id = ground arith in
        let named : p.0.audit_entry_id ≡ e.parent_audit_entry_id = ground arith in
        search_ready earlier n p.0 (omega (arith, earlier e p.0 m p.1 same named w.0)) p.1
          (open_parent e p.0 p.1 p.2 w.2)
  ]

take-nonempty :
    (n : ℕ) (xs : List Entry) → 0 < n → (xs ≡ [] → ⊥) → map work_entry (take n xs) ≡ [] → ⊥
take-nonempty zero xs h ne e = absurd (omega arith)
take-nonempty (suc n) [] h ne e = ne refl
take-nonempty (suc n) (x ∷ xs) h ne e = cc

count-In :
    (q : Entry → Bool) (xs : List Entry)
    → 0 < count_where q xs
    → (x : Entry) × In x xs × (q x ≡ true)
unfolding count_where sum_by
count-In q [] h = absurd (omega arith)
count-In q (x ∷ xs) h = elim (Bool-cases (q x)) [
  | inl e ↦ (x, here, e)
  | inr e ↦ let r = count-In q xs (skip e) in (r.0, there r.1, r.2)
]
  where
    skip : q x ≡ false → 0 < sum_by (λ y. bool_int (q y)) xs
    skip e = ground arith

-- While a job has a pending entry, and its entries name only earlier entries as parents, the query
-- for ready entries returns one.
pub next_ready-nonempty :
    (db : Database) (job_id limit : ℕ)
    → ParentsEarlier db.entries
    → 0 < limit
    → 0 < pending_entries db job_id
    → next_ready_work_entries db job_id limit ≢ []
unfolding next_ready_work_entries pending_entries
next_ready-nonempty db job_id limit earlier some_limit some_pending =
    let e = count-In (is_open job_id) db.entries some_pending in
    let r = search_ready db.entries job_id earlier (suc e.0.id) e.0 (omega arith) e.1 e.2 in
    take-nonempty limit _ some_limit (
      In-not-nil
        (In-sort_by ordered_cursor _ (In-select_where (is_ready db.entries job_id) r.1 r.2)))
