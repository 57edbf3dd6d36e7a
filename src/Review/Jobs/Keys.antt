-- ===== src/Review/Jobs/Keys.antt =====
-- normalizeTokenIDs: the keys of a job are the positive ids of the request, each once, in order.
use newapi_usage.Prelude.{
  ℕ, zero, suc, ◌≡◌, ◌≢◌, ◌<◌, ◌⊎◌, inl, inr, ◌↔◌, true, false, List, [], ◌∷◌, ℤ, pos, negsuc, ◌≤ℤ◌,
  leb, ◌==◌, arith, All, In, here, there, In-sort_by, sort_by-In, Bool-cases, sort_by, insert_by,
}
use newapi_usage.Review.Jobs.Input.{
  contains_id, keep_ids, normalize_token_ids, normalize_concurrency,
}

-- Strictly increasing.
abbrev pub Ascending : List ℕ → Type 0
Ascending [] = Unit {0}
Ascending (n ∷ ns) = All (λ m. n < m) ns × Ascending ns

abbrev Apart : List ℕ → Type 0
Apart [] = Unit {0}
Apart (n ∷ ns) = All (λ m. n ≢ m) ns × Apart ns

module _ (P : ℕ → Type 0) where
  All-insert : (n : ℕ) (ns : List ℕ) → P n → All P ns → All P (insert_by leb n ns)
  unfolding insert_by
  All-insert n [] p h = (p, tt)
  All-insert n (m ∷ ns) p h = elim (Bool-cases (leb n m)) [
    | inl e ↦ rw e (p, h)
    | inr e ↦ rw e (h.0, All-insert n ns p h.1)
  ]

  All-sort : (ns : List ℕ) → All P ns → All P (sort_by leb ns)
  unfolding sort_by
  All-sort [] h = tt
  All-sort (n ∷ ns) h = All-insert n (sort_by leb ns) h.0 (All-sort ns h.1)

All-below : (n m : ℕ) (ns : List ℕ) → n < m → All (λ k. m < k) ns → All (λ k. n < k) ns
All-below n m [] h g = tt
All-below n m (k ∷ ns) h g = (omega arith, All-below n m ns h g.1)

insert-Ascending :
    (n : ℕ) (ns : List ℕ) → All (λ m. n ≢ m) ns → Ascending ns → Ascending (insert_by leb n ns)
unfolding insert_by
insert-Ascending n [] new h = (tt, tt)
insert-Ascending n (m ∷ ns) new h = elim (Bool-cases (leb n m)) [
  | inl e ↦ let lt : n < m = ground arith in rw e ((lt, All-below n m ns lt h.0), h)
  | inr e ↦ rw e (All-insert (λ k. m < k) n ns (ground arith) h.0, insert-Ascending n ns new.1 h.1)
]

sort-Ascending : (ns : List ℕ) → Apart ns → Ascending (sort_by leb ns)
unfolding sort_by
sort-Ascending [] h = tt
sort-Ascending (n ∷ ns) h =
    insert-Ascending n (sort_by leb ns) (All-sort (λ m. n ≢ m) ns h.0) (sort-Ascending ns h.1)

abbrev New : List ℕ → ℕ → Type 0
New seen n = contains_id seen n ≡ false

New-split :
    (y : ℕ) (seen ns : List ℕ) → All (New (y ∷ seen)) ns → All (New seen) ns × All (λ m. y ≢ m) ns
unfolding contains_id
New-split y seen [] h = (tt, tt)
New-split y seen (n ∷ ns) h =
    let rest = New-split y seen ns h.1 in ((ground arith, rest.0), ((λ e. ground arith), rest.1))

keep_ids-New :
    (seen : List ℕ) (vs : List ℤ) → All (New seen) (keep_ids seen vs) × Apart (keep_ids seen vs)
unfolding keep_ids
keep_ids-New seen [] = (tt, tt)
keep_ids-New seen (pos (suc n) ∷ vs) = elim (Bool-cases (contains_id seen (suc n))) [
  | inl e ↦ rw (e, keep_ids) (keep_ids-New seen vs)
  | inr e ↦
      let rest = keep_ids-New (suc n ∷ seen) vs in
      let parts = New-split (suc n) seen _ rest.0 in
      rw (e, keep_ids) ((e, parts.0), (parts.1, rest.1))
]
keep_ids-New seen (pos zero ∷ vs) = keep_ids-New seen vs
keep_ids-New seen (negsuc n ∷ vs) = keep_ids-New seen vs

keep_ids-In :
    (seen : List ℕ) (vs : List ℤ) {n : ℕ} → In n (keep_ids seen vs) → (0 < n) × In (pos n) vs
unfolding keep_ids
keep_ids-In seen [] m = elim m [ ]
keep_ids-In seen (pos (suc k) ∷ vs) {n} m = elim (Bool-cases (contains_id seen (suc k))) [
  | inl e ↦ let r = keep_ids-In seen vs {n = n} (rw (e, keep_ids) at m) in (r.0, there r.1)
  | inr e ↦ first_or_rest k vs n (keep_ids-In (suc k ∷ seen) vs {n = n}) (rw (e, keep_ids) at m)
]
  where
    first_or_rest :
        (k : ℕ) (vs : List ℤ) (n : ℕ)
        → (In n (keep_ids (suc k ∷ seen) vs) → (0 < n) × In (pos n) vs)
        → In n (suc k ∷ keep_ids (suc k ∷ seen) vs)
        → (0 < n) × In (pos n) (pos (suc k) ∷ vs)
    first_or_rest k vs n ih here = (omega arith, here)
    first_or_rest k vs n ih (there m) = let r = ih m in (r.0, there r.1)
keep_ids-In seen (pos zero ∷ vs) {n} m = let r = keep_ids-In seen vs {n = n} m in (r.0, there r.1)
keep_ids-In seen (negsuc k ∷ vs) {n} m = let r = keep_ids-In seen vs {n = n} m in (r.0, there r.1)

In-keep_ids :
    (seen : List ℕ) (vs : List ℤ) (n : ℕ)
    → In (pos (suc n)) vs
    → (contains_id seen (suc n) ≡ true) ⊎ In (suc n) (keep_ids seen vs)
unfolding keep_ids contains_id
In-keep_ids seen [] n m = elim m [ ]
In-keep_ids seen (pos (suc k) ∷ vs) n here = elim (Bool-cases (contains_id seen (suc n))) [
  | inl e ↦ inl e
  | inr e ↦ inr (rw (e, keep_ids) here)
]
In-keep_ids seen (pos (suc k) ∷ vs) n (there m) = elim (Bool-cases (contains_id seen (suc k))) [
  | inl e ↦ rw (e, keep_ids) (In-keep_ids seen vs n m)
  | inr e ↦ elim (In-keep_ids (suc k ∷ seen) vs n m) [
    | inr i ↦ inr (rw (e, keep_ids) (there i))
    | inl c ↦ elim (Bool-cases (suc k == suc n)) [
      | inl same ↦ let eq : suc k ≡ suc n = ground arith in inr (rw (e, keep_ids, eq) here)
      | inr differ ↦ inl (ground arith)
    ]
  ]
]
In-keep_ids seen (pos zero ∷ vs) n (there m) = In-keep_ids seen vs n m
In-keep_ids seen (negsuc k ∷ vs) n (there m) = In-keep_ids seen vs n m

-- The normalized keys are strictly increasing, and are exactly the positive ids of the request.
pub normalize_token_ids-exact :
    (values : List ℤ)
    → Ascending (normalize_token_ids values)
      × ((n : ℕ) → In n (normalize_token_ids values) ↔ ((0 < n) × In (pos n) values))
unfolding normalize_token_ids
normalize_token_ids-exact values = (
  sort-Ascending _ (keep_ids-New [] values).1,
  λ n. ((λ m. keep_ids-In [] values (sort_by-In leb _ m)), λ h. back n h.0 h.1),
)
  where
    back : (n : ℕ) → 0 < n → In (pos n) values → In n (sort_by leb (keep_ids [] values))
    back zero h m = absurd (omega arith)
    back (suc n) h m = elim (In-keep_ids [] values n m) [
      | inl e ↦ absurd (none_seen e)
      | inr i ↦ In-sort_by leb _ i
    ]
      where
        none_seen : contains_id [] (suc n) ≡ true → ⊥
        none_seen e = cc

-- The number of requests in flight for a job is 1 to 20: the given number where it lies there, 5 for
-- one that is not positive, and 20 for a greater one.
pub normalize_concurrency_bounds :
    (v : ℤ)
    → (pos 1 ≤ℤ normalize_concurrency v)
      × (normalize_concurrency v ≤ℤ pos 20)
      × (pos 1 ≤ℤ v → v ≤ℤ pos 20 → normalize_concurrency v ≡ v)
      × (v ≤ℤ pos 0 → normalize_concurrency v ≡ pos 5)
      × (pos 21 ≤ℤ v → normalize_concurrency v ≡ pos 20)
unfolding normalize_concurrency
normalize_concurrency_bounds v = ground arith
