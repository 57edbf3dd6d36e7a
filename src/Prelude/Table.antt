-- ===== src/Prelude/Table.antt =====
-- A database table as the list of its rows, and the statements that the program runs on one:
-- UPDATE … WHERE, DELETE … WHERE, SELECT … WHERE, COUNT and SUM, ORDER BY.
use Prim.Native.Nat.{ℕ, zero, suc, ◌+◌}
use mathlib.Core.Bool.{Bool, true, false}
use mathlib.Core.List.{List, [], ◌∷◌}
use mathlib.Core.Logic.{◌⊎◌, inl, inr}
use mathlib.Core.Option.{Option, none, some}
use mathlib.Core.Path.{◌≡◌, refl, ap}
use native.Mathlib.Omega.{arith}
use newapi_usage.Prelude.Lists.{length, All, take}
use newapi_usage.Prelude.Tests.{if◌then◌else◌, bool_int, Bool-cases}

module _ {ℓ} {A : Type ℓ} where
  unfoldable pub update_where : (A → Bool) → (A → A) → List A → List A
  update_where q f [] = []
  update_where q f (x ∷ xs) = (if q x then f x else x) ∷ update_where q f xs

  unfoldable pub select_where : (A → Bool) → List A → List A
  select_where q [] = []
  select_where q (x ∷ xs) = if q x then x ∷ select_where q xs else select_where q xs

  unfoldable pub delete_where : (A → Bool) → List A → List A
  delete_where q [] = []
  delete_where q (x ∷ xs) = if q x then delete_where q xs else x ∷ delete_where q xs

  unfoldable pub find_where : (A → Bool) → List A → Option A
  find_where q [] = none
  find_where q (x ∷ xs) = if q x then some x else find_where q xs

  -- SUM of a column.
  unfoldable pub sum_by : (A → ℕ) → List A → ℕ
  sum_by m [] = 0
  sum_by m (x ∷ xs) = m x + sum_by m xs

  -- COUNT(*) … WHERE.
  unfoldable pub count_where : (A → Bool) → List A → ℕ
  unfolding sum_by
  count_where q = sum_by (λ x. bool_int (q x))

  -- EXISTS (SELECT 1 … WHERE …)
  unfoldable pub exists_where : (A → Bool) → List A → Bool
  exists_where q [] = false
  exists_where q (x ∷ xs) = if q x then true else exists_where q xs

  unfoldable pub insert_by : (A → A → Bool) → A → List A → List A
  insert_by le x [] = x ∷ []
  insert_by le x (y ∷ ys) = if le x y then x ∷ y ∷ ys else y ∷ insert_by le x ys

  -- ORDER BY, and sort.Slice with an order that has no ties.
  unfoldable pub sort_by : (A → A → Bool) → List A → List A
  unfolding insert_by
  sort_by le [] = []
  sort_by le (x ∷ xs) = insert_by le x (sort_by le xs)

  -- A row of the table.
  pub data In (x : A) : List A → Type ℓ where
    here : {xs : List A} → In x (x ∷ xs)
    there : {y : A} {xs : List A} → In x xs → In x (y ∷ xs)

module _ {ℓ} {A : Type ℓ} where
  pub In-All {κ} : (P : A → Type κ) {x : A} {xs : List A} → In x xs → All P xs → P x
  In-All P here h = h.0
  In-All P (there m) h = In-All P m h.1

  pub In-select_where :
      (q : A → Bool) {x : A} {xs : List A} → In x xs → q x ≡ true → In x (select_where q xs)
  unfolding select_where
  In-select_where q here h = rw h here
  In-select_where q (there {y = y} m) h = elim (Bool-cases (q y)) [
    | inl e ↦ rw e (there (In-select_where q m h))
    | inr e ↦ rw e (In-select_where q m h)
  ]

  pub In-cons_cases : {x y : A} {xs : List A} → In x (y ∷ xs) → (x ≡ y) ⊎ In x xs
  In-cons_cases here = inl refl
  In-cons_cases (there m) = inr m

  pub In-not-nil : {x : A} {xs : List A} → In x xs → xs ≡ [] → ⊥
  In-not-nil here e = cc
  In-not-nil (there m) e = cc

  pub select_where-In :
      (q : A → Bool) {x : A} (xs : List A) → In x (select_where q xs) → In x xs × (q x ≡ true)
  unfolding select_where
  select_where-In q [] m = elim m [ ]
  select_where-In q {x} (y ∷ xs) m = elim (Bool-cases (q y)) [
    | inr e ↦ let r = select_where-In q {x = x} xs (rw e at m) in (there r.0, r.1)
    | inl e ↦ elim (In-cons_cases {x = x} {y = y} (rw e at m)) [
      | inl same ↦ (rw same here, rw same e)
      | inr m' ↦ let r = select_where-In q {x = x} xs m' in (there r.0, r.1)
    ]
  ]

  pub exists_where-In :
      (q : A → Bool) (xs : List A) → exists_where q xs ≡ true → (x : A) × In x xs × (q x ≡ true)
  unfolding exists_where
  exists_where-In q [] h = cc
  exists_where-In q (x ∷ xs) h = elim (Bool-cases (q x)) [
    | inl e ↦ (x, here, e)
    | inr e ↦ let r = exists_where-In q xs (rw e at h) in (r.0, there r.1, r.2)
  ]

  pub In-exists_where :
      (q : A → Bool) {x : A} {xs : List A} → In x xs → q x ≡ true → exists_where q xs ≡ true
  unfolding exists_where
  In-exists_where q here h = rw h
  In-exists_where q (there {y = y} m) h = ground (arith, In-exists_where q m h)

  pub find_where-In :
      (q : A → Bool) (xs : List A) {x : A} → find_where q xs ≡ some x → In x xs × (q x ≡ true)
  unfolding find_where
  find_where-In q [] h = cc
  find_where-In q (y ∷ xs) {x} h = elim (Bool-cases (q y)) [
    | inl e ↦ let same : y ≡ x = ground arith in (rw (← same) here, rw (← same) e)
    | inr e ↦ let r = find_where-In q xs {x = x} (rw e at h) in (there r.0, r.1)
  ]

module _ {ℓ} {A : Type ℓ} where
  -- A column summed after an update is the old sum, less the rows that were updated, plus what
  -- they became.
  pub sum_by-update_where :
      (m : A → ℕ) (q : A → Bool) (f : A → A) (xs : List A)
      → sum_by m (update_where q f xs) + sum_by m (select_where q xs)
        ≡ sum_by m xs + sum_by (λ x. m (f x)) (select_where q xs)
  unfolding sum_by update_where select_where
  sum_by-update_where m q f [] = omega arith
  sum_by-update_where m q f (x ∷ xs) = elim (Bool-cases (q x)) [
    | inl e ↦ rw e (omega (arith, sum_by-update_where m q f xs))
    | inr e ↦ rw e (omega (arith, sum_by-update_where m q f xs))
  ]

  -- The case of one row.
  pub sum_by-update_one :
      (m : A → ℕ) (q : A → Bool) (f : A → A) (xs : List A) (x : A)
      → select_where q xs ≡ x ∷ []
      → sum_by m (update_where q f xs) + m x ≡ sum_by m xs + m (f x)
  unfolding sum_by
  sum_by-update_one m q f xs x h =
      omega (arith, sum_by-update_where m q f xs, ap (sum_by m) h, ap (sum_by (λ y. m (f y))) h)

  pub length-update_where :
      (q : A → Bool) (f : A → A) (xs : List A) → length (update_where q f xs) ≡ length xs
  unfolding update_where
  length-update_where q f [] = refl
  length-update_where q f (x ∷ xs) = omega (arith, length-update_where q f xs)

  -- An update that keeps a property of the rows.
  pub All-update_where {κ} :
      (P : A → Type κ) (q : A → Bool) (f : A → A) (xs : List A)
      → ((x : A) → P x → P (f x))
      → All P xs
      → All P (update_where q f xs)
  unfolding update_where
  All-update_where P q f [] keep h = tt
  All-update_where P q f (x ∷ xs) keep h = elim (Bool-cases (q x)) [
    | inl e ↦ rw e (keep x h.0, All-update_where P q f xs keep h.1)
    | inr e ↦ rw e (h.0, All-update_where P q f xs keep h.1)
  ]

  -- A selection that the update does not touch.
  pub select_where-update_where :
      (p q : A → Bool) (f : A → A) (xs : List A)
      → ((x : A) → q x ≡ true → p x ≡ false)
      → ((x : A) → q x ≡ true → p (f x) ≡ false)
      → select_where p (update_where q f xs) ≡ select_where p xs
  unfolding update_where select_where
  select_where-update_where p q f [] before after = refl
  select_where-update_where p q f (x ∷ xs) before after = elim (Bool-cases (q x)) [
    | inl e ↦ rw (e, before x e, after x e) (select_where-update_where p q f xs before after)
    | inr e ↦ rw (e, select_where-update_where p q f xs before after)
  ]

  -- An update that the search does not see changes what it finds where the row is updated.
  pub find_where-update_where :
      (p q : A → Bool) (f : A → A) (xs : List A)
      → ((x : A) → p (f x) ≡ p x)
      → find_where p (update_where q f xs)
        ≡ elim (find_where p xs) [ none ↦ none | some x ↦ some (if q x then f x else x) ]
  unfolding find_where update_where
  find_where-update_where p q f [] same = refl
  find_where-update_where p q f (x ∷ xs) same = elim (Bool-cases (p x)) [
    | inl hit ↦ elim (Bool-cases (q x)) [
      | inl e ↦ rw (e, same x, hit, e) refl
      | inr e ↦ rw (e, hit, e) refl
    ]
    | inr miss ↦ elim (Bool-cases (q x)) [
      | inl e ↦ rw (e, same x, miss) (find_where-update_where p q f xs same)
      | inr e ↦ rw (e, miss) (find_where-update_where p q f xs same)
    ]
  ]

  pub In-insert_by :
      (le : A → A → Bool) (y : A) {x : A} (xs : List A) → In x xs → In x (insert_by le y xs)
  unfolding insert_by
  In-insert_by le y [] m = elim m [ ]
  In-insert_by le y (z ∷ xs) here = elim (Bool-cases (le y z)) [
    | inl e ↦ rw e (there here)
    | inr e ↦ rw e here
  ]
  In-insert_by le y (z ∷ xs) (there m) = elim (Bool-cases (le y z)) [
    | inl e ↦ rw e (there (there m))
    | inr e ↦ rw e (there (In-insert_by le y xs m))
  ]

  In-insert_by_self : (le : A → A → Bool) (y : A) (xs : List A) → In y (insert_by le y xs)
  unfolding insert_by
  In-insert_by_self le y [] = here
  In-insert_by_self le y (z ∷ xs) = elim (Bool-cases (le y z)) [
    | inl e ↦ rw e here
    | inr e ↦ rw e (there (In-insert_by_self le y xs))
  ]

  pub In-sort_by : (le : A → A → Bool) {x : A} (xs : List A) → In x xs → In x (sort_by le xs)
  unfolding sort_by
  In-sort_by le [] m = elim m [ ]
  In-sort_by le (y ∷ xs) here = In-insert_by_self le y (sort_by le xs)
  In-sort_by le (y ∷ xs) (there m) = In-insert_by le y (sort_by le xs) (In-sort_by le xs m)

  insert_by-In :
      (le : A → A → Bool) (y : A) {x : A} (xs : List A)
      → In x (insert_by le y xs)
      → (x ≡ y) ⊎ In x xs
  unfolding insert_by
  insert_by-In le y [] m = In-cons_cases m
  insert_by-In le y {x} (z ∷ xs) m = elim (Bool-cases (le y z)) [
    | inl e ↦ In-cons_cases {x = x} {y = y} {xs = z ∷ xs} (rw e at m)
    | inr e ↦ elim (In-cons_cases {x = x} {y = z} {xs = insert_by le y xs} (rw e at m)) [
      | inl same ↦ inr (rw same here)
      | inr m' ↦ elim (insert_by-In le y {x = x} xs m') [
        | inl same ↦ inl same
        | inr old ↦ inr (there old)
      ]
    ]
  ]

  pub sort_by-In : (le : A → A → Bool) {x : A} (xs : List A) → In x (sort_by le xs) → In x xs
  unfolding sort_by
  sort_by-In le [] m = elim m [ ]
  sort_by-In le {x} (y ∷ xs) m = elim (insert_by-In le y {x = x} (sort_by le xs) m) [
    | inl same ↦ rw same here
    | inr m' ↦ there (sort_by-In le xs m')
  ]

  pub take-In : (n : ℕ) {x : A} (xs : List A) → In x (take n xs) → In x xs
  take-In zero xs m = elim m [ ]
  take-In (suc n) [] m = elim m [ ]
  take-In (suc n) (y ∷ xs) here = here
  take-In (suc n) (y ∷ xs) (there m) = there (take-In n xs m)
