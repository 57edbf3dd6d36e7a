-- ===== src/Prelude/Ordered.antt =====
-- ORDER BY a column of natural numbers that is a key, and the rows that a LIMIT leaves out.
use Prim.Native.Nat.{ℕ, zero, suc, ◌≤◌, ◌<◌}
use mathlib.Core.Bool.{Bool}
use mathlib.Core.List.{List, [], ◌∷◌}
use mathlib.Core.Logic.{◌⊎◌, inl, inr, ◌≢◌}
use native.Mathlib.Omega.{arith}
use newapi_usage.Prelude.Lists.{All, take}
use newapi_usage.Prelude.Table.{sort_by, insert_by, select_where, In, here, there, In-All}
use newapi_usage.Prelude.Tests.{leb, Bool-cases}

module _ {ℓ κ} {A : Type ℓ} (P : A → Type κ) where
  insert_by-All :
      (le : A → A → Bool) (x : A) (xs : List A) → P x → All P xs → All P (insert_by le x xs)
  unfolding insert_by
  insert_by-All le x [] p h = (p, tt)
  insert_by-All le x (y ∷ xs) p h = elim (Bool-cases (le x y)) [
    | inl e ↦ rw e (p, h)
    | inr e ↦ rw e (h.0, insert_by-All le x xs p h.1)
  ]

  pub sort_by-All : (le : A → A → Bool) (xs : List A) → All P xs → All P (sort_by le xs)
  unfolding sort_by
  sort_by-All le [] h = tt
  sort_by-All le (x ∷ xs) h = insert_by-All le x (sort_by le xs) h.0 (sort_by-All le xs h.1)

  pub select_where-All : (q : A → Bool) (xs : List A) → All P xs → All P (select_where q xs)
  unfolding select_where
  select_where-All q [] h = tt
  select_where-All q (x ∷ xs) h = elim (Bool-cases (q x)) [
    | inl e ↦ rw e (h.0, select_where-All q xs h.1)
    | inr e ↦ rw e (select_where-All q xs h.1)
  ]

module _ {ℓ} {A : Type ℓ} (column : A → ℕ) where
  abbrev pub by_column : A → A → Bool
  by_column a b = leb (column a) (column b)

  -- No two rows have the same number.
  abbrev pub Distinct : List A → Type 0
  Distinct [] = Unit
  Distinct (x ∷ xs) = All (λ y. column x ≢ column y) xs × Distinct xs

  pub select_where-Distinct :
      (q : A → Bool) (xs : List A) → Distinct xs → Distinct (select_where q xs)
  unfolding select_where
  select_where-Distinct q [] h = tt
  select_where-Distinct q (x ∷ xs) h = elim (Bool-cases (q x)) [
    | inl e ↦
        rw e (select_where-All (λ y. column x ≢ column y) q xs h.0, select_where-Distinct q xs h.1)
    | inr e ↦ rw e (select_where-Distinct q xs h.1)
  ]

  -- Every row comes before those after it.
  abbrev pub Ascending : List A → Type 0
  Ascending [] = Unit
  Ascending (x ∷ xs) = All (λ y. column x < column y) xs × Ascending xs

  All-raise :
      (m n : ℕ) (xs : List A) → m < n → All (λ y. n < column y) xs → All (λ y. m < column y) xs
  All-raise m n [] le h = tt
  All-raise m n (y ∷ xs) le h = (omega (arith, le, h.0), All-raise m n xs le h.1)

  insert_by-Ascending :
      (x : A) (xs : List A)
      → All (λ y. column x ≢ column y) xs
      → Ascending xs
      → Ascending (insert_by by_column x xs)
  unfolding insert_by
  insert_by-Ascending x [] d h = (tt, tt)
  insert_by-Ascending x (y ∷ xs) d h = elim (Bool-cases (by_column x y)) [
    | inl e ↦
        let lt : column x < column y = ground (arith, e, d.0) in
        rw e ((lt, All-raise (column x) (column y) xs lt h.0), h)
    | inr e ↦
        let lt : column y < column x = ground (arith, e) in
        rw e (
          insert_by-All (λ z. column y < column z) by_column x xs lt h.0,
          insert_by-Ascending x xs d.1 h.1,
        )
  ]

  pub sort_by-Ascending : (xs : List A) → Distinct xs → Ascending (sort_by by_column xs)
  unfolding sort_by
  sort_by-Ascending [] d = tt
  sort_by-Ascending (x ∷ xs) d =
      insert_by-Ascending x (sort_by by_column xs)
        (sort_by-All (λ y. column x ≢ column y) by_column xs d.0) (sort_by-Ascending xs d.1)

  -- The number of the last row of a list, or the one given for no rows.
  unfoldable pub last_column : ℕ → List A → ℕ
  last_column n [] = n
  last_column n (x ∷ xs) = last_column (column x) xs

  -- A row is in a prefix, or it comes after the last of the prefix.
  pub take-Ascending :
      (n k : ℕ) (xs : List A) (x : A)
      → All (λ y. n < column y) xs
      → Ascending xs
      → In x xs
      → In x (take k xs) ⊎ (last_column n (take k xs) < column x)
  unfolding last_column
  take-Ascending n zero xs x above h m = inr (In-All (λ y. n < column y) m above)
  take-Ascending n (suc k) [] x above h m = elim m [ ]
  take-Ascending n (suc k) (_ ∷ xs) x above h here = inl here
  take-Ascending n (suc k) (y ∷ xs) x above h (there m) =
      elim (take-Ascending (column y) k xs x h.0 h.1 m) [
        | inl i ↦ inl (there i)
        | inr after ↦ inr after
      ]

  -- The rows of a prefix are not after its last row.
  pub last_column-above :
      (n k : ℕ) (xs : List A)
      → All (λ y. n < column y) xs
      → Ascending xs
      → n ≤ last_column n (take k xs)
  unfolding last_column
  last_column-above n zero xs above h = omega arith
  last_column-above n (suc k) [] above h = omega arith
  last_column-above n (suc k) (x ∷ xs) above h =
      omega (arith, above.0, last_column-above (column x) k xs h.0 h.1)
