-- ===== src/Audit/Lookup/Sorted.antt =====
-- The first row of an ORDER BY.
use newapi_usage.Prelude.{
  Bool, true, false, List, [], ◌∷◌, ◌≡◌, refl, ◌⊎◌, inl, inr, All, insert_by, sort_by, Bool-cases,
}

module _ {ℓ} {A : Type ℓ} (le : A → A → Bool) where
  -- A list has a first row that is before all rows, or no rows.
  unfoldable pub HasFirst : List A → List A → Type ℓ
  HasFirst sorted xs =
      ((sorted ≡ []) × (xs ≡ []))
      ⊎ ((y : A) × (ys : List A) × (sorted ≡ y ∷ ys) × All (λ x. le y x ≡ true) xs)

  All-trans :
      (y z : A) (xs : List A)
      → ((x : A) → le y x ≡ true → le z x ≡ true)
      → All (λ x. le y x ≡ true) xs
      → All (λ x. le z x ≡ true) xs
  All-trans y z [] step h = tt
  All-trans y z (x ∷ xs) step h = (step x h.0, All-trans y z xs step h.1)

  pub sort_by-HasFirst :
      ((x y : A) → le x y ≡ false → le y x ≡ true)
      → ((x y z : A) → le x y ≡ true → le y z ≡ true → le x z ≡ true)
      → (xs : List A) → HasFirst (sort_by le xs) xs
  unfolding HasFirst sort_by insert_by
  sort_by-HasFirst total trans [] = inl (refl, refl)
  sort_by-HasFirst total trans (x ∷ xs) =
      let reflexive : le x x ≡ true = elim (Bool-cases (le x x)) [
        | inl e ↦ e
        | inr e ↦ total x x e
      ] in
      elim (sort_by-HasFirst total trans xs) [
        | inl e ↦ inr (x, [], rw e.0, rw e.1 (reflexive, tt))
        | inr r ↦ elim (Bool-cases (le x r.0)) [
          | inl before ↦ inr (
            x,
            r.0 ∷ r.1,
            rw (r.2, before),
            (reflexive, All-trans r.0 x xs (λ z. trans x r.0 z before) r.3),
          )
          | inr after ↦ inr (r.0, insert_by le x r.1, rw (r.2, after), (total x r.0 after, r.3))
        ]
      ]
