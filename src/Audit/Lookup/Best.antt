-- ===== src/Audit/Lookup/Best.antt =====
-- What the loop of bestClientCandidate keeps: no candidate that fits is better.
use newapi_usage.Prelude.{
  Bool, true, false, not, ◌&&◌, List, [], ◌∷◌, Option, none, some, if◌then◌else◌, ℤ, In, here,
  there, All, ◌≡◌, refl, ap, subst, ◌⊎◌, inl, inr, Bool-cases, arith,
}
use newapi_usage.Audit.Entries.{EntryRow}
use newapi_usage.Audit.Lookup.Filter.{LookupFilter}
use newapi_usage.Audit.Lookup.Candidate.{
  Best, candidate_rank, is_better, replace_best, matches_token_identity, outside_window,
  scan_candidates,
}

pub is_better_chain :
    (c b r : Best) → is_better c b ≡ true → is_better c r ≡ false → is_better b r ≡ false
unfolding is_better
is_better_chain c b r h g = ground arith

pub is_better_trans :
    (e b r : Best) → is_better e b ≡ false → is_better b r ≡ false → is_better e r ≡ false
unfolding is_better
is_better_trans e b r h g = ground arith

is_better_irrefl : (b : Best) → is_better b b ≡ false
unfolding is_better
is_better_irrefl b = ground arith

-- The candidates that the loop does not pass over.
abbrev pub fits : LookupFilter → ℤ → EntryRow → Bool
fits f window e = matches_token_identity f e && not (outside_window f window e)

module _ (f : LookupFilter) (window : ℤ) where
  -- No candidate that fits is better than the entry.
  unfoldable pub Unbeaten : Best → EntryRow → Type 0
  Unbeaten r e = fits f window e ≡ true → is_better (candidate_rank f e) r ≡ false

  scan_candidates-step :
      (best : Option Best) (e : EntryRow) (es : List EntryRow)
      → scan_candidates f window best (e ∷ es)
        ≡ scan_candidates f window
            (if fits f window e then replace_best (candidate_rank f e) best else best)
            es
  unfolding scan_candidates
  scan_candidates-step best e es = elim (Bool-cases (matches_token_identity f e)) [
    | inr unfit ↦ rw unfit
    | inl same ↦ elim (Bool-cases (outside_window f window e)) [
      | inl out ↦ rw (same, out)
      | inr in_it ↦ rw (same, in_it)
    ]
  ]

  -- The best of the candidates and of the one that the loop starts with.
  pub Kept : Best → List EntryRow → Best → Type 0
  Kept b es r =
      ((r ≡ b) ⊎ ((e : EntryRow) × In e es × (fits f window e ≡ true) × (r ≡ candidate_rank f e)))
      × (is_better b r ≡ false)
      × All (Unbeaten r) es

  Kept-worse :
      (b r : Best) (e : EntryRow) (es : List EntryRow)
      → (fits f window e ≡ true → is_better (candidate_rank f e) b ≡ false)
      → Kept b es r
      → Kept b (e ∷ es) r
  unfolding Kept Unbeaten
  Kept-worse b r e es worse h = (
    elim h.0 [ inl same ↦ inl same | inr x ↦ inr (x.0, there x.1, x.2, x.3) ],
    h.1,
    (λ fit. is_better_trans (candidate_rank f e) b r (worse fit) h.1, h.2),
  )

  Kept-better :
      (b r : Best) (e : EntryRow) (es : List EntryRow)
      → fits f window e ≡ true
      → is_better (candidate_rank f e) b ≡ true
      → Kept (candidate_rank f e) es r
      → Kept b (e ∷ es) r
  unfolding Kept Unbeaten
  Kept-better b r e es fit better h = (
    elim h.0 [ inl same ↦ inr (e, here, fit, same) | inr x ↦ inr (x.0, there x.1, x.2, x.3) ],
    is_better_chain (candidate_rank f e) b r better h.1,
    (λ _. h.1, h.2),
  )

  scan_candidates-some :
      (b : Best) (es : List EntryRow)
      → (r : Best) × (scan_candidates f window (some b) es ≡ some r) × Kept b es r
  unfolding scan_candidates replace_best Kept
  scan_candidates-some b [] = (b, refl, (inl refl, is_better_irrefl b, tt))
  scan_candidates-some b (e ∷ es) = elim (Bool-cases (fits f window e)) [
    | inr unfit ↦
        let rest = scan_candidates-some b es in
        (
          rest.0,
          rw (scan_candidates-step (some b) e es, unfit) rest.1,
          Kept-worse b rest.0 e es (λ fit. absurd (ground (arith, unfit, fit))) rest.2,
        )
    | inl fit ↦ elim (Bool-cases (is_better (candidate_rank f e) b)) [
      | inr worse ↦
          let rest = scan_candidates-some b es in
          (
            rest.0,
            rw (scan_candidates-step (some b) e es, fit, worse) rest.1,
            Kept-worse b rest.0 e es (λ _. worse) rest.2,
          )
      | inl better ↦
          let rest = scan_candidates-some (candidate_rank f e) es in
          (
            rest.0,
            rw (scan_candidates-step (some b) e es, fit, better) rest.1,
            Kept-better b rest.0 e es fit better rest.2,
          )
    ]
  ]

  -- What the loop makes of candidates.
  unfoldable pub Outcome : List EntryRow → Option Best → Type 0
  Outcome es o =
      ((o ≡ none) × All (λ e. fits f window e ≡ false) es)
      ⊎ ((x : EntryRow) × (o ≡ some (candidate_rank f x))
          × In x es
          × (fits f window x ≡ true)
          × All (Unbeaten (candidate_rank f x)) es)

  Outcome-start :
      (e : EntryRow) (es : List EntryRow) (r : Best)
      → fits f window e ≡ true
      → Kept (candidate_rank f e) es r
      → Outcome (e ∷ es) (some r)
  unfolding Kept Outcome
  Outcome-start e es r fit h =
      let all =
        Kept-worse (candidate_rank f e) r e es (λ _. is_better_irrefl (candidate_rank f e)) h in
      elim h.0 [
        | inl same ↦
            inr (e, ap some same, here, fit, subst (λ b. All (Unbeaten b) (e ∷ es)) same all.2)
        | inr x ↦
            inr (x.0, ap some x.3, there x.1, x.2, subst (λ b. All (Unbeaten b) (e ∷ es)) x.3 all.2)
      ]

  Outcome-skip :
      (e : EntryRow) (es : List EntryRow) (o : Option Best)
      → fits f window e ≡ false
      → Outcome es o
      → Outcome (e ∷ es) o
  unfolding Outcome Unbeaten
  Outcome-skip e es o unfit (inl h) = inl (h.0, (unfit, h.1))
  Outcome-skip e es o unfit (inr h) =
      inr (h.0, h.1, there h.2, h.3, (λ fit. absurd (ground (arith, unfit, fit)), h.4))

  Outcome-nil : Outcome [] (scan_candidates f window none [])
  unfolding Outcome scan_candidates
  Outcome-nil = inl (refl, tt)

  -- From the start of the loop: the best candidate that fits, or none where none fits.
  pub scan_candidates-Outcome : (es : List EntryRow) → Outcome es (scan_candidates f window none es)
  unfolding replace_best
  scan_candidates-Outcome [] = Outcome-nil
  scan_candidates-Outcome (e ∷ es) = elim (Bool-cases (fits f window e)) [
    | inr unfit ↦
        rw (scan_candidates-step none e es, unfit)
          (Outcome-skip e es (scan_candidates f window none es) unfit (scan_candidates-Outcome es))
    | inl fit ↦
        let rest = scan_candidates-some (candidate_rank f e) es in
        rw (scan_candidates-step none e es, fit, rest.1) (Outcome-start e es rest.0 fit rest.2)
  ]
