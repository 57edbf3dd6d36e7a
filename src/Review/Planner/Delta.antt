-- ===== src/Review/Planner/Delta.antt =====
-- lastReviewableIndex and deltaContent of internal/review/planner.go on a request that shares nothing
-- with a recorded conversation.
use newapi_usage.Prelude.{
  ℕ, suc, ◌+◌, ◌≤◌, ◌≡◌, refl, ap, ◌∙◌, ◌⊎◌, inl, inr, true, false, List, [], ◌∷◌, ◌++◌, arith, ltb,
  if◌then◌else◌, length, length-append, drop, All, Bool-cases,
}
use newapi_usage.Audit.Types.{Message}
use newapi_usage.Review.Types.{RoleMode}
use newapi_usage.Review.Planner.{
  Runtime, reviewable, last_from, last_reviewable_index, delta_parts, delta_content,
}

module _ (rt : Runtime) (mode : RoleMode) where
  abbrev Skipped : List Message → Type 0
  Skipped = All (λ m. reviewable rt mode m ≡ false)

  -- Nothing from here on is reviewable, or the last reviewable message stands at `i`.
  record IsLast (ms : List Message) (i : ℕ) : Type 0 where
    before : List Message
    last : Message
    after : List Message
    split : ms ≡ before ++ last ∷ after
    hit : reviewable rt mode last ≡ true
    rest : Skipped after
    index : length before ≡ i

  IsLast-cons : (m : Message) (ms : List Message) (i : ℕ) → IsLast ms i → IsLast (m ∷ ms) (suc i)
  IsLast-cons m ms i l = record {
    before = m ∷ l.before;
    last = l.last;
    after = l.after;
    split = ap (◌∷◌ m) l.split;
    hit = l.hit;
    rest = l.rest;
    index = ap suc l.index;
  }

  abbrev Outcome : List Message → ℕ → ℕ → ℕ → Type 0
  Outcome ms index found r = (Skipped ms × (r ≡ found)) ⊎ ((i : ℕ) × (r ≡ index + i) × IsLast ms i)

  last_from-Outcome :
      (index found : ℕ) (ms : List Message)
      → Outcome ms index found (last_from rt mode index found ms)
  unfolding last_from
  last_from-Outcome index found [] = inl (tt, refl)
  last_from-Outcome index found (m ∷ ms) = elim (Bool-cases (reviewable rt mode m)) [
    | inl e ↦ elim (last_from-Outcome (suc index) index ms) [
      | inl (none_after, r) ↦ inr (
        0,
        rw e (omega arith),
        record {
          before = [];
          last = m;
          after = ms;
          split = refl;
          hit = e;
          rest = none_after;
          index = refl;
        },
      )
      | inr (i, r, l) ↦ inr (suc i, rw e (omega arith), IsLast-cons m ms i l)
    ]
    | inr e ↦ elim (last_from-Outcome (suc index) found ms) [
      | inl (none_after, r) ↦ inl ((e, none_after), rw e r)
      | inr (i, r, l) ↦ inr (suc i, rw e (omega arith), IsLast-cons m ms i l)
    ]
  ]

  drop-append : (xs ys : List Message) → drop (length xs) (xs ++ ys) ≡ ys
  drop-append [] ys = refl
  drop-append (x ∷ xs) ys = drop-append xs ys

  drop-length : (xs : List Message) → drop (length xs) xs ≡ []
  drop-length [] = refl
  drop-length (x ∷ xs) = drop-length xs

  delta_parts-Skipped : (ms : List Message) → Skipped ms → delta_parts rt mode ms ≡ []
  unfolding delta_parts
  delta_parts-Skipped [] h = refl
  delta_parts-Skipped (m ∷ ms) h = rw h.0 (delta_parts-Skipped ms h.1)

  -- The content from an index within the messages.
  delta_content_within :
      (ms : List Message) (start : ℕ)
      → start ≤ length ms
      → (delta_content rt ms start mode).1 ≡ length (delta_parts rt mode (drop start ms))
  unfolding delta_content
  delta_content_within ms start h = rw within
    where
      within : (if ltb (length ms) start then length ms else start) ≡ start
      within = ground arith

  index_of : (ms : List Message) (i n : ℕ) → n ≡ 0 + i → (l : IsLast ms i) → n ≡ length l.before
  index_of ms i n r l = omega (arith, l.index)

  empty : (ms : List Message) → Skipped ms → (delta_content rt ms (length ms) mode).1 ≡ 0
  empty ms s =
      delta_content_within ms (length ms) (omega arith)
      ∙ ap (λ xs. length (delta_parts rt mode xs)) (drop-length ms)
      ∙ nothing
    where
      nothing : length (delta_parts rt mode []) ≡ 0
      nothing = ap length (delta_parts-Skipped [] tt)

  delta_parts-one :
      (m : Message) (after : List Message)
      → reviewable rt mode m ≡ true
      → Skipped after
      → length (delta_parts rt mode (m ∷ after)) ≡ 1
  unfolding delta_parts
  delta_parts-one m after hit rest = rw (hit, delta_parts-Skipped after rest) refl

  one :
      (ms before : List Message) (m : Message) (after : List Message)
      → ms ≡ before ++ m ∷ after
      → reviewable rt mode m ≡ true
      → Skipped after
      → (delta_content rt ms (length before) mode).1 ≡ 1
  one ms before m after split hit rest =
      delta_content_within ms (length before)
        (omega (arith, ap length split, length-append before (m ∷ after)))
      ∙ rw (split, drop-append before (m ∷ after)) (delta_parts-one m after hit rest)

  -- From the last reviewable index on there is one reviewable message, or none where no message is.
  pub last_reviewable_index-delta :
      (ms : List Message)
      → let start = last_reviewable_index rt ms mode in
        (All (λ (m : Message). reviewable rt mode m ≡ false) ms
          × ((delta_content rt ms start mode).1 ≡ 0))
        ⊎ ((before : List Message) × (m : Message) × (after : List Message) × (ms
              ≡ before ++ m ∷ after)
            × (length before ≡ start)
            × (reviewable rt mode m ≡ true)
            × All (λ (n : Message). reviewable rt mode n ≡ false) after
            × ((delta_content rt ms start mode).1 ≡ 1))
  unfolding last_reviewable_index
  last_reviewable_index-delta ms = elim (last_from-Outcome 0 (length ms) ms) [
    | inl (skipped, r) ↦ inl (skipped, rw r (empty ms skipped))
    | inr (i, r, l) ↦ inr (
      l.before,
      l.last,
      l.after,
      l.split,
      omega (arith, r, l.index),
      l.hit,
      l.rest,
      rw (index_of ms i _ r l) (one ms l.before l.last l.after l.split l.hit l.rest),
    )
  ]
