-- ===== src/Audit/Lookup/Agreement.antt =====
-- LookupClientInfo and Lookup agree: the candidate chosen in memory is the first row of the query.
use newapi_usage.Prelude.{
  ℕ, zero, suc, ◌<◌, true, false, List, [], ◌∷◌, Option, none, some, take, ℤ, pos, ltb_ℤ, leb_ℤ, In,
  here, All, In-All, In-not-nil, In-select_where, select_where-In, In-sort_by, sort_by-In,
  select_where, sort_by, ◌≡◌, refl, ap, sym, ◌∙◌, inl, inr, arith,
}
use newapi_usage.Audit.Entries.{EntryRow}
use newapi_usage.Audit.Lookup.Filter.{
  LookupFilter, lookup_center, model_order, distance, window_order, in_window,
  lookup_by_token_window,
}
use newapi_usage.Audit.Lookup.Candidate.{
  Scope, Best, candidate_rank, empty_scope, collect_scope, in_scope, latest_first, select_scope,
  lookup_client_candidates, scan_candidates, entry_of, best_client_candidate,
}
use newapi_usage.Audit.Lookup.Best.{fits, Unbeaten, Outcome, scan_candidates-Outcome}
use newapi_usage.Audit.Lookup.Sorted.{HasFirst, sort_by-HasFirst}
use newapi_usage.Audit.Lookup.Scope.{CoversFilter, LateFilter, collect_scope-Covers}
use newapi_usage.Audit.Lookup.Window.{
  precedes_total, precedes_trans, precedes_antisym, is_better-window_order, fits-in_window,
  in_window-in_scope, fits-true, select_scope-sorted,
}

-- Ids are the primary key.
unfoldable pub UniqueIds : List EntryRow → Type 0
UniqueIds entries = (a b : EntryRow) → In a entries → In b entries → a.id ≡ b.id → a ≡ b

-- The row that a query lists first.
abbrev pub first_listed : List EntryRow → Option EntryRow
first_listed [] = none
first_listed (e ∷ es) = some e

positive→after : (a : ℤ) → ltb_ℤ (pos 0) a ≡ true → leb_ℤ a (pos 0) ≡ false
positive→after a h = ground arith

in_scope-has_timestamp : (s : Scope) (e : EntryRow) → in_scope s e ≡ true → e.has_timestamp ≡ true
unfolding in_scope
in_scope-has_timestamp s e h = ground arith

take-nil : (n : ℕ) → take {A = EntryRow} n [] ≡ []
take-nil zero = refl
take-nil (suc n) = refl

first_listed-take :
    (n : ℕ) (x y : EntryRow) (ys : List EntryRow)
    → 0 < n
    → x ≡ y
    → some x ≡ first_listed (take n (y ∷ ys))
first_listed-take zero x y ys h same = absurd (omega arith)
first_listed-take (suc n) x y ys h same = ap some same

module _ (f : LookupFilter) (window : ℤ) (entries : List EntryRow) where
  abbrev window_rows : List EntryRow
  window_rows = select_where (in_window f window) entries

  window_order-HasFirst :
      HasFirst (window_order f) (sort_by (window_order f) window_rows) window_rows
  unfolding window_order
  window_order-HasFirst =
      sort_by-HasFirst (window_order f)
        (λ a b.
          precedes_total (model_order f a) (distance a (lookup_center f)) (distance a f.created_at)
            a.id (model_order f b) (distance b (lookup_center f)) (distance b f.created_at) b.id)
        (λ a b c.
          precedes_trans (model_order f a) (distance a (lookup_center f)) (distance a f.created_at)
            a.id (model_order f b) (distance b (lookup_center f)) (distance b f.created_at) b.id
            (model_order f c) (distance c (lookup_center f)) (distance c f.created_at) c.id)
        window_rows

  window_order_antisym :
      (a b : EntryRow) → window_order f a b ≡ true → window_order f b a ≡ true → a.id ≡ b.id
  unfolding window_order
  window_order_antisym a b =
      precedes_antisym (model_order f a) (distance a (lookup_center f)) (distance a f.created_at)
        a.id (model_order f b) (distance b (lookup_center f)) (distance b f.created_at) b.id

  -- What the loop yields on all candidates is the first row of the window.
  -- What the loop yields on all candidates is the first row of the window.
  Outcome-first_listed :
      (o : Option Best) (cs : List EntryRow) (limit : ℕ)
      → UniqueIds entries
      → 0 < limit
      → ((e : EntryRow) → In e window_rows → In e cs × (fits f window e ≡ true))
      → ((e : EntryRow) → In e cs → fits f window e ≡ true → In e window_rows)
      → Outcome f window cs o
      → entry_of o ≡ first_listed (take limit (sort_by (window_order f) window_rows))
  unfolding Outcome HasFirst entry_of Unbeaten UniqueIds candidate_rank
  Outcome-first_listed o cs limit unique some_rows complete sound (inl h) =
      elim window_order-HasFirst [
        | inl e ↦ rw (h.0, e.0, take-nil limit)
        | inr y ↦
            let m : In y.0 window_rows =
              sort_by-In (window_order f) {x = y.0} window_rows (rw y.2 here) in
            let c = complete y.0 m in
            absurd (ground (arith, c.1, In-All (λ e. fits f window e ≡ false) c.0 h.1))
      ]
  Outcome-first_listed o cs limit unique some_rows complete sound (inr h) =
      let member = sound h.0 h.2 h.3 in
      elim window_order-HasFirst [
        | inl e ↦ absurd (In-not-nil member e.1)
        | inr y ↦
            let m : In y.0 window_rows =
              sort_by-In (window_order f) {x = y.0} window_rows (rw y.2 here) in
            let c = complete y.0 m in
            let below = In-All (λ e. window_order f y.0 e ≡ true) member y.3 in
            let unbeaten = In-All (Unbeaten f window (candidate_rank f h.0)) c.0 h.4 c.1 in
            let above = is_better-window_order f y.0 h.0 unbeaten in
            let ids = window_order_antisym h.0 y.0 above below in
            let same =
              unique h.0 y.0 (select_where-In (in_window f window) entries member).0
                (select_where-In (in_window f window) entries m).0 ids in
            rw (h.1, y.2) (first_listed-take limit h.0 y.0 y.1 some_rows same)
      ]

  module _ (s : Scope) (token : 0 < f.token_id) (covers : CoversFilter window s f) where
    abbrev scope_rows : List EntryRow
    scope_rows = sort_by latest_first (select_where (in_scope s) entries)

    window_rows-scope_rows :
        (e : EntryRow) → In e window_rows → In e scope_rows × (fits f window e ≡ true)
    window_rows-scope_rows e m =
        let r = select_where-In (in_window f window) {x = e} entries m in
        let inside = in_window-in_scope f window s e covers r.1 in
        (
          In-sort_by latest_first (select_where (in_scope s) entries)
              (In-select_where (in_scope s) r.0 inside),
          fits-true f window e token r.1,
        )

    scope_rows-window_rows :
        (e : EntryRow) → In e scope_rows → fits f window e ≡ true → In e window_rows
    scope_rows-window_rows e m fit =
        let r =
          select_where-In (in_scope s) {x = e} entries
            (sort_by-In latest_first {x = e} (select_where (in_scope s) entries) m) in
        let same = fits-in_window f window e token (in_scope-has_timestamp s e r.1) in
        In-select_where (in_window f window) r.0 (sym same ∙ fit)

  collected :
      (fs : List LookupFilter)
      → In f fs
      → lookup_client_candidates entries fs window
        ≡ select_scope entries (collect_scope window empty_scope fs)
  unfolding lookup_client_candidates
  collected [] m = elim m [ ]
  collected (g ∷ fs) m = refl

  -- Where ids are unique, times and the window are not negative, and the windows of the filters start
  -- after 1970, the entry that LookupClientInfo picks for a filter out of the candidates of many is
  -- the first that Lookup's query by token and time lists for that filter alone.
  pub best_client_candidate-first_listed :
      (fs : List LookupFilter)
      → UniqueIds entries
      → In f fs
      → All (LateFilter window) fs
      → 0 < f.token_id
      → 0 < f.limit
      → ltb_ℤ (pos 0) (lookup_center f) ≡ true
      → leb_ℤ (pos 0) window ≡ true
      → best_client_candidate f (lookup_client_candidates entries fs window) window
        ≡ first_listed (lookup_by_token_window entries f window)
  unfolding lookup_by_token_window best_client_candidate
  best_client_candidate-first_listed fs unique asked late token some_rows positive wide =
      let s = collect_scope window empty_scope fs in
      let covers = collect_scope-Covers window f fs empty_scope asked late refl positive token in
      let rows = collected fs asked ∙ select_scope-sorted f window entries s covers positive wide in
      let after : leb_ℤ (lookup_center f) (pos 0) ≡ false =
        positive→after (lookup_center f) positive in
      rw (after, rows)
        (Outcome-first_listed (scan_candidates f window none (scope_rows s token covers))
          (scope_rows s token covers) f.limit unique some_rows
          (window_rows-scope_rows s token covers) (scope_rows-window_rows s token covers)
          (scan_candidates-Outcome f window (scope_rows s token covers)))
