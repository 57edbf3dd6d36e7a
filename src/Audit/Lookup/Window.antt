-- ===== src/Audit/Lookup/Window.antt =====
-- The window and the order of a lookup in SQL, and the same in Go: what fits, and what is better.
use newapi_usage.Prelude.{
  ℕ, ◌<◌, true, false, not, ◌||◌, ◌&&◌, Text, text_eq, is_blank, trim_space, List, [], ◌∷◌, ◌==◌,
  if◌then◌else◌, ℤ, pos, ltb_ℤ, leb_ℤ, eq_ℤ, ◌-ℤ◌, ◌+ℤ◌, select_where, sort_by, ◌≡◌, refl, ◌∙◌, inl,
  inr, Bool-cases, and_both, text_eq→≡, arith,
}
use newapi_usage.Audit.Entries.{EntryRow}
use newapi_usage.Audit.Lookup.Filter.{
  LookupFilter, lookup_center, token_identity_where, model_order, precedes, window_order, in_window,
}
use newapi_usage.Audit.Lookup.Candidate.{
  Scope, Best, model_rank_of, candidate_rank, is_better, matches_token_identity, outside_window,
  in_scope, is_empty, latest_first, select_scope,
}
use newapi_usage.Audit.Lookup.Best.{fits}
use newapi_usage.Audit.Lookup.Scope.{leb_ℤ_trans, CoversFilter}
use newapi_usage.Review.Jobs.Input.{contains_id, contains_text}

pub precedes_total :
    (m s e i m' s' e' i' : ℕ)
    → precedes m s e i m' s' e' i' ≡ false
    → precedes m' s' e' i' m s e i ≡ true
unfolding precedes
precedes_total m s e i m' s' e' i' h = ground arith

pub precedes_trans :
    (m s e i m' s' e' i' m'' s'' e'' i'' : ℕ)
    → precedes m s e i m' s' e' i' ≡ true
    → precedes m' s' e' i' m'' s'' e'' i'' ≡ true
    → precedes m s e i m'' s'' e'' i'' ≡ true
unfolding precedes
precedes_trans m s e i m' s' e' i' m'' s'' e'' i'' h g = ground arith

pub precedes_antisym :
    (m s e i m' s' e' i' : ℕ)
    → precedes m s e i m' s' e' i' ≡ true
    → precedes m' s' e' i' m s e i ≡ true
    → i ≡ i'
unfolding precedes
precedes_antisym m s e i m' s' e' i' h g = ground arith

-- A rank that another is not better than comes first.
is_better-precedes :
    (a b : Best)
    → is_better a b ≡ false
    → precedes b.model_rank b.start_distance b.end_distance b.entry.id a.model_rank a.start_distance
        a.end_distance a.entry.id
      ≡ true
unfolding precedes is_better
is_better-precedes a b h = ground arith

model_rank_of-model_order : (f : LookupFilter) (e : EntryRow) → model_rank_of f e ≡ model_order f e
unfolding model_rank_of model_order
model_rank_of-model_order f e = ground arith

-- A candidate that is not better stands later in the query's order.
pub is_better-window_order :
    (f : LookupFilter) (a b : EntryRow)
    → is_better (candidate_rank f a) (candidate_rank f b) ≡ false
    → window_order f b a ≡ true
unfolding window_order candidate_rank
is_better-window_order f a b h =
    let order = is_better-precedes (candidate_rank f a) (candidate_rank f b) h in
    rw (model_rank_of-model_order f a, model_rank_of-model_order f b) at order

outside-bounds :
    (at low high : ℤ) → not (ltb_ℤ at low || ltb_ℤ high at) ≡ (leb_ℤ low at && leb_ℤ at high)
outside-bounds at low high = ground arith

identity-in_scope :
    (s : Scope) (key_tail : Text) (token_id : ℕ) (e : EntryRow)
    → contains_id s.token_ids token_id ≡ true
    → (is_blank key_tail ≡ false → contains_text s.key_tails key_tail ≡ true)
    → (if is_blank key_tail
        then e.token_id == token_id
        else e.token_id == token_id || (e.token_id == 0 && text_eq e.key_tail key_tail))
      ≡ true
    → (contains_id s.token_ids e.token_id
        || (e.token_id == 0 && contains_text s.key_tails e.key_tail))
      ≡ true
identity-in_scope s key_tail token_id e token tail h = elim (Bool-cases (is_blank key_tail)) [
  | inl e' ↦ ground (arith, token, h, e')
  | inr e' ↦ ground (arith, token, tail, h, e', text_eq→≡ e.key_tail key_tail)
]

sum-positive :
    (a b : ℤ) → ltb_ℤ (pos 0) a ≡ true → leb_ℤ (pos 0) b ≡ true → ltb_ℤ (pos 0) (a +ℤ b) ≡ true
sum-positive a b h g = ground arith

positive→nonzero : (a : ℤ) → ltb_ℤ (pos 0) a ≡ true → eq_ℤ a (pos 0) ≡ false
positive→nonzero a h = ground arith

end→nonzero : (a b : ℤ) → ltb_ℤ (pos 0) a ≡ true → leb_ℤ a b ≡ true → eq_ℤ b (pos 0) ≡ false
end→nonzero a b h g = ground arith

contains_id-not_empty : (ids : List ℕ) (id : ℕ) → contains_id ids id ≡ true → is_empty ids ≡ false
unfolding contains_id
contains_id-not_empty [] id h = cc
contains_id-not_empty (i ∷ ids) id h = refl

module _ (f : LookupFilter) (window : ℤ) where
  matches_token_identity-where :
      (e : EntryRow) → 0 < f.token_id → matches_token_identity f e ≡ token_identity_where f e
  unfolding matches_token_identity token_identity_where
  matches_token_identity-where e token = ground arith

  outside_window-bounds :
      (e : EntryRow)
      → not (outside_window f window e) ≡ (
          leb_ℤ (lookup_center f -ℤ window) e.created_at
          && leb_ℤ e.created_at (lookup_center f +ℤ window))
  unfolding outside_window
  outside_window-bounds e =
      outside-bounds e.created_at (lookup_center f -ℤ window) (lookup_center f +ℤ window)

  pub fits-in_window :
      (e : EntryRow)
      → 0 < f.token_id
      → e.has_timestamp ≡ true
      → fits f window e ≡ in_window f window e
  unfolding in_window
  fits-in_window e token timed =
      rw (matches_token_identity-where e token, outside_window-bounds e, timed)

  -- A row that the query for one filter lists is a row of the query for many.
  pub in_window-in_scope :
      (s : Scope) (e : EntryRow)
      → CoversFilter window s f
      → in_window f window e ≡ true
      → in_scope s e ≡ true
  unfolding in_window in_scope CoversFilter token_identity_where
  in_window-in_scope s e h hit =
      let center = lookup_center f in
      let w0 =
        and_both (token_identity_where f e)
          (e.has_timestamp
            && (leb_ℤ (center -ℤ window) e.created_at && leb_ℤ e.created_at (center +ℤ window)))
          hit in
      let w1 =
        and_both e.has_timestamp
          (leb_ℤ (center -ℤ window) e.created_at && leb_ℤ e.created_at (center +ℤ window)) w0.1 in
      let w2 =
        and_both (leb_ℤ (center -ℤ window) e.created_at) (leb_ℤ e.created_at (center +ℤ window))
          w1.1 in
      let from = leb_ℤ_trans s.min_created (center -ℤ window) e.created_at h.from_start w2.0 in
      let until = leb_ℤ_trans e.created_at (center +ℤ window) s.max_created w2.1 h.to_end in
      let identity =
        identity-in_scope s (trim_space f.key_tail) f.token_id e h.has_token h.has_tail w0.0 in
      rw (from, until, identity, w1.0)

  pub fits-true :
      (e : EntryRow) → 0 < f.token_id → in_window f window e ≡ true → fits f window e ≡ true
  unfolding in_window
  fits-true e token hit =
      let timed =
        and_both (token_identity_where f e)
          (e.has_timestamp
            && (leb_ℤ (lookup_center f -ℤ window) e.created_at
                && leb_ℤ e.created_at (lookup_center f +ℤ window)))
          hit in
      let stamp =
        and_both e.has_timestamp
          (leb_ℤ (lookup_center f -ℤ window) e.created_at
            && leb_ℤ e.created_at (lookup_center f +ℤ window))
          timed.1 in
      fits-in_window e token stamp.0 ∙ hit

  window-positive :
      ltb_ℤ (pos 0) (lookup_center f) ≡ true
      → leb_ℤ (pos 0) window ≡ true
      → ltb_ℤ (pos 0) (lookup_center f +ℤ window) ≡ true
  window-positive h g = sum-positive (lookup_center f) window h g

  pub select_scope-sorted :
      (entries : List EntryRow) (s : Scope)
      → CoversFilter window s f
      → ltb_ℤ (pos 0) (lookup_center f) ≡ true
      → leb_ℤ (pos 0) window ≡ true
      → select_scope entries s ≡ sort_by latest_first (select_where (in_scope s) entries)
  unfolding select_scope CoversFilter
  select_scope-sorted entries s h positive wide =
      let minimum : eq_ℤ s.min_created (pos 0) ≡ false =
        positive→nonzero s.min_created h.min_positive in
      let maximum : eq_ℤ s.max_created (pos 0) ≡ false =
        end→nonzero (lookup_center f +ℤ window) s.max_created (window-positive positive wide)
          h.to_end in
      let tokens : is_empty s.token_ids ≡ false =
        contains_id-not_empty s.token_ids f.token_id h.has_token in
      rw (minimum, maximum, tokens)
