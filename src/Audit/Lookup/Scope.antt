-- ===== src/Audit/Lookup/Scope.antt =====
-- lookupClientCandidates misses no row that a filter asks for.
use newapi_usage.Prelude.{
  ℕ, ◌<◌, true, false, Text, text_eq_refl, is_blank, trim_space, List, [], ◌∷◌, ℤ, pos, ltb_ℤ,
  leb_ℤ, ◌-ℤ◌, ◌+ℤ◌, In, here, there, All, ◌≡◌, inl, inr, Bool-cases, arith,
}
use newapi_usage.Audit.Lookup.Filter.{LookupFilter, lookup_center}
use newapi_usage.Audit.Lookup.Candidate.{
  Scope, lower_bound, upper_bound, add_token, add_tail, widen, collect_scope,
}
use newapi_usage.Review.Jobs.Input.{contains_id, contains_text}

-- A scope holds the window of a centre, a token and a key tail.
pub record Covers (s : Scope) (center : ℤ) (key_tail : Text) (token_id : ℕ) (window : ℤ)
    : Type 0 where
  pub min_positive : ltb_ℤ (pos 0) s.min_created ≡ true
  pub from_start : leb_ℤ s.min_created (center -ℤ window) ≡ true
  pub to_end : leb_ℤ (center +ℤ window) s.max_created ≡ true
  pub has_token : contains_id s.token_ids token_id ≡ true
  pub has_tail : is_blank key_tail ≡ false → contains_text s.key_tails key_tail ≡ true

-- The window of a centre starts after 1970, so that 0 is no time of it.
unfoldable pub Late : ℤ → ℤ → Type 0
Late window center = ltb_ℤ (pos 0) center ≡ true → ltb_ℤ (pos 0) (center -ℤ window) ≡ true

pub leb_ℤ_trans : (a b c : ℤ) → leb_ℤ a b ≡ true → leb_ℤ b c ≡ true → leb_ℤ a c ≡ true
leb_ℤ_trans a b c h g = ground arith

positive→nonnegative : (m : ℤ) → ltb_ℤ (pos 0) m ≡ true → leb_ℤ (pos 0) m ≡ true
positive→nonnegative m h = ground arith

lower_bound-positive :
    (m s : ℤ)
    → leb_ℤ (pos 0) m ≡ true
    → ltb_ℤ (pos 0) s ≡ true
    → ltb_ℤ (pos 0) (lower_bound m s) ≡ true
unfolding lower_bound
lower_bound-positive m s h g = ground arith

lower_bound-start : (m s : ℤ) → leb_ℤ (lower_bound m s) s ≡ true
unfolding lower_bound
lower_bound-start m s = ground arith

lower_bound-min : (m s : ℤ) → ltb_ℤ (pos 0) m ≡ true → leb_ℤ (lower_bound m s) m ≡ true
unfolding lower_bound
lower_bound-min m s h = ground arith

upper_bound-end : (m e : ℤ) → leb_ℤ e (upper_bound m e) ≡ true
unfolding upper_bound
upper_bound-end m e = ground arith

upper_bound-max : (m e : ℤ) → leb_ℤ m (upper_bound m e) ≡ true
unfolding upper_bound
upper_bound-max m e = ground arith

contains_id-add_token : (ids : List ℕ) (id : ℕ) → 0 < id → contains_id (add_token id ids) id ≡ true
unfolding contains_id add_token
contains_id-add_token ids id h = ground arith

add_token-keeps :
    (ids : List ℕ) (id i : ℕ) → contains_id ids id ≡ true → contains_id (add_token i ids) id ≡ true
unfolding contains_id add_token
add_token-keeps ids id i h = ground arith

contains_text-add_tail :
    (ts : List Text) (t : Text) → is_blank t ≡ false → contains_text (add_tail t ts) t ≡ true
unfolding contains_text add_tail
contains_text-add_tail ts t h = rw (h, text_eq_refl t)

add_tail-keeps :
    (ts : List Text) (t k : Text)
    → contains_text ts t ≡ true
    → contains_text (add_tail k ts) t ≡ true
unfolding contains_text add_tail
add_tail-keeps ts t k h = elim (Bool-cases (is_blank k)) [
  | inl e ↦ rw e h
  | inr e ↦ ground (arith, h, e)
]

widen-Covers :
    (s : Scope) (center : ℤ) (key_tail : Text) (token_id : ℕ) (window : ℤ)
    → leb_ℤ (pos 0) s.min_created ≡ true
    → ltb_ℤ (pos 0) center ≡ true
    → Late window center
    → 0 < token_id
    → Covers (widen center key_tail token_id window s) center key_tail token_id window
unfolding widen Late
widen-Covers s center key_tail token_id window nonneg positive late token =
    let after : leb_ℤ center (pos 0) ≡ false = ground (arith, positive) in
    rw after (record {
      min_positive = lower_bound-positive s.min_created (center -ℤ window) nonneg (late positive);
      from_start = lower_bound-start s.min_created (center -ℤ window);
      to_end = upper_bound-end s.max_created (center +ℤ window);
      has_token = contains_id-add_token s.token_ids token_id token;
      has_tail = contains_text-add_tail s.key_tails key_tail;
    })

Covers-widen :
    (s : Scope) (center c : ℤ) (key_tail k : Text) (token_id i : ℕ) (window : ℤ)
    → Late window c
    → Covers s center key_tail token_id window
    → Covers (widen c k i window s) center key_tail token_id window
unfolding widen Late
Covers-widen s center c key_tail k token_id i window late h = elim (Bool-cases (leb_ℤ c (pos 0))) [
  | inl before ↦ rw before h
  | inr after ↦
      let positive : ltb_ℤ (pos 0) c ≡ true = ground (arith, after) in
      let start = late positive in
      let minimum = lower_bound-min s.min_created (c -ℤ window) h.min_positive in
      let maximum = upper_bound-max s.max_created (c +ℤ window) in
      rw after (record {
        min_positive =
            lower_bound-positive s.min_created (c -ℤ window)
              (positive→nonnegative s.min_created h.min_positive) start;
        from_start =
            leb_ℤ_trans (lower_bound s.min_created (c -ℤ window)) s.min_created (center -ℤ window)
              minimum h.from_start;
        to_end =
            leb_ℤ_trans (center +ℤ window) s.max_created (upper_bound s.max_created (c +ℤ window))
              h.to_end maximum;
        has_token = add_token-keeps s.token_ids token_id i h.has_token;
        has_tail = λ some_tail. add_tail-keeps s.key_tails key_tail k (h.has_tail some_tail);
      })
]

widen-nonnegative :
    (s : Scope) (c : ℤ) (k : Text) (i : ℕ) (window : ℤ)
    → Late window c
    → leb_ℤ (pos 0) s.min_created ≡ true
    → leb_ℤ (pos 0) (widen c k i window s).min_created ≡ true
unfolding widen Late
widen-nonnegative s c k i window late h = elim (Bool-cases (leb_ℤ c (pos 0))) [
  | inl before ↦ rw before h
  | inr after ↦
      let positive : ltb_ℤ (pos 0) c ≡ true = ground (arith, after) in
      rw after (
        positive→nonnegative (lower_bound s.min_created (c -ℤ window))
          (lower_bound-positive s.min_created (c -ℤ window) h (late positive)))
]

module _ (window : ℤ) where
  -- The scope of some filters holds what a filter asks for.
  unfoldable pub CoversFilter : Scope → LookupFilter → Type 0
  CoversFilter s f = Covers s (lookup_center f) (trim_space f.key_tail) f.token_id window

  unfoldable pub LateFilter : LookupFilter → Type 0
  LateFilter f = Late window (lookup_center f)

  Covers-collect_scope :
      (f : LookupFilter) (fs : List LookupFilter) (s : Scope)
      → All LateFilter fs
      → CoversFilter s f
      → CoversFilter (collect_scope window s fs) f
  unfolding collect_scope CoversFilter LateFilter
  Covers-collect_scope f [] s late h = h
  Covers-collect_scope f (g ∷ fs) s late h =
      let wider = widen (lookup_center g) (trim_space g.key_tail) g.token_id window s in
      Covers-collect_scope f fs wider late.1 (
        Covers-widen s (lookup_center f) (lookup_center g) (trim_space f.key_tail)
          (trim_space g.key_tail) f.token_id g.token_id window late.0 h)

  pub collect_scope-Covers :
      (f : LookupFilter) (fs : List LookupFilter) (s : Scope)
      → In f fs
      → All LateFilter fs
      → leb_ℤ (pos 0) s.min_created ≡ true
      → ltb_ℤ (pos 0) (lookup_center f) ≡ true
      → 0 < f.token_id
      → CoversFilter (collect_scope window s fs) f
  unfolding collect_scope CoversFilter LateFilter
  collect_scope-Covers f [] s m late h positive token = elim m [ ]
  collect_scope-Covers f (_ ∷ fs) s here late h positive token =
      let wider = widen (lookup_center f) (trim_space f.key_tail) f.token_id window s in
      Covers-collect_scope f fs wider late.1 (
        widen-Covers s (lookup_center f) (trim_space f.key_tail) f.token_id window h positive late.0
          token)
  collect_scope-Covers f (g ∷ fs) s (there m) late h positive token =
      let wider = widen (lookup_center g) (trim_space g.key_tail) g.token_id window s in
      collect_scope-Covers f fs wider m late.1
        (widen-nonnegative s (lookup_center g) (trim_space g.key_tail) g.token_id window late.0 h)
        positive token
