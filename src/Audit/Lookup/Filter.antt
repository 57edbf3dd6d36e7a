-- ===== src/Audit/Lookup/Filter.antt =====
-- What the lookups of internal/audit/index.go compare: the time around which they search, the token,
-- the model, and the queries lookupByTokenWindow, lookupLatestByToken and lookupByRequestID.
use newapi_usage.Prelude.{
  ℕ, Bool, ◌&&◌, ◌||◌, Text, text_eq, is_blank, trim_space, List, take, ltb, leb, ◌==◌,
  if◌then◌else◌, ℤ, pos, ltb_ℤ, leb_ℤ, ◌-ℤ◌, ◌+ℤ◌, abs_ℤ, select_where, sort_by,
}
use newapi_usage.Audit.Entries.{EntryRow}

pub record LookupFilter : Type 0 where
  pub request_id : Text
  pub token_id : ℕ
  pub key_tail : Text
  pub model : Text
  pub created_at : ℤ
  pub use_time : ℤ
  pub log_id : ℕ
  pub limit : ℕ

unfoldable pub lookup_center : LookupFilter → ℤ
lookup_center f =
    if leb_ℤ f.created_at (pos 0)
    then pos 0
    else if ltb_ℤ (pos 0) f.use_time && ltb_ℤ f.use_time (pos 86400)
    then f.created_at -ℤ f.use_time
    else f.created_at

-- The condition of tokenIdentityWhere.
unfoldable pub token_identity_where : LookupFilter → EntryRow → Bool
unfolding text_eq
token_identity_where f e =
    let key_tail = trim_space f.key_tail in
    if is_blank key_tail
    then e.token_id == f.token_id
    else e.token_id == f.token_id || (e.token_id == 0 && text_eq e.key_tail key_tail)

-- CASE WHEN model = ? THEN 0 ELSE 1 END, or 0 where no model is asked for.
unfoldable pub model_order : LookupFilter → EntryRow → ℕ
unfolding text_eq
model_order f e =
    let model = trim_space f.model in
    if is_blank model then 0 else if text_eq e.model model then 0 else 1

-- ABS(created_at - ?)
abbrev pub distance : EntryRow → ℤ → ℕ
distance e at = abs_ℤ (e.created_at -ℤ at)

-- The order by three columns, and the newer id first.
unfoldable pub precedes : (m s e i m' s' e' i' : ℕ) → Bool
precedes m s e i m' s' e' i' =
    ltb m m' || (m == m' && (ltb s s' || (s == s' && (ltb e e' || (e == e' && leb i' i)))))

-- ORDER BY model, distance to the start, distance to the end, id DESC.
unfoldable pub window_order : LookupFilter → EntryRow → EntryRow → Bool
window_order f a b =
    let center = lookup_center f in
    precedes (model_order f a) (distance a center) (distance a f.created_at) a.id (model_order f b)
      (distance b center) (distance b f.created_at) b.id

unfoldable pub in_window : LookupFilter → ℤ → EntryRow → Bool
unfolding token_identity_where
in_window f window e =
    let center = lookup_center f in
    token_identity_where f e
    && (e.has_timestamp
        && (leb_ℤ (center -ℤ window) e.created_at && leb_ℤ e.created_at (center +ℤ window)))

unfoldable pub lookup_by_token_window : List EntryRow → LookupFilter → ℤ → List EntryRow
lookup_by_token_window entries f window =
    take f.limit (sort_by (window_order f) (select_where (in_window f window) entries))

unfoldable pub latest_order : LookupFilter → EntryRow → EntryRow → Bool
latest_order f a b =
    ltb (model_order f a) (model_order f b) || (model_order f a == model_order f b && leb b.id a.id)

unfoldable pub lookup_latest_by_token : List EntryRow → LookupFilter → List EntryRow
lookup_latest_by_token entries f =
    take f.limit (sort_by (latest_order f) (select_where (token_identity_where f) entries))

abbrev pub newest_first : EntryRow → EntryRow → Bool
newest_first a b = leb b.id a.id

unfoldable pub lookup_by_request_id : List EntryRow → Text → ℕ → List EntryRow
unfolding text_eq
lookup_by_request_id entries request_id limit = take limit (
    sort_by newest_first (select_where (λ (e : EntryRow). text_eq e.request_id request_id) entries))
