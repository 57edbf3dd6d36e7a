-- ===== src/Audit/Lookup/Candidate.antt =====
-- lookupClientCandidates and bestClientCandidate of internal/audit/index.go: one query for many lines
-- of the usage log, and the choice among its rows for one line.
use newapi_usage.Prelude.{
  ℕ, Bool, true, false, not, ◌&&◌, ◌||◌, Text, text_eq, is_blank, trim_space, List, [], ◌∷◌, Option,
  none, some, ltb, leb, ◌==◌, if◌then◌else◌, ℤ, pos, ltb_ℤ, leb_ℤ, eq_ℤ, ◌-ℤ◌, ◌+ℤ◌, abs_ℤ,
  select_where, sort_by,
}
use newapi_usage.Audit.Entries.{EntryRow}
use newapi_usage.Audit.Lookup.Filter.{LookupFilter, lookup_center}
use newapi_usage.Review.Jobs.Input.{contains_id, contains_text}

-- What the loop over the filters collects.
pub record Scope : Type 0 where
  pub min_created : ℤ
  pub max_created : ℤ
  pub token_ids : List ℕ
  pub key_tails : List Text

-- The four conditional assignments of a round.
unfoldable pub lower_bound : ℤ → ℤ → ℤ
lower_bound min_created start =
    if eq_ℤ min_created (pos 0) || ltb_ℤ start min_created then start else min_created

unfoldable pub upper_bound : ℤ → ℤ → ℤ
upper_bound max_created end_at = if ltb_ℤ max_created end_at then end_at else max_created

unfoldable pub add_token : ℕ → List ℕ → List ℕ
add_token token_id ids = if ltb 0 token_id then token_id ∷ ids else ids

unfoldable pub add_tail : Text → List Text → List Text
add_tail key_tail tails = if is_blank key_tail then tails else key_tail ∷ tails

-- One round, on the centre, the trimmed key tail and the token of a filter.
unfoldable pub widen : ℤ → Text → ℕ → ℤ → Scope → Scope
widen center key_tail token_id window s =
    let start = center -ℤ window in
    let end_at = center +ℤ window in
    if leb_ℤ center (pos 0) then s else record {
      min_created = lower_bound s.min_created start;
      max_created = upper_bound s.max_created end_at;
      token_ids = add_token token_id s.token_ids;
      key_tails = add_tail key_tail s.key_tails;
    }

unfoldable pub collect_scope : ℤ → Scope → List LookupFilter → Scope
unfolding widen lower_bound upper_bound add_token add_tail
collect_scope window s [] = s
collect_scope window s (f ∷ fs) =
    collect_scope window (widen (lookup_center f) (trim_space f.key_tail) f.token_id window s) fs

abbrev pub empty_scope : Scope
empty_scope = record { min_created = pos 0; max_created = pos 0; token_ids = []; key_tails = [] }

abbrev pub is_empty {ℓ} : {A : Type ℓ} → List A → Bool
is_empty [] = true
is_empty (x ∷ xs) = false

-- token_id IN (…) OR (token_id = 0 AND key_tail IN (…)); an empty list is left out.
unfoldable pub in_scope : Scope → EntryRow → Bool
unfolding contains_id contains_text
in_scope s e =
    e.has_timestamp
    && (leb_ℤ s.min_created e.created_at
        && (leb_ℤ e.created_at s.max_created
            && (contains_id s.token_ids e.token_id
                || (e.token_id == 0 && contains_text s.key_tails e.key_tail))))

abbrev pub latest_first : EntryRow → EntryRow → Bool
latest_first a b =
    ltb_ℤ b.created_at a.created_at || (eq_ℤ a.created_at b.created_at && leb b.id a.id)

unfoldable pub select_scope : List EntryRow → Scope → List EntryRow
unfolding in_scope
select_scope entries s =
    if (eq_ℤ s.min_created (pos 0)
      || eq_ℤ s.max_created (pos 0)
      || (is_empty s.token_ids && is_empty s.key_tails))
    then []
    else sort_by latest_first (select_where (in_scope s) entries)

unfoldable pub lookup_client_candidates : List EntryRow → List LookupFilter → ℤ → List EntryRow
unfolding select_scope collect_scope
lookup_client_candidates entries [] window = []
lookup_client_candidates entries (f ∷ fs) window =
    select_scope entries (collect_scope window empty_scope (f ∷ fs))

unfoldable pub matches_token_identity : LookupFilter → EntryRow → Bool
unfolding text_eq
matches_token_identity f e =
    if ltb 0 f.token_id && e.token_id == f.token_id
    then true
    else e.token_id == 0
      && (not (is_blank (trim_space f.key_tail)) && text_eq e.key_tail (trim_space f.key_tail))

-- The variables of the loop of bestClientCandidate, once `bestSet`.
pub record Best : Type 0 where
  pub entry : EntryRow
  pub model_rank : ℕ
  pub start_distance : ℕ
  pub end_distance : ℕ

unfoldable pub model_rank_of : LookupFilter → EntryRow → ℕ
unfolding text_eq
model_rank_of f e =
    let model = trim_space f.model in
    if not (is_blank model) && not (text_eq e.model model) then 1 else 0

unfoldable pub candidate_rank : LookupFilter → EntryRow → Best
candidate_rank f e = record {
  entry = e;
  model_rank = model_rank_of f e;
  start_distance = abs_ℤ (e.created_at -ℤ lookup_center f);
  end_distance = abs_ℤ (e.created_at -ℤ f.created_at);
}

unfoldable pub is_better : Best → Best → Bool
is_better c best =
    ltb c.model_rank best.model_rank
    || ((c.model_rank == best.model_rank && ltb c.start_distance best.start_distance)
        || ((c.model_rank == best.model_rank
              && (c.start_distance == best.start_distance && ltb c.end_distance best.end_distance))
            || (c.model_rank == best.model_rank
                && (c.start_distance == best.start_distance
                    && (c.end_distance == best.end_distance && ltb best.entry.id c.entry.id)))))

unfoldable pub replace_best : Best → Option Best → Option Best
unfolding is_better
replace_best c none = some c
replace_best c (some best) = if is_better c best then some c else some best

unfoldable pub outside_window : LookupFilter → ℤ → EntryRow → Bool
outside_window f window e =
    let center = lookup_center f in
    ltb_ℤ e.created_at (center -ℤ window) || ltb_ℤ (center +ℤ window) e.created_at

unfoldable pub scan_candidates : LookupFilter → ℤ → Option Best → List EntryRow → Option Best
unfolding matches_token_identity candidate_rank replace_best outside_window
scan_candidates f window best [] = best
scan_candidates f window best (e ∷ es) =
    scan_candidates f window
      (if not (matches_token_identity f e)
        then best
        else if outside_window f window e
        then best
        else replace_best (candidate_rank f e) best)
      es

unfoldable pub entry_of : Option Best → Option EntryRow
entry_of none = none
entry_of (some best) = some best.entry

unfoldable pub best_client_candidate : LookupFilter → List EntryRow → ℤ → Option EntryRow
unfolding scan_candidates entry_of
best_client_candidate f candidates window =
    if leb_ℤ (lookup_center f) (pos 0)
    then none
    else entry_of (scan_candidates f window none candidates)
