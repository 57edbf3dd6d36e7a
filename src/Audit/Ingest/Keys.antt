-- ===== src/Audit/Ingest/Keys.antt =====
-- The cache of resolved keys changes no column: a record's token is what the resolver says of its key.
use newapi_usage.Prelude.{
  ℕ, List, In, false, Text, text_eq, text_eq→≡, is_blank, [], ◌∷◌, Option, none, some, ◌≡◌, refl,
  ap, sym, ◌∙◌, inl, inr, Bool-cases, Option-cases,
}
use newapi_usage.Audit.Ingest.Tables.{ParsedRecord, ResolvedToken}
use newapi_usage.Audit.Ingest.Files.{LineFormat}
use newapi_usage.Audit.Ingest.Insert.{
  Outside, Cache, KeyColumns, find_cached, tail, resolved_columns, unresolved_columns,
  call_resolver, resolve_key, resolve_record_token,
}

abbrev resolved_by : Option (Text → Option ResolvedToken) → Text → Option ResolvedToken
resolved_by none key = none
resolved_by (some resolver) key = resolver key

module _ (o : Outside) where
  -- The columns without a cache.
  columns_of : Text → Option ResolvedToken → KeyColumns
  columns_of key none = unresolved_columns (tail key 8) (o.key_hash key)
  columns_of key (some token) = resolved_columns (tail key 8) (o.key_hash key) token

  call_resolver-columns_of :
      (resolver : Option (Text → Option ResolvedToken)) (key : Text) (cache : Cache)
      → (call_resolver resolver key (tail key 8) (o.key_hash key) cache).0
        ≡ columns_of key (resolved_by resolver key)
  unfolding call_resolver columns_of
  call_resolver-columns_of none key cache = refl
  call_resolver-columns_of (some resolver) key cache = elim (Option-cases (resolver key)) [
    | inl e ↦ rw (e, call_resolver)
    | inr e ↦ rw (e.1, call_resolver)
  ]

-- `Key` is the property of the keys that a scan meets.
module _ (o : Outside) (Key : Text → Type 0) where
  -- What is cached under the hash of such a key is what the key resolves to.
  unfoldable pub Consistent : Cache → Type 0
  Consistent cache =
      (key : Text) (token : ResolvedToken)
      → Key key
      → find_cached (o.key_hash key) cache ≡ some token
      → resolved_by o.resolver key ≡ some token

  pub Consistent-nil : Consistent []
  unfolding Consistent find_cached
  Consistent-nil key token k h = cc

  -- No two of them share a hash.
  abbrev pub Distinct : Type 0
  Distinct = (a b : Text) → Key a → Key b → o.key_hash a ≡ o.key_hash b → a ≡ b

  Consistent-cons :
      (key : Text) (token : ResolvedToken) (cache : Cache)
      → Distinct
      → Key key
      → resolved_by o.resolver key ≡ some token
      → Consistent cache
      → Consistent ((o.key_hash key, token) ∷ cache)
  unfolding Consistent find_cached
  Consistent-cons key token cache distinct k here_too h other t l found =
      elim (Bool-cases (text_eq (o.key_hash key) (o.key_hash other))) [
        | inl same ↦
            let keys =
              distinct key other k l (text_eq→≡ (o.key_hash key) (o.key_hash other) same) in
            let tokens : some token ≡ some t = rw same at found in
            ap (resolved_by o.resolver) (sym keys) ∙ here_too ∙ tokens
        | inr differ ↦ h other t l (rw differ at found)
      ]

  call_resolver-Consistent :
      (resolver : Option (Text → Option ResolvedToken)) (key : Text) (cache : Cache)
      → resolver ≡ o.resolver
      → Distinct
      → Key key
      → Consistent cache
      → Consistent (call_resolver resolver key (tail key 8) (o.key_hash key) cache).1
  unfolding call_resolver
  call_resolver-Consistent none key cache same distinct k h = h
  call_resolver-Consistent (some resolver) key cache same distinct k h =
      elim (Option-cases (resolver key)) [
        | inl e ↦ rw (e, call_resolver) h
        | inr e ↦
            rw (e.1, call_resolver)
              (Consistent-cons key e.0 cache distinct k
                (ap (λ r. resolved_by r key) (sym same) ∙ e.1) h)
      ]

  -- The columns of a record's key, and what they leave in the cache.
  pub resolve_record_token-Consistent :
      (r : ParsedRecord) (cache : Cache)
      → Distinct
      → (is_blank r.api_key ≡ false → Key r.api_key)
      → Consistent cache
      → ((resolve_record_token o r cache).0 ≡ (resolve_record_token o r []).0)
        × Consistent (resolve_record_token o r cache).1
  unfolding resolve_record_token resolve_key columns_of find_cached Consistent
  resolve_record_token-Consistent r cache distinct met h =
      let key = r.api_key in
      let plain = call_resolver-columns_of o o.resolver key [] in
      elim (Bool-cases (is_blank key)) [
        | inl blank ↦ rw blank (refl, h)
        | inr given ↦ elim (Option-cases (find_cached (o.key_hash key) cache)) [
          | inl e ↦
              rw (given, e)
                (
                  call_resolver-columns_of o o.resolver key cache ∙ sym plain,
                  call_resolver-Consistent o.resolver key cache refl distinct (met given) h,
                )
          | inr e ↦
              let token = h key e.0 (met given) e.1 in
              rw (given, e.1) (sym (plain ∙ ap (columns_of o key) token), h)
        ]
      ]

-- A key of some record among these lines.
abbrev pub KeyIn : LineFormat → List (List ℕ) → Text → Type 0
KeyIn fmt lines key =
    (line : List ℕ) × (r : ParsedRecord) × In line lines
    × (fmt.parse_line (fmt.trim line) ≡ some r)
    × (r.api_key ≡ key)
    × (is_blank key ≡ false)
