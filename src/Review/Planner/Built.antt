-- ===== src/Review/Planner/Built.antt =====
-- What an entry of the plan is built from: the reviewable messages after the shared part of the
-- conversation, or the last reviewable one (planRequest and deltaContent of internal/review/planner.go).
use newapi_usage.Prelude.{
  ℕ, zero, suc, ◌<◌, ◌≡◌, ◌≢◌, refl, ap, subst, sym, ◌∙◌, ◌⊎◌, inl, inr, true, false, Text, codes,
  is_blank, join, List, [], ◌∷◌, ◌++◌, map, arith, ltb, ◌==◌, if◌then◌else◌, length, drop, All,
  Bool-cases, In, select_where, length-map, All-drop,
}
use newapi_usage.Audit.Types.{Message}
use newapi_usage.Review.Types.{RoleMode}
use newapi_usage.Review.Planner.{
  Runtime, AuditRequest, Branch, PlannedEntry, message_hashes, reviewable, message_part,
  find_parent_branch, last_reviewable_index, delta_parts, delta_content, content_hash, plan_request,
}
use newapi_usage.Review.Planner.Parent.{IsStart, find_parent_branch-longest}
use newapi_usage.Review.Planner.Delta.{last_reviewable_index-delta}

module _ (rt : Runtime) (mode : RoleMode) where
  -- The entry's count, size and hash are those of these messages, each written as a part of the
  -- content: no hash where the content is empty.
  abbrev pub BuiltFrom : List Message → PlannedEntry → Type 0
  BuiltFrom ms p =
      let content = join (map (message_part rt) ms) (codes "\n\n---\n\n") in
      (p.delta_message_count ≡ length ms)
      × (p.content_chars ≡ length content)
      × (is_blank content ≡ true → p.content_hash ≡ [])
      × (is_blank content ≡ false → p.content_hash ≡ Runtime.sha256_hex rt content)

  delta_parts-selected :
      (ms : List Message)
      → delta_parts rt mode ms ≡ map (message_part rt) (select_where (reviewable rt mode) ms)
  unfolding delta_parts select_where
  delta_parts-selected [] = refl
  delta_parts-selected (m ∷ ms) = elim (Bool-cases (reviewable rt mode m)) [
    | inl e ↦ rw e (ap (◌∷◌ (message_part rt m)) (delta_parts-selected ms))
    | inr e ↦ rw e (delta_parts-selected ms)
  ]

  drop_past : (n : ℕ) (ms : List Message) → length ms < n → drop n ms ≡ drop (length ms) ms
  drop_past zero ms h = absurd (omega arith)
  drop_past (suc n) [] h = refl
  drop_past (suc n) (m ∷ ms) h = drop_past n ms (omega (arith, h))

  -- A start past the end is as good as the end.
  delta_content-selected :
      (ms : List Message) (start : ℕ)
      → let chosen = select_where (reviewable rt mode) (drop start ms) in
        delta_content rt ms start mode ≡ (
          join (map (message_part rt) chosen) (codes "\n\n---\n\n"),
          length (map (message_part rt) chosen),
        )
  unfolding delta_content
  delta_content-selected ms start = elim (Bool-cases (ltb (length ms) start)) [
    | inl past ↦
        rw
          (
            past,
            drop_past start ms (ground (arith, past)),
            delta_parts-selected (drop (length ms) ms),
          )
          refl
    | inr within ↦ rw (within, delta_parts-selected (drop start ms)) refl
  ]

  content_hash-empty : (content : Text) → is_blank content ≡ true → content_hash rt content ≡ []
  unfolding content_hash
  content_hash-empty content h = rw h refl

  content_hash-given :
      (content : Text)
      → is_blank content ≡ false
      → content_hash rt content ≡ Runtime.sha256_hex rt content
  unfolding content_hash
  content_hash-given content h = rw h refl

  content-built :
      (ms : List Message) (start : ℕ)
      → let content = delta_content rt ms start mode in
        let chosen = select_where (reviewable rt mode) (drop start ms) in
        let text = join (map (message_part rt) chosen) (codes "\n\n---\n\n") in
        (content.1 ≡ length chosen)
        × (length content.0 ≡ length text)
        × (is_blank text ≡ true → content_hash rt content.0 ≡ [])
        × (is_blank text ≡ false → content_hash rt content.0 ≡ Runtime.sha256_hex rt text)
  content-built ms start =
      let chosen = select_where (reviewable rt mode) (drop start ms) in
      rw (delta_content-selected ms start)
        (length-map (message_part rt) chosen, refl, content_hash-empty _, content_hash-given _)

  -- Every entry is built from the reviewable messages from its start on.
  plan_request-built :
      (r : AuditRequest) (bs : List Branch)
      → let p = plan_request rt r bs mode in
        BuiltFrom (select_where (reviewable rt mode) (drop p.delta_start r.messages)) p
  unfolding plan_request
  plan_request-built r bs = content-built r.messages (
      let shared = find_parent_branch (message_hashes rt r.messages) bs in
      if shared.0 == 0 then last_reviewable_index rt r.messages mode else shared.1)

  drop-map :
      (n : ℕ) (ms : List Message) → message_hashes rt (drop n ms) ≡ drop n (message_hashes rt ms)
  unfolding message_hashes
  drop-map zero ms = refl
  drop-map (suc n) [] = refl
  drop-map (suc n) (m ∷ ms) = drop-map n ms

  drop-append_texts : (xs ys : List Text) → drop (length xs) (xs ++ ys) ≡ ys
  drop-append_texts [] ys = refl
  drop-append_texts (x ∷ xs) ys = drop-append_texts xs ys

  continues :
      (current : List Text) (ms : List Message) (b : Branch) (n : ℕ)
      → message_hashes rt ms ≡ current
      → length b.hashes ≡ n
      → IsStart b.hashes current
      → message_hashes rt ms ≡ b.hashes ++ message_hashes rt (drop n ms)
  continues current ms b n e len (rest, split) =
      rw (drop-map n ms, e, split, ← len, drop-append_texts b.hashes rest) refl

  plan_request-branch :
      (r : AuditRequest) (bs : List Branch)
      → let p = plan_request rt r bs mode in
        p.parent_entry_id ≢ 0
        → (b : Branch) × In b bs
          × (b.audit_entry_id ≡ p.parent_entry_id)
          × (message_hashes rt r.messages
              ≡ b.hashes ++ message_hashes rt (drop p.delta_start r.messages))
  unfolding plan_request
  plan_request-branch r bs h =
      elim (find_parent_branch-longest (message_hashes rt r.messages) bs).0 [
        | inl missing ↦ absurd (h missing.0)
        | inr (b, m, e, n, s, p) ↦
            (b, m, e, rw (not_zero _ h) (continues _ r.messages b _ refl n s))
      ]
    where
      not_zero : (n : ℕ) → n ≢ 0 → (n == 0) ≡ false
      not_zero n g = ground arith

  -- An entry that the plan gives a parent continues a recorded branch of that id: the hashes of the
  -- request's messages are those of the branch, followed by those of the messages from the entry's start
  -- on; and the entry's count, size and hash are those of the content made of the reviewable ones among
  -- these messages.
  pub plan_request-continues :
      (r : AuditRequest) (bs : List Branch)
      → let p = plan_request rt r bs mode in
        p.parent_entry_id ≢ 0
        → ((b : Branch) × In b bs
            × (b.audit_entry_id ≡ p.parent_entry_id)
            × (message_hashes rt r.messages
                ≡ b.hashes ++ message_hashes rt (drop p.delta_start r.messages)))
          × BuiltFrom (select_where (reviewable rt mode) (drop p.delta_start r.messages)) p
  plan_request-continues r bs h = (plan_request-branch r bs h, plan_request-built r bs)

  selected-none :
      (ms : List Message)
      → All (λ n. reviewable rt mode n ≡ false) ms
      → select_where (reviewable rt mode) ms ≡ []
  unfolding select_where
  selected-none [] h = refl
  selected-none (m ∷ ms) h = rw h.0 (selected-none ms h.1)

  fresh_start :
      (r : AuditRequest) (bs : List Branch)
      → ((b : Branch)
          → In b bs
          → IsStart b.hashes (message_hashes rt r.messages)
          → length b.hashes ≡ 0)
      → let p = plan_request rt r bs mode in
        (p.parent_entry_id ≡ 0) × (p.delta_start ≡ last_reviewable_index rt r.messages mode)
  unfolding plan_request
  fresh_start r bs nothing = elim (find_parent_branch-longest (message_hashes rt r.messages) bs).0 [
    | inl missing ↦ rw missing.0 (refl, refl)
    | inr (b, m, e, n, s, p) ↦ absurd (omega (arith, nothing b m s, n, p))
  ]

  -- The last reviewable message of a request is all that its last reviewable index leaves.
  selected-one :
      (before after : List Message) (m : Message)
      → reviewable rt mode m ≡ true
      → All (λ n. reviewable rt mode n ≡ false) after
      → select_where (reviewable rt mode) (drop (length before) (before ++ m ∷ after)) ≡ m ∷ []
  unfolding select_where
  selected-one [] after m hit rest = rw hit (ap (◌∷◌ m) (selected-none after rest))
  selected-one (x ∷ before) after m hit rest = selected-one before after m hit rest

  -- A request that no recorded branch with messages begins has no parent, and is reviewed by its last
  -- reviewable message alone, at which it starts and after which nothing is reviewable; where none of
  -- its messages is reviewable, it has no content.
  pub plan_request-fresh :
      (r : AuditRequest) (bs : List Branch)
      → ((b : Branch)
          → In b bs
          → IsStart b.hashes (message_hashes rt r.messages)
          → length b.hashes ≡ 0)
      → let p = plan_request rt r bs mode in
        (p.parent_entry_id ≡ 0)
        × ((All (λ (m : Message). reviewable rt mode m ≡ false) r.messages × BuiltFrom [] p)
            ⊎ ((before : List Message) × (m : Message) × (after : List Message) × (r.messages
                  ≡ before ++ m ∷ after)
                × (length before ≡ p.delta_start)
                × (reviewable rt mode m ≡ true)
                × All (λ (n : Message). reviewable rt mode n ≡ false) after
                × BuiltFrom (m ∷ []) p))
  plan_request-fresh r bs nothing =
      let p = plan_request rt r bs mode in
      let start = fresh_start r bs nothing in
      let built = plan_request-built r bs in
      let from = λ (ms : List Message). BuiltFrom ms p in
      (
        start.0,
        elim (last_reviewable_index-delta rt mode r.messages) [
          | inl (skipped, _) ↦ inl (
            skipped,
            subst from (selected-none _ (All-drop _ p.delta_start r.messages skipped)) built,
          )
          | inr (before, m, after, split, at, hit, rest, _) ↦
              let here_too = at ∙ sym start.1 in
              let chosen : select_where (reviewable rt mode) (drop p.delta_start r.messages)
                  ≡ m ∷ [] =
                rw (← here_too, split) (selected-one before after m hit rest) in
              inr (before, m, after, split, here_too, hit, rest, subst from chosen built)
        ],
      )
