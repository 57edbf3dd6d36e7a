-- ===== src/Review/Planner/History.antt =====
-- The history of branches, and the parents that the plan of a token names.
use newapi_usage.Prelude.{
  ℕ, ◌-◌, ◌≤◌, ◌<◌, ◌≡◌, refl, ap, ◌⊎◌, inl, inr, List, [], ◌∷◌, ◌++◌, map, arith, ltb, ◌==◌,
  length, length-append, length-drop, All, All-append, All-drop, In, here, there, In-All,
  Bool-cases,
}
use newapi_usage.Review.Types.{RoleMode}
use newapi_usage.Review.Planner.{
  Runtime, AuditRequest, Branch, PlannedEntry, branch_history, append_branch, plan_request,
  plan_requests, request_branch,
}
use newapi_usage.Review.Planner.Parent.{find_parent_branch-longest}

-- Every recorded branch has messages, and there are at most 100.
pub record IsHistory (bs : List Branch) : Type 0 where
  pub bounded : length bs ≤ branch_history
  pub filled : All (λ (b : Branch). 0 < length b.hashes) bs

-- Recording a branch keeps the history bounded and without empty branches.
pub append_branch-IsHistory :
    (bs : List Branch) (b : Branch) → IsHistory bs → IsHistory (append_branch bs b)
unfolding append_branch
append_branch-IsHistory bs b h = elim (Bool-cases (length b.hashes == 0)) [
  | inl e ↦ rw e h
  | inr e ↦
      let grown : All (λ (x : Branch). 0 < length x.hashes) (bs ++ b ∷ []) =
        All-append _ bs (b ∷ []) h.filled (ground arith, tt) in
      elim (Bool-cases (ltb branch_history (length (bs ++ b ∷ [])))) [
        | inl long ↦
            rw (e, long)
              (record {
                bounded = omega (
                  arith,
                  length-drop (length (bs ++ b ∷ []) - branch_history) (bs ++ b ∷ []),
                  length-append bs (b ∷ []),
                  h.bounded,
                );
                filled = All-drop _ (length (bs ++ b ∷ []) - branch_history) (bs ++ b ∷ []) grown;
              })
        | inr short ↦ rw (e, short) (record { bounded = ground arith; filled = grown })
      ]
]

-- The ids of the branches are all known.
abbrev Known : List ℕ → List Branch → Type 0
Known ids = All (λ b. In b.audit_entry_id ids)

append_branch-Known :
    (ids : List ℕ) (bs : List Branch) (b : Branch)
    → Known ids bs
    → Known (b.audit_entry_id ∷ ids) (append_branch bs b)
unfolding append_branch
append_branch-Known ids bs b h = elim (Bool-cases (length b.hashes == 0)) [
  | inl e ↦ rw e (weaken bs h)
  | inr e ↦ elim (Bool-cases (ltb branch_history (length (bs ++ b ∷ [])))) [
    | inl long ↦ rw (e, long) (All-drop _ _ (bs ++ b ∷ []) grown)
    | inr short ↦ rw (e, short) grown
  ]
]
  where
    weaken : (cs : List Branch) → Known ids cs → Known (b.audit_entry_id ∷ ids) cs
    weaken [] k = tt
    weaken (c ∷ cs) k = (there k.0, weaken cs k.1)

    grown : Known (b.audit_entry_id ∷ ids) (bs ++ b ∷ [])
    grown = All-append _ bs (b ∷ []) (weaken bs h) (here, tt)

-- Each parent is 0, or is known before the entry: an anchor, or an entry that stands earlier.
abbrev pub ParentsKnown : List ℕ → List PlannedEntry → Type 0
ParentsKnown ids [] = Unit {0}
ParentsKnown ids (e ∷ es) =
    ((e.parent_entry_id ≡ 0) ⊎ In e.parent_entry_id ids) × ParentsKnown (e.audit_entry_id ∷ ids) es

module _ (rt : Runtime) where
  plan_request-parent :
      (ids : List ℕ) (r : AuditRequest) (bs : List Branch) (mode : RoleMode)
      → Known ids bs
      → ((plan_request rt r bs mode).parent_entry_id ≡ 0)
        ⊎ In (plan_request rt r bs mode).parent_entry_id ids
  unfolding plan_request request_branch
  plan_request-parent ids r bs mode k =
      elim (find_parent_branch-longest (request_branch rt r).hashes bs).0 [
        | inl missing ↦ inl missing.0
        | inr (b, m, e, n, s, p) ↦ inr (rw (← e) (In-All _ m k))
      ]

  -- The plan of a token has one entry for each request, in order, and every entry's parent is 0, an
  -- anchor from before the range, or an entry planned earlier.
  pub plan_requests-ParentsKnown :
      (ids : List ℕ) (rs : List AuditRequest) (bs : List Branch) (mode : RoleMode)
      → All (λ (b : Branch). In b.audit_entry_id ids) bs
      → ParentsKnown ids (plan_requests rt rs bs mode)
        × (map (λ e. e.audit_entry_id) (plan_requests rt rs bs mode) ≡ map (λ r. r.id) rs)
  unfolding plan_requests request_branch plan_request
  plan_requests-ParentsKnown ids [] bs mode k = (tt, refl)
  plan_requests-ParentsKnown ids (r ∷ rs) bs mode k =
      let later =
        plan_requests-ParentsKnown (r.id ∷ ids) rs (append_branch bs (request_branch rt r)) mode
          (append_branch-Known ids bs (request_branch rt r) k) in
      ((plan_request-parent ids r bs mode k, later.0), ap (◌∷◌ r.id) later.1)
