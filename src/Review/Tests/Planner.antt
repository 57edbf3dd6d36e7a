-- ===== src/Review/Tests/Planner.antt =====
-- The theorems about the plan, the decisions and the calls at concrete inputs.
use newapi_usage.Prelude.{
  ℕ, ◌≤◌, ◌≡◌, refl, ◌≢◌, ◌⊎◌, arith, List, [], ◌∷◌, ◌++◌, map, some, none, pos, negsuc, codes, All,
  In, here, there, select_where, length, drop, true, false, Text, is_space, replace_crlf,
  trim_space, text_eq,
}
use newapi_usage.Audit.Types.{Message}
use newapi_usage.Review.Types.{user, pass, review, other, Decision}
use newapi_usage.Review.Planner.{
  AuditRequest, Branch, find_parent_branch, append_branch, message_hashes, plan_request,
  plan_requests, reviewable,
}
use newapi_usage.Review.Planner.Parent.{IsStart, Source, find_parent_branch-longest}
use newapi_usage.Review.Planner.Built.{BuiltFrom, plan_request-continues, plan_request-fresh}
use newapi_usage.Review.Planner.History.{
  IsHistory, append_branch-IsHistory, ParentsKnown, plan_requests-ParentsKnown,
}
use newapi_usage.Review.Decision.{combine_decision, normalize_decision}
use newapi_usage.Review.Decision.Order.{AtMost, combine_decision-max}
use newapi_usage.Review.Decision.Laws.{IsNormal, normalize_decision-IsNormal}
use newapi_usage.Review.Tests.Rows.{runtime}

abbrev hello : Message
hello = record { role = codes "user"; content = codes "hi" }

abbrev answer : Message
answer = record { role = codes "assistant"; content = codes "yes" }

abbrev request : AuditRequest
request = record {
  id = 4;
  token_id = 7;
  created_at = 9;
  model = codes "gpt";
  messages = hello ∷ answer ∷ hello ∷ [];
}

abbrev opening : Branch
opening = record { audit_entry_id = 3; hashes = message_hashes runtime (hello ∷ []) }

find_parent_branch-longest_example :
    let r =
      find_parent_branch
        (codes "a" ∷ codes "b" ∷ [])
        (record { audit_entry_id = 3; hashes = codes "a" ∷ [] } ∷ []) in
    (((r.0 ≡ 0) × (r.1 ≡ 0))
      ⊎ Source
          (codes "a" ∷ codes "b" ∷ [])
          (record { audit_entry_id = 3; hashes = codes "a" ∷ [] } ∷ [])
          r)
    × ((b : Branch)
        → In b (record { audit_entry_id = 3; hashes = codes "a" ∷ [] } ∷ [])
        → IsStart b.hashes (codes "a" ∷ codes "b" ∷ [])
        → length b.hashes ≤ r.1)
find_parent_branch-longest_example =
    find_parent_branch-longest (codes "a" ∷ codes "b" ∷ [])
      (record { audit_entry_id = 3; hashes = codes "a" ∷ [] } ∷ [])

three : ◌≢◌ {A = ℕ} 3 0
three e = omega (arith, e)

plan_request-continues_example :
    let p = plan_request runtime request (opening ∷ []) user in
    ((b : Branch) × In b (opening ∷ [])
      × (b.audit_entry_id ≡ p.parent_entry_id)
      × (message_hashes runtime request.messages
          ≡ b.hashes ++ message_hashes runtime (drop p.delta_start request.messages)))
    × BuiltFrom runtime user
        (select_where (reviewable runtime user) (drop p.delta_start request.messages))
        p
unfolding plan_request text_eq trim_space is_space replace_crlf
plan_request-continues_example = plan_request-continues runtime user request (opening ∷ []) three

abbrev fresh : AuditRequest
fresh = record request { messages = hello ∷ answer ∷ [] }

abbrev empty_branch : Branch
empty_branch = record { audit_entry_id = 3; hashes = [] }

nothing_shared :
    (b : Branch)
    → In b (empty_branch ∷ [])
    → IsStart b.hashes (message_hashes runtime fresh.messages)
    → length b.hashes ≡ 0
nothing_shared b here s = refl
nothing_shared b (there m) s = elim m [ ]

plan_request-fresh_example :
    let p = plan_request runtime fresh (empty_branch ∷ []) user in
    (p.parent_entry_id ≡ 0)
    × ((All (λ (m : Message). reviewable runtime user m ≡ false) fresh.messages
          × BuiltFrom runtime user [] p)
        ⊎ ((before : List Message) × (m : Message) × (after : List Message) × (fresh.messages
              ≡ before ++ m ∷ after)
            × (length before ≡ p.delta_start)
            × (reviewable runtime user m ≡ true)
            × All (λ (n : Message). reviewable runtime user n ≡ false) after
            × BuiltFrom runtime user (m ∷ []) p))
plan_request-fresh_example =
    plan_request-fresh runtime user fresh (empty_branch ∷ []) nothing_shared

append_branch-IsHistory_example :
    IsHistory (append_branch [] (record { audit_entry_id = 3; hashes = codes "a" ∷ [] }))
append_branch-IsHistory_example =
    append_branch-IsHistory [] (record { audit_entry_id = 3; hashes = codes "a" ∷ [] })
      (record { bounded = omega arith; filled = tt })

plan_requests-ParentsKnown_example :
    ParentsKnown (3 ∷ []) (plan_requests runtime (request ∷ []) (opening ∷ []) user)
    × (map (λ e. e.audit_entry_id) (plan_requests runtime (request ∷ []) (opening ∷ []) user)
        ≡ 4 ∷ [])
plan_requests-ParentsKnown_example =
    plan_requests-ParentsKnown runtime (3 ∷ []) (request ∷ []) (opening ∷ []) user (here, tt)

combine_decision-max_example :
    let c = combine_decision review (pos 60) pass (pos 5) in
    AtMost review (pos 60) c.decision c.score
    × AtMost pass (pos 5) c.decision c.score
    × (((c.decision ≡ review) × (c.score ≡ pos 60)) ⊎ ((c.decision ≡ pass) × (c.score ≡ pos 5)))
combine_decision-max_example = combine_decision-max review (pos 60) pass (pos 5)

abbrev raw : Decision
raw = record {
  decision = review;
  risk_score = pos 140;
  categories = codes "x" ∷ [];
  reason = codes " odd ";
  confidence = negsuc 0;
}

normalize_decision-IsNormal_example :
    ((e : Decision) × (normalize_decision raw ≡ some e) × IsNormal e × (e.decision ≡ raw.decision))
    ⊎ ((normalize_decision raw ≡ none) × ((t : Text) × (raw.decision ≡ other t)))
normalize_decision-IsNormal_example = normalize_decision-IsNormal raw
