-- ===== src/Review/Planner.antt =====
-- internal/review/planner.go: what of each audited request is new in its conversation. Message
-- hashes are computed by the package crypto/sha256, and lower case by the tables of the package
-- unicode, which the record `Runtime` stands for.
pub mod Parent
pub mod Delta
pub mod Built
pub mod History
use newapi_usage.Prelude.{
  ℕ, zero, suc, ◌+◌, ◌-◌, ◌≡◌, Bool, true, false, ◌&&◌, ◌||◌, Text, codes, text_eq, is_blank,
  trim_space, replace_crlf, join, List, [], ◌∷◌, ◌++◌, map, Option, none, some, ltb, leb, ◌==◌,
  if◌then◌else◌, length, take, drop,
}
use newapi_usage.Audit.Types.{Message}
use newapi_usage.Review.Types.{RoleMode, user, user_tool, all}

pub record Runtime : Type 0 where
  -- strings.ToLower on valid text
  pub to_lower : Text → Text
  -- hex.EncodeToString of sha256.Sum256: 64 characters
  pub sha256_hex : Text → Text
  pub sha256_hex-length : (t : Text) → length (sha256_hex t) ≡ 64

pub record AuditRequest : Type 0 where
  pub id : ℕ
  pub token_id : ℕ
  pub created_at : ℕ
  pub model : Text
  pub messages : List Message

pub record Branch : Type 0 where
  pub audit_entry_id : ℕ
  pub hashes : List Text

pub record PlannedEntry : Type 0 where
  pub audit_entry_id : ℕ
  pub token_id : ℕ
  pub created_at : ℕ
  pub model : Text
  pub parent_entry_id : ℕ
  pub delta_start : ℕ
  pub delta_message_count : ℕ
  pub content_hash : Text
  pub content_chars : ℕ

abbrev pub branch_history : ℕ
branch_history = 100

unfoldable pub normalize_content : Text → Text
normalize_content value = trim_space (replace_crlf value)

-- The inner loop of findParentBranch; the length test above it rules out the last clause.
unfoldable pub hashes_match : List Text → List Text → Bool
hashes_match [] current = true
hashes_match (h ∷ hs) [] = false
hashes_match (h ∷ hs) (c ∷ cs) = if text_eq h c then hashes_match hs cs else false

-- The loop of findParentBranch, with its variables `parentID` and `best`.
unfoldable pub scan_branches : List Text → List Branch → ℕ → ℕ → ℕ × ℕ
scan_branches current [] parent best = (parent, best)
scan_branches current (b ∷ bs) parent best =
    let n = length b.hashes in
    let skip = scan_branches current bs parent best in
    let hit = scan_branches current bs b.audit_entry_id n in
    if n == 0 || ltb (length current) n || leb n best
    then skip
    else if hashes_match b.hashes current
    then hit
    else skip

unfoldable pub find_parent_branch : List Text → List Branch → ℕ × ℕ
unfolding scan_branches hashes_match
find_parent_branch current branches = scan_branches current branches 0 0

unfoldable pub append_branch : List Branch → Branch → List Branch
append_branch branches b =
    if length b.hashes == 0
    then branches
    else let grown = branches ++ b ∷ [] in
      if ltb branch_history (length grown)
      then drop (length grown - branch_history) grown
      else grown

module _ (rt : Runtime) where
  open rt use {to_lower, sha256_hex}

  unfoldable pub role_allowed : Text → RoleMode → Bool
  role_allowed raw mode =
      let role = to_lower (trim_space raw) in
      let is_user =
        text_eq role (codes "user")
        || text_eq role (codes "human")
        || text_eq role (codes "input") in
      let is_tool = text_eq role (codes "tool") || text_eq role (codes "function") in
      elim mode [ all ↦ true | user ↦ is_user | user_tool ↦ is_user || is_tool ]

  unfoldable pub message_hash : Message → Text
  unfolding normalize_content
  message_hash m = sha256_hex (to_lower (trim_space m.role) ++ (0 ∷ normalize_content m.content))

  unfoldable pub message_hashes : List Message → List Text
  unfolding message_hash
  message_hashes = map message_hash

  -- The test that the two loops over messages share.
  unfoldable pub reviewable : RoleMode → Message → Bool
  unfolding role_allowed normalize_content
  reviewable mode m =
      if role_allowed m.role mode
      then (if is_blank (normalize_content m.content) then false else true)
      else false

  -- lastReviewableIndex counts down and returns at the first hit: the last index that the test
  -- accepts, counted from `index`, or `found` if there is none.
  last_from : RoleMode → ℕ → ℕ → List Message → ℕ
  unfolding reviewable
  last_from mode index found [] = found
  last_from mode index found (m ∷ ms) =
      last_from mode (suc index) (if reviewable mode m then index else found) ms

  unfoldable pub last_reviewable_index : List Message → RoleMode → ℕ
  unfolding last_from
  last_reviewable_index messages mode = last_from mode 0 (length messages) messages

  unfoldable pub message_part : Message → Text
  unfolding normalize_content
  message_part m =
      codes "[角色:" ++ (to_lower (trim_space m.role) ++ (codes "]\n" ++ normalize_content m.content))

  unfoldable pub delta_parts : RoleMode → List Message → List Text
  unfolding reviewable message_part
  delta_parts mode [] = []
  delta_parts mode (m ∷ ms) =
      if reviewable mode m then message_part m ∷ delta_parts mode ms else delta_parts mode ms

  abbrev separator : Text
  separator = codes "\n\n---\n\n"

  -- A start past the end is the end; it is never negative.
  unfoldable pub delta_content : List Message → ℕ → RoleMode → Text × ℕ
  unfolding delta_parts
  delta_content messages start mode =
      let from = if ltb (length messages) start then length messages else start in
      let parts = delta_parts mode (drop from messages) in (join parts separator, length parts)

  unfoldable pub content_hash : Text → Text
  content_hash content = if is_blank content then [] else sha256_hex content

  unfoldable pub plan_request : AuditRequest → List Branch → RoleMode → PlannedEntry
  unfolding find_parent_branch message_hashes last_reviewable_index delta_content content_hash
  plan_request request branches mode =
      let (parent, shared) = find_parent_branch (message_hashes request.messages) branches in
      let start = if parent == 0 then last_reviewable_index request.messages mode else shared in
      let (content, count) = delta_content request.messages start mode in
      record {
        audit_entry_id = request.id;
        token_id = request.token_id;
        created_at = request.created_at;
        model = request.model;
        parent_entry_id = parent;
        delta_start = start;
        delta_message_count = count;
        content_hash = content_hash content;
        content_chars = length content;
      }

  unfoldable pub request_branch : AuditRequest → Branch
  unfolding message_hashes
  request_branch r = record { audit_entry_id = r.id; hashes = message_hashes r.messages }

  -- The loop of planJob over the requests of one token, in the order of the cursor: what is
  -- planned, and the branches after it. Its batches of 200 follow one another in this order.
  unfoldable pub plan_requests : List AuditRequest → List Branch → RoleMode → List PlannedEntry
  unfolding plan_request append_branch request_branch
  plan_requests [] branches mode = []
  plan_requests (r ∷ rs) branches mode =
      plan_request r branches mode
      ∷ plan_requests rs (append_branch branches (request_branch r)) mode
