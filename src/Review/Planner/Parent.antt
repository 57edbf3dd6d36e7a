-- ===== src/Review/Planner/Parent.antt =====
-- findParentBranch finds the longest recorded conversation that the request continues.
use newapi_usage.Prelude.{
  ℕ, ◌≤◌, ◌<◌, ◌≡◌, refl, sym, ap, ◌⊎◌, inl, inr, true, false, ◌||◌, Text, text_eq, text_eq→≡,
  text_eq_refl, List, [], ◌∷◌, ◌++◌, arith, ltb, leb, ◌==◌, length, length-append, In, here, there,
  Bool-cases,
}
use newapi_usage.Review.Planner.{Branch, hashes_match, scan_branches, find_parent_branch}

-- The hashes begin the current ones.
abbrev pub IsStart : List Text → List Text → Type 0
IsStart hs current = (rest : List Text) × (current ≡ hs ++ rest)

pub hashes_match→IsStart :
    (hs current : List Text) → hashes_match hs current ≡ true → IsStart hs current
unfolding hashes_match
hashes_match→IsStart [] current h = (current, refl)
hashes_match→IsStart (x ∷ hs) [] h = cc
hashes_match→IsStart (x ∷ hs) (c ∷ cs) h = elim (Bool-cases (text_eq x c)) [
  | inl e ↦ let r = hashes_match→IsStart hs cs (rw e at h) in (r.0, cc (text_eq→≡ x c e, r.1))
  | inr e ↦ ground arith
]

pub hashes_match-append : (hs rest : List Text) → hashes_match hs (hs ++ rest) ≡ true
unfolding hashes_match
hashes_match-append [] rest = refl
hashes_match-append (x ∷ hs) rest = rw text_eq_refl (hashes_match-append hs rest)

IsStart-length : (hs current : List Text) → IsStart hs current → length hs ≤ length current
IsStart-length hs current (rest, e) = omega (arith, ap length e, length-append hs rest)

IsStart-match : (hs current : List Text) → IsStart hs current → hashes_match hs current ≡ true
IsStart-match hs current (rest, e) = rw e (hashes_match-append hs rest)

-- The branch that a result (parent, shared) stands for.
abbrev pub Source : List Text → List Branch → ℕ × ℕ → Type 0
Source current branches r =
    (b : Branch) × In b branches
    × (b.audit_entry_id ≡ r.0)
    × (length b.hashes ≡ r.1)
    × IsStart b.hashes current
    × (0 < r.1)

abbrev Best : List Text → List Branch → ℕ → Type 0
Best current branches n =
    (b : Branch) → In b branches → IsStart b.hashes current → length b.hashes ≤ n

record Scanned (current : List Text) (bs : List Branch) (parent best : ℕ) (r : ℕ × ℕ) : Type 0 where
  grows : best ≤ r.1
  maximal : Best current bs r.1
  source : ((r.0 ≡ parent) × (r.1 ≡ best)) ⊎ Source current bs r

Best-cons :
    (current : List Text) (b : Branch) (bs : List Branch) (n : ℕ)
    → (IsStart b.hashes current → length b.hashes ≤ n)
    → Best current bs n
    → Best current (b ∷ bs) n
Best-cons current b bs n first rest c here s = first s
Best-cons current b bs n first rest c (there m) s = rest c m s

Source-cons :
    (current : List Text) (b : Branch) (bs : List Branch) (r : ℕ × ℕ)
    → Source current bs r
    → Source current (b ∷ bs) r
Source-cons current b bs r (c, m, i, n, s, p) = (c, there m, i, n, s, p)

skipped :
    (current : List Text) (b : Branch) (bs : List Branch) (parent best : ℕ) (r : ℕ × ℕ)
    → (IsStart b.hashes current → length b.hashes ≤ best)
    → Scanned current bs parent best r
    → Scanned current (b ∷ bs) parent best r
skipped current b bs parent best r small s = record {
  grows = s.grows;
  maximal = Best-cons current b bs r.1 (λ i. omega (arith, small i, s.grows)) s.maximal;
  source = elim s.source [ inl same ↦ inl same | inr src ↦ inr (Source-cons current b bs r src) ];
}

taken :
    (current : List Text) (b : Branch) (bs : List Branch) (parent best : ℕ) (r : ℕ × ℕ)
    → best < length b.hashes
    → IsStart b.hashes current
    → Scanned current bs b.audit_entry_id (length b.hashes) r
    → Scanned current (b ∷ bs) parent best r
taken current b bs parent best r bigger start s = record {
  grows = omega (arith, s.grows);
  maximal = Best-cons current b bs r.1 (λ _. s.grows) s.maximal;
  source = inr (elim s.source [
    | inl same ↦ (b, here, sym same.0, sym same.1, start, omega (arith, same.1))
    | inr src ↦ Source-cons current b bs r src
  ]);
}

passed_over :
    (hs current : List Text) (best : ℕ)
    → (length hs == 0 || ltb (length current) (length hs) || leb (length hs) best) ≡ true
    → IsStart hs current
    → length hs ≤ best
passed_over hs current best h s = ground (arith, IsStart-length hs current s)

bigger_than :
    (hs current : List Text) (best : ℕ)
    → (length hs == 0 || ltb (length current) (length hs) || leb (length hs) best) ≡ false
    → best < length hs
bigger_than hs current best h = ground arith

scan_branches-Scanned :
    (current : List Text) (bs : List Branch) (parent best : ℕ)
    → Scanned current bs parent best (scan_branches current bs parent best)
unfolding scan_branches
scan_branches-Scanned current [] parent best = record {
  grows = omega arith;
  maximal = λ b m s. elim m [ ];
  source = inl (refl, refl);
}
scan_branches-Scanned current (b ∷ bs) parent best =
    elim (Bool-cases (
      length b.hashes == 0
      || ltb (length current) (length b.hashes)
      || leb (length b.hashes) best)) [
        | inl e ↦
            rw (e, scan_branches)
              (skipped current b bs parent best _ (passed_over b.hashes current best e)
                (scan_branches-Scanned current bs parent best))
        | inr e ↦ elim (Bool-cases (hashes_match b.hashes current)) [
          | inl same ↦
              rw (e, same, scan_branches)
                (taken current b bs parent best _ (bigger_than b.hashes current best e)
                  (hashes_match→IsStart b.hashes current same)
                  (scan_branches-Scanned current bs b.audit_entry_id (length b.hashes)))
          | inr differs ↦
              rw (e, differs, scan_branches)
                (skipped current b bs parent best _
                  (λ i. absurd (cc (IsStart-match b.hashes current i)))
                  (scan_branches-Scanned current bs parent best))
        ]
      ]

-- The parent is a recorded branch whose message hashes begin those of the request, as long as any such
-- branch is; or the parent is 0 and nothing is shared, where no recorded branch that has hashes begins
-- the request's.
pub find_parent_branch-longest :
    (current : List Text) (branches : List Branch)
    → let r = find_parent_branch current branches in
      (((r.0 ≡ 0) × (r.1 ≡ 0)) ⊎ Source current branches r)
      × ((b : Branch) → In b branches → IsStart b.hashes current → length b.hashes ≤ r.1)
unfolding find_parent_branch
find_parent_branch-longest current branches =
    let s = scan_branches-Scanned current branches 0 0 in (s.source, s.maximal)
