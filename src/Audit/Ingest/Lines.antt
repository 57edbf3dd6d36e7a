-- ===== src/Audit/Ingest/Lines.antt =====
-- The loop of ingestPath as a fold over the lines of the file that have ended.
use newapi_usage.Prelude.{
  ℕ, zero, suc, ◌+◌, true, false, Text, is_blank, List, [], ◌∷◌, ◌++◌, length, take, drop, ◌==◌,
  if◌then◌else◌, ◌≡◌, refl, ap, inl, inr, Bool-cases, arith,
}
use newapi_usage.Audit.Ingest.Tables.{Rows}
use newapi_usage.Audit.Ingest.Insert.{Outside}
use newapi_usage.Audit.Ingest.Files.{
  LineFormat, Progress, Read, read_string, ingest_line, ingest_lines,
}

-- A byte before a line.
abbrev pub prefix_first : ℕ → List (List ℕ) → List (List ℕ)
prefix_first c [] = []
prefix_first c (line ∷ lines) = (c ∷ line) ∷ lines

-- The lines that end, with their ends.
unfoldable pub complete_lines : List ℕ → List (List ℕ)
complete_lines [] = []
complete_lines (c ∷ s) =
    let lines = complete_lines s in if c == 10 then (c ∷ []) ∷ lines else prefix_first c lines

-- How many bytes lines take.
unfoldable pub bytes_of : List (List ℕ) → ℕ
bytes_of [] = 0
bytes_of (line ∷ lines) = length line + bytes_of lines

-- What ReadString finds is the first of the lines; where it finds no end there is none.
unfoldable pub Splits : List ℕ → Read → Type 0
Splits content r =
    (is_blank content ≡ is_blank r.line)
    × (r.ended ≡ true
        → (complete_lines content ≡ r.line ∷ complete_lines r.rest)
          × (drop (length r.line) content ≡ r.rest))
    × (r.ended ≡ false → complete_lines content ≡ [])

pub read_string-Splits : (content : List ℕ) → Splits content (read_string content)
unfolding Splits read_string complete_lines
read_string-Splits [] = (refl, λ h. absurd (ground (arith, h)), λ h. refl)
read_string-Splits (c ∷ s) =
    let next = read_string-Splits s in
    elim (Bool-cases (c == 10)) [
      | inl e ↦ rw e (refl, (λ h. (refl, refl)), λ h. absurd (ground (arith, h)))
      | inr e ↦ rw e (
        refl,
        (λ h. (ap (prefix_first c) (next.1 h).0, (next.1 h).1)),
        λ h. ap (prefix_first c) (next.2 h),
      )
    ]

module _ (o : Outside) (fmt : LineFormat) (now : ℕ) (source_id path : Text) where
  -- The fold.
  unfoldable pub ingest_all : List (List ℕ) → Progress → Progress
  ingest_all [] p = p
  ingest_all (line ∷ lines) p = ingest_all lines (ingest_line o fmt now source_id path line p)

  pub ingest_all-append :
      (xs ys : List (List ℕ)) (p : Progress)
      → ingest_all (xs ++ ys) p ≡ ingest_all ys (ingest_all xs p)
  unfolding ingest_all
  ingest_all-append [] ys p = refl
  ingest_all-append (x ∷ xs) ys p =
      ingest_all-append xs ys (ingest_line o fmt now source_id path x p)

-- The columns that a scan saves.
pub record Saved : Type 0 where
  pub offset : ℕ
  pub line_no : ℕ
  pub rows : Rows

abbrev pub saved : Progress → Saved
saved p = record { offset = p.offset; line_no = p.line_no; rows = p.rows }

module _ (o : Outside) (fmt : LineFormat) (now : ℕ) (source_id path : Text) where
  pub ingest_lines-ingest_all :
      (n : ℕ) (content : List ℕ) (p : Progress)
      → saved (ingest_lines o fmt now source_id path n content p)
        ≡ saved (ingest_all o fmt now source_id path (take n (complete_lines content)) p)
  unfolding ingest_lines ingest_all Splits complete_lines
  ingest_lines-ingest_all zero content p = refl
  ingest_lines-ingest_all (suc n) [] p = refl
  ingest_lines-ingest_all (suc n) (c ∷ s) p =
      let splits = read_string-Splits (c ∷ s) in
      let r = read_string (c ∷ s) in
      elim (Bool-cases r.ended) [
        | inl ended ↦
            rw (← splits.0, ended, (splits.1 ended).0)
              (ingest_lines-ingest_all n r.rest (ingest_line o fmt now source_id path r.line p))
        | inr open_end ↦ rw (← splits.0, open_end, splits.2 open_end)
      ]
