-- ===== src/Review/Worker/Updates.antt =====
-- What the update of an entry that is settled does to the parents and to the pending entries.
use newapi_usage.Prelude.{
  ℕ, ◌≤◌, ◌<◌, ◌≡◌, refl, sym, ◌∙◌, inl, inr, Bool, true, false, List, [], ◌∷◌, arith,
  if◌then◌else◌, In, here, there, Bool-cases, update_where, count_where, sum_by, In-cons_cases,
}
use newapi_usage.Review.Types.{Entry}
use newapi_usage.Review.Worker.Selection.{is_open}
use newapi_usage.Review.Worker.Settle.{Settlement, settled_row}
use newapi_usage.Review.Worker.Ready.{ParentsEarlier}

-- An update of entries that keeps what the parents are read from.
pub record Keeps (f : Entry → Entry) : Type 0 where
  pub id : (e : Entry) → (f e).id ≡ e.id
  pub job_id : (e : Entry) → (f e).job_id ≡ e.job_id
  pub audit : (e : Entry) → (f e).audit_entry_id ≡ e.audit_entry_id
  pub parent : (e : Entry) → (f e).parent_audit_entry_id ≡ e.parent_audit_entry_id

pub settled_row-Keeps : (now : ℕ) (t : Settlement) → Keeps (settled_row now t)
unfolding settled_row
settled_row-Keeps now t = record {
  id = λ e. refl;
  job_id = λ e. refl;
  audit = λ e. refl;
  parent = λ e. refl;
}

-- A row after the update has the keys of a row before it.
abbrev Origin : List Entry → Entry → Type 0
Origin es e' =
    (e : Entry) × In e es
    × (e.id ≡ e'.id)
    × (e.job_id ≡ e'.job_id)
    × (e.audit_entry_id ≡ e'.audit_entry_id)
    × (e.parent_audit_entry_id ≡ e'.parent_audit_entry_id)

Origin-there : {es : List Entry} (x e' : Entry) → Origin es e' → Origin (x ∷ es) e'
Origin-there x e' (e, m, a, b, c, d) = (e, there m, a, b, c, d)

Origin-update :
    (q : Entry → Bool) (f : Entry → Entry) (es : List Entry)
    → Keeps f
    → (e' : Entry) → In e' (update_where q f es)
    → Origin es e'
unfolding update_where
Origin-update q f [] k e' m = elim m [ ]
Origin-update q f (x ∷ es) k e' m = first (update_where q f es) (Origin-update q f es k e') m
  where
    changed : (b : Bool) → Origin (x ∷ es) (if b then f x else x)
    changed true = (x, here, sym (k.id x), sym (k.job_id x), sym (k.audit x), sym (k.parent x))
    changed false = (x, here, refl, refl, refl, refl)

    first :
        (rest : List Entry)
        → (In e' rest → Origin es e')
        → In e' ((if q x then f x else x) ∷ rest)
        → Origin (x ∷ es) e'
    first rest ih m = elim (In-cons_cases m) [
      | inl same ↦ rw same (changed (q x))
      | inr old ↦ Origin-there x e' (ih old)
    ]

pub ParentsEarlier-update :
    (q : Entry → Bool) (f : Entry → Entry) (es : List Entry)
    → Keeps f
    → ParentsEarlier es
    → ParentsEarlier (update_where q f es)
ParentsEarlier-update q f es k h e p m n same named nonzero =
    let (e0, me, ei, ej, ea, ep) = Origin-update q f es k e m in
    let (p0, mp, pi, pj, pa, pp) = Origin-update q f es k p n in
    omega (
      arith,
      h e0 p0 me mp (pj ∙ same ∙ sym ej) (pa ∙ named ∙ sym ep) (λ z. nonzero (sym ep ∙ z)),
      ei,
      pi,
    )

pub settle_open :
    (now : ℕ) (t : Settlement) (job_id : ℕ) (e : Entry)
    → is_open job_id (settled_row now t e) ≡ false
unfolding settled_row
settle_open now t job_id e = ground arith

-- Settling leaves at most the open entries that there were, and one fewer where the target is open.
pub count-update-le :
    (job_id : ℕ) (q : Entry → Bool) (f : Entry → Entry) (es : List Entry)
    → ((e : Entry) → is_open job_id (f e) ≡ false)
    → count_where (is_open job_id) (update_where q f es) ≤ count_where (is_open job_id) es
unfolding count_where sum_by update_where
count-update-le job_id q f [] h = omega arith
count-update-le job_id q f (e ∷ es) h = elim (Bool-cases (q e)) [
  | inl g ↦ rw (g, h e) (omega (arith, count-update-le job_id q f es h))
  | inr g ↦ rw g (omega (arith, count-update-le job_id q f es h))
]

pub count-update-lt :
    (job_id : ℕ) (q : Entry → Bool) (f : Entry → Entry) (es : List Entry) {x : Entry}
    → ((e : Entry) → is_open job_id (f e) ≡ false)
    → In x es
    → q x ≡ true
    → is_open job_id x ≡ true
    → count_where (is_open job_id) (update_where q f es) < count_where (is_open job_id) es
unfolding count_where sum_by update_where
count-update-lt job_id q f [] h m g o = elim m [ ]
count-update-lt job_id q f (x ∷ es) h here g o =
    rw (g, h x, o) (omega (arith, count-update-le job_id q f es h))
count-update-lt job_id q f (y ∷ es) h (there m) g o = elim (Bool-cases (q y)) [
  | inl k ↦ rw (k, h y) (omega (arith, count-update-lt job_id q f es h m g o))
  | inr k ↦ rw k (omega (arith, count-update-lt job_id q f es h m g o))
]
