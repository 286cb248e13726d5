-- ===== src/Inputs/Scan/Newest.antt =====
-- The loop over the artifacts selects the one accepted candidate that is newer than all others.
use sovereign_ai.Prelude.{
  ok, >>=-ok, ◌≡◌, refl, sym, ◌∙◌, ◌⊎◌, inl, inr, true, false, List, [], ◌∷◌, Option, some, none,
  String, arith, All, All-map, Elem, Bool-cases,
}
use sovereign_ai.Prelude.Int.{◌<ℤ◌, eqb_ℤ_iff}
use sovereign_ai.Api.{Artifact}
use sovereign_ai.Artifacts.{artifact_accepted}
use sovereign_ai.Inputs.Types.{Candidate}
use sovereign_ai.Inputs.Scan.{
  newer_than, same_attempt, accept, classify, consider, scan, Scanned, nothing_scanned,
}

-- The candidate comes from an earlier workflow attempt, or an earlier retry of the same one.
abbrev pub IsOlder : Candidate → Candidate → Type 0
IsOlder other best =
    (other.workflow_attempt <ℤ best.workflow_attempt)
    ⊎ ((other.workflow_attempt ≡ best.workflow_attempt) × (other.retry_number <ℤ best.retry_number))

-- The candidate itself, or one from an older attempt.
abbrev pub Covers : Candidate → Candidate → Type 0
Covers best other = (other ≡ best) ⊎ IsOlder other best

newer_than-IsOlder : (best other : Candidate) → newer_than best other ≡ true → IsOlder other best
unfolding newer_than
newer_than-IsOlder best other h =
    let same = eqb_ℤ_iff best.workflow_attempt other.workflow_attempt in ground arith

IsOlder-trans : (a b c : Candidate) → IsOlder b a → IsOlder c b → IsOlder c a
IsOlder-trans a b c (inl h) (inl k) = inl (omega arith)
IsOlder-trans a b c (inl h) (inr (e, k)) = inl (rw (← e) at h)
IsOlder-trans a b c (inr (e, h)) (inl k) = inl (rw e at k)
IsOlder-trans a b c (inr (e, h)) (inr (f, k)) = inr (f ∙ e, omega arith)

newer_than_total :
    (a b : Candidate) → same_attempt a b ≡ false → newer_than a b ≡ false → newer_than b a ≡ true
unfolding newer_than same_attempt
newer_than_total a b h k = ground (
  arith,
  eqb_ℤ_iff a.workflow_attempt b.workflow_attempt,
  eqb_ℤ_iff b.workflow_attempt a.workflow_attempt,
  eqb_ℤ_iff a.retry_number b.retry_number,
)

Covers-trans : (a b c : Candidate) → Covers a b → Covers b c → Covers a c
Covers-trans a b c (inl e) k = cc_left e k
  where
    cc_left : b ≡ a → Covers b c → Covers a c
    cc_left e k = rw e at k
Covers-trans a b c (inr h) (inl e) = inr (rw e h)
Covers-trans a b c (inr h) (inr k) = inr (IsOlder-trans a b c h k)

-- A selection that covers a candidate.
abbrev Has : Scanned → Candidate → Type 0
Has scanned candidate = (best : Candidate) × (scanned.selected ≡ some best) × Covers best candidate

-- One round: what was selected stays covered, an accepted candidate is covered, and what is
-- selected is the old selection or that candidate.
record Round (old new : Scanned) (eligible : Option Candidate) : Type 0 where
  keeps : (c : Candidate) → old.selected ≡ some c → Has new c
  covers : (c : Candidate) → eligible ≡ some c → artifact_accepted c.artifact ≡ true → Has new c
  origin :
      (new.selected ≡ old.selected)
      ⊎ ((c : Candidate) × (eligible ≡ some c)
          × (artifact_accepted c.artifact ≡ true)
          × (new.selected ≡ some c))

accept-cases :
    (name : String) (best : Candidate) (old new : Scanned) (candidate : Candidate)
    → accept name (some best) old candidate ≡ ok new
    → ((new ≡ old) × IsOlder candidate best)
      ⊎ ((new.selected ≡ some candidate) × IsOlder best candidate)
unfolding accept
accept-cases name best old new candidate e = elim (Bool-cases (same_attempt candidate best)) [
  | inl same ↦ ground arith
  | inr other ↦ elim (Bool-cases (newer_than candidate best)) [
    | inl newer ↦ inr (ground arith, newer_than-IsOlder candidate best newer)
    | inr older ↦ inl (
      ground arith,
      newer_than-IsOlder best candidate (newer_than_total candidate best other older),
    )
  ]
]

accept-Round :
    (name : String) (best : Option Candidate) (old new : Scanned) (candidate : Candidate)
    → old.selected ≡ best
    → artifact_accepted candidate.artifact ≡ true
    → accept name best old candidate ≡ ok new
    → Round old new (some candidate)
accept-Round name none old new candidate s a e =
    let taken : new.selected ≡ some candidate = unfold accept in ground arith in
    record {
      keeps = λ c q. cc (s, q);
      covers = λ c q _. (candidate, taken, inl (cc q));
      origin = inr (candidate, refl, a, taken);
    }
accept-Round name (some best) old new candidate s a e =
    elim (accept-cases name best old new candidate e) [
      | inl (same, older) ↦
          let kept : new.selected ≡ some best = rw same s in
          record {
            keeps = λ c q. (best, kept, inl (cc (s, q)));
            covers =
                λ c q _. let one : candidate ≡ c = cc q in (best, kept, inr (rw (← one) older));
            origin = inl (kept ∙ sym s);
          }
      | inr (taken, newer) ↦ record {
        keeps = λ c q. let one : best ≡ c = cc (s, q) in (candidate, taken, inr (rw (← one) newer));
        covers = λ c q _. (candidate, taken, inl (cc q));
        origin = inr (candidate, refl, a, taken);
      }
    ]

consider-Round :
    (name : String) (eligible : Option Candidate) (old new : Scanned)
    → consider name old eligible ≡ ok new
    → Round old new eligible
unfolding consider classify
consider-Round name none old new e =
    let same : old.selected ≡ new.selected = ground arith in
    record {
      keeps = λ c q. (c, sym same ∙ q, inl refl);
      covers = λ c q. cc;
      origin = inl (sym same);
    }
consider-Round name (some candidate) old new e =
    elim (Bool-cases (artifact_accepted candidate.artifact)) [
      | inl accepted ↦
          accept-Round name old.selected old new candidate refl accepted
            (rw (accepted, classify) at e)
      | inr refused ↦
          let same : old.selected ≡ new.selected = ground arith in
          record {
            keeps = λ c q. (c, sym same ∙ q, inl refl);
            covers = λ c q a. let one : candidate ≡ c = cc q in cc (rw one at refused, a);
            origin = inl (sym same);
          }
    ]

module _ (eligible : Artifact → Option Candidate) (name : String) where
  -- What a candidate that was selected came from.
  abbrev pub Origin : List Artifact → Candidate → Type 0
  Origin artifacts c =
      (a : Artifact) × Elem a artifacts
      × (eligible a ≡ some c)
      × (artifact_accepted c.artifact ≡ true)

  record Scan (old new : Scanned) (artifacts : List Artifact) : Type 0 where
    keeps : (c : Candidate) → old.selected ≡ some c → Has new c
    covers :
        All
          (λ a.
            (c : Candidate) → eligible a ≡ some c → artifact_accepted c.artifact ≡ true → Has new c)
          artifacts
    origin :
        (new.selected ≡ old.selected)
        ⊎ ((c : Candidate) × (new.selected ≡ some c) × Origin artifacts c)

  Has-keeps :
      (mid new : Scanned) (c : Candidate)
      → ((d : Candidate) → mid.selected ≡ some d → Has new d)
      → Has mid c
      → Has new c
  Has-keeps mid new c keeps (best, s, h) =
      let (later, s', h') = keeps best s in (later, s', Covers-trans later best c h' h)

  join-Origin :
      (old mid new : Scanned) (artifact : Artifact) (artifacts : List Artifact)
      → ((mid.selected ≡ old.selected)
          ⊎ ((c : Candidate) × (eligible artifact ≡ some c)
              × (artifact_accepted c.artifact ≡ true)
              × (mid.selected ≡ some c)))
      → ((new.selected ≡ mid.selected)
          ⊎ ((c : Candidate) × (new.selected ≡ some c) × Origin artifacts c))
      → (new.selected ≡ old.selected)
        ⊎ ((c : Candidate) × (new.selected ≡ some c) × Origin (artifact ∷ artifacts) c)
  join-Origin old mid new artifact artifacts first (inr (c, s, (a, m, q, t))) =
      inr (c, s, (a, inr m, q, t))
  join-Origin old mid new artifact artifacts (inl p) (inl q) = inl (q ∙ p)
  join-Origin old mid new artifact artifacts (inr (c, q, t, s)) (inl p) =
      inr (c, p ∙ s, (artifact, inl refl, q, t))

  scan-Scan :
      (old new : Scanned) (artifacts : List Artifact)
      → scan eligible name old artifacts ≡ ok new
      → Scan old new artifacts
  unfolding scan
  scan-Scan old new [] e =
      let same : old.selected ≡ new.selected = ground arith in
      record { keeps = λ c q. (c, sym same ∙ q, inl refl); covers = tt; origin = inl (sym same) }
  scan-Scan old new (artifact ∷ artifacts) e =
      let (mid, first, rest) = >>=-ok _ _ e in
      let round = consider-Round name (eligible artifact) old mid first in
      let after = scan-Scan mid new artifacts rest in
      record {
        keeps = λ c q. Has-keeps mid new c after.keeps (round.keeps c q);
        covers = (λ c q a. Has-keeps mid new c after.keeps (round.covers c q a), after.covers);
        origin = join-Origin old mid new artifact artifacts round.origin after.origin;
      }

  -- If the loop selects a candidate, it is that of an accepted, requested and eligible artifact,
  -- and every other accepted candidate comes from an older attempt: an earlier workflow attempt,
  -- or an earlier retry of the same one. If the loop selects nothing, no artifact yields an
  -- accepted candidate.
  pub scan_newest :
      (artifacts : List Artifact) (new : Scanned)
      → scan eligible name nothing_scanned artifacts ≡ ok new
      → ((best : Candidate)
          → new.selected ≡ some best
          → Origin artifacts best
            × All
                (λ a.
                  (c : Candidate)
                  → eligible a ≡ some c
                  → artifact_accepted c.artifact ≡ true
                  → Covers best c)
                artifacts)
        × (new.selected ≡ none
            → All
                (λ a. (c : Candidate) → eligible a ≡ some c → artifact_accepted c.artifact ≡ false)
                artifacts)
  scan_newest artifacts new e =
      let whole = scan-Scan nothing_scanned new artifacts e in
      (
        λ best s. (
          elim whole.origin [
            | inl unchanged ↦ cc (unchanged, s)
            | inr (c, s', from) ↦ let one : c ≡ best = cc (s, s') in rw one at from
          ],
          All-map
              (λ a h c q t.
                let (b, s', covered) = h c q t in
                let one : b ≡ best = cc (s, s') in let k : Covers b c = covered in rw one at k)
              artifacts whole.covers,
        ),
        λ s.
            All-map
              (λ a h c q. elim (Bool-cases (artifact_accepted c.artifact)) [
                | inl t ↦ let (b, s', covered) = h c q t in cc (s, s')
                | inr f ↦ f
              ])
              artifacts whole.covers,
      )
