-- ===== src/Research/Grounded.antt =====
-- What the package says, in terms of the findings that it is built from.
use Prim.Native.Nat.{◌<◌, ◌≤◌}
use zex_platform.Base.{
  ℕ, ◌≡◌, ◌≢◌, refl, sym, ap, subst, ◌∙◌, ◌⊎◌, inl, inr, arith, Text, text, Bool, true, false, List,
  [], ◌∷◌, In, length, take, map, any, select, Bool-cases, leb, if◌then◌else◌,
}
use zex_platform.Base.Members.{In-select, In-take, In-map, length-map, length-append_le}
use zex_platform.Base.Effects.{Error, Result, ok, err}
use zex_platform.Json.Print.{stringify}
use zex_platform.Store.{FindingType, Finding, Ratio, OutreachContext, Package}
use zex_platform.Research.Context.{
  is_of, is_explicit, is_fact, is_risk, claim_of, patterns, line, risk_text, no_findings, risks_of,
  personalization_facts, do_not_claim, compute_research_confidence, outreach_context, after_check,
  build_outreach_context,
}
use zex_platform.Research.Package.{
  Material, rank, place, ranked, invented, context_json, fits, package_of, checked_package,
  with_context, build_from_ranked, build_research_package,
}

past : (x f g : Finding) (l : List Finding) → (x ≡ g) ⊎ In x (f ∷ l) → In x (f ∷ g ∷ l)
past x f g l (inl same) = inr (inl same)
past x f g l (inr (inl same)) = inl same
past x f g l (inr (inr deep)) = inr (inr deep)

place_here :
    (f g : Finding) (l : List Finding) → leb (rank g) (rank f) ≡ true → place f (g ∷ l) ≡ f ∷ g ∷ l
unfolding place
place_here f g l e = rw e refl

place_later :
    (f g : Finding) (l : List Finding)
    → leb (rank g) (rank f) ≡ false
    → place f (g ∷ l) ≡ g ∷ place f l
unfolding place
place_later f g l e = rw e refl

In-place : (x f : Finding) (l : List Finding) → In x (place f l) → In x (f ∷ l)
unfolding place
In-place x f [] h = h
In-place x f (g ∷ gs) h = elim (Bool-cases (leb (rank g) (rank f))) [
  | inl e ↦ subst (In x) (place_here f g gs e) h
  | inr e ↦ elim (subst (In x) (place_later f g gs e) h) [
    | inl same ↦ inr (inl same)
    | inr there ↦ past x f g gs (inr (In-place x f gs there))
  ]
]

In-ranked : (x : Finding) (l : List Finding) → In x (ranked l) → In x l
unfolding ranked
In-ranked x [] h = h
In-ranked x (f ∷ fs) h = elim (In-place x f (ranked fs) h) [
  | inl same ↦ inl same
  | inr there ↦ inr (In-ranked x fs there)
]

module _ (p : Finding → Bool) where
  -- How many elements `p` takes.
  abbrev pub count : List Finding → ℕ
  count l = length (select p l)

  count-place : (f : Finding) (l : List Finding) → count (place f l) ≡ count (f ∷ l)
  unfolding place select
  count-place f [] = refl
  count-place f (g ∷ gs) = ground (arith, count-place f gs)

  count-ranked : (l : List Finding) → count (ranked l) ≡ count l
  unfolding ranked select
  count-ranked [] = refl
  count-ranked (f ∷ fs) = ground (arith, count-place f (ranked fs), count-ranked fs)

  any-count : (l : List Finding) → any p l ≡ false → count l ≡ 0
  unfolding select
  any-count [] h = refl
  any-count (f ∷ fs) h = ground (arith, any-count fs)

  count-any : (l : List Finding) → count l ≡ 0 → any p l ≡ false
  unfolding select
  count-any [] h = refl
  count-any (f ∷ fs) h = ground (arith, count-any fs)

  any-ranked : (l : List Finding) → any p l ≡ false → any p (ranked l) ≡ false
  any-ranked l h = count-any (ranked l) (count-ranked l ∙ any-count l h)

built_or : Package → Result Package → Package
built_or other (ok p) = p
built_or other (err e) = other

guarded :
    (a b : Bool) (x y : Error) (p q : Package)
    → (if a then err x else if b then ok q else err y) ≡ ok p
    → (q ≡ p) × (b ≡ true)
unfolding built_or
guarded true b x y p q h = ground arith
guarded false true x y p q h = (ap (built_or q) h, refl)
guarded false false x y p q h = ground arith

risk_bound : (p : Package) → fits p ≡ true → length p.outreach_context.risks ≤ 8
unfolding fits
risk_bound p h = ground (arith, h)

-- The types of findings without which a claim is forbidden.
pub data Warning : Type 0 where
  no_funding no_migration : Warning

abbrev pub about : Warning → FindingType
about no_funding = FindingType.funding
about no_migration = FindingType.crm_change

abbrev pub warning_text : Warning → Text
warning_text no_funding =
    text "Do not congratulate on funding or Series rounds — no funding evidence."
warning_text no_migration = text "Do not claim CRM migration/switching without evidence."

warned :
    (w : Warning) (company : Text) (fs : List Finding) (confidence : Ratio)
    → any (is_of (about w)) fs ≡ false
    → In (warning_text w) (do_not_claim company fs confidence)
unfolding do_not_claim
warned no_funding company fs confidence e = rw e (inl refl)
warned no_migration company fs confidence e =
    elim (Bool-cases (any (is_of FindingType.funding) fs)) [
      | inl yes_f ↦ rw (yes_f, e) (inl refl)
      | inr no_f ↦ rw (no_f, e) (inr (inl refl))
    ]

module _ (lower : Text → Text) (m : Material) where
  abbrev context : List Finding → OutreachContext
  context fs = outreach_context fs m.buyer_roles m.company_name (compute_research_confidence fs)

  built_checked :
      (fs : List Finding) (r : Result (Unit {0})) (p : Package)
      → with_context lower m fs (after_check r (context fs)) ≡ ok p
      → (package_of m fs (context fs) ≡ p) × (fits (package_of m fs (context fs)) ≡ true)
  unfolding checked_package with_context
  built_checked fs (err e) p h = ground arith
  built_checked fs (ok u) p h =
      guarded (any (invented (lower (stringify (context_json (context fs)))) fs) patterns)
        (fits (package_of m fs (context fs))) _ _ p (package_of m fs (context fs)) h

  -- A package that was built is the one of the findings in their order, and fits the schema.
  built :
      (p : Package)
      → build_research_package lower m ≡ ok p
      → (package_of m (ranked m.findings) (context (ranked m.findings)) ≡ p)
        × (fits (package_of m (ranked m.findings) (context (ranked m.findings))) ≡ true)
  unfolding build_research_package build_from_ranked build_outreach_context
  built p h = built_checked (ranked m.findings) _ p h

  -- Every personalisation fact of a package that buildResearchPackage returns is the claim of one
  -- of the given findings, which is not stale and whose evidence is EXPLICIT.
  pub fact-build_research_package :
      (p : Package) (t : Text)
      → build_research_package lower m ≡ ok p
      → In t p.outreach_context.personalization_facts
      → (f : Finding) × In f m.findings
        × (f.found.claim ≡ t)
        × (f.found.stale ≡ false)
        × (is_explicit f.found.evidence ≡ true)
  unfolding package_of outreach_context personalization_facts
  fact-build_research_package p t h there =
      let (f, deep, e) = In-map claim_of t (take 5 (select is_fact (ranked m.findings))) (
        subst (λ (q : Package). In t q.outreach_context.personalization_facts) (sym (built p h).0)
          there) in
      let (kept, fact) =
        In-select is_fact f (ranked m.findings)
          (In-take 5 f (select is_fact (ranked m.findings)) deep) in
      (f, In-ranked f m.findings kept, e, ground (arith, fact), ground (arith, fact))

  few_risks :
      (fs : List Finding) → fits (package_of m fs (context fs)) ≡ true → count is_risk fs ≤ 8
  unfolding package_of outreach_context risks_of
  few_risks fs h = omega (
    arith,
    length-map (risk_text (text "Stale evidence: ")) (select is_risk fs),
    length-append_le (map (risk_text (text "Stale evidence: ")) (select is_risk fs))
        (line (no_findings fs) (text "No external research findings available.")),
    risk_bound (package_of m fs (context fs)) h,
  )

  -- buildResearchPackage returns no package where more than eight of the given findings are stale or of
  -- the type OBJECTION_CONTEXT: the outreach context then has more risks than its schema takes.
  pub refused-build_research_package :
      (p : Package) → 8 < count is_risk m.findings → build_research_package lower m ≢ ok p
  refused-build_research_package p many h =
      ground
        (arith, count-ranked is_risk m.findings, few_risks (ranked m.findings) (built p h).1, many)

  -- For the types FUNDING and CRM_CHANGE: where none of the given findings has the type, the package
  -- that buildResearchPackage returns lists its warning among the claims that outreach must not make.
  pub warning-build_research_package :
      (p : Package) (w : Warning)
      → build_research_package lower m ≡ ok p
      → any (is_of (about w)) m.findings ≡ false
      → In (warning_text w) p.outreach_context.do_not_claim
  unfolding package_of outreach_context
  warning-build_research_package p w h e =
      subst (λ (q : Package). In (warning_text w) q.outreach_context.do_not_claim) (built p h).0
        (warned w m.company_name (ranked m.findings)
          (compute_research_confidence (ranked m.findings))
          (any-ranked (is_of (about w)) m.findings e))
