-- ===== src/Sdr/Wording.antt =====
-- What the texts of the draft generator guarantee.
use zex_platform.Base.{
  ℕ, zero, suc, ◌≤◌, Text, text, ◌≡◌, refl, subst, inl, inr, Bool, false, none, arith, List, [],
  ◌∷◌, ◌++◌, take, length, any, Bool-cases, Option-cases,
}
use zex_platform.Base.Effects.{ok}
use zex_platform.Store.{Content}
use zex_platform.Sdr.Phrases.{is_unsupported, first_violation}
use zex_platform.Sdr.Templates.{DraftInput, Template, facts_of, template}
use zex_platform.Sdr.Generator.{combined, checked, content_of, find_text, generate_draft_content}

length-take_max : {A : Type 0} (n : ℕ) (xs : List A) → length (take n xs) ≤ n
length-take_max zero xs = ground arith
length-take_max (suc n) [] = ground arith
length-take_max (suc n) (x ∷ xs) = omega (arith, length-take_max n xs)

find_text_none : (p : Text → Bool) (ts : List Text) → find_text p ts ≡ none → any p ts ≡ false
find_text_none p [] h = refl
find_text_none p (t ∷ ts) h = ground (arith, find_text_none p ts)

-- The limits of a generated draft, and the phrases that it does not hold.
pub record Grounded (lower : Text → Text) (i : DraftInput) (c : Content) : Type 0 where
  pub supported : is_unsupported (lower (c.subject ++ text "\n" ++ c.body)) ≡ false
  pub facts_supported : any is_unsupported c.grounding.personalization_facts ≡ false
  pub within_claims :
      first_violation lower
        (lower (c.subject ++ text "\n" ++ c.body))
        c.grounding.personalization_facts
        (take 12 i.do_not_claim)
      ≡ none
  pub few_facts : length c.grounding.personalization_facts ≤ 3
  pub few_refs : length c.evidence_refs ≤ 8
  pub cited : c.evidence_refs ≡ take 8 i.finding_ids

at_most_three : (i : DraftInput) → length (facts_of i) ≤ 3
unfolding facts_of
at_most_three i = length-take_max 3 _

checked-Grounded :
    (lower : Text → Text) (i : DraftInput) (t : Template) (c : Content)
    → any is_unsupported (facts_of i) ≡ false
    → checked lower i t ≡ ok c
    → Grounded lower i c
unfolding checked content_of combined
checked-Grounded lower i t c facts h = elim (Bool-cases (is_unsupported (combined lower t))) [
  | inl bad ↦ ground (arith, bad)
  | inr fine ↦
      elim (Option-cases
        (first_violation lower (combined lower t) (facts_of i) (take 12 i.do_not_claim))) [
          | inl allowed ↦
              let same : content_of i t ≡ c = ground (arith, fine, allowed) in
              subst (Grounded lower i) same (record {
                supported = fine;
                facts_supported = facts;
                within_claims = allowed;
                few_facts = at_most_three i;
                few_refs = length-take_max 8 i.finding_ids;
                cited = refl;
              })
          | inr (why, violated) ↦ ground (arith, fine, violated)
        ]
]

-- A generated draft holds none of the unsupported phrases, neither in its lowered text nor in its facts,
-- violates none of the first twelve rules on claims, and rests on at most three facts and on the
-- first eight findings.
pub generate_draft_content-Grounded :
    (lower : Text → Text) (i : DraftInput) (c : Content)
    → generate_draft_content lower i ≡ ok c
    → Grounded lower i c
unfolding generate_draft_content
generate_draft_content-Grounded lower i c h =
    elim (Option-cases (find_text is_unsupported (facts_of i))) [
      | inl fine ↦
          checked-Grounded lower i (template i) c (find_text_none is_unsupported (facts_of i) fine)
            (ground (arith, fine, h))
      | inr (fact, bad) ↦ ground (arith, bad, h)
    ]
