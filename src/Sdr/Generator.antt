-- ===== src/Sdr/Generator.antt =====
-- src/ai-sdr/draft-generator.ts: the content of a draft from its template, and its checks.
use zex_platform.Base.{
  Text, text, Bool, Option, none, some, List, [], ◌∷◌, ◌++◌, take, if◌then◌else◌,
}
use zex_platform.Base.Effects.{Result, ok, err, plain}
use zex_platform.Store.{Content}
use zex_platform.Sdr.Phrases.{is_unsupported, first_violation}
use zex_platform.Sdr.Templates.{DraftInput, facts_of, Template, template}

abbrev pub find_text : (Text → Bool) → List Text → Option Text
find_text p [] = none
find_text p (t ∷ ts) = if p t then some t else find_text p ts

unfoldable pub content_of : DraftInput → Template → Content
content_of i t = record {
  channel = text "email";
  purpose = i.purpose;
  subject = t.subject;
  body = t.body;
  evidence_refs = take 8 i.finding_ids;
  research_finding_ids = take 8 i.finding_ids;
  do_not_claim_applied = take 12 i.do_not_claim;
  grounding = record {
    personalization_facts = facts_of i;
    why_now = i.why_now;
    company_name = i.company_name;
  };
  confidence = t.confidence;
}

unfoldable pub combined : (Text → Text) → Template → Text
combined lower t = lower (t.subject ++ text "\n" ++ t.body)

unfoldable pub checked : (Text → Text) → DraftInput → Template → Result Content
unfolding combined
checked lower i t =
    if is_unsupported (combined lower t)
    then err (plain (text "Draft contains unsupported personalization phrasing"))
    else elim (first_violation lower (combined lower t) (facts_of i) (take 12 i.do_not_claim)) [
      | none ↦ ok (content_of i t)
      | some why ↦ err (plain why)
    ]

unfoldable pub generate_draft_content : (Text → Text) → DraftInput → Result Content
unfolding checked content_of template facts_of is_unsupported first_violation
generate_draft_content lower i = elim (find_text is_unsupported (facts_of i)) [
  | none ↦ checked lower i (template i)
  | some fact ↦ err (plain (text "Unsupported personalization in draft input: " ++ fact))
]
