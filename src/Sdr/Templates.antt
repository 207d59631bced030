-- ===== src/Sdr/Templates.antt =====
-- src/ai-sdr/draft-generator.ts: the templates of a draft by its purpose.
use zex_platform.Base.{
  ℕ, Text, text, Bool, true, false, Option, none, some, List, [], ◌∷◌, ◌++◌, take, length, leb, map,
  select, get_or, or_else, if◌then◌else◌,
}
use zex_platform.Base.Texts.{join}
use zex_platform.Store.{Purpose, Person}

-- `DraftGeneratorInput`
pub record DraftInput : Type 0 where
  pub company_name : Text
  pub purpose : Purpose
  pub why_now : Option Text
  pub personalization_facts : List Text
  pub do_not_claim : List Text
  pub finding_ids : List Text
  pub buyer_roles : List Text
  pub named_person : Option Person
  pub target_person_name : Option Text
  pub value_prop : Option Text
  pub booking_link : Option Text
  pub reply_is_question : Bool

abbrev pub is_non_empty : Text → Bool
is_non_empty [] = false
is_non_empty (c ∷ s) = true

-- A text that may be absent or empty, as a condition takes it.
abbrev pub some_text : Option Text → Option Text
some_text none = none
some_text (some []) = none
some_text (some (c ∷ s)) = some (c ∷ s)

abbrev pub head_text : List Text → Option Text
head_text [] = none
head_text (t ∷ ts) = some_text (some t)

-- `personalizationFacts.filter(Boolean).slice(0, 3)`
unfoldable pub facts_of : DraftInput → List Text
unfolding select
facts_of i = take 3 (select is_non_empty i.personalization_facts)

role_hint : DraftInput → Text
role_hint i =
    get_or (or_else (role i.named_person) (head_text i.buyer_roles)) (text "revenue leader")
  where
    role : Option Person → Option Text
    role none = none
    role (some p) = some_text p.role

greeting : DraftInput → Text
unfolding role_hint
greeting i = get_or (or_else (some_text i.target_person_name) (name i.named_person)) (role_hint i)
  where
    name : Option Person → Option Text
    name none = none
    name (some p) = some_text (some p.name)

lines : List Text → Text
unfolding join
lines ts = join (text "\n") ts

abbrev hi : DraftInput → Text
hi i = text "Hi " ++ greeting i ++ text ","

abbrev with_text : Option Text → (Text → Text) → Text → Text
with_text none f other = other
with_text (some t) f other = f t

-- Subject, body and confidence for each purpose.
pub record Template : Type 0 where
  pub subject : Text
  pub body : Text
  pub confidence : ℕ

meeting_template : DraftInput → Template
unfolding greeting lines
meeting_template i = record {
  subject = text "Quick scheduling for " ++ i.company_name;
  body = lines (
      hi i
      ∷ []
      ∷ text "Thanks for the positive note — happy to find time."
      ∷ with_text (some_text i.booking_link) (λ l. text "You can pick a slot here: " ++ l)
          (text "I can share a few times that work for a 20-minute intro.")
      ∷ []
      ∷ text "Best regards"
      ∷ []);
  confidence = 70;
}

reply_template : DraftInput → Template
unfolding greeting lines facts_of select
reply_template i = record {
  subject = text "Re: " ++ i.company_name;
  body = lines (
      select is_non_empty (
        hi i
        ∷ []
        ∷ (if i.reply_is_question
            then text "Thanks for the question — happy to clarify based on what we know so far."
            else text "Thanks for getting back to me.")
        ∷ with_text (head_text (facts_of i)) (λ f. text "On your side, we noted: " ++ f ++ text ".")
            []
        ∷ []
        ∷ text "Would a short call next week help?"
        ∷ []
        ∷ text "Best regards"
        ∷ []));
  confidence = 65;
}

follow_up_template : DraftInput → Template
unfolding greeting lines facts_of
follow_up_template i = record {
  subject = text "Following up — " ++ i.company_name;
  body = lines (
      hi i
      ∷ []
      ∷ text "Quick follow-up in case my earlier note got buried."
      ∷ with_text (head_text (facts_of i)) (λ f. text "Still relevant given: " ++ f ++ text ".")
          (text "Happy to share a concise overview if useful.")
      ∷ []
      ∷ text "Open to a brief chat?"
      ∷ []
      ∷ text "Best regards"
      ∷ []);
  confidence = if leb 1 (length (facts_of i)) then 70 else 50;
}

outreach_template : DraftInput → Template
unfolding greeting lines facts_of select
outreach_template i = record {
  subject =
      with_text (head_text (facts_of i)) (λ f. i.company_name ++ text ": relevant to " ++ take 60 f)
        (text "Idea for " ++ i.company_name);
  body = lines (
      select is_non_empty (
        hi i
        ∷ []
        ∷ (text "I work on "
            ++ get_or (some_text i.value_prop) (text "evidence-backed revenue workflow automation")
            ++ text ".")
        ∷ (if leb 1 (length (facts_of i))
            then text "A few grounded observations on " ++ i.company_name ++ text ":"
            else text
                "I do not have recent company-specific events to cite, so I will keep this high-level.")
        ∷ (map (λ f. text "- " ++ f) (facts_of i)
            ++ with_text (some_text i.why_now) (λ w. text "Timing context: " ++ w) []
              ∷ []
              ∷ text "Would a 20-minute conversation be useful?"
              ∷ []
              ∷ text "Best regards"
              ∷ [])));
  confidence =
      if leb 2 (length (facts_of i)) then 82 else if leb 1 (length (facts_of i)) then 68 else 45;
}

unfoldable pub template : DraftInput → Template
unfolding meeting_template reply_template follow_up_template outreach_template
template i = elim i.purpose [
  | Purpose.meeting ↦ meeting_template i
  | Purpose.reply ↦ reply_template i
  | Purpose.follow_up ↦ follow_up_template i
  | Purpose.outreach ↦ outreach_template i
]
