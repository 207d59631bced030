-- ===== src/Sdr/Phrases.antt =====
-- src/ai-sdr/draft-generator.ts: the hash of a draft, bounded texts and the checks of phrases. The three
-- phrases of UNSUPPORTED are regular expressions with the flag `i` over ASCII letters.
use zex_platform.Base.{
  ℕ, ◌-◌, Text, text, Bool, false, Option, none, some, List, [], ◌∷◌, ◌++◌, ◌&&◌, ◌||◌, not, any,
  take, length, leb, or_else, if◌then◌else◌,
}
use zex_platform.Base.Texts.{starts_with, includes, trim_start, trim, ascii_lower}
use zex_platform.Store.{Content, Env}
use zex_platform.Sdr.Statuses.{purpose_text}

-- `${channel}|${purpose}|${subject || ''}|${body}`
unfoldable pub hash_draft_content : Env → Content → Text
unfolding purpose_text
hash_draft_content env c =
    env.sha256 (
      c.channel
      ++ text "|"
      ++ purpose_text c.purpose
      ++ text "|"
      ++ c.subject
      ++ text "|"
      ++ c.body)

abbrev bound : Text → ℕ → Option Text
bound [] most = none
bound (c ∷ s) most =
    if leb (length (c ∷ s)) most then some (c ∷ s) else some (take (most - 1) (c ∷ s) ++ text "…")

unfoldable pub bound_text : Option Text → ℕ → Option Text
unfolding trim
bound_text none most = none
bound_text (some t) most = bound (trim t) most

is_alnum : ℕ → Bool
is_alnum c = (leb b'a' c && leb c b'z') || (leb b'0' c && leb c b'9')

alnum_next : Text → Bool
alnum_next [] = false
alnum_next (c ∷ s) = is_alnum c

drop_prefix : Text → Text → Text
drop_prefix s [] = s
drop_prefix [] (b ∷ t) = []
drop_prefix (a ∷ s) (b ∷ t) = drop_prefix s t

-- `congrats on your series\s*[a-z0-9]` at the start of the text
series_here : Text → Bool
unfolding starts_with is_alnum alnum_next drop_prefix trim_start
series_here s =
    starts_with s (text "congrats on your series")
    && alnum_next (trim_start (drop_prefix s (text "congrats on your series")))

mentions_series : Text → Bool
unfolding series_here
mentions_series [] = false
mentions_series (c ∷ s) = series_here (c ∷ s) || mentions_series s

-- `UNSUPPORTED.some(re => re.test(t))`
unfoldable pub is_unsupported : Text → Bool
unfolding mentions_series includes ascii_lower
is_unsupported t =
    includes (ascii_lower t) (text "i saw your team recently")
    || mentions_series (ascii_lower t)
    || includes (ascii_lower t) (text "i noticed you migrated from salesforce")

-- One rule of `doNotClaim` against the lowered text of the draft.
violates : (Text → Text) → Text → List Text → Text → Option Text
unfolding includes ascii_lower
violates lower combined facts rule =
    if includes (lower rule) (text "funding")
      && (includes (ascii_lower combined) (text "congrats on your series")
          || includes (ascii_lower combined) (text "fundrais"))
      && not (
          any
            (λ f.
              includes (ascii_lower f) (text "fund") || includes (ascii_lower f) (text "series"))
            facts)
    then some (text "Draft violates funding doNotClaim")
    else if includes (lower rule) (text "crm")
        && includes (ascii_lower combined) (text "i noticed you migrated from salesforce")
        && not (
            any
              (λ f.
                includes (ascii_lower f) (text "crm")
                || includes (ascii_lower f) (text "salesforce")
                || includes (ascii_lower f) (text "hubspot"))
              facts)
    then some (text "Draft violates CRM doNotClaim")
    else none

unfoldable pub first_violation : (Text → Text) → Text → List Text → List Text → Option Text
unfolding violates
first_violation lower combined facts [] = none
first_violation lower combined facts (rule ∷ rules) =
    or_else (violates lower combined facts rule) (first_violation lower combined facts rules)
