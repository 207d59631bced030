-- ===== src/Scoring/Filters.antt =====
-- `matchesFilters` of src/scoring/scoring.engine.ts.
use zex_platform.Base.{
  Text, text, text_eq, Bool, true, false, Option, none, some, List, [], all, any, map,
  if◌then◌else◌,
}
use zex_platform.Base.Texts.{includes, join}
use zex_platform.Store.{Enrichment, Scalar, word, number, Value, missing, single, array, Filter}

abbrev of_text : Option Text → Value
of_text none = missing
of_text (some t) = single (word t)

abbrev of_texts : Option (List Text) → Value
of_texts none = missing
of_texts (some ts) = array (map word ts)

-- `data[filter.field]`
unfoldable pub value_of : Enrichment → Text → Value
value_of e about =
    if text_eq about (text "personEmail")
    then of_text e.person_email
    else if text_eq about (text "companyName")
    then of_text e.company_name
    else if text_eq about (text "companyDomain")
    then of_text e.company_domain
    else if text_eq about (text "companySize")
    then of_text e.company_size
    else if text_eq about (text "industry")
    then of_text e.industry
    else if text_eq about (text "location")
    then of_text e.location
    else if text_eq about (text "jobTitle")
    then of_text e.job_title
    else if text_eq about (text "jobFunction")
    then of_text e.job_function
    else if text_eq about (text "technologies")
    then of_texts e.technologies
    else if text_eq about (text "source")
    then single (word e.source)
    else if text_eq about (text "confidence")
    then single (number e.confidence)
    else missing

abbrev same_scalar : Scalar → Scalar → Bool
same_scalar (word s) (word t) = text_eq s t
same_scalar (number s) (number t) = text_eq s t
same_scalar a b = false

-- `a === b`: two arrays are never the same object.
abbrev same_value : Value → Value → Bool
same_value missing missing = true
same_value (single a) (single b) = same_scalar a b
same_value a b = false

abbrev shown_scalar : Scalar → Text
shown_scalar (word t) = t
shown_scalar (number t) = t

-- `String(value)`
shown : Value → Text
unfolding join
shown missing = text "undefined"
shown (single a) = shown_scalar a
shown (array items) = join (text ",") (map shown_scalar items)

-- `String(value || '')`
shown_or_empty : Value → Text
unfolding shown
shown_or_empty missing = []
shown_or_empty (single (number t)) = if text_eq t (text "0") then [] else t
shown_or_empty v = shown v

-- `Number(a) <= Number(b)`: of `undefined` it is `NaN`.
abbrev at_most_value : (Text → Text → Bool) → Value → Value → Bool
at_most_value at_most missing b = false
at_most_value at_most a missing = false
at_most_value at_most a b = at_most (shown a) (shown b)

-- `Array.isArray(list) && list.includes(value)`
abbrev holds : Value → Value → Bool
holds (array items) (single a) = any (same_scalar a) items
holds list a = false

unfoldable pub passes : (Text → Text → Bool) → Enrichment → Filter → Bool
unfolding value_of shown shown_or_empty includes
passes at_most e f =
    let v = value_of e f.about in
    if text_eq f.operator (text "eq")
    then same_value v f.value
    else if text_eq f.operator (text "gte")
    then at_most_value at_most f.value v
    else if text_eq f.operator (text "lte")
    then at_most_value at_most v f.value
    else if text_eq f.operator (text "in")
    then holds f.value v
    else if text_eq f.operator (text "contains")
    then includes (shown_or_empty v) (shown f.value)
    else true

unfoldable pub matches_filters : (Text → Text → Bool) → Enrichment → List Filter → Bool
unfolding passes
matches_filters at_most e filters = all (passes at_most e) filters
