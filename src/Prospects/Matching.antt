-- ===== src/Prospects/Matching.antt =====
-- What the comparison with the companies of the CRM, src/prospect-discovery/company-dedupe.ts, decides.
use zex_platform.Base.{
  Text, ◌≡◌, refl, Bool, true, false, Option, none, some, arith, List, [], ◌∷◌, any, find_first,
  is_some,
}
use zex_platform.Store.{Dedupe, Company}
use zex_platform.Prospects.Names.{normalize_company_name}
use zex_platform.Prospects.Dedupe.{
  domain_or_website, has_domain, has_name, by_name, dedupe_by, dedupe_company_against_crm,
}

-- Some company has the value, where there is one.
abbrev pub some_has : (Text → Company → Bool) → Option Text → List Company → Bool
some_has p none companies = false
some_has p (some v) companies = any (p v) companies

-- The verdict from three facts: the candidate has a domain, a company has it, a company has the name.
abbrev pub grade : Bool → Bool → Bool → Dedupe
grade known true named = Dedupe.exact_match
grade true false true = Dedupe.possible_match
grade false false true = Dedupe.exact_match
grade known false false = Dedupe.new_company

is_some-find_first : {A : Type 0} (p : A → Bool) (l : List A) → is_some (find_first p l) ≡ any p l
unfolding find_first
is_some-find_first p [] = refl
is_some-find_first p (x ∷ xs) = ground (arith, is_some-find_first p xs)

module _ (lower : Text → Text) where
  is_some-by_name :
      (n : Option Text) (companies : List Company)
      → is_some (by_name lower n companies) ≡ some_has (has_name lower) n companies
  is_some-by_name none companies = refl
  is_some-by_name (some n) companies = is_some-find_first (has_name lower n) companies

  grade-dedupe_by :
      (d n : Option Text) (companies : List Company)
      → (dedupe_by lower d n companies).status
        ≡ grade
            (is_some d)
            (some_has (has_domain lower) d companies)
            (some_has (has_name lower) n companies)
  unfolding dedupe_by
  grade-dedupe_by none n companies = ground (arith, is_some-by_name n companies)
  grade-dedupe_by (some d) n companies =
      ground (arith, is_some-by_name n companies, is_some-find_first (has_domain lower d) companies)

  -- The verdict on a candidate is the one that the facts give: a company with the domain of the
  -- candidate is an exact match, a company with only its name is a possible match for a candidate with a
  -- domain and an exact one without, and only where there is neither is the candidate new.
  pub grade-dedupe_company_against_crm :
      (name : Text) (domain website : Option Text) (companies : List Company)
      → let d = domain_or_website lower domain website in
        (dedupe_company_against_crm lower name domain website companies).status
        ≡ grade
            (is_some d)
            (some_has (has_domain lower) d companies)
            (some_has (has_name lower) (normalize_company_name lower (some name)) companies)
  unfolding dedupe_company_against_crm
  grade-dedupe_company_against_crm name domain website companies =
      grade-dedupe_by (domain_or_website lower domain website)
        (normalize_company_name lower (some name)) companies
