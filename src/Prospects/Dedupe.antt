-- ===== src/Prospects/Dedupe.antt =====
-- src/prospect-discovery/company-dedupe.ts
use zex_platform.Base.{Text, text_eq, Bool, false, Option, none, some, List, or_else, find_first}
use zex_platform.Store.{Dedupe, Company}
use zex_platform.Prospects.Names.{normalize_domain, normalize_company_name}

-- `CompanyDedupeResult`: the company that was found, where there is one.
pub record Verdict : Type 0 where
  pub status : Dedupe
  pub existing : Option Text

abbrev pub is_text : Option Text → Text → Bool
is_text none t = false
is_text (some s) t = text_eq s t

module _ (lower : Text → Text) where
  -- `normalizeDomain(domain) ?? normalizeDomain(websiteUrl)`
  unfoldable pub domain_or_website : Option Text → Option Text → Option Text
  unfolding normalize_domain
  domain_or_website domain website =
      or_else (normalize_domain lower domain) (normalize_domain lower website)

  abbrev pub has_domain : Text → Company → Bool
  has_domain d c = is_text (domain_or_website c.domain c.website_url) d

  abbrev pub has_name : Text → Company → Bool
  has_name n c = is_text (normalize_company_name lower c.name) n

  abbrev pub by_name : Option Text → List Company → Option Company
  by_name none companies = none
  by_name (some n) companies = find_first (has_name n) companies

  abbrev verdict : Dedupe → Option Company → Verdict
  verdict status none = record { status = Dedupe.new_company; existing = none }
  verdict status (some c) = record { status = status; existing = some c.id }

  abbrev domain_first : Option Company → Option Company → Verdict
  domain_first (some c) named = verdict Dedupe.exact_match (some c)
  domain_first none named = verdict Dedupe.possible_match named

  unfoldable pub dedupe_by : Option Text → Option Text → List Company → Verdict
  dedupe_by none name companies = verdict Dedupe.exact_match (by_name name companies)
  dedupe_by (some d) name companies =
      domain_first (find_first (has_domain d) companies) (by_name name companies)

  unfoldable pub dedupe_company_against_crm :
      Text → Option Text → Option Text → List Company → Verdict
  unfolding dedupe_by domain_or_website normalize_company_name
  dedupe_company_against_crm company_name domain website companies =
      dedupe_by (domain_or_website domain website)
        (normalize_company_name lower (some company_name)) companies
