-- ===== src/Prospects/Lookups.antt =====
-- The lookups of src/prospect-discovery/prospect-discovery.service.ts, in the database and in the CRM.
use zex_platform.Base.{
  ◌+◌, Text, text, text_eq, Bool, not, Option, none, some, List, [], ◌∷◌, ◌++◌, ◌&&◌, any,
  find_first, update_where, if◌then◌else◌,
}
use zex_platform.Base.Effects.{
  Error, Result, not_found, plain, message, pure, throw, lift, gets, modify, ◌>>=◌, ◌>>◌, or_throw,
  try_catch,
}
use zex_platform.Store.{Tenant, Candidate, DiscoveryRun, Brain, Company, Db, Action, Env, has_id}
use zex_platform.Prospects.Dedupe.{domain_or_website}

unfoldable pub require_tenant : Text → Action Tenant
require_tenant tenant = do
  found ← gets λ db. find_first (λ t. text_eq t.id tenant && not t.deleted) db.tenants
  or_throw found (not_found (text "Tenant not found"))

abbrev pub the_row : Text → Text → Candidate → Bool
the_row tenant id c = has_id id tenant c.id c.tenant

unfoldable pub require_candidate : Text → Text → Action Candidate
unfolding require_tenant
require_candidate tenant id = do
  _ ← require_tenant tenant
  found ← gets λ db. find_first (the_row tenant id) db.candidates
  or_throw found (not_found (text "Prospect candidate not found"))

unfoldable pub require_run : Text → Text → Action DiscoveryRun
require_run tenant id = do
  found ← gets λ db. find_first (λ r. has_id id tenant r.id r.tenant) db.discovery_runs
  or_throw found (not_found (text "Discovery run not found"))

-- `getBrain` of src/company-brain/company-brain.service.ts.
unfoldable pub get_brain : Text → Text → Action Brain
get_brain tenant id = do
  found ← gets λ db. find_first (λ b. has_id id tenant b.id b.tenant) db.brains
  or_throw found (not_found (text "Company Brain not found"))

-- `prospectCandidate.update({ where: { id } })`
unfoldable pub set_candidate : Text → (Candidate → Candidate) → Db → Db
set_candidate id f db = record db {
  candidates = update_where (λ c. text_eq c.id id) f db.candidates;
}

pub data Mode : Type 0 where
  best_effort fail_closed : Mode

-- `byId.set(hit.id, hit)`: a known id keeps its place.
unfoldable pub put_company : List Company → Company → List Company
put_company cs hit =
    if any (λ c. text_eq c.id hit.id) cs
    then update_where (λ c. text_eq c.id hit.id) (λ _. hit) cs
    else cs ++ (hit ∷ [])

unfoldable pub put_all : List Company → List Company → List Company
unfolding put_company
put_all cs [] = cs
put_all cs (hit ∷ hits) = put_all (put_company cs hit) hits

-- A query of the CRM.
unfoldable pub query : (Db → Result (List Company)) → Action (List Company)
query answer = do r ← gets answer; modify λ db. record db { reads = db.reads + 1 }; lift r

unfoldable pub lookup_failed : Mode → Text → List Company → Error → Action (List Company)
lookup_failed best_effort what cs e = pure cs
lookup_failed fail_closed what cs e =
    throw (plain (text "CRM company " ++ what ++ text " dedupe lookup failed: " ++ message e))

-- Whose company is looked for.
pub record Sought : Type 0 where
  pub name : Text
  pub domain : Option Text
  pub website_url : Option Text

unfoldable pub load_by_domain :
    Env → Text → Mode → Option Text → List Company → Action (List Company)
load_by_domain env tenant mode none cs = pure cs
load_by_domain env tenant mode (some d) cs =
    try_catch
      (do hits ← query (λ db. env.companies_by_domain db.reads tenant d); pure (put_all cs hits))
      (lookup_failed mode (text "domain") cs)

unfoldable pub load_by_name : Env → Text → Mode → Text → List Company → Action (List Company)
load_by_name env tenant mode name cs =
    try_catch
      (do hits ← query (λ db. env.companies_by_name db.reads tenant name); pure (put_all cs hits))
      (lookup_failed mode (text "name") cs)

unfoldable pub load_crm_companies :
    Env → Text → Mode → List Sought → List Company → Action (List Company)
unfolding load_by_domain load_by_name domain_or_website
load_crm_companies env tenant mode [] cs = pure cs
load_crm_companies env tenant mode (c ∷ rest) cs = do
  found ← load_by_domain env tenant mode (domain_or_website env.lower c.domain c.website_url) cs
  more ← load_by_name env tenant mode c.name found
  load_crm_companies env tenant mode rest more
