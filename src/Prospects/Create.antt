-- ===== src/Prospects/Create.antt =====
-- `createApprovedCandidate` of src/prospect-discovery/prospect-discovery.service.ts. What may fail
-- after the CRM has created the company is the write of the checkpoint.
use zex_platform.Base.{
  Text, text, Bool, true, false, not, Option, none, some, List, [], ◌∷◌, or_else, length,
}
use zex_platform.Base.Effects.{
  Error, Result, ok, err, bad_request, message, pure, throw, lift, gets, modify, ◌>>=◌, ◌>>◌,
  throw_if, try_catch, attempt,
}
use zex_platform.Json.{str, bool, nullable, Fields, end, field}
use zex_platform.Store.{
  CandidateStatus, Dedupe, Candidate, Company, create_company, company, Action, Env, Entry, log,
  logged,
}
use zex_platform.Checkpoints.{Progress, done, open_step, get_completed, record_success}
use zex_platform.Sdr.Templates.{some_text}
use zex_platform.Sdr.Crm.{crm_call}
use zex_platform.Prospects.Dedupe.{Verdict, dedupe_company_against_crm}
use zex_platform.Prospects.Lookups.{
  require_candidate, set_candidate, fail_closed, Sought, load_crm_companies,
}

-- `status !== 'APPROVED' && status !== 'FAILED'`
abbrev pub is_creatable : CandidateStatus → Bool
is_creatable CandidateStatus.approved = true
is_creatable CandidateStatus.failed = true
is_creatable _ = false

abbrev checkpoint_id : Progress → Option Text
checkpoint_id (done id) = some_text id
checkpoint_id open_step = none

-- `(existingCheckpoint.completed ? existingCheckpoint.externalId : undefined) || createdTwentyCompanyId`
abbrev pub known_company : Progress → Candidate → Option Text
known_company p c = or_else (checkpoint_id p) (some_text c.created_company)

abbrev pub created_row : Text → Candidate → Candidate
created_row company_id c = record c {
  status = CandidateStatus.created;
  created_company = some company_id;
  last_error = none;
}

abbrev pub failed_row : Text → Candidate → Candidate
failed_row why c = record c { status = CandidateStatus.failed; last_error = some why }

abbrev pub duplicate_row : Option Text → Candidate → Candidate
duplicate_row existing c = record c {
  status = CandidateStatus.duplicate;
  dedupe = Dedupe.exact_match;
  existing_company = existing;
  last_error = none;
}

abbrev pub possible_row : Option Text → Candidate → Candidate
possible_row existing c = record c { dedupe = Dedupe.possible_match; existing_company = existing }

create_failure : Text → Text → Text → Option Fields → Text → Entry
create_failure tenant id why after by =
    record (logged tenant (text "prospect_candidate_crm_create_failed") (text "ProspectCandidate")
      id after by) { success = false; message = some why }

-- A company that is known already is not created again.
unfoldable pub recover_known : Env → Text → Candidate → Text → Text → Action Candidate
recover_known env tenant c company_id by = do
  modify (set_candidate c.id (created_row company_id))
  _ ← log env (
      logged tenant (text "prospect_candidate_crm_created") (text "ProspectCandidate") c.id
        (some (
          field (text "createdTwentyCompanyId") (str company_id)
            (field (text "recovered") (bool true) end)))
        by)
  pure (created_row company_id c)

-- The `catch` of the CRM's lookup.
unfoldable pub lookup_refused : Env → Text → Candidate → Text → Error → Action (List Company)
unfolding create_failure
lookup_refused env tenant c by e = do
  modify (set_candidate c.id (failed_row (message e)))
  _ ← log env (
      create_failure tenant c.id (message e)
        (some (
          field (text "reason") (str (text "crm_dedupe_lookup_failed"))
            (field (text "retryable") (bool true) end)))
        by)
  throw e

abbrev pub sought : Candidate → Sought
sought c = record { name = c.company_name; domain = c.domain; website_url = c.website_url }

unfoldable pub load_companies : Env → Text → Candidate → Text → Action (List Company)
load_companies env tenant c by =
    try_catch (load_crm_companies env tenant fail_closed (sought c ∷ []) [])
      (lookup_refused env tenant c by)

-- The two verdicts that block a creation.
unfoldable pub refuse_match :
    Env → Text → Candidate → Option Text → Text → Dedupe → Action (Unit {0})
refuse_match env tenant c existing by Dedupe.new_company = pure tt
refuse_match env tenant c existing by Dedupe.possible_match = do
  modify (set_candidate c.id (possible_row existing))
  throw (bad_request (text "Possible CRM match — creation blocked in v1"))
refuse_match env tenant c existing by Dedupe.exact_match = do
  modify (set_candidate c.id (duplicate_row existing))
  _ ← log env (
      logged tenant (text "prospect_candidate_duplicate_detected") (text "ProspectCandidate") c.id
        (some (field (text "existingTwentyCompanyId") (nullable existing) end)) by)
  throw (bad_request (text "Candidate is an exact CRM duplicate; creation blocked"))

unfoldable pub check_verdict : Env → Text → Candidate → Verdict → Text → Action (Unit {0})
unfolding refuse_match
check_verdict env tenant c v by = refuse_match env tenant c v.existing by v.status

-- What follows the creation in the CRM.
unfoldable pub finish_creation : Env → Text → Candidate → Text → Text → Action Candidate
finish_creation env tenant c company_id by = do
  saved ← gets λ db. env.checkpoint_saved (length db.crm)
  lift saved
  record_success tenant c.id c.id create_company (some company_id)
  modify (set_candidate c.id (created_row company_id))
  _ ← log env (
      logged tenant (text "prospect_candidate_crm_created") (text "ProspectCandidate") c.id
        (some (field (text "createdTwentyCompanyId") (str company_id) end)) by)
  pure (created_row company_id c)

abbrev pub kept : Option Text → Text → Candidate → Candidate
kept company_id why c = record (failed_row why c) {
  created_company = or_else company_id c.created_company;
}

-- The `catch` of the creation; `company_id` is `twentyCompanyId`.
unfoldable pub creation_failed :
    Env → Text → Candidate → Text → Option Text → Error → Action Candidate
unfolding create_failure
creation_failed env tenant c by company_id e = do
  modify (set_candidate c.id (kept company_id (message e)))
  _ ← log env (create_failure tenant c.id (message e) none by)
  throw e

unfoldable pub after_call : Env → Text → Candidate → Text → Result Text → Action Candidate
after_call env tenant c by (err e) = creation_failed env tenant c by none e
after_call env tenant c by (ok company_id) =
    try_catch (finish_creation env tenant c company_id by)
      (creation_failed env tenant c by (some company_id))

-- The `try` around `createCompany`.
unfoldable pub create_in_crm : Env → Text → Candidate → Text → Action Candidate
create_in_crm env tenant c by = do
  r ← attempt (crm_call env (company tenant c.company_name c.domain c.website_url))
  after_call env tenant c by r

unfoldable pub create_new : Env → Text → Candidate → Text → Action Candidate
create_new env tenant c by = do
  companies ← load_companies env tenant c by
  check_verdict env tenant c
      (dedupe_company_against_crm env.lower c.company_name c.domain c.website_url companies) by
  create_in_crm env tenant c by

unfoldable pub create_unless : Env → Text → Candidate → Text → Option Text → Action Candidate
create_unless env tenant c by (some company_id) = recover_known env tenant c company_id by
create_unless env tenant c by none = create_new env tenant c by

unfoldable pub create_approved_candidate : Env → Text → Text → Text → Action Candidate
create_approved_candidate env tenant id by = do
  c ← require_candidate tenant id
  throw_if (not (is_creatable c.status))
      (bad_request (text "Only APPROVED (or FAILED retry) candidates can be created in CRM"))
  p ← get_completed tenant id create_company
  create_unless env tenant c by (known_company p c)
