-- ===== src/Tests/Rows.antt =====
-- A tenant with one company, its sequence, and a draft with an approval.
use zex_platform.Base.{Text, text, true, false, none, some, [], ◌∷◌}
use zex_platform.Base.Effects.{Result, ok, err}
use zex_platform.Json.{null}
use zex_platform.Base.Ints.{pos}
use zex_platform.Store.{
  FitBand, Lead, Enrichment, Purpose, SequenceStatus, DraftStatus, CandidateStatus, Dedupe, CrmSync,
  Tenant, Candidate, Sequence, Content, Draft, Approval, Db, Env,
}

abbrev pub a_lead : Lead
a_lead = record {
  id = text "p";
  first_name = some (text "Ann");
  last_name = none;
  email = none;
  job_title = some (text "CEO");
  days_old = some (pos 3);
  company_id = none;
}

abbrev pub an_enrichment : Enrichment
an_enrichment = record {
  person_email = none;
  company_name = none;
  company_domain = none;
  company_size = some (text "51-200");
  industry = some (text "SaaS");
  location = none;
  job_title = none;
  job_function = none;
  technologies = none;
  source = text "fixture";
  confidence = text "90";
}

-- Row ids are two characters long, all other ids here have one; the hash of a text is the text.
abbrev pub an_env : Env
an_env = record {
  cuid = λ n. b'0' ∷ n ∷ [];
  sha256 = λ t. t;
  lower = λ t. t;
  send_email =
      λ n i. ok (record { provider = text "fixture"; provider_message_id = b'0' ∷ n ∷ [] });
  crm_write = λ n c. ok (b'0' ∷ n ∷ []);
  propose = λ s c. ok (record { booking_link = text "link"; proposed_times = [] });
  confirm = λ s l. ok (text "meeting");
  before_send = λ db. db;
  during_send = λ db. db;
  at_most = λ a b. true;
  discovery_provider = text "fixture";
  discover = λ i. ok (record { provider = text "fixture"; candidates = [] });
  companies_by_domain = λ n t d. ok [];
  companies_by_name = λ n t d. ok [];
  get_person = λ n t p. ok a_lead;
  checkpoint_saved = λ n. ok tt;
  enrich_person = λ n t p. ok an_enrichment;
  webhook_secret = λ t. ok (text "z");
  hmac = λ k t. t;
  from_hex = λ t. t;
  to_number = λ t. some 1700000000;
  research = λ n q. ok (record { provider = text "fixture"; findings = [] });
  ms_since = λ d. none;
  parse_url = λ u. none;
  print_url = λ u. u.pathname;
  queue_add = λ n. ok (b'0' ∷ n ∷ []);
}

abbrev pub a_tenant : Tenant
a_tenant = record {
  id = text "t";
  deleted = false;
  auto_opportunity = true;
  opportunity_threshold = 60;
}

abbrev pub a_candidate : Candidate
a_candidate = record {
  id = text "c";
  tenant = text "t";
  run_id = text "run";
  provider_key = none;
  company_name = text "Acme";
  domain = none;
  website_url = none;
  industry = none;
  company_size = none;
  geography = none;
  description = none;
  fit_score = 40;
  fit_band = FitBand.weak;
  fit_reasons = [];
  disqualifiers = [];
  status = CandidateStatus.approved;
  dedupe = Dedupe.new_company;
  existing_company = none;
  created_company = none;
  evidence = null;
  buyer_roles = null;
  last_error = none;
}

abbrev pub a_sequence : Sequence
a_sequence = record {
  id = text "s";
  tenant = text "t";
  candidate_id = text "c";
  research_run_id = text "r";
  why_now_snapshot_id = none;
  status = SequenceStatus.awaiting_approval;
  channel = text "email";
  target_email = some (text "a@b");
  target_person_twenty_id = none;
  target_person_name = none;
  crm_sync = CrmSync.none;
}

abbrev pub a_content : Content
a_content = record {
  channel = text "email";
  purpose = Purpose.outreach;
  subject = text "Hi";
  body = text "Hello";
  evidence_refs = [];
  research_finding_ids = [];
  do_not_claim_applied = [];
  grounding = record { personalization_facts = []; why_now = none; company_name = text "Acme" };
  confidence = 45;
}

abbrev pub a_hash : Text
a_hash = text "email|outreach|Hi|Hello"

abbrev pub a_draft : Draft
a_draft = record {
  id = text "d";
  tenant = text "t";
  sequence_id = text "s";
  candidate_id = text "c";
  version = 1;
  content = a_content;
  why_now_snapshot_id = none;
  status = DraftStatus.awaiting_approval;
  content_hash = a_hash;
}

abbrev pub an_approval : Approval
an_approval = record {
  id = text "a";
  tenant = text "t";
  sequence_id = text "s";
  draft_id = text "d";
  draft_version = 1;
  content_hash = a_hash;
  approved_by = text "u";
  is_active = true;
}

abbrev pub empty_db : Db
empty_db = record {
  next_row = 0;
  tenants = a_tenant ∷ [];
  controls = [];
  audit = [];
  candidates = a_candidate ∷ [];
  research_runs = [];
  findings = [];
  snapshots = [];
  sequences = a_sequence ∷ [];
  drafts = a_draft ∷ [];
  approvals = [];
  messages = [];
  replies = [];
  bookings = [];
  checkpoints = [];
  outbox = [];
  crm = [];
  jobs = [];
  brains = [];
  discovery_runs = [];
  webhook_logs = [];
  scores = [];
  scoring_rules = [];
  seen = [];
  reads = 0;
}

abbrev pub approved_db : Db
approved_db = record empty_db {
  approvals = an_approval ∷ [];
  drafts = record a_draft { status = DraftStatus.approved } ∷ [];
}

-- What a handler returned, where it did.
abbrev pub returned : {A B : Type 0} → Result A × B → A → A
returned (ok a, db) other = a
returned (err e, db) other = other
