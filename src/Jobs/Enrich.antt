-- ===== src/Jobs/Enrich.antt =====
-- `process` of src/jobs/processors/enrich-and-score.processor.ts.
use zex_platform.Base.{
  ℕ, suc, ◌+◌, Text, text, text_eq, Bool, ◌&&◌, Option, none, some, List, [], ◌∷◌, or_else, leb,
  find_first, update_where,
}
use zex_platform.Base.Texts.{join}
use zex_platform.Base.Effects.{
  Error, plain, message, pure, throw, gets, modify, ◌>>=◌, ◌>>◌, or_throw, try_catch,
}
use zex_platform.Base.Ints.{ℤ, pos, negsuc}
use zex_platform.Json.{
  Json, null, num, num_minus, str, bool, arr, obj, nullable, Items, nil, item, Fields, end, field,
}
use zex_platform.Store.{
  LogStatus, WebhookLog, ScoreHistory, Factor, Lead, Enrichment, Tenant, Action, Db, Env, Entry,
  log, logged,
}
use zex_platform.Sdr.Templates.{some_text}
use zex_platform.Scoring.Engine.{Score, score}
use zex_platform.Jobs.Steps.{
  EnrichJob, Settings, ask, person_for, update_once, score_note_once, score_link_once, Opened,
  opportunity_if,
}

-- `webhookLog.update({ where: { id } })`
unfoldable pub set_log : Text → (WebhookLog → WebhookLog) → Db → Db
set_log id f db = record db { webhook_logs = update_where (λ l. text_eq l.id id) f db.webhook_logs }

abbrev pub started_log : ℕ → WebhookLog → WebhookLog
started_log attempts l = record l { status = LogStatus.processing; attempts = attempts }

abbrev pub failed_log : Text → WebhookLog → WebhookLog
failed_log why l = record l { status = LogStatus.failed; error = some why }

points_json : ℤ → Json
points_json (pos n) = num n
points_json (negsuc n) = num_minus (suc n)

factor_fields : List Factor → Fields
unfolding points_json
factor_fields [] = end
factor_fields (f ∷ fs) = field f.name (points_json f.points) (factor_fields fs)

-- What the job returns.
pub record Scored : Type 0 where
  pub score : ℕ
  pub factors : List Factor
  pub opportunity_created : Bool

abbrev pub result_fields : Scored → Fields
unfolding factor_fields
result_fields r = field (text "score") (num r.score) (
    field (text "factors") (obj (factor_fields r.factors))
      (field (text "opportunityCreated") (bool r.opportunity_created) end))

abbrev pub done_log : Scored → WebhookLog → WebhookLog
done_log r l = record l { status = LogStatus.success; result = some (result_fields r) }

-- `[firstName, lastName].filter(Boolean).join(' ') || null`
full_name : Lead → Option Text
unfolding join
full_name p =
    some_text (some (join (text " ") (present (some_text p.first_name) (some_text p.last_name))))
  where
    present : Option Text → Option Text → List Text
    present none none = []
    present none (some b) = b ∷ []
    present (some a) none = a ∷ []
    present (some a) (some b) = a ∷ b ∷ []

abbrev pub score_row : Text → EnrichJob → Lead → Enrichment → Score → Opened → ScoreHistory
unfolding full_name
score_row id j p e s o = record {
  id = id;
  tenant = j.tenant;
  person = j.person;
  person_name = full_name p;
  person_email = or_else (some_text p.email) (some_text e.person_email);
  score = s.score;
  factors = s.factors;
  rule_name = some s.rule_name;
  opportunity_created = o.created;
  opportunity = o.id;
}

unfoldable pub add_score : Env → EnrichJob → Lead → Enrichment → Score → Opened → Db → Db
add_score env j p e s o db = record db {
  next_row = suc db.next_row;
  scores = score_row (env.cuid db.next_row) j p e s o ∷ db.scores;
}

lead_fields : Lead → Fields
lead_fields p = field (text "id") (str p.id) (
    field (text "firstName") (nullable p.first_name) (
      field (text "lastName") (nullable p.last_name) (
        field (text "email") (nullable p.email)
          (field (text "jobTitle") (nullable p.job_title) end))))

text_items : List Text → Items
text_items [] = nil
text_items (t ∷ ts) = item (str t) (text_items ts)

abbrev pub technologies_json : Option (List Text) → Json
unfolding text_items
technologies_json none = null
technologies_json (some ts) = arr (text_items ts)

enrichment_fields : Enrichment → Fields → Fields
enrichment_fields e rest = field (text "personEmail") (nullable e.person_email) (
    field (text "companyName") (nullable e.company_name) (
      field (text "companyDomain") (nullable e.company_domain) (
        field (text "companySize") (nullable e.company_size) (
          field (text "industry") (nullable e.industry) (
            field (text "location") (nullable e.location) (
              field (text "jobTitle") (nullable e.job_title) (
                field (text "jobFunction") (nullable e.job_function) (
                  field (text "technologies") (technologies_json e.technologies)
                    (field (text "source") (str e.source) rest)))))))))

scored_entry : EnrichJob → Lead → Enrichment → Scored → Entry
unfolding lead_fields enrichment_fields
scored_entry j p e r =
    record (logged j.tenant (text "enrich_and_score_person") (text "Person") j.person
      (some (enrichment_fields e (result_fields r))) (text "job:enrich-and-score-person")) {
        before = some (lead_fields p);
      }

-- `tenant.enableAutoOpportunity && FEATURE_AUTO_OPPORTUNITY && score >= tenant.opportunityThreshold`
abbrev pub should_open : Settings → Tenant → ℕ → Bool
should_open settings t score =
    t.auto_opportunity && settings.auto_opportunity && leb t.opportunity_threshold score

abbrev scored_as : Score → Opened → Scored
scored_as s o = record { score = s.score; factors = s.factors; opportunity_created = o.created }

-- The writes to the CRM.
unfoldable pub write_crm :
    Env → Settings → EnrichJob → Tenant → Lead → Enrichment → Score → Action Opened
write_crm env settings j t p e s = do
  update_once env j p e
  note_id ← score_note_once env j s
  score_link_once env j note_id
  opportunity_if env j p s.score (should_open settings t s.score)

-- What is recorded after them.
unfoldable pub record_score : Env → EnrichJob → Lead → Enrichment → Score → Opened → Action Scored
unfolding scored_entry
record_score env j p e s o = do
  modify (add_score env j p e s o)
  _ ← log env (scored_entry j p e (scored_as s o))
  modify (set_log j.log_id (done_log (scored_as s o)))
  pure (scored_as s o)

-- What is read before the first write.
pub record Gathered : Type 0 where
  pub tenant : Tenant
  pub lead : Lead
  pub enrichment : Enrichment
  pub score : Score

unfoldable pub gather : Env → Settings → EnrichJob → Action Gathered
gather env settings j = do
  found ← gets λ db. find_first (λ t. text_eq t.id j.tenant) db.tenants
  t ← or_throw found (plain (text "No Tenant found"))
  p ← person_for env settings j
  e ← ask λ db. env.enrich_person db.reads j.tenant p
  s ← gets (score env j.tenant p e)
  pure (record { tenant = t; lead = p; enrichment = e; score = s })

unfoldable pub apply_score : Env → Settings → EnrichJob → Gathered → Action Scored
apply_score env settings j g = do
  o ← write_crm env settings j g.tenant g.lead g.enrichment g.score
  record_score env j g.lead g.enrichment g.score o

-- The body of the `try`.
unfoldable pub enrich_and_score : Env → Settings → EnrichJob → Action Scored
enrich_and_score env settings j = do g ← gather env settings j; apply_score env settings j g

-- The `catch`.
unfoldable pub enrich_failed : EnrichJob → Error → Action Scored
enrich_failed j e = do modify (set_log j.log_id (failed_log (message e))); throw e

-- The update of the log before the `try`.
unfoldable pub start_log : EnrichJob → Action (Unit {0})
start_log j = do
  found ← gets λ db. find_first (λ l. text_eq l.id j.log_id) db.webhook_logs
  _ ← or_throw found (plain (text "No record was found for an update."))
  modify (set_log j.log_id (started_log (j.attempts_made + 1)))

unfoldable pub process : Env → Settings → EnrichJob → Action Scored
process env settings j = do
  start_log j
  try_catch (enrich_and_score env settings j) (enrich_failed j)
