-- ===== src/Tests/Writing.antt =====
-- Drafts and their approvals.
use zex_platform.Base.{
  List, ◌+◌, ◌<◌, text, text_eq, ◌≡◌, refl, Bool, true, false, none, some, [], ◌∷◌, All, find_first,
  select, update_where,
}
use zex_platform.Base.Effects.{Error, ok, err}
use zex_platform.Store.{DraftStatus, Purpose, Draft, Approval, Content, Db, log, has_id}
use zex_platform.Sdr.Drafts.{
  is_prior, supersede, add_draft, revoke_approvals, advance_sequence, max_version, store_draft,
  set_draft_status,
}
use zex_platform.Sdr.Lookups.{require_draft}
use zex_platform.Sdr.Statuses.{same_purpose, is_open, purpose_text}
use zex_platform.Sdr.Approvals.{
  check_approvable, grant, reject_writes, approve_draft, reject_draft, revoke_approval,
}
use zex_platform.Sdr.Phrases.{hash_draft_content}
use zex_platform.Sdr.Templates.{DraftInput}
use zex_platform.Sdr.Generator.{generate_draft_content}
use zex_platform.Sdr.Gate.{assert_send_allowed}
use zex_platform.Sdr.Granted.{Granted, approve_draft-Granted}
use zex_platform.Sdr.Refusals.{refused-reject_draft, refused-revoke_approval}
use zex_platform.Sdr.Superseding.{superseded-store_draft}
use zex_platform.Sdr.Versions.{version-store_draft}
use zex_platform.Sdr.Wording.{Grounded, generate_draft_content-Grounded}
use zex_platform.Tests.Rows.{
  an_env, a_draft, a_sequence, a_content, an_approval, empty_db, approved_db, returned,
}

abbrev approval_now : Approval × Draft
approval_now =
    returned (approve_draft an_env (text "t") (text "d") (text "u") (text "u") empty_db)
      (an_approval, a_draft)

abbrev approved_now : Db
approved_now = (approve_draft an_env (text "t") (text "d") (text "u") (text "u") empty_db).1

approves :
    approve_draft an_env (text "t") (text "d") (text "u") (text "u") empty_db
    ≡ (ok approval_now, approved_now)
unfolding approve_draft require_draft find_first has_id text_eq text check_approvable
    hash_draft_content grant log advance_sequence set_draft_status update_where purpose_text
approves = refl

approve_draft-Granted_example : Granted an_env (text "t") (text "d") approval_now approved_now
approve_draft-Granted_example =
    approve_draft-Granted an_env (text "t") (text "d") (text "u") (text "u") empty_db approval_now
      approved_now approves

abbrev rejected_db : Db
rejected_db = (reject_draft an_env (text "t") (text "d") (text "u") (text "u") approved_db).1

abbrev rejection : Draft × Bool
rejection = (record a_draft { status = DraftStatus.rejected }, false)

rejects :
    reject_draft an_env (text "t") (text "d") (text "u") (text "u") approved_db
    ≡ (ok rejection, rejected_db)
unfolding reject_draft require_draft find_first has_id text_eq text reject_writes log
    revoke_approvals update_where set_draft_status
rejects = refl

refused-reject_draft_example :
    (why : Error) × ((assert_send_allowed an_env (text "t") (text "d") rejected_db).0 ≡ err why)
refused-reject_draft_example =
    refused-reject_draft an_env (text "t") (text "d") (text "u") (text "u") approved_db rejection
      rejected_db rejects

abbrev revoked_db : Db
revoked_db = (revoke_approval an_env (text "t") (text "d") (text "u") approved_db).1

revokes : revoke_approval an_env (text "t") (text "d") (text "u") approved_db ≡ (ok tt, revoked_db)
unfolding revoke_approval require_draft find_first has_id text_eq text log
revokes = refl

refused-revoke_approval_example :
    (why : Error) × ((assert_send_allowed an_env (text "t") (text "d") revoked_db).0 ≡ err why)
refused-revoke_approval_example =
    refused-revoke_approval an_env (text "t") (text "d") (text "u") approved_db tt revoked_db
      revokes

abbrev second_draft : Draft
second_draft =
    returned
      (store_draft an_env (text "t") a_sequence Purpose.outreach a_content (text "u") approved_db)
      a_draft

abbrev second_db : Db
second_db =
    (store_draft an_env (text "t") a_sequence Purpose.outreach a_content (text "u") approved_db).1

stores :
    store_draft an_env (text "t") a_sequence Purpose.outreach a_content (text "u") approved_db
    ≡ (ok second_draft, second_db)
unfolding store_draft select text_eq text same_purpose is_open supersede log add_draft
stores = refl

version-store_draft_example :
    (second_draft.version ≡ max_version (text "s") approved_db.drafts + 1)
    × (second_draft.content ≡ a_content)
    × All
        (λ x. text_eq x.sequence_id (text "s") ≡ true → x.version < second_draft.version)
        approved_db.drafts
version-store_draft_example =
    version-store_draft an_env (text "t") a_sequence Purpose.outreach a_content (text "u")
      approved_db second_draft second_db stores

superseded-store_draft_example :
    (older : List Draft) × (second_db.drafts ≡ second_draft ∷ older)
    × All (λ x. is_prior (text "t") (text "s") Purpose.outreach x ≡ false) older
superseded-store_draft_example =
    superseded-store_draft an_env (text "t") a_sequence Purpose.outreach a_content (text "u")
      approved_db second_draft second_db stores

abbrev an_input : DraftInput
an_input = record {
  company_name = text "Acme";
  purpose = Purpose.outreach;
  why_now = none;
  personalization_facts = text "Uses HubSpot" ∷ [];
  do_not_claim = text "no funding" ∷ [];
  finding_ids = text "f" ∷ [];
  buyer_roles = [];
  named_person = none;
  target_person_name = some (text "Ann");
  value_prop = none;
  booking_link = none;
  reply_is_question = false;
}

abbrev a_text : Content
a_text = returned (generate_draft_content (λ t. t) an_input, tt) a_content

generates : generate_draft_content (λ t. t) an_input ≡ ok a_text
unfolding generate_draft_content text
generates = refl

generate_draft_content-Grounded_example : Grounded (λ t. t) an_input a_text
generate_draft_content-Grounded_example =
    generate_draft_content-Grounded (λ t. t) an_input a_text generates
