-- ===== src/Checkpoints.antt =====
-- src/jobs/job-action-checkpoint.service.ts: which CRM writes of a job are known to have succeeded.
use zex_platform.Base.{
  Text, text_eq, Bool, true, false, Option, none, some, ◌∷◌, ◌&&◌, find_first, update_where,
  is_some, if◌then◌else◌,
}
use zex_platform.Base.Effects.{gets, modify}
use zex_platform.Store.{
  CrmWrite, update_person, create_note, link_note_to_person, create_opportunity, create_company,
  Checkpoint, Db, Action,
}

unfoldable pub same_write : CrmWrite → CrmWrite → Bool
same_write update_person update_person = true
same_write create_note create_note = true
same_write link_note_to_person link_note_to_person = true
same_write create_opportunity create_opportunity = true
same_write create_company create_company = true
same_write _ _ = false

-- `where: { tenantId_webhookLogId_action }`
abbrev pub of_step : Text → Text → CrmWrite → Checkpoint → Bool
of_step tenant job write c =
    text_eq c.tenant tenant && text_eq c.job job && same_write c.write write

-- `CompletedCheckpoint | PendingCheckpoint`
pub data Progress : Type 0 where
  done : Option Text → Progress
  open_step : Progress

abbrev pub progress : Option Checkpoint → Progress
progress none = open_step
progress (some c) = done c.external_id

-- Every row has the status "completed".
unfoldable pub get_completed : Text → Text → CrmWrite → Action Progress
get_completed tenant job write =
    gets λ db. progress (find_first (of_step tenant job write) db.checkpoints)

unfoldable pub put_checkpoint : Text → Text → Text → CrmWrite → Option Text → Db → Db
put_checkpoint tenant job person write external_id db = record db {
  checkpoints =
      if is_some (find_first (of_step tenant job write) db.checkpoints)
      then update_where (of_step tenant job write)
          (λ c. record c { person = person; external_id = external_id }) db.checkpoints
      else record {
        tenant = tenant;
        job = job;
        person = person;
        write = write;
        external_id = external_id;
      }
        ∷ db.checkpoints;
}

unfoldable pub record_success : Text → Text → Text → CrmWrite → Option Text → Action (Unit {0})
unfolding put_checkpoint
record_success tenant job person write external_id =
    modify (put_checkpoint tenant job person write external_id)
