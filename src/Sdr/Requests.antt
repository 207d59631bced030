-- ===== src/Sdr/Requests.antt =====
-- The requests that the AI SDR and the agent control center serve, and a history of them: the admin
-- routes, the reply webhook and the two queue workers, one after the other.
use zex_platform.Base.{Text, Bool, List, [], ◌∷◌}
use zex_platform.Store.{Purpose, Db, Env}
use zex_platform.AgentControl.Service.{pause_agent, resume_agent}
use zex_platform.AgentControl.Undo.{undo_action}
use zex_platform.Sdr.Drafts.{Target, create_sequence, create_draft}
use zex_platform.Sdr.Approvals.{approve_draft, revoke_approval, reject_draft}
use zex_platform.Sdr.Crm.{sync_crm_for_message}
use zex_platform.Sdr.Send.{execute_send, send_draft}
use zex_platform.Sdr.Replies.{ReplyEvent, Source, ingest_reply}
use zex_platform.Sdr.Meetings.{confirm_meeting}

pub data Request : Type 0 where
  opens : (candidate_id : Text) (target : Target) → Request
  drafts : (sequence_id : Text) (purpose : Purpose) → Request
  approves revokes rejects : (draft_id : Text) → Request
  sends : (draft_id : Text) (only sync : Bool) → Request
  send_job sync_job : (id : Text) → Request
  replies : (e : ReplyEvent) (source : Source) → Request
  confirms : (sequence_id : Text) → Request
  pauses resumes undoes : (id : Text) → Request

-- The database after a request of a tenant, whether it returned or threw.
unfoldable pub serve : Env → Text → Text → Request → Db → Db
serve env tenant by (opens c t) db = (create_sequence env tenant c t by db).1
serve env tenant by (drafts s u) db = (create_draft env tenant s u by db).1
serve env tenant by (approves d) db = (approve_draft env tenant d by by db).1
serve env tenant by (revokes d) db = (revoke_approval env tenant d by db).1
serve env tenant by (rejects d) db = (reject_draft env tenant d by by db).1
serve env tenant by (sends d only sync) db = (send_draft env tenant d only sync by db).1
serve env tenant by (send_job d) db = (execute_send env tenant d by db).1
serve env tenant by (sync_job m) db = (sync_crm_for_message env tenant m by db).1
serve env tenant by (replies e source) db = (ingest_reply env tenant e source by db).1
serve env tenant by (confirms s) db = (confirm_meeting env tenant s by db).1
serve env tenant by (pauses a) db = (pause_agent env tenant a by db).1
serve env tenant by (resumes a) db = (resume_agent env tenant a by db).1
serve env tenant by (undoes a) db = (undo_action env tenant a by db).1

-- Who asks for what: the tenant, the caller and the request.
pub record Asked : Type 0 where
  pub tenant : Text
  pub by : Text
  pub request : Request

unfoldable pub serve_all : Env → List Asked → Db → Db
serve_all env [] db = db
serve_all env (a ∷ as_asked) db = serve_all env as_asked (serve env a.tenant a.by a.request db)
