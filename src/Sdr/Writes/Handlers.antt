-- ===== src/Sdr/Writes/Handlers.antt =====
-- Drafts, approvals and the CRM sync.
use native.Mathlib.Nat.{le_refl}
use zex_platform.Base.{ℕ, suc, ◌≤◌, arith, Text, Option, none, some, List}
use zex_platform.Store.{
  AgentId, AuditLog, Reply, Control, Job, Draft, Approval, Sequence, Message, Booking, Checkpoint,
  CrmCall, CrmWrite, CrmSync, SequenceStatus, DraftStatus, Purpose, ControlState, active, paused,
  Content, Db, Env, Entry, log,
}
use zex_platform.Frames.{IsOrder, Within, frame_rules}
use zex_platform.Checkpoints.{
  Progress, done, open_step, get_completed, record_success, put_checkpoint,
}
use zex_platform.AgentControl.Service.{assert_agent_not_paused, refuse_paused}
use zex_platform.Sdr.Lookups.{require_candidate, require_sequence, require_draft}
use zex_platform.Research.Reading.{load_run_detail, get_latest_research}
use zex_platform.Research.Reading
use zex_platform.Sdr.Drafts.{
  check_draftable, propose_meeting, booking_link_for, add_booking, set_draft_status,
  revoke_approvals, supersede, add_draft, advance_sequence, store_draft, create_draft,
}
use zex_platform.Sdr.Approvals.{
  check_approvable, grant, approve_draft, revoke_approval, reject_writes, reject_draft,
}
use zex_platform.Sdr.Crm.{
  crm_call, update_message, set_crm_sync, note_once, link_once, link_if_known, note_from, link_from,
  sync_crm_for_message,
}

-- The writes of drafts, approvals, audit and CRM sync.
pub record Permits (R : Db → Db → Type 0) : Type 0 where
  pub order : IsOrder R
  pub audit :
      (s : Db) (n : ℕ)
      → s.next_row ≤ n
      → (a : List AuditLog) → R s (record s { next_row = n; audit = a })
  pub drafts :
      (s : Db) (n : ℕ)
      → s.next_row ≤ n
      → (d : List Draft) → R s (record s { next_row = n; drafts = d })
  pub approvals :
      (s : Db) (n : ℕ)
      → s.next_row ≤ n
      → (a : List Approval) → R s (record s { next_row = n; approvals = a })
  pub bookings :
      (s : Db) (n : ℕ)
      → s.next_row ≤ n
      → (b : List Booking) → R s (record s { next_row = n; bookings = b })
  pub messages :
      (s : Db) (n : ℕ)
      → s.next_row ≤ n
      → (m : List Message) → R s (record s { next_row = n; messages = m })
  pub replies :
      (s : Db) (n : ℕ)
      → s.next_row ≤ n
      → (r : List Reply) → R s (record s { next_row = n; replies = r })
  pub controls :
      (s : Db) (n : ℕ)
      → s.next_row ≤ n
      → (c : List Control) → R s (record s { next_row = n; controls = c })
  pub checkpoints : (s : Db) (c : List Checkpoint) → R s (record s { checkpoints = c })
  pub crm : (s : Db) (c : List CrmCall) → R s (record s { crm = c })
  pub jobs : (s : Db) (j : List Job) → R s (record s { jobs = j })
  pub advance : (id : Text) (status : SequenceStatus) (s : Db) → R s (advance_sequence id status s)
  pub sync : (id : Text) (x : CrmSync) (s : Db) → R s (set_crm_sync id x s)

pub le_suc : (n : ℕ) → n ≤ suc n
le_suc n = omega arith

module _ {R : Db → Db → Type 0} (p : Permits R) where
  open p use {order}

  pub log-Within : (env : Env) (e : Entry) → Within R (log env e)
  unfolding log
  log-Within env e = record { run = λ s. p.audit s _ (le_suc _) _ }

  refuse_paused-Within :
      (env : Env) (tenant : Text) (agent : AgentId) (by : Text) (state : ControlState)
      → Within R (refuse_paused env tenant agent by state)
  unfolding refuse_paused
  refuse_paused-Within env tenant agent by active = search (frame_rules, order)
  refuse_paused-Within env tenant agent by paused = search (frame_rules, order, log-Within)

  pub assert_agent_not_paused-Within :
      (env : Env) (tenant : Text) (agent : AgentId) (by : Text)
      → Within R (assert_agent_not_paused env tenant agent by)
  unfolding assert_agent_not_paused
  assert_agent_not_paused-Within env tenant agent by =
      search (frame_rules, order, refuse_paused-Within)

  pub require_candidate-Within : (tenant id : Text) → Within R (require_candidate tenant id)
  unfolding require_candidate
  require_candidate-Within tenant id = search (frame_rules, order)

  pub require_sequence-Within : (tenant id : Text) → Within R (require_sequence tenant id)
  unfolding require_sequence
  require_sequence-Within tenant id = search (frame_rules, order)

  pub require_draft-Within : (tenant id : Text) → Within R (require_draft tenant id)
  unfolding require_draft
  require_draft-Within tenant id = search (frame_rules, order)

  pub get_latest_research-Within : (tenant id : Text) → Within R (get_latest_research tenant id)
  unfolding get_latest_research load_run_detail Reading.require_candidate
  get_latest_research-Within tenant id = search (frame_rules, order)

  check_draftable-Within : (st : SequenceStatus) (u : Purpose) → Within R (check_draftable st u)
  unfolding check_draftable
  check_draftable-Within st u = search (frame_rules, order)

  add_booking-R :
      (env : Env) (tenant : Text) (s : Sequence) (q : _) (db : Db)
      → R db (add_booking env tenant s q db)
  unfolding add_booking
  add_booking-R env tenant s q db = p.bookings db _ (le_suc _) _

  propose_meeting-Within :
      (env : Env) (tenant : Text) (s : Sequence) (by : Text)
      → Within R (propose_meeting env tenant s by)
  unfolding propose_meeting
  propose_meeting-Within env tenant s by =
      search (frame_rules, order, require_candidate-Within, log-Within, add_booking-R)

  booking_link_for-Within :
      (env : Env) (tenant : Text) (s : Sequence) (u : Purpose) (by : Text)
      → Within R (booking_link_for env tenant s u by)
  unfolding booking_link_for
  booking_link_for-Within env tenant s u by = search (frame_rules, order, propose_meeting-Within)

  pub set_draft_status-R :
      (id : Text) (st : DraftStatus) (db : Db) → R db (set_draft_status id st db)
  unfolding set_draft_status
  set_draft_status-R id st db = p.drafts db db.next_row (le_refl _) _

  revoke_approvals-R : (tenant id : Text) (db : Db) → R db (revoke_approvals tenant id db)
  unfolding revoke_approvals
  revoke_approvals-R tenant id db = p.approvals db db.next_row (le_refl _) _

  supersede-Within :
      (env : Env) (tenant : Text) (u : Purpose) (by : Text) (d : Draft)
      → Within R (supersede env tenant u by d)
  unfolding supersede
  supersede-Within env tenant u by d =
      search (frame_rules, order, log-Within, set_draft_status-R, revoke_approvals-R)

  add_draft-Within :
      (env : Env) (tenant : Text) (s : Sequence) (c : Content) → Within R (add_draft env tenant s c)
  unfolding add_draft
  add_draft-Within env tenant s c = search (frame_rules, order, p.drafts, le_suc)

  store_draft-Within :
      (env : Env) (tenant : Text) (s : Sequence) (u : Purpose) (c : Content) (by : Text)
      → Within R (store_draft env tenant s u c by)
  unfolding store_draft
  store_draft-Within env tenant s u c by =
      search (frame_rules, order, supersede-Within, add_draft-Within, log-Within, p.advance) depth 8

  pub create_draft-Within :
      (env : Env) (tenant id : Text) (u : Purpose) (by : Text)
      → Within R (create_draft env tenant id u by)
  unfolding create_draft
  create_draft-Within env tenant id u by =
      search
        (
          frame_rules, order, assert_agent_not_paused-Within, require_sequence-Within,
          check_draftable-Within, get_latest_research-Within, booking_link_for-Within,
          require_candidate-Within, store_draft-Within,
        )
        depth 14

  grant-Within :
      (env : Env) (tenant : Text) (d : Draft) (who by : Text) → Within R (grant env tenant d who by)
  unfolding grant
  grant-Within env tenant d who by =
      search (frame_rules, order, p.approvals, le_suc, set_draft_status-R, p.advance, log-Within)
        depth 8

  pub approve_draft-Within :
      (env : Env) (tenant id who by : Text) → Within R (approve_draft env tenant id who by)
  unfolding approve_draft check_approvable
  approve_draft-Within env tenant id who by =
      search (frame_rules, order, require_draft-Within, grant-Within) depth 8

  pub revoke_approval-Within :
      (env : Env) (tenant id by : Text) → Within R (revoke_approval env tenant id by)
  unfolding revoke_approval
  revoke_approval-Within env tenant id by =
      search
        (
          frame_rules, order, require_draft-Within, revoke_approvals-R, set_draft_status-R,
          log-Within,
        )
        depth 8

  reject_writes-Within :
      (env : Env) (tenant : Text) (d : Draft) (who by : Text)
      → Within R (reject_writes env tenant d who by)
  unfolding reject_writes
  reject_writes-Within env tenant d who by =
      search (frame_rules, order, revoke_approvals-R, set_draft_status-R, log-Within) depth 8

  pub reject_draft-Within :
      (env : Env) (tenant id who by : Text) → Within R (reject_draft env tenant id who by)
  unfolding reject_draft
  reject_draft-Within env tenant id who by =
      search (frame_rules, order, require_draft-Within, reject_writes-Within) depth 8

  crm_call-Within : (env : Env) (c : CrmCall) → Within R (crm_call env c)
  unfolding crm_call
  crm_call-Within env c = search (frame_rules, order, p.crm)

  record_success-Within :
      (tenant job person : Text) (w : CrmWrite) (id : Option Text)
      → Within R (record_success tenant job person w id)
  unfolding record_success put_checkpoint
  record_success-Within tenant job person w id = record { run = λ s. p.checkpoints s _ }

  note_from-Within :
      (env : Env) (tenant job person : Text) (c : CrmCall) (q : Progress)
      → Within R (note_from env tenant job person c q)
  unfolding note_from
  note_from-Within env tenant job person c (done id) = search (frame_rules, order)
  note_from-Within env tenant job person c open_step =
      search (frame_rules, order, crm_call-Within, record_success-Within)

  pub note_once-Within :
      (env : Env) (tenant job person : Text) (c : CrmCall)
      → Within R (note_once env tenant job person c)
  unfolding note_once get_completed
  note_once-Within env tenant job person c = search (frame_rules, order, note_from-Within)

  link_from-Within :
      (env : Env) (tenant job note_id person : Text) (q : Progress)
      → Within R (link_from env tenant job note_id person q)
  unfolding link_from
  link_from-Within env tenant job note_id person (done id) = search (frame_rules, order)
  link_from-Within env tenant job note_id person open_step =
      search (frame_rules, order, crm_call-Within, record_success-Within)

  link_once-Within :
      (env : Env) (tenant job note_id person : Text)
      → Within R (link_once env tenant job note_id person)
  unfolding link_once get_completed
  link_once-Within env tenant job note_id person = search (frame_rules, order, link_from-Within)

  link_if_known-Within :
      (env : Env) (tenant job : Text) (note_id person : Option Text)
      → Within R (link_if_known env tenant job note_id person)
  unfolding link_if_known
  link_if_known-Within env tenant job none person = search (frame_rules, order)
  link_if_known-Within env tenant job (some n) none = search (frame_rules, order)
  link_if_known-Within env tenant job (some n) (some who) = link_once-Within env tenant job n who

  pub update_message-R :
      (id : Text) (f : Message → Message) (db : Db) → R db (update_message id f db)
  unfolding update_message
  update_message-R id f db = p.messages db db.next_row (le_refl _) _

  pub sync_crm_for_message-Within :
      (env : Env) (tenant id by : Text) → Within R (sync_crm_for_message env tenant id by)
  unfolding sync_crm_for_message
  sync_crm_for_message-Within env tenant id by =
      search
        (
          frame_rules, order, require_sequence-Within, require_draft-Within, note_once-Within,
          link_if_known-Within, update_message-R, p.sync, log-Within,
        )
        depth 14
