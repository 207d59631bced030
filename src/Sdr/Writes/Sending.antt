-- ===== src/Sdr/Writes/Sending.antt =====
-- Sending: the gate, what follows the provider's call, and the whole of a send.
use zex_platform.Base.{Text, Option, none, some, Bool, true, false}
use zex_platform.Base.Effects.{Error}
use zex_platform.Store.{Draft, Sequence, Approval, Message, SendResult, Db, Env}
use zex_platform.Frames.{Within, then-Within, bind-Within, modify-Within, frame_rules}
use zex_platform.Sdr.Gate.{
  Gate, block_if, require_approval, check_sendable, check_approval, assert_send_allowed,
}
use zex_platform.Sdr.Send.{
  message_for, check_live, send_email, activate_sequence, sync_or_note_failure, record_sent,
  deliver, send_failed, start_message, start_send, send_once, execute_send, send_input, sending,
  hand_over, sync_only, send_draft,
}
use zex_platform.Sdr.Writes.Handlers.{
  Permits, log-Within, assert_agent_not_paused-Within, require_candidate-Within,
  require_sequence-Within, require_draft-Within, set_draft_status-R, update_message-R,
  sync_crm_for_message-Within, le_suc,
}

module _ {R : Db → Db → Type 0} (p : Permits R) where
  open p use {order}

  block_if-Within :
      (env : Env) (b : Bool) (tenant id reason by why : Text)
      → Within R (block_if env b tenant id reason by why)
  unfolding block_if
  block_if-Within env false tenant id reason by why = search (frame_rules, order)
  block_if-Within env true tenant id reason by why = search (frame_rules, order, log-Within p)

  check_sendable-Within :
      (env : Env) (tenant : Text) (d : Draft) (s : Sequence)
      → Within R (check_sendable env tenant d s)
  unfolding check_sendable
  check_sendable-Within env tenant d s = search (frame_rules, order, block_if-Within) depth 8

  require_approval-Within :
      (env : Env) (tenant id : Text) → Within R (require_approval env tenant id)
  unfolding require_approval
  require_approval-Within env tenant id = search (frame_rules, order, block_if-Within) depth 8

  check_approval-Within :
      (env : Env) (tenant : Text) (d : Draft) (a : Approval)
      → Within R (check_approval env tenant d a)
  unfolding check_approval
  check_approval-Within env tenant d a = search (frame_rules, order, block_if-Within) depth 8

  pub assert_send_allowed-Within :
      (env : Env) (tenant id : Text) → Within R (assert_send_allowed env tenant id)
  unfolding assert_send_allowed
  assert_send_allowed-Within env tenant id =
      search
        (
          frame_rules,
          order,
          require_draft-Within p,
          require_sequence-Within p,
          check_sendable-Within,
          require_approval-Within,
          check_approval-Within,
          require_candidate-Within p,
        )
        depth 14

  message_for-Within :
      (env : Env) (tenant : Text) (g : Gate) (key : Text) (m : Option Message)
      → Within R (message_for env tenant g key m)
  unfolding message_for
  message_for-Within env tenant g key none = search (frame_rules, order, p.messages, le_suc)
  message_for-Within env tenant g key (some m) = search (frame_rules, order)

  pub check_live-Within :
      (env : Env) (tenant id : Text) (m : Message) (s : Sequence) (by : Text)
      → Within R (check_live env tenant id m s by)
  unfolding check_live
  check_live-Within env tenant id m s by =
      search (frame_rules, order, block_if-Within, update_message-R p)

  sync_or_note_failure-Within :
      (env : Env) (tenant id by : Text) → Within R (sync_or_note_failure env tenant id by)
  unfolding sync_or_note_failure
  sync_or_note_failure-Within env tenant id by =
      search (frame_rules, order, sync_crm_for_message-Within p, update_message-R p, log-Within p)
        depth 8

  pub send_failed-Within :
      (env : Env) (tenant : Text) (m : Message) (by : Text) (e : Error)
      → Within R (send_failed env tenant m by e)
  unfolding send_failed
  send_failed-Within env tenant m by e =
      search (frame_rules, order, update_message-R p, log-Within p)

  module _ (activate : (id : Text) (s : Db) → R s (activate_sequence id s)) where
    pub record_sent-Within :
        (env : Env) (tenant : Text) (g : Gate) (m : Message) (r : SendResult) (by : Text)
        → Within R (record_sent env tenant g m r by)
    unfolding record_sent
    record_sent-Within env tenant g m r by =
        search
          (
            frame_rules,
            order,
            update_message-R p,
            set_draft_status-R p,
            activate,
            log-Within p,
            sync_or_note_failure-Within,
          )
          depth 10

    module _ (env : Env) (during : (s : Db) → R s (env.during_send s)) (tenant : Text) (g : Gate)
        (key : Text) (m : Message)
        (calls : Within R (send_email env (send_input tenant g key m))) where
      pub hand_over-Within : (by : Text) → Within R (hand_over env tenant g key m by)
      unfolding hand_over
      hand_over-Within by =
          then-Within order _ _ (modify-Within _ (update_message-R p m.id sending)) (
            bind-Within order _ _ calls (λ r.
              then-Within order _ _ (modify-Within _ during)
                (record_sent-Within env tenant g m r by)))

  pub start_message-Within :
      (env : Env) (tenant : Text) (g : Gate) (key : Text) (m : Option Message) (by : Text)
      → Within R (start_message env tenant g key m by)
  unfolding start_message
  start_message-Within env tenant g key m by =
      search (frame_rules, order, message_for-Within, log-Within p)

  -- A send as a whole, from its `try` and from what the other requests do.
  module _ (env : Env) (before : (s : Db) → R s (env.before_send s))
      (tries : (tenant : Text) (g : Gate) (key : Text) (m : Message) (by : Text)
        → Within R (deliver env tenant g key m by)) where
    start_send-Within :
        (tenant : Text) (g : Gate) (key : Text) (m : Option Message) (by : Text)
        → Within R (start_send env tenant g key m by)
    unfolding start_send
    start_send-Within tenant g key m by =
        search (frame_rules, order, start_message-Within, before, tries, send_failed-Within) depth
          10

    send_once-Within :
        (tenant : Text) (g : Gate) (key : Text) (m : Option Message) (by : Text)
        → Within R (send_once env tenant g key m by)
    unfolding send_once
    send_once-Within tenant g key none by = start_send-Within tenant g key none by
    send_once-Within tenant g key (some m) by = search (frame_rules, order, start_send-Within)

    pub execute_send-Within : (tenant id by : Text) → Within R (execute_send env tenant id by)
    unfolding execute_send
    execute_send-Within tenant id by =
        search
          (
            frame_rules,
            order,
            assert_agent_not_paused-Within p,
            assert_send_allowed-Within,
            send_once-Within,
          )
          depth 8

    sync_only-Within :
        (tenant id : Text) (sync : Bool) (by : Text) → Within R (sync_only env tenant id sync by)
    unfolding sync_only
    sync_only-Within tenant id sync by =
        search (frame_rules, order, sync_crm_for_message-Within p, p.jobs)

    pub send_draft-Within :
        (tenant id : Text) (only sync : Bool) (by : Text)
        → Within R (send_draft env tenant id only sync by)
    unfolding send_draft
    send_draft-Within tenant id true sync by = sync_only-Within tenant id sync by
    send_draft-Within tenant id false true by = search (frame_rules, order, execute_send-Within)
    send_draft-Within tenant id false false by =
        search
          (frame_rules, order, assert_agent_not_paused-Within p, assert_send_allowed-Within, p.jobs)
          depth 8
