-- ===== src/Sdr/Writes/Replying.antt =====
-- Replies, meetings, new sequences and the changes of the agent control center.
use zex_platform.Base.{
  suc, Text, Option, none, some, ◌∷◌, true, ◌≡◌, refl, inl, inr, is_some, find_first, Bool-cases,
}
use zex_platform.Store.{
  AgentId, ControlState, AuditLog, SequenceStatus, Classification, Sequence, ResearchRun, Reply, Db,
  Env,
}
use native.Mathlib.Nat.{le_refl}
use zex_platform.Frames.{Within, frame_rules}
use zex_platform.AgentControl.Timeline.{Eligible, lookup}
use zex_platform.AgentControl.Service.{
  assert_tenant, get_control_state, is_paused, put_control, upsert_control, set_state, change_agent,
  of_agent,
}
use zex_platform.AgentControl.Undo.{
  apply_undo, already_undone, undo_first, undo_unless, undo_control, undo_action,
}
use zex_platform.Sdr.Statuses.{is_stop}
use zex_platform.Sdr.Drafts.{Target, create_sequence, new_sequence, open_sequence}
use zex_platform.Sdr.Replies.{
  ReplyEvent, Source, Match, by_provider_message, by_sequence, correlate, status_after,
  set_sequence_status, store_reply, stop_sequence, draft_answers, adapt, note_reply, ingest_new,
  ingest_unless, ingest_reply,
}
use zex_platform.Sdr.Meetings.{confirm_meeting}
use zex_platform.Sdr.Writes.Handlers.{
  Permits, le_suc, log-Within, assert_agent_not_paused-Within, require_candidate-Within,
  require_sequence-Within, get_latest_research-Within, create_draft-Within, note_once-Within,
}

-- `status_after` and the status of a confirmed meeting are stop statuses.
pub status_after-is_stop : (c : Classification) → is_stop (status_after c) ≡ true
unfolding is_stop status_after
status_after-is_stop Classification.unsubscribe = refl
status_after-is_stop c = refl

module _ {R : Db → Db → Type 0} (p : Permits R) where
  open p use {order}

  put_control-R :
      (env : Env) (tenant : Text) (agent : AgentId) (state : ControlState) (by : Text) (db : Db)
      → R db (put_control env tenant agent state by db)
  unfolding put_control
  put_control-R env tenant agent state by db =
      elim (Bool-cases (is_some (find_first (of_agent tenant agent) db.controls))) [
        | inl old ↦ rw old (p.controls db db.next_row (le_refl _) _)
        | inr new ↦ rw new (p.controls db _ (le_suc _) _)
      ]

  upsert_control-Within :
      (env : Env) (tenant : Text) (agent : AgentId) (state : ControlState) (by : Text)
      → Within R (upsert_control env tenant agent state by)
  unfolding upsert_control
  upsert_control-Within env tenant agent state by = search (frame_rules, order, put_control-R)

  set_state-Within :
      (env : Env) (tenant : Text) (agent : AgentId) (state : ControlState) (by : Text)
      (was : ControlState)
      → Within R (set_state env tenant agent state by was)
  unfolding set_state
  set_state-Within env tenant agent state by was =
      search (frame_rules, order, upsert_control-Within, log-Within p)

  pub change_agent-Within :
      (env : Env) (state : ControlState) (tenant id by : Text)
      → Within R (change_agent env state tenant id by)
  unfolding change_agent assert_tenant get_control_state
  change_agent-Within env state tenant id by = search (frame_rules, order, set_state-Within) depth 8

  apply_undo-Within :
      (env : Env) (tenant : Text) (row : AuditLog) (agent : AgentId) (by : Text)
      → Within R (apply_undo env tenant row agent by)
  unfolding apply_undo get_control_state
  apply_undo-Within env tenant row agent by =
      search (frame_rules, order, upsert_control-Within, log-Within p) depth 8

  undo_unless-Within :
      (env : Env) (tenant : Text) (row : AuditLog) (agent : AgentId) (by : Text) (e : Eligible)
      (u : Option Text)
      → Within R (undo_unless env tenant row agent by e u)
  unfolding undo_unless undo_first already_undone get_control_state
  undo_unless-Within env tenant row agent by e none = search (frame_rules, order, apply_undo-Within)
  undo_unless-Within env tenant row agent by e (some u) = search (frame_rules, order)

  undo_control-Within :
      (env : Env) (tenant : Text) (row : AuditLog) (agent : AgentId) (by : Text) (e : Eligible)
      → Within R (undo_control env tenant row agent by e)
  unfolding undo_control
  undo_control-Within env tenant row agent by e =
      undo_unless-Within env tenant row agent by e (lookup row.id e.undone_of)

  pub undo_action-Within :
      (env : Env) (tenant id by : Text) → Within R (undo_action env tenant id by)
  unfolding undo_action assert_tenant
  undo_action-Within env tenant id by = search (frame_rules, order, undo_control-Within) depth 14

  store_reply-Within :
      (env : Env) (tenant : Text) (w : Match) (e : ReplyEvent) (by : Text)
      → Within R (store_reply env tenant w e by)
  unfolding store_reply
  store_reply-Within env tenant w e by =
      search (frame_rules, order, p.replies, le_suc, log-Within p)

  draft_answers-Within :
      (env : Env) (tenant : Text) (w : Match) (e : ReplyEvent) (by : Text)
      → Within R (draft_answers env tenant w e by)
  unfolding draft_answers
  draft_answers-Within env tenant w e by = search (frame_rules, order, create_draft-Within p)

  pub adapt-Within :
      (env : Env) (tenant : Text) (w : Match) (e : ReplyEvent) (by : Text)
      → Within R (adapt env tenant w e by)
  unfolding adapt is_paused get_control_state
  adapt-Within env tenant w e by = search (frame_rules, order, draft_answers-Within)

  pub note_reply-Within :
      (env : Env) (tenant : Text) (w : Match) (e : ReplyEvent) (r : Reply)
      → Within R (note_reply env tenant w e r)
  unfolding note_reply
  note_reply-Within env tenant w e r = search (frame_rules, order, note_once-Within p)

  correlate-Within :
      (tenant : Text) (e : ReplyEvent) (m : Option Text) → Within R (correlate tenant e m)
  unfolding correlate by_provider_message by_sequence
  correlate-Within tenant e (some m) =
      search (frame_rules, order, require_sequence-Within p) depth 8
  correlate-Within tenant e none = go e.sequence_id
    where
      go : (i : Option Text) → Within R (by_sequence tenant i)
      go none = record { run = order.same }
      go (some i) = search (frame_rules, order, require_sequence-Within p)

  module _
      (stop : (id : Text) (status : SequenceStatus) (s : Db)
        → is_stop status ≡ true
        → R s (set_sequence_status id status s)) where
    stop_sequence-Within :
        (env : Env) (tenant : Text) (w : Match) (e : ReplyEvent) (by : Text)
        → Within R (stop_sequence env tenant w e by)
    unfolding stop_sequence
    stop_sequence-Within env tenant w e by =
        search (frame_rules, order, stop, status_after-is_stop, log-Within p)

    ingest_new-Within :
        (env : Env) (tenant : Text) (w : Match) (e : ReplyEvent) (by : Text)
        → Within R (ingest_new env tenant w e by)
    unfolding ingest_new
    ingest_new-Within env tenant w e by =
        search
          (
            frame_rules,
            order,
            store_reply-Within,
            stop_sequence-Within,
            adapt-Within,
            note_reply-Within,
            require_sequence-Within p,
          )
          depth 10

    ingest_unless-Within :
        (env : Env) (tenant : Text) (e : ReplyEvent) (source : Source) (by : Text)
        (r : Option Reply)
        → Within R (ingest_unless env tenant e source by r)
    unfolding ingest_unless
    ingest_unless-Within env tenant e source by (some r) = search (frame_rules, order)
    ingest_unless-Within env tenant e source by none =
        search (frame_rules, order, correlate-Within, ingest_new-Within)

    pub ingest_reply-Within :
        (env : Env) (tenant : Text) (e : ReplyEvent) (source : Source) (by : Text)
        → Within R (ingest_reply env tenant e source by)
    unfolding ingest_reply
    ingest_reply-Within env tenant e source by = search (frame_rules, order, ingest_unless-Within)

    pub confirm_meeting-Within :
        (env : Env) (tenant id by : Text) → Within R (confirm_meeting env tenant id by)
    unfolding confirm_meeting is_stop
    confirm_meeting-Within env tenant id by =
        search (frame_rules, order, require_sequence-Within p, book, log-Within p, finish) depth 14
      where
        book : (b : _) (s : Db) → R s (record s { bookings = b })
        book b s = p.bookings s s.next_row (le_refl _) b

        finish : (s : Db) → R s (set_sequence_status id SequenceStatus.completed s)
        finish s = stop id SequenceStatus.completed s refl

  module _ (env : Env)
      (opening : (s : Db) (q : Sequence)
        → q.id ≡ env.cuid s.next_row
        → R s (record s { next_row = suc s.next_row; sequences = q ∷ s.sequences })) where
    open_sequence-Within :
        (tenant candidate_id : Text) (run : ResearchRun) (target : Target)
        → Within R (open_sequence env tenant candidate_id run target)
    unfolding open_sequence
    open_sequence-Within tenant candidate_id run target = record {
      run = λ s. opening s (new_sequence env tenant candidate_id run target s) refl;
    }

    pub create_sequence-Within :
        (tenant candidate_id : Text) (target : Target) (by : Text)
        → Within R (create_sequence env tenant candidate_id target by)
    unfolding create_sequence
    create_sequence-Within tenant candidate_id target by =
        search
          (
            frame_rules,
            order,
            assert_agent_not_paused-Within p,
            require_candidate-Within p,
            get_latest_research-Within p,
            open_sequence-Within,
            log-Within p,
            create_draft-Within p,
          )
          depth 14
