-- ===== src/Sdr/Silence.antt =====
-- A stopped sequence stays stopped and gets no email, whatever requests follow.
use mathlib.Core.Option
use native.Mathlib.Nat.{le_refl}
use zex_platform.Base.{
  ℕ, suc, ◌≤◌, Text, text_eq, text_eq_sound, text_eq-eq_false, ◌≡◌, ◌≢◌, refl, sym, ap, ◌∙◌, inl,
  inr, Bool, true, false, some, List, [], ◌∷◌, ◌&&◌, arith, find_first, find_first-update_where,
  select, update_where, touched, any, Bool-cases,
}
use zex_platform.Store.{
  active, paused, SequenceStatus, CrmSync, Sequence, Message, SendInput, Db, Env, log, has_id,
}
use zex_platform.Frames.{IsOrder, Within, bind-Within, then-Within}
use zex_platform.Sdr.Statuses.{is_stop, the_sequence}
use zex_platform.Sdr.Drafts.{advance_sequence}
use zex_platform.Sdr.Crm.{set_crm_sync}
use zex_platform.Sdr.Gate.{Gate, block_if}
use zex_platform.Sdr.Send.{activate_sequence, live_row, deliver, check_live, send_email, send_input}
use zex_platform.Sdr.Replies.{set_sequence_status}
use zex_platform.Sdr.Lookups.{require_sequence}
use zex_platform.AgentControl.Service.{pause_agent, resume_agent}
use zex_platform.Sdr.Requests.{
  Request, opens, drafts, approves, revokes, rejects, sends, send_job, sync_job, replies, confirms,
  pauses, resumes, undoes, Asked, serve, serve_all,
}
use zex_platform.Sdr.Writes.{
  Permits, require_sequence-Within, check_live-Within, hand_over-Within, create_sequence-Within,
  create_draft-Within, approve_draft-Within, revoke_approval-Within, reject_draft-Within,
  send_draft-Within, execute_send-Within, sync_crm_for_message-Within, ingest_reply-Within,
  confirm_meeting-Within, change_agent-Within, undo_action-Within,
}

-- The emails that the provider was asked to send for a sequence.
unfoldable pub emails_of : Text → Text → Db → List SendInput
emails_of tenant id db = select (λ i. text_eq i.tenant tenant && text_eq i.sequence_id id) db.outbox

module _ (env : Env) (tenant id : Text) (sent : List SendInput) where
  -- The sequence is stopped, its id is not given again, and these are its emails so far.
  pub record Silent (db : Db) : Type 0 where
    pub fresh : (n : ℕ) → db.next_row ≤ n → env.cuid n ≢ id
    pub row : Sequence
    pub found : find_first (the_sequence tenant id) db.sequences ≡ some row
    pub stopped : is_stop row.status ≡ true
    pub emails : emails_of tenant id db ≡ sent

  abbrev pub Stays : Db → Db → Type 0
  Stays s t = Silent s → Silent t

  pub Stays-IsOrder : IsOrder Stays
  Stays-IsOrder = record { same = λ s h. h; chain = λ s t u f g h. g (f h) }

  -- An update of sequences by which the row keeps a stop status.
  update-Stays :
      (q : Sequence → Bool) (f : Sequence → Sequence) (s : Db)
      → ((x : Sequence) → (f x).id ≡ x.id)
      → ((x : Sequence) → (f x).tenant ≡ x.tenant)
      → ((x : Sequence) → is_stop x.status ≡ true → is_stop (touched q f x).status ≡ true)
      → Stays s (record s { sequences = update_where q f s.sequences })
  unfolding emails_of
  update-Stays q f s hi ht hs st = record {
    fresh = st.fresh;
    row = touched q f st.row;
    found =
        find_first-update_where (the_sequence tenant id) q f s.sequences (λ x. rw (hi x, ht x))
        ∙ ap (Option.map (touched q f)) st.found;
    stopped = hs st.row st.stopped;
    emails = st.emails;
  }

  advance-Stays :
      (i : Text) (status : SequenceStatus) (s : Db) → Stays s (advance_sequence i status s)
  unfolding advance_sequence
  advance-Stays i status s = update-Stays _ _ s (λ x. refl) (λ x. refl) (λ x h. ground arith)

  sync-Stays : (i : Text) (x : CrmSync) (s : Db) → Stays s (set_crm_sync i x s)
  unfolding set_crm_sync
  sync-Stays i x s = update-Stays _ _ s (λ x. refl) (λ x. refl) (λ x h. ground arith)

  pub stop-Stays :
      (i : Text) (status : SequenceStatus) (s : Db)
      → is_stop status ≡ true
      → Stays s (set_sequence_status i status s)
  unfolding set_sequence_status
  stop-Stays i status s e = update-Stays _ _ s (λ x. refl) (λ x. refl) (λ x h. ground arith)

  pub activate-Stays : (i : Text) (s : Db) → Stays s (activate_sequence i s)
  unfolding activate_sequence
  activate-Stays i s = elim (Bool-cases (any (live_row i) s.sequences)) [
    | inl e ↦ rw e (update-Stays _ _ s (λ x. refl) (λ x. refl) (λ x h. ground arith))
    | inr e ↦ rw e (sync-Stays i CrmSync.pending s)
  ]

  -- Writes that touch neither the sequences nor the provider's calls.
  apart-Stays :
      (s t : Db)
      → s.next_row ≤ t.next_row
      → t.sequences ≡ s.sequences
      → t.outbox ≡ s.outbox
      → Stays s t
  unfolding emails_of
  apart-Stays s t le q o st = record {
    fresh = λ n h. st.fresh n (omega arith);
    row = st.row;
    found = rw q st.found;
    stopped = st.stopped;
    emails = rw o st.emails;
  }

  pub Stays-Permits : Permits Stays
  Stays-Permits = record {
    order = Stays-IsOrder;
    audit = λ s n h x. apart-Stays s (record s { next_row = n; audit = x }) h refl refl;
    drafts = λ s n h x. apart-Stays s (record s { next_row = n; drafts = x }) h refl refl;
    approvals = λ s n h x. apart-Stays s (record s { next_row = n; approvals = x }) h refl refl;
    bookings = λ s n h x. apart-Stays s (record s { next_row = n; bookings = x }) h refl refl;
    messages = λ s n h x. apart-Stays s (record s { next_row = n; messages = x }) h refl refl;
    replies = λ s n h x. apart-Stays s (record s { next_row = n; replies = x }) h refl refl;
    controls = λ s n h x. apart-Stays s (record s { next_row = n; controls = x }) h refl refl;
    checkpoints = λ s x. apart-Stays s (record s { checkpoints = x }) (le_refl _) refl refl;
    crm = λ s x. apart-Stays s (record s { crm = x }) (le_refl _) refl refl;
    jobs = λ s x. apart-Stays s (record s { jobs = x }) (le_refl _) refl refl;
    advance = advance-Stays;
    sync = sync-Stays;
  }

  -- A new sequence has another id.
  pub opening-Stays :
      (s : Db) (q : Sequence)
      → q.id ≡ env.cuid s.next_row
      → Stays s (record s { next_row = suc s.next_row; sequences = q ∷ s.sequences })
  unfolding find_first emails_of has_id
  opening-Stays s q e st = record {
    fresh = λ n h. st.fresh n (omega arith);
    row = st.row;
    found =
        rw (text_eq-eq_false q.id id (λ same. st.fresh s.next_row (le_refl _) (sym e ∙ same)))
          st.found;
    stopped = st.stopped;
    emails = st.emails;
  }

both_eq : (a b c d : Text) → (text_eq a b && text_eq c d) ≡ true → (a ≡ b) × (c ≡ d)
both_eq a b c d h = ground (arith, text_eq_sound a b, text_eq_sound c d)

-- At a stopped sequence a delivery ends with the last look at it.
pub deliver_blocked :
    (env : Env) (t : Text) (g : Gate) (key : Text) (m : Message) (by : Text) (s : Db)
    (row : Sequence)
    → find_first (the_sequence t g.sequence.id) s.sequences ≡ some row
    → is_stop row.status ≡ true
    → (deliver env t g key m by s).1 ≡ (check_live env t g.draft.id m row by s).1
unfolding deliver require_sequence check_live block_if log
deliver_blocked env t g key m by s row found stop = rw (found, deliver, require_sequence) (rw stop)

-- Other requests at work during a send keep the sequence silent, as every request does.
module _ (env : Env) (tenant id : Text) (sent : List SendInput)
    (before : (s : Db)
      → Silent env tenant id sent s
      → Silent env tenant id sent (env.before_send s))
    (during : (s : Db)
      → Silent env tenant id sent s
      → Silent env tenant id sent (env.during_send s)) where
  abbrev p : Permits (Stays env tenant id sent)
  p = Stays-Permits env tenant id sent

  -- The provider is asked for another sequence.
  send_email-Stays :
      (t : Text) (g : Gate) (key : Text) (m : Message)
      → (text_eq t tenant && text_eq g.sequence.id id) ≡ false
      → Within (Stays env tenant id sent) (send_email env (send_input t g key m))
  unfolding send_email emails_of select
  send_email-Stays t g key m e = record {
    run = λ s st. record {
      fresh = st.fresh;
      row = st.row;
      found = st.found;
      stopped = st.stopped;
      emails = rw e st.emails;
    };
  }

  deliver-Stays :
      (t : Text) (g : Gate) (key : Text) (m : Message) (by : Text) (s : Db)
      → Silent env tenant id sent s
      → Silent env tenant id sent (deliver env t g key m by s).1
  unfolding deliver require_sequence
  deliver-Stays t g key m by s st =
      elim (Bool-cases (text_eq t tenant && text_eq g.sequence.id id)) [
        | inl ours ↦
            let (e, f) = both_eq t tenant g.sequence.id id ours in
            rw (deliver_blocked env t g key m by s st.row (rw (e, f) st.found) st.stopped)
              ((check_live-Within p env t g.draft.id m st.row by).run s st)
        | inr others ↦
            (bind-Within p.order _ _ (require_sequence-Within p t g.sequence.id) (λ live.
                then-Within p.order _ _ (check_live-Within p env t g.draft.id m live by) (
                  hand_over-Within p (activate-Stays env tenant id sent) env during t g key m
                    (send_email-Stays t g key m others) by))).run
              s st
      ]

  tries :
      (t : Text) (g : Gate) (key : Text) (m : Message) (by : Text)
      → Within (Stays env tenant id sent) (deliver env t g key m by)
  tries t g key m by = record { run = deliver-Stays t g key m by }

  serve-Silent :
      (t by : Text) (q : Request) (s : Db)
      → Silent env tenant id sent s
      → Silent env tenant id sent (serve env t by q s)
  unfolding serve pause_agent resume_agent
  serve-Silent t by (opens c target) s =
      (create_sequence-Within p env (opening-Stays env tenant id sent) t c target by).run s
  serve-Silent t by (drafts i u) s = (create_draft-Within p env t i u by).run s
  serve-Silent t by (approves d) s = (approve_draft-Within p env t d by by).run s
  serve-Silent t by (revokes d) s = (revoke_approval-Within p env t d by).run s
  serve-Silent t by (rejects d) s = (reject_draft-Within p env t d by by).run s
  serve-Silent t by (sends d only sync) s =
      (send_draft-Within p env before tries t d only sync by).run s
  serve-Silent t by (send_job d) s = (execute_send-Within p env before tries t d by).run s
  serve-Silent t by (sync_job m) s = (sync_crm_for_message-Within p env t m by).run s
  serve-Silent t by (replies e source) s =
      (ingest_reply-Within p (stop-Stays env tenant id sent) env t e source by).run s
  serve-Silent t by (confirms i) s =
      (confirm_meeting-Within p (stop-Stays env tenant id sent) env t i by).run s
  serve-Silent t by (pauses a) s = (change_agent-Within p env paused t a by).run s
  serve-Silent t by (resumes a) s = (change_agent-Within p env active t a by).run s
  serve-Silent t by (undoes a) s = (undo_action-Within p env t a by).run s

  pub serve_all-Silent :
      (as_asked : List Asked) (s : Db)
      → Silent env tenant id sent s
      → Silent env tenant id sent (serve_all env as_asked s)
  unfolding serve_all
  serve_all-Silent [] s st = st
  serve_all-Silent (a ∷ rest) s st =
      serve_all-Silent rest (serve env a.tenant a.by a.request s)
        (serve-Silent a.tenant a.by a.request s st)
