-- ===== src/Sdr/Once.antt =====
-- A draft whose send returned is not sent again.
use zex_platform.Base.{
  Text, text, text_eq, text_eq_refl, ◌≡◌, ◌≢◌, refl, sym, ap, subst, ◌∙◌, inl, inr, Bool, true,
  false, Option, none, some, arith, ◌∷◌, find_first, Bool-cases,
}
use zex_platform.Base.Effects.{
  Error, Result, ok, err, gets, modify, not_found, or_throw, ◌>>=◌, ◌>>◌, try_catch, recover,
}
use zex_platform.Store.{
  ai_sdr, DraftStatus, Draft, Message, SendResult, Db, Env, Action, log, logged,
}
use zex_platform.Frames.{Within, frame_rules}
use zex_platform.Outcomes.{bind_returns, or_throw_then, bind_stops}
use zex_platform.AgentControl.Service.{state_in, assert_agent_not_paused}
use zex_platform.AgentControl.Changes.{gate_refuses}
use zex_platform.Sdr.Statuses.{the_draft, the_sequence, is_stop}
use zex_platform.Sdr.Lookups.{require_sequence}
use zex_platform.Sdr.Drafts.{set_draft_status}
use zex_platform.Sdr.Crm.{update_message, is_delivered}
use zex_platform.Sdr.Gate.{Gate, assert_send_allowed, block_if}
use zex_platform.Sdr.Consent.{assert_send_allowed_returns}
use zex_platform.Sdr.Delivery.{
  ControlState-cases, execute_send-gate, allowed_send, was_delivered, outbox-execute_send,
}
use zex_platform.Sdr.Send.{
  idempotency_key, of_key, sent_by, sending, sent_fields, activate_sequence, sync_or_note_failure,
  record_sent, send_email, hand_over, check_live, deliver, send_failed, start_message, message_for,
  start_send, send_once, execute_send, send_input,
}
use zex_platform.Sdr.Sent.{
  Held, Sent, Kept, order, apart-Held, update-Held, draft-Kept, activate-Kept, log-Kept, noted-Kept,
}

-- `record_sent` without its first write.
abbrev after_sent : Env → Text → Gate → Message → SendResult → Text → Action Message
after_sent env tenant g m r by = do
  modify (set_draft_status g.draft.id DraftStatus.sent)
  modify (activate_sequence g.sequence.id)
  _ ←
      log env
        (logged tenant (text "sdr_sent") (text "SdrMessage") m.id (some (sent_fields r g.draft)) by)
  sync_or_note_failure env tenant m.id by
  found ← gets λ db. find_first (λ x. text_eq x.id m.id) db.messages
  or_throw found (not_found (text "No SdrMessage found"))

module _ (tenant draft_id key : Text) where
  after_sent-Kept :
      (env : Env) (t : Text) (g : Gate) (m : Message) (r : SendResult) (by : Text)
      → Within (Kept tenant draft_id key) (after_sent env t g m r by)
  after_sent-Kept env t g m r by =
      search
        (
          frame_rules,
          order tenant draft_id key,
          draft-Kept tenant draft_id key,
          activate-Kept tenant draft_id key,
          log-Kept tenant draft_id key,
          noted-Kept tenant draft_id key,
        )
        depth 12

module _ (tenant draft_id key : Text) (env : Env)
    (before : (s : Db)
      → ((env.before_send s).drafts ≡ s.drafts) × ((env.before_send s).messages ≡ s.messages))
    (during : (s : Db)
      → ((env.during_send s).drafts ≡ s.drafts) × ((env.during_send s).messages ≡ s.messages)) where
  marked :
      (m : Message) (f : Message → Message) (x : Message) (s : Db)
      → x.id ≡ m.id
      → ((n : Message) → (f n).tenant ≡ n.tenant)
      → ((n : Message) → (f n).idempotency_key ≡ n.idempotency_key)
      → Held tenant draft_id key x s
      → Held tenant draft_id key (f x) (update_message m.id f s)
  marked m f x s same ht hk h =
      subst (λ y. Held tenant draft_id key y (update_message m.id f s))
        (rw (same, text_eq_refl m.id) refl) (update-Held tenant draft_id key x m.id f s ht hk h)

  -- What follows the call of the provider.
  recorded :
      (g : Gate) (m x : Message) (r : SendResult) (by : Text) (s : Db)
      → x.id ≡ m.id
      → Held tenant draft_id key x s
      → Sent tenant draft_id key (record_sent env tenant g m r by s).1
  unfolding record_sent
  recorded g m x r by s same h =
      (after_sent-Kept tenant draft_id key env tenant g m r by).run
        (update_message m.id (sent_by r) s)
        (record {
          message = sent_by r x;
          held = marked m (sent_by r) x s same (λ n. refl) (λ n. refl) h;
          delivered = refl;
        })

  handed :
      (g : Gate) (m x : Message) (k by : Text) (s : Db) (a : Message) (t : Db)
      → x.id ≡ m.id
      → Held tenant draft_id key x s
      → hand_over env tenant g k m by s ≡ (ok a, t)
      → Sent tenant draft_id key t
  unfolding hand_over send_email update_message
  handed g m x k by s a t same h e =
      let asked = record (update_message m.id sending s) {
        outbox = send_input tenant g k m ∷ s.outbox;
      } in
      let r =
        bind_returns (send_email env (send_input tenant g k m))
          (λ r. modify env.during_send >> record_sent env tenant g m r by)
          (update_message m.id sending s) a t e in
      subst (Sent tenant draft_id key) (ap (λ (y : Result Message × Db). y.1) r.next) (
        recorded g m (sending x) r.value by (env.during_send r.left) same (
          apart-Held tenant draft_id key (sending x) r.left (env.during_send r.left)
            (during r.left).0 (during r.left).1
            (subst (Held tenant draft_id key (sending x))
              (ap (λ (y : Result SendResult × Db). y.1) r.here)
              (apart-Held tenant draft_id key (sending x) (update_message m.id sending s) asked refl
                refl (marked m sending x s same (λ n. refl) (λ n. refl) h)))))

  failing :
      (m : Message) (by : Text) (e : Error) (s : Db) (a : Message) (t : Db)
      → send_failed env tenant m by e s ≢ (ok a, t)
  unfolding send_failed log
  failing m by e s a t h = ground (arith, h)

  recovered :
      (m x : Message) (by : Text) (r : Result Message) (u : Db) (a : Message) (t : Db)
      → recover (send_failed env tenant m by) r u ≡ (ok a, t)
      → ◌≡◌ {A = Result Message × Db} (r, u) (ok a, t)
  recovered m x by (ok b) u a t h = h
  recovered m x by (err e) u a t h = absurd (failing m by e u a t h)

  delivered_once :
      (g : Gate) (m : Message) (k by : Text) (s : Db) (a : Message) (t : Db)
      → Held tenant draft_id key m s
      → deliver env tenant g k m by s ≡ (ok a, t)
      → Sent tenant draft_id key t
  unfolding deliver require_sequence check_live block_if log
  delivered_once g m k by s a t h e =
      let (live, _, e1) =
        or_throw_then (find_first (the_sequence tenant g.sequence.id) s.sequences) _ _ s a t e in
      elim (Bool-cases (is_stop live.status)) [
        | inl stop ↦ ground (arith, e1, stop)
        | inr runs ↦ handed g m m k by s a t refl h (ground (arith, e1, runs))
      ]

  tried :
      (g : Gate) (m : Message) (k by : Text) (s : Db) (a : Message) (t : Db)
      → Held tenant draft_id key m s
      → try_catch (deliver env tenant g k m by) (send_failed env tenant m by) (env.before_send s)
        ≡ (ok a, t)
      → Sent tenant draft_id key t
  tried g m k by s a t h e =
      let u = env.before_send s in
      delivered_once g m k by u a t
        (apart-Held tenant draft_id key m s u (before s).0 (before s).1 h)
        (recovered m m by (deliver env tenant g k m by u).0 (deliver env tenant g k m by u).1 a t e)

  started :
      (g : Gate) (existing : Option Message) (by : Text) (s : Db) (d : Draft) (a : Message) (t : Db)
      → find_first (the_draft tenant draft_id) s.drafts ≡ some d
      → idempotency_key tenant d ≡ key
      → find_first (of_key tenant key) s.messages ≡ existing
      → start_send env tenant g key existing by s ≡ (ok a, t)
      → Sent tenant draft_id key t
  unfolding start_send start_message message_for log find_first
  started g none by s d a t there keyed first e =
      tried g _ key by _ a t
        (record {
          row = d;
          there = there;
          keyed = keyed;
          first = rw (text_eq_refl tenant, text_eq_refl key) refl;
        })
        e
  started g (some m) by s d a t there keyed first e =
      tried g m key by _ a t (record { row = d; there = there; keyed = keyed; first = first }) e

  once :
      (g : Gate) (existing : Option Message) (by : Text) (s : Db) (d : Draft) (a : Message) (t : Db)
      → find_first (the_draft tenant draft_id) s.drafts ≡ some d
      → idempotency_key tenant d ≡ key
      → find_first (of_key tenant key) s.messages ≡ existing
      → send_once env tenant g key existing by s ≡ (ok a, t)
      → Sent tenant draft_id key t
  unfolding send_once
  once g none by s d a t there keyed first e = started g none by s d a t there keyed first e
  once g (some m) by s d a t there keyed first e = elim (Bool-cases (is_delivered m.status)) [
    | inl sent ↦
        let known : ◌≡◌ {A = Result Message × Db} (ok m, s) (ok a, t) = ground (arith, e, sent) in
        subst (Sent tenant draft_id key) (ap (λ (y : Result Message × Db). y.1) known) (record {
          message = m;
          held = record { row = d; there = there; keyed = keyed; first = first };
          delivered = sent;
        })
    | inr unsent ↦ started g (some m) by s d a t there keyed first (ground (arith, e, unsent))
  ]

not_both :
    (r : Result Message × Db) (x : Error) (a : Message) (t : Db) → r.0 ≡ err x → r ≢ (ok a, t)
not_both r x a t h e = ground (arith, h, e)

after_execute_send :
    (env : Env) (tenant draft_id by : Text) (s : Db) (a : Message) (t : Db)
    → ((s : Db)
        → ((env.before_send s).drafts ≡ s.drafts) × ((env.before_send s).messages ≡ s.messages))
    → ((s : Db)
        → ((env.during_send s).drafts ≡ s.drafts) × ((env.during_send s).messages ≡ s.messages))
    → execute_send env tenant draft_id by s ≡ (ok a, t)
    → (key : Text) × Sent tenant draft_id key t
unfolding execute_send
after_execute_send env tenant draft_id by s a t before during e =
    elim (ControlState-cases (state_in tenant ai_sdr s.controls)) [
      | inl stops ↦ absurd (
          not_both _ _ a t
            (ap (λ (y : Result Message × Db). y.0)
              (bind_stops (assert_agent_not_paused env tenant ai_sdr by) _ s _
                (gate_refuses env tenant ai_sdr by s stops)))
            e)
      | inr runs ↦
          let h =
            bind_returns (assert_send_allowed env tenant draft_id) (allowed_send env tenant by) s a
              t (sym (execute_send-gate env tenant draft_id by s runs) ∙ e) in
          let (consent, same) =
            assert_send_allowed_returns env tenant draft_id s h.value h.left h.here in
          let key = idempotency_key tenant h.value.draft in
          (
            key,
            once tenant draft_id key env before during h.value
                (find_first (of_key tenant key) s.messages) by s h.value.draft a t
                consent.the_draft_row refl refl
                (subst (λ v. allowed_send env tenant by h.value v ≡ (ok a, t)) (sym same) h.next),
          )
    ]

delivered_again :
    (tenant draft_id key : Text) (t : Db) (d : Draft)
    → Sent tenant draft_id key t
    → find_first (the_draft tenant draft_id) t.drafts ≡ some d
    → was_delivered (find_first (of_key tenant (idempotency_key tenant d)) t.messages) ≡ true
delivered_again tenant draft_id key t d sent there =
    let row : sent.held.row ≡ d = ground (arith, sent.held.there, there) in
    ap (λ x. was_delivered (find_first (of_key tenant (idempotency_key tenant x)) t.messages))
      (sym row)
    ∙ ap (λ k. was_delivered (find_first (of_key tenant k) t.messages)) sent.held.keyed
    ∙ ap was_delivered sent.held.first
    ∙ sent.delivered

-- After a send that returned, another send of the same draft asks the provider for nothing, whoever
-- makes it and whatever the provider and the CRM answered or answer then. The other requests that run
-- while the first send waits leave the drafts and messages as they are, and those that run while the
-- other one waits ask the provider for nothing.
pub again-execute_send :
    (env other : Env) (tenant draft_id by later : Text) (s : Db) (a : Message) (t : Db)
    → ((s : Db)
        → ((env.before_send s).drafts ≡ s.drafts) × ((env.before_send s).messages ≡ s.messages))
    → ((s : Db)
        → ((env.during_send s).drafts ≡ s.drafts) × ((env.during_send s).messages ≡ s.messages))
    → ((s : Db) → (other.before_send s).outbox ≡ s.outbox)
    → ((s : Db) → (other.during_send s).outbox ≡ s.outbox)
    → execute_send env tenant draft_id by s ≡ (ok a, t)
    → (execute_send other tenant draft_id later t).1.outbox ≡ t.outbox
again-execute_send env other tenant draft_id by later s a t before during before' during' e =
    let (key, sent) = after_execute_send env tenant draft_id by s a t before during e in
    elim (outbox-execute_send other tenant draft_id later t before' during') [
      | inl same ↦ same
      | inr x ↦ absurd (
          clash _ (delivered_again tenant draft_id key t x.gate.draft sent x.consent.the_draft_row)
            x.first)
    ]
  where
    clash : (b : Bool) → b ≡ true → b ≢ false
    clash b h k = ground (arith, h, k)
