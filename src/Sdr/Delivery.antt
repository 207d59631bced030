-- ===== src/Sdr/Delivery.antt =====
-- What a send asks of the outbound provider.
use zex_platform.Base.{
  Text, ◌≡◌, refl, sym, ap, ◌∙◌, ◌⊎◌, inl, inr, Bool, false, Option, none, some, arith, List, ◌∷◌,
  find_first, Bool-cases, Option-cases, length,
}
use zex_platform.Base.Effects.{Result, ok, ◌>>=◌, try_catch}
use zex_platform.Store.{
  ai_sdr, active, paused, ControlState, Sequence, Message, SendInput, Db, Action, Env, log,
}
use zex_platform.Frames.{
  Same, Same-IsOrder, continue-Within, recover-Within, modify-Within, then-Within,
}
use zex_platform.Sdr.Statuses.{is_stop, the_sequence}
use zex_platform.Sdr.Drafts.{advance_sequence}
use zex_platform.Sdr.Crm.{set_crm_sync, update_message, is_delivered}
use zex_platform.Sdr.Lookups.{require_sequence}
use zex_platform.Sdr.Gate.{Gate, assert_send_allowed}
use zex_platform.Sdr.Send.{
  sending, activate_sequence, check_live, send_input, send_email, hand_over, deliver, send_failed,
  start_message, message_for, start_send, send_once, execute_send, idempotency_key, of_key,
}
use zex_platform.Sdr.Writes.{
  Permits, check_live-Within, record_sent-Within, send_failed-Within, start_message-Within,
  assert_send_allowed-Within, assert_agent_not_paused-Within,
}
use zex_platform.Sdr.Silence.{deliver_blocked}
use zex_platform.AgentControl.Service.{assert_agent_not_paused, state_in}
use zex_platform.AgentControl.Changes.{gate_refuses, gate_opens}
use zex_platform.Outcomes.{outcome, bind_stops, bind_goes}
use zex_platform.Sdr.Consent.{Consent, assert_send_allowed_returns}

abbrev calls : Db → List SendInput
calls db = db.outbox

Calls-Permits : Permits (Same calls)
unfolding advance_sequence set_crm_sync
Calls-Permits = record {
  order = Same-IsOrder calls;
  audit = λ s n h x. refl;
  drafts = λ s n h x. refl;
  approvals = λ s n h x. refl;
  bookings = λ s n h x. refl;
  messages = λ s n h x. refl;
  replies = λ s n h x. refl;
  controls = λ s n h x. refl;
  checkpoints = λ s x. refl;
  crm = λ s x. refl;
  jobs = λ s x. refl;
  advance = λ id status s. refl;
  sync = λ id x s. refl;
}

activate-Same : (id : Text) (s : Db) → Same calls s (activate_sequence id s)
unfolding activate_sequence set_crm_sync
activate-Same id s = ground arith

module _ (env : Env) (during : (s : Db) → (env.during_send s).outbox ≡ s.outbox) where
  hand_over-outbox :
      (tenant : Text) (g : Gate) (key : Text) (m : Message) (by : Text) (s : Db)
      → (hand_over env tenant g key m by s).1.outbox ≡ send_input tenant g key m ∷ s.outbox
  unfolding hand_over send_email update_message
  hand_over-outbox tenant g key m by s =
      let asked = record (update_message m.id sending s) {
        outbox = send_input tenant g key m ∷ s.outbox;
      } in
      continue-Within (Same-IsOrder calls) _
        (env.send_email (length s.outbox) (send_input tenant g key m)) asked asked
        (λ r.
          then-Within (Same-IsOrder calls) _ _ (modify-Within _ during)
            (record_sent-Within Calls-Permits activate-Same env tenant g m r by))
        refl

  -- A delivery calls the provider once, or not at all; in the first case the sequence runs.
  pub deliver-outbox :
      (tenant : Text) (g : Gate) (key : Text) (m : Message) (by : Text) (s : Db)
      → ((deliver env tenant g key m by s).1.outbox ≡ s.outbox)
        ⊎ ((live : Sequence) × (find_first (the_sequence tenant g.sequence.id) s.sequences
              ≡ some live)
            × (is_stop live.status ≡ false)
            × ((deliver env tenant g key m by s).1.outbox ≡ send_input tenant g key m ∷ s.outbox))
  unfolding deliver require_sequence
  deliver-outbox tenant g key m by s =
      elim (Option-cases (find_first (the_sequence tenant g.sequence.id) s.sequences)) [
        | inl absent ↦ inl (rw absent refl)
        | inr (live, present) ↦ elim (Bool-cases (is_stop live.status)) [
          | inl stop ↦ inl (
              ap calls (deliver_blocked env tenant g key m by s live present stop)
              ∙ (check_live-Within Calls-Permits env tenant g.draft.id m live by).run s)
          | inr runs ↦ inr (
            live,
            present,
            runs,
            rw present (unfold check_live in rw runs (hand_over-outbox tenant g key m by s)),
          )
        ]
      ]

pub ControlState-cases : (x : ControlState) → (x ≡ paused) ⊎ (x ≡ active)
ControlState-cases paused = inl refl
ControlState-cases active = inr refl

-- The state in which a send looks at its sequence for the last time.
unfoldable pub last_look : Env → Text → Gate → Option Message → Text → Db → Db
last_look env tenant g existing by s =
    env.before_send (start_message env tenant g (idempotency_key tenant g.draft) existing by s).1

-- One call of the provider, made for the gate after the last look at the sequence in the state `at`.
pub record Called (tenant : Text) (g : Gate) (at s t : Db) : Type 0 where
  pub live : Sequence
  pub message : Message
  pub row : find_first (the_sequence tenant g.sequence.id) at.sequences ≡ some live
  pub runs : is_stop live.status ≡ false
  pub calls_made :
      t.outbox ≡ send_input tenant g (idempotency_key tenant g.draft) message ∷ s.outbox

abbrev pub was_delivered : Option Message → Bool
was_delivered none = false
was_delivered (some m) = is_delivered m.status

-- A send that asked the provider for an email.
pub record Emailed (env : Env) (tenant draft_id by : Text) (s t : Db) : Type 0 where
  pub gate : Gate
  pub consent : Consent env tenant draft_id s gate
  pub running : state_in tenant ai_sdr s.controls ≡ active
  pub first :
      was_delivered (find_first (of_key tenant (idempotency_key tenant gate.draft)) s.messages)
      ≡ false
  pub called :
      Called tenant gate
        (last_look env tenant gate
          (find_first (of_key tenant (idempotency_key tenant gate.draft)) s.messages)
          by
          s)
        s
        t

module _ (env : Env) (before : (s : Db) → (env.before_send s).outbox ≡ s.outbox)
    (during : (s : Db) → (env.during_send s).outbox ≡ s.outbox) where
  recovered :
      (tenant : Text) (g : Gate) (m : Message) (by : Text) (s : Db)
      → (try_catch
          (deliver env tenant g (idempotency_key tenant g.draft) m by)
          (send_failed env tenant m by)
          s).1.outbox
        ≡ (deliver env tenant g (idempotency_key tenant g.draft) m by s).1.outbox
  recovered tenant g m by s =
      let d = deliver env tenant g (idempotency_key tenant g.draft) m by s in
      recover-Within (Same-IsOrder calls) (send_failed env tenant m by) d.0 d.1 d.1
        (send_failed-Within Calls-Permits env tenant m by) refl

  tried :
      (tenant : Text) (g : Gate) (existing : Option Message) (m : Message) (by : Text) (s : Db)
      → start_send env tenant g (idempotency_key tenant g.draft) existing by s
        ≡ try_catch
            (deliver env tenant g (idempotency_key tenant g.draft) m by)
            (send_failed env tenant m by)
            (last_look env tenant g existing by s)
      → ((start_send env tenant g (idempotency_key tenant g.draft) existing by s).1.outbox
          ≡ s.outbox)
        ⊎ Called tenant g
            (last_look env tenant g existing by s)
            s
            (start_send env tenant g (idempotency_key tenant g.draft) existing by s).1
  unfolding last_look
  tried tenant g existing m by s e =
      let key = idempotency_key tenant g.draft in
      let look = last_look env tenant g existing by s in
      let quiet : look.outbox ≡ s.outbox =
        before _ ∙ (start_message-Within Calls-Permits env tenant g key existing by).run s in
      let after = ap (λ (x : Result Message × Db). x.1.outbox) e ∙ recovered tenant g m by look in
      elim (deliver-outbox env during tenant g key m by look) [
        | inl same ↦ inl (after ∙ same ∙ quiet)
        | inr (live, row, runs, one) ↦ inr (record {
          live = live;
          message = m;
          row = row;
          runs = runs;
          calls_made = after ∙ one ∙ ap (λ o. send_input tenant g key m ∷ o) quiet;
        })
      ]

  start_send-outbox :
      (tenant : Text) (g : Gate) (existing : Option Message) (by : Text) (s : Db)
      → ((start_send env tenant g (idempotency_key tenant g.draft) existing by s).1.outbox
          ≡ s.outbox)
        ⊎ Called tenant g
            (last_look env tenant g existing by s)
            s
            (start_send env tenant g (idempotency_key tenant g.draft) existing by s).1
  unfolding start_send start_message message_for last_look log
  start_send-outbox tenant g none by s = tried tenant g none _ by s refl
  start_send-outbox tenant g (some m) by s = tried tenant g (some m) m by s refl

  send_once-outbox :
      (tenant : Text) (g : Gate) (existing : Option Message) (by : Text) (s : Db)
      → ((send_once env tenant g (idempotency_key tenant g.draft) existing by s).1.outbox
          ≡ s.outbox)
        ⊎ ((was_delivered existing ≡ false)
            × Called tenant g
                (last_look env tenant g existing by s)
                s
                (send_once env tenant g (idempotency_key tenant g.draft) existing by s).1)
  unfolding send_once
  send_once-outbox tenant g none by s = elim (start_send-outbox tenant g none by s) [
    | inl same ↦ inl same
    | inr c ↦ inr (refl, c)
  ]
  send_once-outbox tenant g (some m) by s = elim (Bool-cases (is_delivered m.status)) [
    | inl sent ↦ inl (rw sent refl)
    | inr unsent ↦ rw unsent (elim (start_send-outbox tenant g (some m) by s) [
      | inl same ↦ inl same
      | inr c ↦ inr (refl, c)
    ])
  ]

-- The part of a send behind the gate.
abbrev pub allowed_send : Env → Text → Text → Gate → Action Message
allowed_send env tenant by g s =
    send_once env tenant g (idempotency_key tenant g.draft)
      (find_first (of_key tenant (idempotency_key tenant g.draft)) s.messages) by s

execute_send-refused :
    (env : Env) (tenant draft_id by : Text) (db : Db)
    → state_in tenant ai_sdr db.controls ≡ paused
    → (execute_send env tenant draft_id by db).1.outbox ≡ db.outbox
unfolding execute_send
execute_send-refused env tenant draft_id by db stops =
    ap (λ (r : Result Message × Db). r.1.outbox)
      (bind_stops (assert_agent_not_paused env tenant ai_sdr by) _ db _
        (gate_refuses env tenant ai_sdr by db stops))
    ∙ (assert_agent_not_paused-Within Calls-Permits env tenant ai_sdr by).run db

pub execute_send-gate :
    (env : Env) (tenant draft_id by : Text) (db : Db)
    → state_in tenant ai_sdr db.controls ≡ active
    → execute_send env tenant draft_id by db
      ≡ (assert_send_allowed env tenant draft_id >>= allowed_send env tenant by) db
unfolding execute_send
execute_send-gate env tenant draft_id by db runs =
    bind_goes (assert_agent_not_paused env tenant ai_sdr by) _ db tt db
      (gate_opens env tenant ai_sdr by db runs)

-- A send asks the provider for nothing, or for one email: the draft's text to the address of its
-- sequence. Then, when it began, the draft had an active approval of this version, with the hash that
-- the text still has, the agent was active, the candidate approved or created, the sequence not stopped
-- and no message of the same key sent; and at the last look before the call the sequence was not
-- stopped. The other requests that run while the send waits are those that ask the provider for nothing.
pub outbox-execute_send :
    (env : Env) (tenant draft_id by : Text) (db : Db)
    → ((s : Db) → (env.before_send s).outbox ≡ s.outbox)
    → ((s : Db) → (env.during_send s).outbox ≡ s.outbox)
    → ((execute_send env tenant draft_id by db).1.outbox ≡ db.outbox)
      ⊎ Emailed env tenant draft_id by db (execute_send env tenant draft_id by db).1
outbox-execute_send env tenant draft_id by db before during =
    elim (ControlState-cases (state_in tenant ai_sdr db.controls)) [
      | inl stops ↦ inl (execute_send-refused env tenant draft_id by db stops)
      | inr runs ↦
          rw (execute_send-gate env tenant draft_id by db runs)
            (elim (outcome (assert_send_allowed env tenant draft_id db)) [
              | inl (e, fails) ↦ inl (
                  ap (λ (r : Result Message × Db). r.1.outbox)
                    (bind_stops (assert_send_allowed env tenant draft_id)
                      (allowed_send env tenant by) db e fails)
                  ∙ (assert_send_allowed-Within Calls-Permits env tenant draft_id).run db)
              | inr (g, passes) ↦
                  let (consent, same) =
                    assert_send_allowed_returns env tenant draft_id db g _ passes in
                  rw
                    (bind_goes (assert_send_allowed env tenant draft_id)
                      (allowed_send env tenant by) db g db
                      (passes ∙ ap (λ d. (ok g, d)) (sym same)))
                    (elim (send_once-outbox env before during tenant g
                      (find_first (of_key tenant (idempotency_key tenant g.draft)) db.messages) by
                      db) [
                        | inl quiet ↦ inl quiet
                        | inr (first, called) ↦ inr (record {
                          gate = g;
                          consent = consent;
                          running = runs;
                          first = first;
                          called = called;
                        })
                      ])
            ])
    ]
