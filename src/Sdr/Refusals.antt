-- ===== src/Sdr/Refusals.antt =====
-- When a send is refused.
use zex_platform.Base.{
  Text, text, text_eq, text_eq_refl, text_eq_sound, any, find_first_sound, ◌≡◌, refl, sym, ap, ◌∙◌,
  inl, inr, Bool, true, false, not, none, some, arith, List, [], ◌∷◌, find_first,
  find_first-update_where, update_where, Bool-cases,
}
use zex_platform.Base.Effects.{
  Error, Result, ok, err, bad_request, not_found, pure, gets, modify, throw_if, branch, ◌>>=◌, ◌>>◌,
}
use zex_platform.Store.{
  ai_sdr, paused, Purpose, Draft, DraftStatus, Db, Action, Env, log, logged, has_id,
}
use zex_platform.Outcomes.{outcome, throw_if_then}
use zex_platform.AgentControl.Service.{
  assert_agent_not_paused, refuse_paused, get_control_state, state_in, paused_message,
  blocked_entry,
}
use zex_platform.Sdr.Statuses.{the_draft}
use zex_platform.Sdr.Drafts.{
  Target, create_draft, create_sequence, of_draft, revoked, set_draft_status, revoke_approvals,
}
use zex_platform.Sdr.Approvals.{
  revoke_approval, reject_draft, reject_writes, rejected_before, is_rejected, is_sent,
  is_superseded,
}
use zex_platform.Sdr.Gate.{assert_send_allowed}
use zex_platform.Sdr.Send.{execute_send, send_draft}
use zex_platform.Sdr.Consent.{assert_send_allowed_returns, require_draft_then}

module _ {A : Type 0} where
  -- An update that makes the test fail leaves no row that passes it.
  find_first-update_where_none :
      (p : A → Bool) (f : A → A) (xs : List A)
      → ((x : A) → p (f x) ≡ false)
      → find_first p (update_where p f xs) ≡ none
  unfolding find_first update_where
  find_first-update_where_none p f [] h = refl
  find_first-update_where_none p f (x ∷ xs) h =
      ground (arith, h x, find_first-update_where_none p f xs h)

-- What a paused AI SDR answers, and the row it leaves in the audit trail.
abbrev pub paused_answer : {A : Type 0} → Env → Text → Text → Db → Result A × Db
paused_answer env tenant by db =
    (err (bad_request (paused_message ai_sdr)), (log env (blocked_entry tenant ai_sdr by) db).1)

gate_paused :
    {A : Type 0} (env : Env) (tenant by : Text) (k : Action A) (db : Db)
    → state_in tenant ai_sdr db.controls ≡ paused
    → (assert_agent_not_paused env tenant ai_sdr by >> k) db ≡ paused_answer env tenant by db
unfolding assert_agent_not_paused refuse_paused get_control_state log
gate_paused env tenant by k db h = rw (h, refuse_paused) refl

-- While the AI SDR is paused, a new sequence, a new draft, a send and a queued send are all refused with
-- the same 400 error, and nothing is written but the audit row of the refusal.
pub paused-handlers :
    (env : Env) (tenant by : Text) (db : Db) (candidate_id sequence_id draft_id : Text)
    (target : Target) (purpose : Purpose)
    → state_in tenant ai_sdr db.controls ≡ paused
    → (create_sequence env tenant candidate_id target by db ≡ paused_answer env tenant by db)
      × (create_draft env tenant sequence_id purpose by db ≡ paused_answer env tenant by db)
      × (execute_send env tenant draft_id by db ≡ paused_answer env tenant by db)
      × (send_draft env tenant draft_id false false by db ≡ paused_answer env tenant by db)
unfolding create_sequence create_draft execute_send send_draft
paused-handlers env tenant by db candidate_id sequence_id draft_id target purpose h = (
  gate_paused env tenant by _ db h,
  gate_paused env tenant by _ db h,
  gate_paused env tenant by _ db h,
  gate_paused env tenant by _ db h,
)

-- No active approval, no send.
unapproved_refused :
    (env : Env) (tenant draft_id : Text) (db : Db)
    → ((d : Draft)
        → find_first (the_draft tenant draft_id) db.drafts ≡ some d
        → find_first (of_draft tenant d.id) db.approvals ≡ none)
    → (why : Error) × ((assert_send_allowed env tenant draft_id db).0 ≡ err why)
unapproved_refused env tenant draft_id db h =
    elim (outcome (assert_send_allowed env tenant draft_id db)) [
      | inl fails ↦ fails
      | inr (g, passes) ↦
          let (consent, _) = assert_send_allowed_returns env tenant draft_id db g _ passes in
          ground (arith, h g.draft consent.the_draft_row, consent.approved)
    ]

-- A draft that is rejected is not sent.
rejected_refused :
    (env : Env) (tenant draft_id : Text) (db : Db) (d : Draft)
    → find_first (the_draft tenant draft_id) db.drafts ≡ some d
    → is_rejected d.status ≡ true
    → (why : Error) × ((assert_send_allowed env tenant draft_id db).0 ≡ err why)
rejected_refused env tenant draft_id db d found rejected =
    elim (outcome (assert_send_allowed env tenant draft_id db)) [
      | inl fails ↦ fails
      | inr (g, passes) ↦
          let (consent, _) = assert_send_allowed_returns env tenant draft_id db g _ passes in
          ground (arith, found, rejected, consent.the_draft_row, consent.standing)
    ]

-- The draft's row after its status was set.
pub status_set :
    (tenant draft_id : Text) (status : DraftStatus) (db : Db) (d : Draft)
    → find_first (the_draft tenant draft_id) db.drafts ≡ some d
    → find_first (the_draft tenant draft_id) (set_draft_status d.id status db).drafts
      ≡ some (record d { status = status })
unfolding set_draft_status
status_set tenant draft_id status db d found =
    find_first-update_where (the_draft tenant draft_id) (λ x. text_eq x.id d.id)
      (λ x. record x { status = status }) db.drafts (λ x. refl)
    ∙ rw found (rw (text_eq_refl d.id) refl)

reject_writes-found :
    (env : Env) (tenant draft_id rejected_by by : Text) (db : Db) (d : Draft) (x : Draft × Bool)
    (db' : Db)
    → find_first (the_draft tenant draft_id) db.drafts ≡ some d
    → reject_writes env tenant d rejected_by by db ≡ (ok x, db')
    → find_first (the_draft tenant draft_id) db'.drafts
      ≡ some (record d { status = DraftStatus.rejected })
unfolding reject_writes log revoke_approvals
reject_writes-found env tenant draft_id rejected_by by db d x db' found h =
    let (_, h1) = throw_if_then (is_superseded d.status) _ _ db x db' h in
    ap (λ (y : Result (Draft × Bool) × Db). find_first (the_draft tenant draft_id) y.1.drafts)
      (sym h1)
    ∙ status_set tenant draft_id DraftStatus.rejected (revoke_approvals tenant d.id db) d found

reject_found :
    (env : Env) (tenant draft_id rejected_by by : Text) (db : Db) (d : Draft) (x : Draft × Bool)
    (db' : Db)
    → find_first (the_draft tenant draft_id) db.drafts ≡ some d
    → branch
        (is_rejected d.status)
        (pure (rejected_before d))
        (reject_writes env tenant d rejected_by by)
        db
      ≡ (ok x, db')
    → (why : Error) × ((assert_send_allowed env tenant draft_id db').0 ≡ err why)
reject_found env tenant draft_id rejected_by by db d x db' found h =
    elim (Bool-cases (is_rejected d.status)) [
      | inl before ↦
          let same : db ≡ db' = ground (arith, before, h) in
          rejected_refused env tenant draft_id db' d (rw (sym same) found) before
      | inr fresh ↦
          rejected_refused env tenant draft_id db' (record d { status = DraftStatus.rejected })
            (reject_writes-found env tenant draft_id rejected_by by db d x db' found
              (ground (arith, fresh, h)))
            refl
    ]

-- After a draft was rejected, also if it had been before, the gate refuses to send it.
pub refused-reject_draft :
    (env : Env) (tenant draft_id rejected_by by : Text) (db : Db) (x : Draft × Bool) (db' : Db)
    → reject_draft env tenant draft_id rejected_by by db ≡ (ok x, db')
    → (why : Error) × ((assert_send_allowed env tenant draft_id db').0 ≡ err why)
unfolding reject_draft
refused-reject_draft env tenant draft_id rejected_by by db x db' h =
    let (d, found, h1) = require_draft_then tenant draft_id _ db x db' h in
    let (_, h2) = throw_if_then (is_sent d.status) _ _ db x db' h1 in
    reject_found env tenant draft_id rejected_by by db d x db' found h2

revoked_none :
    (env : Env) (tenant draft_id by : Text) (db : Db) (d : Draft) (u : Unit {0}) (db' : Db)
    → (do
      found ← gets λ s. any (of_draft tenant draft_id) s.approvals
      modify (revoke_approvals tenant draft_id)
      throw_if (not found) (not_found (text "Active approval not found"))
      modify (set_draft_status d.id DraftStatus.awaiting_approval)
      _ ← log env (logged tenant (text "sdr_approval_revoked") (text "SdrDraft") draft_id none by)
      pure tt)
        db
      ≡ (ok u, db')
    → find_first (of_draft tenant draft_id) db'.approvals ≡ none
unfolding revoke_approvals set_draft_status log
revoked_none env tenant draft_id by db d u db' h =
    let (_, h1) =
      throw_if_then (not (any (of_draft tenant draft_id) db.approvals)) _ _
        (revoke_approvals tenant draft_id db) u db' h in
    ap (λ (y : Result (Unit {0}) × Db). find_first (of_draft tenant draft_id) y.1.approvals)
      (sym h1)
    ∙ find_first-update_where_none (of_draft tenant draft_id) revoked db.approvals
        (λ x. ground arith)

-- After an approval was revoked the gate refuses to send the draft.
pub refused-revoke_approval :
    (env : Env) (tenant draft_id by : Text) (db : Db) (u : Unit {0}) (db' : Db)
    → revoke_approval env tenant draft_id by db ≡ (ok u, db')
    → (why : Error) × ((assert_send_allowed env tenant draft_id db').0 ≡ err why)
unfolding revoke_approval has_id
refused-revoke_approval env tenant draft_id by db u db' h =
    let (d, found, h1) = require_draft_then tenant draft_id _ db u db' h in
    unapproved_refused env tenant draft_id db' (λ d' found'.
      let its : text_eq d'.id draft_id ≡ true =
        ground (arith, find_first_sound (the_draft tenant draft_id) db'.drafts found') in
      ap (λ i. find_first (of_draft tenant i) db'.approvals) (text_eq_sound d'.id draft_id its)
      ∙ revoked_none env tenant draft_id by db d u db' h1)
