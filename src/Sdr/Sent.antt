-- ===== src/Sdr/Sent.antt =====
-- What a send writes after its message was sent keeps the message and its key.
use mathlib.Core.Option
use zex_platform.Base.{
  Text, text_eq, ◌≡◌, refl, ap, ◌∙◌, inl, inr, Bool, true, Option, none, some, arith, ◌∷◌,
  find_first, find_first-update_where, touched, Bool-cases,
}
use zex_platform.Store.{
  CrmSync, CrmCall, CrmWrite, DraftStatus, Draft, Message, Db, Env, Entry, log,
}
use zex_platform.Checkpoints.{Progress, done, open_step, get_completed, record_success}
use zex_platform.Frames.{IsOrder, Within, frame_rules}
use zex_platform.Sdr.Statuses.{the_draft}
use zex_platform.Sdr.Lookups.{require_sequence, require_draft}
use zex_platform.Sdr.Drafts.{set_draft_status}
use zex_platform.Sdr.Crm.{
  crm_call, note_from, note_once, link_from, link_once, link_if_known, sync_crm_for_message,
  set_crm_sync, update_message, synced, is_delivered,
}
use zex_platform.Sdr.Send.{
  idempotency_key, of_key, crm_failed, activate_sequence, sync_or_note_failure,
}

module _ (tenant draft_id key : Text) where
  -- The draft has the key, and a message is the first of the key.
  pub record Held (x : Message) (s : Db) : Type 0 where
    pub row : Draft
    pub there : find_first (the_draft tenant draft_id) s.drafts ≡ some row
    pub keyed : idempotency_key tenant row ≡ key
    pub first : find_first (of_key tenant key) s.messages ≡ some x

  pub apart-Held :
      (x : Message) (s t : Db) → t.drafts ≡ s.drafts → t.messages ≡ s.messages → Held x s → Held x t
  apart-Held x s t d m h = record {
    row = h.row;
    there = ap (find_first (the_draft tenant draft_id)) d ∙ h.there;
    keyed = h.keyed;
    first = ap (find_first (of_key tenant key)) m ∙ h.first;
  }

  same_key :
      (q : Draft → Bool) (status : DraftStatus) (d : Draft)
      → idempotency_key tenant (touched q (λ x. record x { status = status }) d)
        ≡ idempotency_key tenant d
  unfolding idempotency_key
  same_key q status d = elim (Bool-cases (q d)) [ inl e ↦ rw e refl | inr e ↦ rw e refl ]

  draft-Held :
      (x : Message) (id : Text) (status : DraftStatus) (s : Db)
      → Held x s
      → Held x (set_draft_status id status s)
  unfolding set_draft_status
  draft-Held x id status s h = record {
    row = touched (λ d. text_eq d.id id) (λ d. record d { status = status }) h.row;
    there =
        find_first-update_where (the_draft tenant draft_id) (λ d. text_eq d.id id)
          (λ d. record d { status = status }) s.drafts (λ d. refl)
        ∙ ap (Option.map (touched (λ d. text_eq d.id id) (λ d. record d { status = status })))
            h.there;
    keyed = same_key (λ d. text_eq d.id id) status h.row ∙ h.keyed;
    first = h.first;
  }

  pub update-Held :
      (x : Message) (id : Text) (f : Message → Message) (s : Db)
      → ((m : Message) → (f m).tenant ≡ m.tenant)
      → ((m : Message) → (f m).idempotency_key ≡ m.idempotency_key)
      → Held x s
      → Held (touched (λ m. text_eq m.id id) f x) (update_message id f s)
  unfolding update_message
  update-Held x id f s ht hk h = record {
    row = h.row;
    there = h.there;
    keyed = h.keyed;
    first =
        find_first-update_where (of_key tenant key) _ f s.messages (λ m. rw (ht m, hk m))
        ∙ ap (Option.map (touched _ f)) h.first;
  }

  -- The first message of the draft's key was sent.
  pub record Sent (s : Db) : Type 0 where
    pub message : Message
    pub held : Held message s
    pub delivered : is_delivered message.status ≡ true

  abbrev pub Kept : Db → Db → Type 0
  Kept s t = Sent s → Sent t

  pub order : IsOrder Kept
  order = record { same = λ s h. h; chain = λ s t u f g h. g (f h) }

  pub apart-Kept : (s t : Db) → t.drafts ≡ s.drafts → t.messages ≡ s.messages → Kept s t
  apart-Kept s t d m h = record {
    message = h.message;
    held = apart-Held h.message s t d m h.held;
    delivered = h.delivered;
  }

  update-Kept :
      (id : Text) (f : Message → Message) (s : Db)
      → ((m : Message) → (f m).tenant ≡ m.tenant)
      → ((m : Message) → (f m).idempotency_key ≡ m.idempotency_key)
      → ((m : Message) → (f m).status ≡ m.status)
      → Kept s (update_message id f s)
  update-Kept id f s ht hk hs h = record {
    message = touched (λ m. text_eq m.id id) f h.message;
    held = update-Held h.message id f s ht hk h.held;
    delivered = elim (Bool-cases (text_eq h.message.id id)) [
      | inl e ↦ rw e (ap is_delivered (hs h.message) ∙ h.delivered)
      | inr e ↦ rw e h.delivered
    ];
  }

  synced-Kept : (id : Text) (s : Db) → Kept s (update_message id synced s)
  synced-Kept id s = update-Kept id synced s (λ m. refl) (λ m. refl) (λ m. refl)

  failed-Kept : (id why : Text) (s : Db) → Kept s (update_message id (crm_failed why) s)
  failed-Kept id why s = update-Kept id (crm_failed why) s (λ m. refl) (λ m. refl) (λ m. refl)

  crm_sync-Kept : (id : Text) (x : CrmSync) (s : Db) → Kept s (set_crm_sync id x s)
  unfolding set_crm_sync
  crm_sync-Kept id x s = apart-Kept s _ refl refl

  pub activate-Kept : (id : Text) (s : Db) → Kept s (activate_sequence id s)
  unfolding activate_sequence set_crm_sync
  activate-Kept id s = apart-Kept s _ (ground arith) (ground arith)

  pub draft-Kept :
      (id : Text) (status : DraftStatus) (s : Db) → Kept s (set_draft_status id status s)
  draft-Kept id status s h = record {
    message = h.message;
    held = draft-Held h.message id status s h.held;
    delivered = h.delivered;
  }

  pub log-Kept : (env : Env) (e : Entry) → Within Kept (log env e)
  unfolding log
  log-Kept env e = record { run = λ s. apart-Kept s _ refl refl }

  called-Kept : (c : CrmCall) (s : Db) → Kept s (record s { crm = c ∷ s.crm })
  called-Kept c s = apart-Kept s _ refl refl

  crm_call-Kept : (env : Env) (c : CrmCall) → Within Kept (crm_call env c)
  unfolding crm_call
  crm_call-Kept env c = search (frame_rules, order, called-Kept) depth 8

  success-Kept :
      (t job person : Text) (w : CrmWrite) (x : Option Text)
      → Within Kept (record_success t job person w x)
  unfolding record_success
  success-Kept t job person w x = record { run = λ s. apart-Kept s _ refl refl }

  note_from-Kept :
      (env : Env) (t job person : Text) (call : CrmCall) (p : Progress)
      → Within Kept (note_from env t job person call p)
  unfolding note_from
  note_from-Kept env t job person call (done id) = search (frame_rules, order)
  note_from-Kept env t job person call open_step =
      search (frame_rules, order, crm_call-Kept, success-Kept) depth 8

  note_once-Kept :
      (env : Env) (t job person : Text) (call : CrmCall)
      → Within Kept (note_once env t job person call)
  unfolding note_once get_completed
  note_once-Kept env t job person call = search (frame_rules, order, note_from-Kept)

  link_from-Kept :
      (env : Env) (t job note_id person : Text) (p : Progress)
      → Within Kept (link_from env t job note_id person p)
  unfolding link_from
  link_from-Kept env t job note_id person (done id) = search (frame_rules, order)
  link_from-Kept env t job note_id person open_step =
      search (frame_rules, order, crm_call-Kept, success-Kept) depth 8

  link-Kept :
      (env : Env) (t job : Text) (note_id person : Option Text)
      → Within Kept (link_if_known env t job note_id person)
  unfolding link_if_known link_once get_completed
  link-Kept env t job none person = search (frame_rules, order)
  link-Kept env t job (some n) none = search (frame_rules, order)
  link-Kept env t job (some n) (some p) = search (frame_rules, order, link_from-Kept)

  sync-Kept : (env : Env) (t id by : Text) → Within Kept (sync_crm_for_message env t id by)
  unfolding sync_crm_for_message require_sequence require_draft
  sync-Kept env t id by =
      search (frame_rules, order, note_once-Kept, link-Kept, synced-Kept, crm_sync-Kept, log-Kept)
        depth 16

  pub noted-Kept : (env : Env) (t id by : Text) → Within Kept (sync_or_note_failure env t id by)
  unfolding sync_or_note_failure
  noted-Kept env t id by = search (frame_rules, order, sync-Kept, failed-Kept, log-Kept) depth 10
