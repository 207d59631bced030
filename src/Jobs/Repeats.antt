-- ===== src/Jobs/Repeats.antt =====
-- Which CRM writes an attempt of the job makes.
use mathlib.Core.List.{append_assoc}
use mathlib.Core.Option
use zex_platform.Base.{
  find_first-update_where, ℕ, Text, ◌≡◌, refl, sym, ap, subst, ◌∙◌, inl, inr, Bool, true, false,
  Option, none, some, arith, List, [], ◌∷◌, ◌++◌, All, find_first, Option-cases,
}
use zex_platform.Base.Effects.{Error, Result, ◌>>=◌}
use zex_platform.Store.{
  CrmWrite, update_person, create_note, link_note_to_person, create_opportunity, create_company,
  CrmCall, note, note_target, company, person, opportunity, Tenant, Lead, Enrichment, WebhookLog,
  Db, Action, Env, Entry, log,
}
use zex_platform.Checkpoints.{
  Progress, done, open_step, of_step, get_completed, put_checkpoint, record_success,
}
use zex_platform.Frames.{
  IsOrder, Within, continue-Within, pure-Within, or_throw-Within, frame_rules,
}
use zex_platform.Sdr.Crm.{crm_call}
use zex_platform.Scoring.Engine.{Score}
use zex_platform.Jobs.Steps.{
  EnrichJob, Settings, ask, person_for, save_checkpoint, update_from, update_once, score_note_from,
  score_note_once, score_link_from, score_link_once, opportunity_from, opportunity_once, Opened,
  opportunity_if,
}
use zex_platform.Jobs.Enrich.{
  set_log, add_score, Gathered, gather, apply_score, write_crm, record_score, enrich_and_score,
  enrich_failed, start_log, process,
}

-- The kind of write that a call is.
abbrev pub kind : CrmCall → CrmWrite
kind (note tenant title body) = create_note
kind (note_target tenant note_id p) = link_note_to_person
kind (company tenant name domain website) = create_company
kind (person tenant p title c) = update_person
kind (opportunity tenant p name stage n) = create_opportunity

module _ (tenant job : Text) where
  -- No checkpoint of the job says that the write succeeded.
  abbrev pub IsOpen : Db → CrmWrite → Type 0
  IsOpen s w = find_first (of_step tenant job w) s.checkpoints ≡ none

  -- The calls of the CRM from a state to a later one: writes that were open, and no checkpoint is lost.
  pub record Calls (s t : Db) : Type 0 where
    pub calls : List CrmCall
    pub crm : t.crm ≡ calls ++ s.crm
    pub open_before : All (λ c. IsOpen s (kind c)) calls
    pub stays : (w : CrmWrite) → IsOpen t w → IsOpen s w

  quiet : (s t : Db) → t.crm ≡ s.crm → t.checkpoints ≡ s.checkpoints → Calls s t
  quiet s t crm same = record {
    calls = [];
    crm = crm;
    open_before = tt;
    stays = λ w h. subst (λ l. find_first (of_step tenant job w) l ≡ none) same h;
  }

  joined :
      (s t : Db) (cs ds : List CrmCall)
      → ((w : CrmWrite) → IsOpen t w → IsOpen s w)
      → All (λ c. IsOpen t (kind c)) cs
      → All (λ c. IsOpen s (kind c)) ds
      → All (λ c. IsOpen s (kind c)) (cs ++ ds)
  joined s t [] ds back h k = k
  joined s t (c ∷ cs) ds back (a, h) k = (back (kind c) a, joined s t cs ds back h k)

  pub Calls-IsOrder : IsOrder Calls
  Calls-IsOrder = record {
    same = λ s. quiet s s refl refl;
    chain = λ s t u a b. record {
      calls = b.calls ++ a.calls;
      crm = b.crm ∙ ap (λ l. b.calls ++ l) a.crm ∙ sym (append_assoc b.calls a.calls s.crm);
      open_before = joined s t b.calls a.calls a.stays b.open_before a.open_before;
      stays = λ w h. a.stays w (b.stays w h);
    };
  }

  map_none : {A B : Type 0} (f : A → B) (o : Option A) → Option.map f o ≡ none → o ≡ none
  map_none f none h = refl
  map_none f (some a) h = ground arith

  pub put_open :
      (p : Text) (w v : CrmWrite) (id : Option Text) (s : Db)
      → IsOpen (put_checkpoint tenant job p w id s) v
      → IsOpen s v
  unfolding put_checkpoint find_first
  put_open p w v id s h = elim (Option-cases (find_first (of_step tenant job w) s.checkpoints)) [
    | inl none_yet ↦ ground (arith, none_yet, h)
    | inr (c, known) ↦ map_none _ _ (
        sym (
          find_first-update_where (of_step tenant job v) (of_step tenant job w)
            (λ c. record c { person = p; external_id = id }) s.checkpoints (λ c. refl))
        ∙ ap (find_first (of_step tenant job v)) (ground (arith, known))
        ∙ h)
  ]

  put_crm :
      (p : Text) (w : CrmWrite) (id : Option Text) (s : Db)
      → (put_checkpoint tenant job p w id s).crm ≡ s.crm
  unfolding put_checkpoint
  put_crm p w id s = refl

  put-Calls :
      (p : Text) (w : CrmWrite) (id : Option Text) (s : Db)
      → Calls s (put_checkpoint tenant job p w id s)
  put-Calls p w id s = record {
    calls = [];
    crm = put_crm p w id s;
    open_before = tt;
    stays = λ v h. put_open p w v id s h;
  }

  module _ (env : Env) where
    log-Calls : (e : Entry) → Within Calls (log env e)
    unfolding log
    log-Calls e = record { run = λ s. quiet s _ refl refl }

    ask-Calls : {A : Type 0} (answer : Db → Result A) → Within Calls (ask answer)
    unfolding ask
    ask-Calls answer = record { run = λ s. quiet s _ refl refl }

    call-Calls : (call : CrmCall) (s : Db) → IsOpen s (kind call) → Calls s (crm_call env call s).1
    unfolding crm_call
    call-Calls call s h = record {
      calls = call ∷ [];
      crm = refl;
      open_before = (h, tt);
      stays = λ w k. k;
    }

    -- A step that is taken where its write is open.
    step-Within :
        {A : Type 0} (w : CrmWrite) (f : Progress → Action A)
        → ((id : Option Text) → Within Calls (f (done id)))
        → ((s : Db) → IsOpen s w → Calls s (f open_step s).1)
        → Within Calls (get_completed tenant job w >>= f)
    unfolding get_completed
    step-Within w f was is = record {
      run = λ s. elim (Option-cases (find_first (of_step tenant job w) s.checkpoints)) [
        | inl none_yet ↦ rw none_yet (is s none_yet)
        | inr (c, known) ↦ rw known ((was c.external_id).run s)
      ];
    }

module _ (env : Env) (j : EnrichJob) where
  abbrev R : Db → Db → Type 0
  R = Calls j.tenant j.log_id

  order : IsOrder R
  order = Calls-IsOrder j.tenant j.log_id

  abbrev step :
      {A : Type 0} (w : CrmWrite) (f : Progress → Action A)
      → ((id : Option Text) → Within R (f (done id)))
      → ((s : Db) → IsOpen j.tenant j.log_id s w → R s (f open_step s).1)
      → Within R (get_completed j.tenant j.log_id w >>= f)
  step = step-Within j.tenant j.log_id env

  save-Calls : (w : CrmWrite) (id : Option Text) → Within R (save_checkpoint env j w id)
  unfolding save_checkpoint record_success
  save-Calls w id = search (frame_rules, order, put-Calls)

  -- A call, and what follows it.
  call_then :
      {A : Type 0} (call : CrmCall) (f : Text → Action A) (s : Db)
      → ((id : Text) → Within R (f id))
      → IsOpen j.tenant j.log_id s (kind call)
      → R s ((crm_call env call >>= f) s).1
  call_then call f s rest is =
      continue-Within order f (crm_call env call s).0 s (crm_call env call s).1 rest
        (call-Calls j.tenant j.log_id env call s is)

  pub update-Calls : (p : Lead) (e : Enrichment) → Within R (update_once env j p e)
  unfolding update_once update_from
  update-Calls p e =
      step update_person _ (λ id. pure-Within order _)
        λ s is. call_then _ _ s (λ id. save-Calls update_person none) is

  pub note-Calls : (x : Score) → Within R (score_note_once env j x)
  unfolding score_note_once score_note_from
  note-Calls x =
      step create_note _ (λ id. or_throw-Within order _ _)
        λ s is. call_then _ _ s (λ id. search (frame_rules, order, save-Calls)) is

  pub link-Calls : (id : Text) → Within R (score_link_once env j id)
  unfolding score_link_once score_link_from
  link-Calls id =
      step link_note_to_person _ (λ k. pure-Within order _)
        λ s is. call_then _ _ s (λ k. save-Calls link_note_to_person (some id)) is

  opportunity-Calls : (p : Lead) (n : ℕ) → Within R (opportunity_once env j p n)
  unfolding opportunity_once opportunity_from
  opportunity-Calls p n =
      step create_opportunity _ (λ k. pure-Within order _)
        λ s is. call_then _ _ s (λ k. search (frame_rules, order, save-Calls)) is

  pub opportunity_if-Calls : (p : Lead) (n : ℕ) (b : Bool) → Within R (opportunity_if env j p n b)
  unfolding opportunity_if
  opportunity_if-Calls p n true = search (frame_rules, order, opportunity-Calls)
  opportunity_if-Calls p n false = search (frame_rules, order)

  add_score-R :
      (p : Lead) (e : Enrichment) (x : Score) (o : Opened) (s : Db)
      → R s (add_score env j p e x o s)
  unfolding add_score
  add_score-R p e x o s = quiet j.tenant j.log_id s _ refl refl

  set_log-R : (id : Text) (f : WebhookLog → WebhookLog) (s : Db) → R s (set_log id f s)
  unfolding set_log
  set_log-R id f s = quiet j.tenant j.log_id s _ refl refl

  log-R : (e : Entry) → Within R (log env e)
  log-R e = log-Calls j.tenant j.log_id env e

  ask-R : {A : Type 0} (answer : Db → Result A) → Within R (ask answer)
  ask-R answer = ask-Calls j.tenant j.log_id env answer

  write_crm-Calls :
      (settings : Settings) (t : Tenant) (p : Lead) (e : Enrichment) (x : Score)
      → Within R (write_crm env settings j t p e x)
  unfolding write_crm
  write_crm-Calls settings t p e x =
      search (frame_rules, order, update-Calls, note-Calls, link-Calls, opportunity_if-Calls)

  pub record_score-Calls :
      (p : Lead) (e : Enrichment) (x : Score) (o : Opened) → Within R (record_score env j p e x o)
  unfolding record_score
  record_score-Calls p e x o = search (frame_rules, order, add_score-R, set_log-R, log-R)

  person_for-Calls : (settings : Settings) → Within R (person_for env settings j)
  unfolding person_for
  person_for-Calls settings = search (frame_rules, order, ask-R)

  gather-Calls : (settings : Settings) → Within R (gather env settings j)
  unfolding gather
  gather-Calls settings = search (frame_rules, order, person_for-Calls, ask-R) depth 8

  apply_score-Calls : (settings : Settings) (g : Gathered) → Within R (apply_score env settings j g)
  unfolding apply_score
  apply_score-Calls settings g = search (frame_rules, order, write_crm-Calls, record_score-Calls)

  enrich_and_score-Calls : (settings : Settings) → Within R (enrich_and_score env settings j)
  unfolding enrich_and_score
  enrich_and_score-Calls settings = search (frame_rules, order, gather-Calls, apply_score-Calls)

  enrich_failed-Calls : (x : Error) → Within R (enrich_failed j x)
  unfolding enrich_failed
  enrich_failed-Calls x = search (frame_rules, order, set_log-R)

  start_log-Calls : Within R (start_log j)
  unfolding start_log
  start_log-Calls = search (frame_rules, order, set_log-R)

  process-Within : (settings : Settings) → Within R (process env settings j)
  unfolding process
  process-Within settings =
      search (frame_rules, order, start_log-Calls, enrich_and_score-Calls, enrich_failed-Calls)

-- An attempt of the job, whether it succeeds or fails and wherever it stops, calls the CRM only for
-- writes that no checkpoint of the job has when it starts, and loses no checkpoint.
pub process-Calls :
    (env : Env) (settings : Settings) (j : EnrichJob) (db : Db)
    → Calls j.tenant j.log_id db (process env settings j db).1
process-Calls env settings j db = (process-Within env j settings).run db
