-- ===== src/Jobs/Again.antt =====
-- What is left for another attempt of a job that succeeded.
use zex_platform.Base.{
  ℕ, Text, text_eq_refl, ◌≡◌, ◌≢◌, refl, sym, ap, subst, ◌∙◌, inl, inr, true, Option, none, some,
  arith, List, [], ◌∷◌, ◌++◌, All, find_first, Option-cases, length,
}
use zex_platform.Base.Effects.{
  recover, try_catch, or_throw, Error, Result, ok, err, pure, ◌>>=◌, ◌>>◌,
}
use zex_platform.Store.{
  CrmWrite, update_person, create_note, link_note_to_person, CrmCall, Tenant, Lead, Enrichment, Db,
  Action, Env,
}
use zex_platform.Checkpoints.{
  Progress, done, open_step, progress, same_write, of_step, get_completed, put_checkpoint,
  record_success,
}
use zex_platform.Frames.{Within}
use zex_platform.Outcomes.{outcome, bind_returns, then_returns, pure_returns, lift_then}
use zex_platform.Sdr.Crm.{crm_call}
use zex_platform.Sdr.Templates.{some_text}
use zex_platform.Scoring.Engine.{Score}
use zex_platform.Jobs.Steps.{
  EnrichJob, Settings, save_checkpoint, update_from, update_once, score_note_from, score_note_once,
  score_link_from, score_link_once, Opened,
}
use zex_platform.Jobs.Enrich.{
  gather, apply_score, Scored, write_crm, record_score, enrich_and_score, enrich_failed, start_log,
  process,
}
use zex_platform.Jobs.Repeats.{
  put_open, IsOpen, Calls, kind, process-Calls, note-Calls, link-Calls, opportunity_if-Calls,
  record_score-Calls,
}

same_write_refl : (w : CrmWrite) → same_write w w ≡ true
unfolding same_write
same_write_refl w = ground arith

module _ (env : Env) (j : EnrichJob) where
  -- The write has a checkpoint.
  abbrev Saved : Db → CrmWrite → Type 0
  Saved s w = ¬ IsOpen j.tenant j.log_id s w

  kept_on : (s t : Db) (w : CrmWrite) → Calls j.tenant j.log_id s t → Saved s w → Saved t w
  kept_on s t w c h k = h (c.stays w k)

  put-Saved :
      (p : Text) (w : CrmWrite) (id : Option Text) (s : Db)
      → Saved (put_checkpoint j.tenant j.log_id p w id s) w
  unfolding put_checkpoint find_first
  put-Saved p w id s h =
      elim (Option-cases (find_first (of_step j.tenant j.log_id w) s.checkpoints)) [
        | inl none_yet ↦
            ground
              (arith, none_yet, h, text_eq_refl j.tenant, text_eq_refl j.log_id, same_write_refl w)
        | inr (c, known) ↦ ground (arith, known, put_open j.tenant j.log_id p w w id s h)
      ]

  save-Saved :
      (w : CrmWrite) (id : Option Text) (s : Db) (u : Unit {0}) (t : Db)
      → save_checkpoint env j w id s ≡ (ok u, t)
      → Saved t w
  unfolding save_checkpoint record_success
  save-Saved w id s u t h =
      let k = lift_then (env.checkpoint_saved (length s.crm)) _ s u t h in
      subst (λ (x : Db). Saved x w) (ap (λ (x : Result (Unit {0}) × Db). x.1) k)
        (put-Saved j.person w id s)

  -- A step that returned has its checkpoint.
  step-Saved :
      {A : Type 0} (w : CrmWrite) (f : Progress → Action A) (s : Db) (a : A) (t : Db)
      → ((id : Option Text) → (f (done id) s).1 ≡ s)
      → (f open_step s ≡ (ok a, t) → Saved t w)
      → (get_completed j.tenant j.log_id w >>= f) s ≡ (ok a, t)
      → Saved t w
  unfolding get_completed
  step-Saved w f s a t was is h =
      elim (Option-cases (find_first (of_step j.tenant j.log_id w) s.checkpoints)) [
        | inl none_yet ↦ is (ap (λ o. f (progress o) s) (sym none_yet) ∙ h)
        | inr (c, known) ↦
            let same : t ≡ s =
              ap (λ (x : Result _ × Db). x.1) (sym h ∙ ap (λ o. f (progress o) s) known)
              ∙ was c.external_id in
            λ k. ground (arith, known, subst (λ (x : Db). IsOpen j.tenant j.log_id x w) same k)
      ]

  or_throw_same : {A : Type 0} (o : Option A) (e : Error) (s : Db) → (or_throw o e s).1 ≡ s
  or_throw_same none e s = refl
  or_throw_same (some a) e s = refl

  -- The way from a state to the one that a part left.
  ran :
      {A : Type 0} (m : Action A) (s : Db) (r : Result A) (t : Db)
      → Within (Calls j.tenant j.log_id) m
      → m s ≡ (r, t)
      → Calls j.tenant j.log_id s t
  ran m s r t within e =
      subst (λ (x : Result _ × Db). Calls j.tenant j.log_id s x.1) e (within.run s)

  update-Saved :
      (p : Lead) (e : Enrichment) (s : Db) (u : Unit {0}) (t : Db)
      → update_once env j p e s ≡ (ok u, t)
      → Saved t update_person
  unfolding update_once update_from
  update-Saved p e s u t h =
      step-Saved update_person _ s u t (λ id. refl)
        (λ k.
          let r =
            bind_returns (crm_call env _) (λ _. save_checkpoint env j update_person none) s u t k in
          save-Saved update_person none r.left u t r.next)
        h

  note-Saved :
      (x : Score) (s : Db) (id : Text) (t : Db)
      → score_note_once env j x s ≡ (ok id, t)
      → Saved t create_note
  unfolding score_note_once score_note_from
  note-Saved x s id t h =
      step-Saved create_note _ s id t (λ k. or_throw_same (some_text k) _ s)
        (λ k.
          let r =
            bind_returns (crm_call env _)
              (λ i. save_checkpoint env j create_note (some i) >> pure i) s id t k in
          let q =
            then_returns (save_checkpoint env j create_note (some r.value)) (pure r.value) r.left id
              t r.next in
          subst (λ (y : Db). Saved y create_note) (pure_returns r.value q.left id t q.next).1
            (save-Saved create_note (some r.value) r.left q.value q.left q.here))
        h

  link-Saved :
      (note_id : Text) (s : Db) (u : Unit {0}) (t : Db)
      → score_link_once env j note_id s ≡ (ok u, t)
      → Saved t link_note_to_person
  unfolding score_link_once score_link_from
  link-Saved note_id s u t h =
      step-Saved link_note_to_person _ s u t (λ id. refl)
        (λ k.
          let r =
            bind_returns (crm_call env _)
              (λ _. save_checkpoint env j link_note_to_person (some note_id)) s u t k in
          save-Saved link_note_to_person (some note_id) r.left u t r.next)
        h

  -- The three writes that every attempt asks for.
  record Complete (s : Db) : Type 0 where
    updated : Saved s update_person
    noted : Saved s create_note
    linked : Saved s link_note_to_person

  write_crm-Complete :
      (settings : Settings) (z : Tenant) (p : Lead) (e : Enrichment) (x : Score) (s : Db)
      (o : Opened) (t : Db)
      → write_crm env settings j z p e x s ≡ (ok o, t)
      → Complete t
  unfolding write_crm
  write_crm-Complete settings z p e x s o t h =
      let r = then_returns (update_once env j p e) _ s o t h in
      let q = bind_returns (score_note_once env j x) _ r.left o t r.next in
      let l = then_returns (score_link_once env j q.value) _ q.left o t q.next in
      let last = ran _ l.left (ok o) t (opportunity_if-Calls env j p x.score _) l.next in
      let linking = ran _ q.left _ l.left (link-Calls env j q.value) l.here in
      let noting = ran _ r.left _ q.left (note-Calls env j x) q.here in
      record {
        updated = kept_on l.left t update_person last (
            kept_on q.left l.left update_person linking (
              kept_on r.left q.left update_person noting
                (update-Saved p e s r.value r.left r.here)));
        noted =
            kept_on l.left t create_note last (
              kept_on q.left l.left create_note linking
                (note-Saved x r.left q.value q.left q.here));
        linked =
            kept_on l.left t link_note_to_person last
              (link-Saved q.value q.left l.value l.left l.here);
      }

  Complete-on : (s t : Db) → Calls j.tenant j.log_id s t → Complete s → Complete t
  Complete-on s t c h = record {
    updated = kept_on s t update_person c h.updated;
    noted = kept_on s t create_note c h.noted;
    linked = kept_on s t link_note_to_person c h.linked;
  }

  enrich-Complete :
      (settings : Settings) (s : Db) (x : Scored) (t : Db)
      → enrich_and_score env settings j s ≡ (ok x, t)
      → Complete t
  unfolding enrich_and_score apply_score
  enrich-Complete settings s x t h =
      let a = bind_returns (gather env settings j) (apply_score env settings j) s x t h in
      let g = a.value in
      let b =
        bind_returns (write_crm env settings j g.tenant g.lead g.enrichment g.score)
          (record_score env j g.lead g.enrichment g.score) a.left x t a.next in
      Complete-on b.left t
        (ran _ b.left (ok x) t (record_score-Calls env j g.lead g.enrichment g.score b.value)
          b.next)
        (write_crm-Complete settings g.tenant g.lead g.enrichment g.score a.left b.value b.left
          b.here)

  recovered :
      (r : Result Scored) (s : Db) (x : Scored) (t : Db)
      → recover (enrich_failed j) r s ≡ (ok x, t)
      → (r ≡ ok x) × (s ≡ t)
  unfolding enrich_failed
  recovered (ok y) s x t h =
      (ap (λ (z : Result Scored × Db). z.0) h, ap (λ (z : Result Scored × Db). z.1) h)
  recovered (err e) s x t h = ground arith

  process-Complete :
      (settings : Settings) (s : Db) (x : Scored) (t : Db)
      → process env settings j s ≡ (ok x, t)
      → Complete t
  unfolding process
  process-Complete settings s x t h =
      let r =
        then_returns (start_log j) (try_catch (enrich_and_score env settings j) (enrich_failed j)) s
          x t h in
      let run = enrich_and_score env settings j r.left in
      let (fine, same) = recovered run.0 run.1 x t r.next in
      elim (outcome run) [
        | inl (e, fails) ↦ ground (arith, fine, fails)
        | inr (a, returns) ↦ subst Complete same (enrich-Complete settings r.left a run.1 returns)
      ]

-- A call that another attempt may make.
abbrev pub IsLeft : CrmCall → Type 0
IsLeft c = (kind c ≢ update_person) × ((kind c ≢ create_note) × (kind c ≢ link_note_to_person))

all-IsLeft :
    (tenant job : Text) (s : Db) (calls : List CrmCall)
    → (find_first (of_step tenant job update_person) s.checkpoints ≢ none)
    → (find_first (of_step tenant job create_note) s.checkpoints ≢ none)
    → (find_first (of_step tenant job link_note_to_person) s.checkpoints ≢ none)
    → All (λ c. IsOpen tenant job s (kind c)) calls
    → All IsLeft calls
all-IsLeft tenant job s [] u n l h = tt
all-IsLeft tenant job s (c ∷ calls) u n l (a, h) = (
  (differs update_person u, (differs create_note n, differs link_note_to_person l)),
  all-IsLeft tenant job s calls u n l h,
)
  where
    differs : (w : CrmWrite) → (find_first (of_step tenant job w) s.checkpoints ≢ none) → kind c ≢ w
    differs w known same = known (subst (IsOpen tenant job s) same a)

-- After an attempt that succeeded another attempt of the job, with whatever answers of the CRM and of the
-- data providers, neither updates the person again nor makes nor links another note.
pub process-IsLeft :
    (env env' : Env) (settings settings' : Settings) (j : EnrichJob) (n : ℕ) (s : Db) (x : Scored)
    (t : Db)
    → process env settings j s ≡ (ok x, t)
    → let u = (process env' settings' (record j { attempts_made = n }) t).1 in
      (calls : List CrmCall) × ((u.crm ≡ calls ++ t.crm) × All IsLeft calls)
process-IsLeft env env' settings settings' j n s x t h =
    let done = process-Complete env j settings s x t h in
    let c = process-Calls env' settings' (record j { attempts_made = n }) t in
    (
      c.calls,
      (
        c.crm,
        all-IsLeft j.tenant j.log_id t c.calls done.updated done.noted done.linked c.open_before,
      ),
    )
