-- ===== src/Sdr/Notes.antt =====
-- Notes in the CRM over retries.
use zex_platform.Base.{
  Text, text_eq_refl, ◌≡◌, refl, sym, ap, ◌∙◌, inl, inr, Option, none, some, arith, find_first,
  Option-cases,
}
use zex_platform.Base.Effects.{Result, ok, pure, ◌>>◌}
use zex_platform.Store.{create_note, CrmCall, Db, Env}
use zex_platform.Outcomes.{bind_returns, pure_returns}
use zex_platform.Checkpoints.{
  done, open_step, progress, of_step, same_write, get_completed, put_checkpoint, record_success,
}
use zex_platform.Sdr.Crm.{crm_call, note_from, note_once}

-- After the step was recorded, its lookup finds the id.
get_completed-put_checkpoint :
    (tenant job person : Text) (id : Text) (db : Db)
    → find_first (of_step tenant job create_note) db.checkpoints ≡ none
    → progress (
        find_first
          (of_step tenant job create_note)
          (put_checkpoint tenant job person create_note (some id) db).checkpoints)
      ≡ done (some id)
unfolding put_checkpoint find_first same_write
get_completed-put_checkpoint tenant job person id db h =
    rw (h) (rw (text_eq_refl tenant, text_eq_refl job) refl)

note_done :
    (env : Env) (tenant job person : Text) (call : CrmCall) (db : Db) (id : Option Text)
    → progress (find_first (of_step tenant job create_note) db.checkpoints) ≡ done id
    → note_once env tenant job person call db ≡ (ok id, db)
unfolding note_once get_completed
note_done env tenant job person call db id h = rw (h, note_from) refl

crm_call-checkpoints :
    (env : Env) (call : CrmCall) (db : Db) → (crm_call env call db).1.checkpoints ≡ db.checkpoints
unfolding crm_call
crm_call-checkpoints env call db = refl

-- The step is done after a new note was made.
new_note :
    (env : Env) (tenant job person : Text) (call : CrmCall) (db : Db) (id : Option Text) (db' : Db)
    → find_first (of_step tenant job create_note) db.checkpoints ≡ none
    → note_from env tenant job person call open_step db ≡ (ok id, db')
    → progress (find_first (of_step tenant job create_note) db'.checkpoints) ≡ done id
unfolding note_from record_success
new_note env tenant job person call db id db' unknown h =
    let r =
      bind_returns (crm_call env call)
        (λ i. record_success tenant job person create_note (some i) >> pure (some i)) db id db' h in
    let (same_id, same) =
      pure_returns (some r.value)
        (put_checkpoint tenant job person create_note (some r.value) r.left) id db' r.next in
    let kept : r.left.checkpoints ≡ db.checkpoints =
      ap (λ (x : Result Text × Db). x.1.checkpoints) (sym r.here)
      ∙ crm_call-checkpoints env call db in
    ap (λ (s : Db). progress (find_first (of_step tenant job create_note) s.checkpoints)) (sym same)
    ∙ get_completed-put_checkpoint tenant job person r.value r.left
        (ap (find_first (of_step tenant job create_note)) kept ∙ unknown)
    ∙ ap done same_id

-- Once a note was made for a job, a retry of the job, also with another text or another provider's
-- answers, returns the same id, calls the CRM no more and writes nothing.
pub again-note_once :
    (env env' : Env) (tenant job person person' : Text) (call call' : CrmCall) (db : Db)
    (id : Option Text) (db' : Db)
    → note_once env tenant job person call db ≡ (ok id, db')
    → note_once env' tenant job person' call' db' ≡ (ok id, db')
unfolding note_once get_completed note_from
again-note_once env env' tenant job person person' call call' db id db' h =
    elim (Option-cases (find_first (of_step tenant job create_note) db.checkpoints)) [
      | inl unknown ↦
          note_done env' tenant job person' call' db' id
            (new_note env tenant job person call db id db' unknown (ground (arith, unknown, h)))
      | inr (c, known) ↦
          let (same_id, same) = pure_returns c.external_id db id db' (ground (arith, known, h)) in
          note_done env' tenant job person' call' db' id
            (rw (sym same) (ap progress known ∙ ap done same_id))
    ]
