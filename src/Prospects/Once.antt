-- ===== src/Prospects/Once.antt =====
-- A company that the CRM has created for a candidate is not created again by a later request.
use zex_platform.Base.{
  Text, text_eq, text_eq_refl, ◌≡◌, ◌≢◌, refl, sym, ap, ◌∙◌, inl, inr, Option, none, some, arith,
  ◌∷◌, length, find_first, find_first-update_where, update_where, or_else,
}
use zex_platform.Base.Effects.{Result, ok, err, message}
use zex_platform.Store.{Candidate, CrmCall, Db, Env, log, has_id}
use zex_platform.Checkpoints.{record_success, put_checkpoint}
use zex_platform.Sdr.Templates.{some_text}
use zex_platform.Prospects.Lookups.{the_row, set_candidate}
use zex_platform.Prospects.Create.{
  created_row, kept, finish_creation, creation_failed, after_call, create_approved_candidate,
}
use zex_platform.Prospects.Creating.{the_call, Creates, creates}

-- The update of the row after the company was created.
record Marks (k : Text) (f : Candidate → Candidate) : Type 0 where
  id : (x : Candidate) → (f x).id ≡ x.id
  tenant : (x : Candidate) → (f x).tenant ≡ x.tenant
  created : (x : Candidate) → (f x).created_company ≡ some k

module _ (env : Env) (tenant by : Text) (c : Candidate) (k : Text) where
  record Marked (s : Db) (saved : Result (Unit {0})) : Type 0 where
    f : Candidate → Candidate
    marks : Marks k f
    rows :
        env.checkpoint_saved (length s.crm) ≡ saved
        → (after_call env tenant c by (ok k) s).1.candidates
          ≡ update_where (λ x. text_eq x.id c.id) f s.candidates

  marked : (s : Db) (saved : Result (Unit {0})) → Marked s saved
  unfolding after_call finish_creation creation_failed set_candidate log record_success
      put_checkpoint
  marked s (ok u) = record {
    f = created_row k;
    marks = record { id = λ x. refl; tenant = λ x. refl; created = λ x. refl };
    rows = λ e. rw e refl;
  }
  marked s (err e) = record {
    f = kept (some k) (message e);
    marks = record { id = λ x. refl; tenant = λ x. refl; created = λ x. refl };
    rows = λ e. rw e refl;
  }

  found_after :
      (id : Text) (s : Db)
      → find_first (the_row tenant id) s.candidates ≡ some c
      → (x : Candidate) × (find_first
            (the_row tenant id)
            (after_call env tenant c by (ok k) s).1.candidates
          ≡ some x)
        × (x.created_company ≡ some k)
  unfolding has_id
  found_after id s found =
      let m = marked s (env.checkpoint_saved (length s.crm)) in
      (
        m.f c,
        ap (find_first (the_row tenant id)) (m.rows refl)
            ∙ find_first-update_where (the_row tenant id) (λ x. text_eq x.id c.id) m.f s.candidates
                (λ x. rw (m.marks.id x, m.marks.tenant x) refl)
            ∙ rw found (rw (text_eq_refl c.id) refl),
        m.marks.created c,
      )

known_not_none :
    (p : Option Text) (k : Text)
    → some_text (some k) ≡ some k
    → or_else p (some_text (some k)) ≢ none
known_not_none none k filled h = ground (arith, filled)
known_not_none (some x) k filled h = ground arith

has_company :
    (env : Env) (tenant id by : Text) (db t : Db) (k : Text)
    → Creates env tenant by id db t
    → ((call : CrmCall) → env.crm_write (length db.crm) call ≡ ok k)
    → (x : Candidate) × (find_first (the_row tenant id) t.candidates ≡ some x)
      × (x.created_company ≡ some k)
has_company env tenant id by db t k h answers =
    let r = h.reaches in
    let s = record r.left { crm = the_call tenant h.c ∷ r.left.crm } in
    let (x, found, created) =
      found_after env tenant by h.c k id s
        (ap (find_first (the_row tenant id)) r.looked.same_candidates ∙ h.found) in
    (
      x,
      ap (λ (y : Db). find_first (the_row tenant id) y.candidates)
            (r.rest
              ∙ ap (λ a. (after_call env tenant h.c by a s).1)
                  (ap (λ l. env.crm_write (length l) (the_call tenant h.c)) r.looked.same_crm
                    ∙ answers _))
          ∙ found,
      created,
    )

known_again :
    (env : Env) (tenant id later : Text) (t u : Db) (k : Text) (x : Candidate)
    → Creates env tenant later id t u
    → find_first (the_row tenant id) t.candidates ≡ some x
    → x.created_company ≡ some k
    → some_text (some k) ≢ some k
known_again env tenant id later t u k x h found created filled =
    known_not_none _ k filled
      (ap (or_else _) (ap some_text (sym created ∙ ap (λ c. c.created_company) same)) ∙ h.unknown)
  where
    same : x ≡ h.c
    same = ground (arith, found, h.found)

-- A creation that called the CRM and got the id of the new company (not the empty text) leaves a state in
-- which another creation of the candidate, asked for by anyone, makes no call of the CRM. This is so
-- whether or not the checkpoint could be written after the call.
pub again-create_approved_candidate :
    (env : Env) (tenant id by later : Text) (db : Db) (k : Text)
    → let t = (create_approved_candidate env tenant id by db).1 in
      t.crm ≢ db.crm
      → ((call : CrmCall) → env.crm_write (length db.crm) call ≡ ok k)
      → some_text (some k) ≡ some k
      → (create_approved_candidate env tenant id later t).1.crm ≡ t.crm
again-create_approved_candidate env tenant id by later db k called answers filled =
    elim (creates env tenant by id db) [ inl same ↦ absurd (called same) | inr h ↦ again h ]
  where
    t : Db
    t = (create_approved_candidate env tenant id by db).1

    again :
        Creates env tenant by id db t
        → (create_approved_candidate env tenant id later t).1.crm ≡ t.crm
    again h = elim (creates env tenant later id t) [
      | inl same ↦ same
      | inr h' ↦
          let (x, found, created) = has_company env tenant id by db t k h answers in
          absurd (known_again env tenant id later t _ k x h' found created filled)
    ]
