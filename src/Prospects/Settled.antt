-- ===== src/Prospects/Settled.antt =====
-- What later requests do to a candidate whose state is final.
use zex_platform.Base.{
  ℕ, suc, ◌≤◌, Text, text_eq, text_eq_sound, text_eq-eq_false, ◌≡◌, ◌≢◌, refl, sym, ap, subst, ◌∙◌,
  inl, inr, Bool, true, false, not, ◌||◌, Option, some, arith, List, [], ◌∷◌, find_first,
  find_first_sound, select, select-update_where, find_first-select_one, Bool-cases,
}
use zex_platform.Base.Effects.{throw_if, Error, ◌>>=◌, ◌>>◌}
use zex_platform.Store.{create_company, Candidate, CandidateStatus, Db, Action, Env, has_id}
use zex_platform.Outcomes.{bind_stops, bind_goes}
use zex_platform.Frames.{
  Within, bind-Within, then-Within, throw_if-Within, gets-Within, frame_rules,
}
use zex_platform.Checkpoints.{get_completed, put_checkpoint}
use zex_platform.Sdr.Crm.{crm_call}
use zex_platform.Prospects.Lookups.{the_row, require_candidate, set_candidate}
use zex_platform.Prospects.Decisions.{
  is_settled, is_approvable, is_duplicate, is_exact, is_possible, approve_candidate,
  reject_candidate, check_decidable,
}
use zex_platform.Prospects.Create.{
  known_company, is_creatable, create_approved_candidate, create_unless,
}
use zex_platform.Prospects.Requests.{
  Request, starts, executes, approves, rejects, creates, serve, Asked, serve_all,
}
use zex_platform.Prospects.Finding.{require_candidate_cases}
use zex_platform.Prospects.Writes.{
  Permits, log-Within, check_decidable-Within, create_unless-Within, start_discovery-Within,
  execute_discovery-Within,
}

-- The rows with an id.
abbrev pub rows_of : Text → Db → List Candidate
rows_of id db = select (λ x. text_eq x.id id) db.candidates

module _ (env : Env) (c : Candidate) where
  -- `c` is the one row with its id, and no later row gets that id.
  record Alone (db : Db) : Type 0 where
    rows : rows_of c.id db ≡ c ∷ []
    fresh : (n : ℕ) → db.next_row ≤ n → env.cuid n ≢ c.id

  abbrev Keeps : Db → Db → Type 0
  Keeps s t = Alone s → Alone t

  Keeps-Permits : Permits Keeps
  Keeps-Permits = record {
    order = record { same = λ s h. h; chain = λ s t u f g h. g (f h) };
    audit = λ s n more a h. record {
      rows = h.rows;
      fresh = λ k le. h.fresh k (omega (arith, le, more));
    };
    runs = λ s n more r h. record {
      rows = h.rows;
      fresh = λ k le. h.fresh k (omega (arith, le, more));
    };
    reads = λ s n h. record { rows = h.rows; fresh = h.fresh };
    jobs = λ s j h. record { rows = h.rows; fresh = h.fresh };
  }

  set-Keeps :
      (id : Text) (f : Candidate → Candidate)
      → text_eq id c.id ≡ false
      → ((x : Candidate) → (f x).id ≡ x.id)
      → (s : Db) → Keeps s (set_candidate id f s)
  unfolding set_candidate
  set-Keeps id f other same s h = record {
    rows =
        select-update_where (λ x. text_eq x.id c.id) (λ x. text_eq x.id id) f s.candidates
          (λ x. rw (same x) refl) (λ x e. rw (text_eq_sound x.id id e) other)
        ∙ h.rows;
    fresh = h.fresh;
  }

  add-Keeps :
      (s : Db) (x : Candidate)
      → x.id ≡ env.cuid s.next_row
      → Keeps s (record s { next_row = suc s.next_row; candidates = x ∷ s.candidates })
  unfolding select
  add-Keeps s x new h = record {
    rows =
        rw (text_eq-eq_false x.id c.id λ e. h.fresh s.next_row (omega arith) (sym new ∙ e)) h.rows;
    fresh = λ k le. h.fresh k (omega (arith, le));
  }

  tick-Keeps :
      (tenant job : Text) (v : Option Text) (s : Db)
      → Keeps s (put_checkpoint tenant job job create_company v s)
  unfolding put_checkpoint
  tick-Keeps tenant job v s h = record { rows = h.rows; fresh = h.fresh }

  calls-Keeps : (call : _) → Within Keeps (crm_call env call)
  unfolding crm_call
  calls-Keeps call = record { run = λ s h. record { rows = h.rows; fresh = h.fresh } }

  -- A found row is `c` itself, or another row's handler runs.
  module _ (settled : is_settled c.status ≡ true) (tenant id : Text) where
    the_one :
        (s : Db) (x : Candidate)
        → Alone s
        → find_first (the_row tenant id) s.candidates ≡ some x
        → text_eq id c.id ≡ true
        → x ≡ c
    unfolding has_id
    the_one s x h found same =
        find_first-select_one (the_row tenant id) (λ y. text_eq y.id c.id) s.candidates c x
          (λ y e.
            subst (λ k. text_eq y.id k ≡ true) (text_eq_sound id c.id same) (ground (arith, e)))
          h.rows found

    -- A handler that changes nothing for `c`, on the candidate with the id of `c`.
    refused :
        {A : Type 0} (f : Candidate → Action A) (s : Db)
        → text_eq id c.id ≡ true
        → ((t : Db) → (f c t).1 ≡ t)
        → Keeps s ((require_candidate tenant id >>= f) s).1
    refused f s same quiet h = elim (require_candidate_cases tenant id s) [
      | inl (e, fails) ↦
          rw (bind_stops (require_candidate tenant id) f s e (ap (λ r. r.0) fails)) (rw fails h)
      | inr (x, found) ↦
          rw
            (
              bind_goes (require_candidate tenant id) f s x s found.runs,
              the_one s x h found.row same,
              quiet s,
            )
            h
    ]

    others :
        {A : Type 0} (f : Candidate → Action A)
        → ((x : Candidate) → x.id ≡ id → Within Keeps (f x))
        → (s : Db) → Keeps s ((require_candidate tenant id >>= f) s).1
    unfolding has_id
    others f each s h = elim (require_candidate_cases tenant id s) [
      | inl (e, fails) ↦
          rw (bind_stops (require_candidate tenant id) f s e (ap (λ r. r.0) fails)) (rw fails h)
      | inr (x, found) ↦ rw (bind_goes (require_candidate tenant id) f s x s found.runs) (
          (each x (
              text_eq_sound x.id id
                (ground (arith, find_first_sound (the_row tenant id) s.candidates found.row)))).run
            s h)
    ]

thrice :
    {A : Type 0} (p q r : Bool) (e e' e'' : Error) (k : Action A) (s : Db)
    → r ≡ true
    → (((throw_if p e >> (throw_if q e' >> throw_if r e'')) >> k) s).1 ≡ s
thrice true q r e e' e'' k s h = refl
thrice false true r e e' e'' k s h = refl
thrice false false true e e' e'' k s h = refl
thrice false false false e e' e'' k s h = ground arith

once :
    {A : Type 0} (p : Bool) (e : Error) (k : Action A) (s : Db)
    → p ≡ true
    → ((throw_if p e >> k) s).1 ≡ s
once true e k s h = refl
once false e k s h = ground arith

not_approvable : (x : CandidateStatus) → is_settled x ≡ true → not (is_approvable x) ≡ true
not_approvable x h = ground arith

not_creatable : (x : CandidateStatus) → is_settled x ≡ true → not (is_creatable x) ≡ true
not_creatable x h = ground arith

undecidable :
    {A : Type 0} (c : Candidate) (k : Action A) (s : Db)
    → is_settled c.status ≡ true
    → ((check_decidable c >> k) s).1 ≡ s
unfolding check_decidable
undecidable c k s h =
    thrice (is_duplicate c.status || is_exact c.dedupe) (is_possible c.dedupe)
      (not (is_approvable c.status)) _ _ _ k s (not_approvable c.status h)

module _ (env : Env) (c : Candidate) (settled : is_settled c.status ≡ true) (tenant by : Text) where
  p : Permits (Keeps env c)
  p = Keeps-Permits env c

  approve-Keeps : (id : Text) (s : Db) → Keeps env c s (approve_candidate env tenant id by s).1
  unfolding approve_candidate
  approve-Keeps id s = elim (Bool-cases (text_eq id c.id)) [
    | inl e ↦ refused env c settled tenant id _ s e λ t. undecidable c _ t settled
    | inr e ↦
        others env c settled tenant id _
          (λ x same.
            search
              (frame_rules, p.order, check_decidable-Within p, log-Within p, set-Keeps env c, e))
          s
  ]

  reject-Keeps : (id : Text) (s : Db) → Keeps env c s (reject_candidate env tenant id by s).1
  unfolding reject_candidate
  reject-Keeps id s = elim (Bool-cases (text_eq id c.id)) [
    | inl e ↦ refused env c settled tenant id _ s e λ t. once _ _ _ t settled
    | inr e ↦
        others env c settled tenant id _
          (λ x same. search (frame_rules, p.order, log-Within p, set-Keeps env c, e)) s
  ]

  create_rest :
      (x : Candidate)
      → ((f : Candidate → Candidate)
          → ((y : Candidate) → (f y).id ≡ y.id)
          → (t : Db) → Keeps env c t (set_candidate x.id f t))
      → (id : Text)
      → Within (Keeps env c) (
          get_completed tenant id create_company >>= λ p.
          create_unless env tenant x by (known_company p x))
  unfolding get_completed
  create_rest x write id = bind-Within p.order _ _ (gets-Within p.order _) λ k.
      create_unless-Within p x.id (λ f hi ht. write f hi) x refl env tenant by
        (tick-Keeps env c tenant x.id) (calls-Keeps env c) (known_company k x)

  create-Keeps :
      (id : Text) (s : Db) → Keeps env c s (create_approved_candidate env tenant id by s).1
  unfolding create_approved_candidate
  create-Keeps id s = elim (Bool-cases (text_eq id c.id)) [
    | inl e ↦
        refused env c settled tenant id _ s e λ t. once _ _ _ t (not_creatable c.status settled)
    | inr e ↦
        others env c settled tenant id _
          (λ x same.
            then-Within p.order _ _ (throw_if-Within p.order _ _)
              (create_rest x (λ f hi. set-Keeps env c x.id f (rw same e) hi) id))
          s
  ]

  serve-Keeps : (r : Request) (s : Db) → Keeps env c s (serve env tenant by r s)
  unfolding serve
  serve-Keeps (starts b limit sync) s =
      (start_discovery-Within p env (add-Keeps env c) tenant b limit sync by).run s
  serve-Keeps (executes r limit) s =
      (execute_discovery-Within p env (add-Keeps env c) tenant r limit by).run s
  serve-Keeps (approves id) s = approve-Keeps id s
  serve-Keeps (rejects id) s = reject-Keeps id s
  serve-Keeps (creates id) s = create-Keeps id s

history-Keeps :
    (env : Env) (c : Candidate) (later : List Asked) (s : Db)
    → is_settled c.status ≡ true
    → Keeps env c s (serve_all env later s)
unfolding serve_all
history-Keeps env c [] s settled h = h
history-Keeps env c (a ∷ later) s settled h =
    history-Keeps env c later _ settled (serve-Keeps env c settled a.tenant a.by a.request s h)

-- A candidate that is the one row with its id, and that was created or rejected, is the same row after
-- any later requests for discovery runs, approvals, rejections and creations, where no new row gets its
-- id.
pub settled-serve_all :
    (env : Env) (c : Candidate) (later : List Asked) (db : Db)
    → is_settled c.status ≡ true
    → ((n : ℕ) → db.next_row ≤ n → env.cuid n ≢ c.id)
    → rows_of c.id db ≡ c ∷ []
    → rows_of c.id (serve_all env later db) ≡ c ∷ []
settled-serve_all env c later db settled fresh rows =
    (history-Keeps env c later db settled (record { rows = rows; fresh = fresh })).rows
