-- ===== src/Prospects/Creating.antt =====
-- When the creation of a candidate calls the CRM.
use zex_platform.Base.{
  Text, text, subst, ◌≡◌, refl, sym, ap, ◌∙◌, ◌⊎◌, inl, inr, Bool, true, false, not, Option, none,
  some, arith, List, [], ◌∷◌, length, find_first,
}
use zex_platform.Base.Effects.{Error, Result, ok, err, bad_request, ◌>>=◌, ◌>>◌, throw_if, recover}
use zex_platform.Store.{
  create_company, CrmCall, company, Dedupe, Candidate, Company, Db, Action, Env, log,
}
use zex_platform.Outcomes.{outcome, bind_stops, bind_goes}
use zex_platform.Frames.{Same, Same-IsOrder}
use zex_platform.Checkpoints.{progress, of_step, get_completed, put_checkpoint}
use zex_platform.Sdr.Crm.{crm_call}
use zex_platform.Prospects.Dedupe.{
  has_domain, has_name, domain_or_website, Verdict, dedupe_company_against_crm,
}
use zex_platform.Prospects.Lookups.{
  the_row, require_candidate, set_candidate, fail_closed, load_crm_companies,
}
use zex_platform.Prospects.Create.{
  is_creatable, known_company, sought, lookup_refused, load_companies, check_verdict, refuse_match,
  after_call, create_in_crm, create_new, create_unless, create_approved_candidate,
}
use zex_platform.Prospects.Names.{normalize_company_name}
use zex_platform.Prospects.Matching.{some_has, grade, grade-dedupe_company_against_crm}
use zex_platform.Prospects.Finding.{require_candidate_cases}
use zex_platform.Prospects.Writes.{
  Permits, recover_known-Within, load_companies-Within, load_crm_companies-Within,
  after_call-Within,
}

abbrev crm_of : Db → List CrmCall
crm_of db = db.crm

Crm-Permits : Permits (Same crm_of)
Crm-Permits = record {
  order = Same-IsOrder crm_of;
  audit = λ s n h x. refl;
  runs = λ s n h x. refl;
  reads = λ s n. refl;
  jobs = λ s j. refl;
}

abbrev candidates_of : Db → List Candidate
candidates_of db = db.candidates

Candidates-Permits : Permits (Same candidates_of)
Candidates-Permits = record {
  order = Same-IsOrder candidates_of;
  audit = λ s n h x. refl;
  runs = λ s n h x. refl;
  reads = λ s n. refl;
  jobs = λ s j. refl;
}

abbrev pub the_call : Text → Candidate → CrmCall
the_call tenant c = company tenant c.company_name c.domain c.website_url

module _ (env : Env) (tenant by : Text) where
  -- A look at the CRM that returned what it found.
  pub record Looked (c : Candidate) (s : Db) (companies : List Company) (t : Db) : Type 0 where
    pub answer : load_crm_companies env tenant fail_closed (sought c ∷ []) [] s ≡ (ok companies, t)
    pub same_crm : t.crm ≡ s.crm
    pub same_candidates : t.candidates ≡ s.candidates

  -- The run of a creation that calls the CRM, which was not changed before the call.
  pub record Reaches (c : Candidate) (s : Db) (t : Db) : Type 0 where
    pub companies : List Company
    pub left : Db
    pub looked : Looked c s companies left
    pub fresh :
        (dedupe_company_against_crm env.lower c.company_name c.domain c.website_url
          companies).status
        ≡ Dedupe.new_company
    pub rest :
        t
        ≡ (after_call env tenant c by
            (env.crm_write (length left.crm) (the_call tenant c))
            (record left { crm = the_call tenant c ∷ left.crm })).1

  set-Same : (id : Text) (f : Candidate → Candidate) (s : Db) → Same crm_of s (set_candidate id f s)
  unfolding set_candidate
  set-Same id f s = refl

  refused :
      (c : Candidate) (e : Error) (t : Db)
      → (e' : Error) × ((lookup_refused env tenant c by e t).0 ≡ err e')
  unfolding lookup_refused log
  refused c e t = (e, refl)

  load_companies_cases :
      (c : Candidate) (s : Db)
      → ((e : Error) × ((load_companies env tenant c by s).0 ≡ err e))
        ⊎ ((companies : List Company) × (t : Db) × (load_companies env tenant c by s
              ≡ (ok companies, t))
            × Looked c s companies t)
  unfolding load_companies
  load_companies_cases c s = elim (outcome (look s)) [
    | inl (e, fails) ↦ inl (
      (refused c e (look s).1).0,
      ap (λ r. (recover (lookup_refused env tenant c by) r (look s).1).0) fails
          ∙ (refused c e (look s).1).1,
    )
    | inr (companies, found) ↦ inr (
      companies,
      (look s).1,
      ap (λ (r : Result (List Company) × Db). recover (lookup_refused env tenant c by) r.0 r.1)
          found,
      record {
        answer = found;
        same_crm =
            (load_crm_companies-Within Crm-Permits env tenant fail_closed (sought c ∷ []) []).run s;
        same_candidates =
            (load_crm_companies-Within Candidates-Permits env tenant fail_closed (sought c ∷ [])
                []).run
              s;
      },
    )
  ]
    where
      look : Action (List Company)
      look = load_crm_companies env tenant fail_closed (sought c ∷ []) []

  in_crm :
      (c : Candidate) (s : Db)
      → (create_in_crm env tenant c by s).1
        ≡ (after_call env tenant c by
            (env.crm_write (length s.crm) (the_call tenant c))
            (record s { crm = the_call tenant c ∷ s.crm })).1
  unfolding create_in_crm crm_call
  in_crm c s = refl

  after_verdict :
      (c : Candidate) (k : Option Text) (d : Dedupe) (s : Db)
      → let t = ((refuse_match env tenant c k by d >> create_in_crm env tenant c by) s).1 in
        (t.crm ≡ s.crm) ⊎ ((d ≡ Dedupe.new_company) × (t ≡ (create_in_crm env tenant c by s).1))
  unfolding refuse_match set_candidate log
  after_verdict c k Dedupe.new_company s = inr (refl, refl)
  after_verdict c k Dedupe.possible_match s = inl refl
  after_verdict c k Dedupe.exact_match s = inl refl

  abbrev verdict_on : Candidate → List Company → Verdict
  verdict_on c companies =
      dedupe_company_against_crm env.lower c.company_name c.domain c.website_url companies

  reached :
      (c : Candidate) (s : Db)
      → let t = (create_new env tenant c by s).1 in (t.crm ≡ s.crm) ⊎ Reaches c s t
  unfolding create_new check_verdict
  reached c s = elim (load_companies_cases c s) [
    | inl (e, fails) ↦ inl (
        ap (λ (r : Result Candidate × Db). r.1.crm)
          (bind_stops (load_companies env tenant c by) go s e fails)
        ∙ (load_companies-Within Crm-Permits c.id (λ f _ _. set-Same c.id f) c refl env tenant
              by).run
            s)
    | inr (companies, t, found, looked) ↦
        elim (after_verdict c (verdict_on c companies).existing (verdict_on c companies).status t) [
          | inl same ↦ inl (
              ap (λ (r : Result Candidate × Db). r.1.crm)
                (bind_goes (load_companies env tenant c by) go s companies t found)
              ∙ same
              ∙ looked.same_crm)
          | inr (fresh, rest) ↦ inr (record {
            companies = companies;
            left = t;
            looked = looked;
            fresh = fresh;
            rest =
                ap (λ (r : Result Candidate × Db). r.1)
                  (bind_goes (load_companies env tenant c by) go s companies t found)
                ∙ rest
                ∙ in_crm c t;
          })
        ]
  ]
    where
      go : List Company → Action Candidate
      go companies =
          check_verdict env tenant c (verdict_on c companies) by >> create_in_crm env tenant c by

  -- The same for a request.
  pub record Creates (id : Text) (s : Db) (t : Db) : Type 0 where
    pub c : Candidate
    pub found : find_first (the_row tenant id) s.candidates ≡ some c
    pub creatable : is_creatable c.status ≡ true
    pub unknown :
        known_company (progress (find_first (of_step tenant id create_company) s.checkpoints)) c
        ≡ none
    pub reaches : Reaches c s t

  reached_unless :
      (id : Text) (c : Candidate) (s : Db) (k : Option Text)
      → find_first (the_row tenant id) s.candidates ≡ some c
      → is_creatable c.status ≡ true
      → known_company (progress (find_first (of_step tenant id create_company) s.checkpoints)) c ≡ k
      → let t = (create_unless env tenant c by k s).1 in (t.crm ≡ s.crm) ⊎ Creates id s t
  unfolding create_unless
  reached_unless id c s (some k) found creatable unknown = inl (
      (recover_known-Within Crm-Permits c.id (λ f _ _. set-Same c.id f) c refl env tenant by k).run
        s)
  reached_unless id c s none found creatable unknown = elim (reached c s) [
    | inl same ↦ inl same
    | inr reaches ↦ inr (record {
      c = c;
      found = found;
      creatable = creatable;
      unknown = unknown;
      reaches = reaches;
    })
  ]

  guarded :
      (id : Text) (c : Candidate) (s : Db) (b : Bool) (e : Error)
      → find_first (the_row tenant id) s.candidates ≡ some c
      → is_creatable c.status ≡ b
      → let t =
          ((throw_if (not b) e
              >> (get_completed tenant id create_company >>= λ p.
                  create_unless env tenant c by (known_company p c)))
            s).1 in
        (t.crm ≡ s.crm) ⊎ Creates id s t
  unfolding get_completed
  guarded id c s false e found creatable = inl refl
  guarded id c s true e found creatable = reached_unless id c s _ found creatable refl

  pub creates :
      (id : Text) (s : Db)
      → let t = (create_approved_candidate env tenant id by s).1 in (t.crm ≡ s.crm) ⊎ Creates id s t
  unfolding create_approved_candidate
  creates id s = elim (require_candidate_cases tenant id s) [
    | inl (e, fails) ↦ inl (
        ap (λ (r : Result Candidate × Db). r.1.crm)
          (bind_stops (require_candidate tenant id) go s e (ap (λ r. r.0) fails))
        ∙ ap (λ r. r.1.crm) fails)
    | inr (c, found) ↦
        subst (λ (r : Result Candidate × Db). (r.1.crm ≡ s.crm) ⊎ Creates id s r.1)
          (sym (bind_goes (require_candidate tenant id) go s c s found.runs))
          (guarded id c s (is_creatable c.status) _ found.row refl)
  ]
    where
      go : Candidate → Action Candidate
      go c = do
        throw_if (not (is_creatable c.status))
            (bad_request (text "Only APPROVED (or FAILED retry) candidates can be created in CRM"))
        p ← get_completed tenant id create_company
        create_unless env tenant c by (known_company p c)

  crm-after_call :
      (c : Candidate) (r : Result Text) (s : Db) → (after_call env tenant c by r s).1.crm ≡ s.crm
  unfolding put_checkpoint
  crm-after_call c r s =
      (after_call-Within Crm-Permits c.id (λ f _ _. set-Same c.id f) c refl env tenant by
          (λ v s. refl) r).run
        s

-- A candidate for whose creation the CRM was called, and what was known before the call.
pub record Called (env : Env) (tenant id : Text) (db t : Db) : Type 0 where
  pub c : Candidate
  pub found : find_first (the_row tenant id) db.candidates ≡ some c
  pub creatable : is_creatable c.status ≡ true
  pub unknown :
      known_company (progress (find_first (of_step tenant id create_company) db.checkpoints)) c
      ≡ none
  pub companies : List Company
  pub left : Db
  pub answer :
      load_crm_companies env tenant fail_closed (sought c ∷ []) [] db ≡ (ok companies, left)
  pub other_domains :
      some_has (has_domain env.lower) (domain_or_website env.lower c.domain c.website_url) companies
      ≡ false
  pub other_names :
      some_has
        (has_name env.lower)
        (normalize_company_name env.lower (some c.company_name))
        companies
      ≡ false
  pub one_call : t.crm ≡ the_call tenant c ∷ db.crm

new_grade :
    (known has_it named : Bool)
    → grade known has_it named ≡ Dedupe.new_company
    → (has_it ≡ false) × (named ≡ false)
new_grade known true named h = ground arith
new_grade true false true h = ground arith
new_grade false false true h = ground arith
new_grade known false false h = (refl, refl)

called :
    (env : Env) (tenant by id : Text) (db t : Db)
    → Creates env tenant by id db t
    → Called env tenant id db t
called env tenant by id db t h =
    let r = h.reaches in
    let apart = new_grade _ _ _ (
      sym (
        grade-dedupe_company_against_crm env.lower h.c.company_name h.c.domain h.c.website_url
          r.companies)
      ∙ r.fresh) in
    record {
      c = h.c;
      found = h.found;
      creatable = h.creatable;
      unknown = h.unknown;
      companies = r.companies;
      left = r.left;
      answer = r.looked.answer;
      other_domains = apart.0;
      other_names = apart.1;
      one_call =
          ap (λ x. x.crm) r.rest
          ∙ crm-after_call env tenant by h.c _ _
          ∙ ap (λ x. the_call tenant h.c ∷ x) r.looked.same_crm;
    }

-- A creation that was asked for makes no call of the CRM, or it makes one, for the company of the
-- candidate. It makes one only where the candidate is approved or failed before, neither its row nor the
-- checkpoint has a company, and both lookups in the CRM answered and found no company with the domain or
-- the name of the candidate.
pub crm-create_approved_candidate :
    (env : Env) (tenant id by : Text) (db : Db)
    → let t = (create_approved_candidate env tenant id by db).1 in
      (t.crm ≡ db.crm) ⊎ Called env tenant id db t
crm-create_approved_candidate env tenant id by db = elim (creates env tenant by id db) [
  | inl same ↦ inl same
  | inr h ↦ inr (called env tenant by id db _ h)
]
