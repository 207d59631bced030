-- ===== src/Prospects/Writes.antt =====
-- What the handlers of prospect discovery write, for a relation that permits each single write.
use native.Mathlib.Nat.{le_refl}
use zex_platform.Base.{arith, ℕ, suc, ◌≤◌, ◌≡◌, refl, Text, Option, none, some, List, [], ◌∷◌, Bool}
use zex_platform.Base.Effects.{Error, Result, ok, err}
use zex_platform.Store.{
  create_company, AuditLog, Candidate, CrmCall, Company, Dedupe, DiscoveryRun, Job, Found, IcpInput,
  Db, Env, Entry, log,
}
use zex_platform.Frames.{IsOrder, Within, bind-Within, attempt-Within, frame_rules}
use zex_platform.Checkpoints.{record_success, put_checkpoint}
use zex_platform.Sdr.Crm.{crm_call}
use zex_platform.Prospects.Fit.{Fit}
use zex_platform.Prospects.Dedupe.{Verdict}
use zex_platform.Prospects.Lookups.{
  require_tenant, require_candidate, require_run, get_brain, set_candidate, Mode, best_effort,
  fail_closed, query, lookup_failed, Sought, load_by_domain, load_by_name, load_crm_companies,
}
use zex_platform.Prospects.Decisions.{check_decidable}
use zex_platform.Prospects.Create.{
  recover_known, lookup_refused, load_companies, check_verdict, refuse_match, finish_creation,
  creation_failed, after_call, create_in_crm, create_new, create_unless,
}
use zex_platform.Prospects.Discovery.{
  new_candidate, set_run, add_candidate, propose_candidate, discover_all, discovery_failed,
  execute_discovery, start_discovery,
}

-- Everything but the calls of the CRM and the changes of candidates.
pub record Permits (R : Db → Db → Type 0) : Type 0 where
  pub order : IsOrder R
  pub audit :
      (s : Db) (n : ℕ)
      → s.next_row ≤ n
      → (a : List AuditLog) → R s (record s { next_row = n; audit = a })
  pub runs :
      (s : Db) (n : ℕ)
      → s.next_row ≤ n
      → (r : List DiscoveryRun) → R s (record s { next_row = n; discovery_runs = r })
  pub reads : (s : Db) (n : ℕ) → R s (record s { reads = n })
  pub jobs : (s : Db) (j : List Job) → R s (record s { jobs = j })

le_suc : (n : ℕ) → n ≤ suc n
le_suc n = omega arith

module _ {R : Db → Db → Type 0} (p : Permits R) where
  open p use {order}

  pub log-Within : (env : Env) (e : Entry) → Within R (log env e)
  unfolding log
  log-Within env e = record { run = λ s. p.audit s _ (le_suc _) _ }

  pub require_tenant-Within : (tenant : Text) → Within R (require_tenant tenant)
  unfolding require_tenant
  require_tenant-Within tenant = search (frame_rules, order)

  pub require_candidate-Within : (tenant id : Text) → Within R (require_candidate tenant id)
  unfolding require_candidate
  require_candidate-Within tenant id = search (frame_rules, order, require_tenant-Within)

  pub check_decidable-Within : (c : Candidate) → Within R (check_decidable c)
  unfolding check_decidable
  check_decidable-Within c = search (frame_rules, order)

  query-Within : (answer : Db → Result (List Company)) → Within R (query answer)
  unfolding query
  query-Within answer = search (frame_rules, order, p.reads)

  lookup_failed-Within :
      (mode : Mode) (what : Text) (cs : List Company) (e : Error)
      → Within R (lookup_failed mode what cs e)
  unfolding lookup_failed
  lookup_failed-Within best_effort what cs e = search (frame_rules, order)
  lookup_failed-Within fail_closed what cs e = search (frame_rules, order)

  load_by_domain-Within :
      (env : Env) (tenant : Text) (mode : Mode) (d : Option Text) (cs : List Company)
      → Within R (load_by_domain env tenant mode d cs)
  unfolding load_by_domain
  load_by_domain-Within env tenant mode none cs = search (frame_rules, order)
  load_by_domain-Within env tenant mode (some d) cs =
      search (frame_rules, order, query-Within, lookup_failed-Within)

  load_by_name-Within :
      (env : Env) (tenant : Text) (mode : Mode) (name : Text) (cs : List Company)
      → Within R (load_by_name env tenant mode name cs)
  unfolding load_by_name
  load_by_name-Within env tenant mode name cs =
      search (frame_rules, order, query-Within, lookup_failed-Within)

  pub load_crm_companies-Within :
      (env : Env) (tenant : Text) (mode : Mode) (all : List Sought) (cs : List Company)
      → Within R (load_crm_companies env tenant mode all cs)
  unfolding load_crm_companies
  load_crm_companies-Within env tenant mode [] cs = search (frame_rules, order)
  load_crm_companies-Within env tenant mode (c ∷ rest) cs = search (
    frame_rules,
    order,
    load_by_domain-Within,
    load_by_name-Within,
    load_crm_companies-Within env tenant mode rest,
  )

  -- The handlers that change one candidate.
  module _ (id : Text)
      (write : (f : Candidate → Candidate)
        → ((x : Candidate) → (f x).id ≡ x.id)
        → ((x : Candidate) → (f x).tenant ≡ x.tenant)
        → (s : Db) → R s (set_candidate id f s)) where
    module _ (c : Candidate) (same : c.id ≡ id) (env : Env) (tenant by : Text) where
      own :
          (f : Candidate → Candidate)
          → ((x : Candidate) → (f x).id ≡ x.id)
          → ((x : Candidate) → (f x).tenant ≡ x.tenant)
          → (s : Db) → R s (set_candidate c.id f s)
      own f hi ht s = rw same (write f hi ht s)

      pub recover_known-Within : (k : Text) → Within R (recover_known env tenant c k by)
      unfolding recover_known
      recover_known-Within k = search (frame_rules, order, log-Within, own, refl)

      pub lookup_refused-Within : (e : Error) → Within R (lookup_refused env tenant c by e)
      unfolding lookup_refused
      lookup_refused-Within e = search (frame_rules, order, log-Within, own, refl)

      pub load_companies-Within : Within R (load_companies env tenant c by)
      unfolding load_companies
      load_companies-Within =
          search (frame_rules, order, load_crm_companies-Within, lookup_refused-Within)

      refuse_match-Within :
          (k : Option Text) (d : Dedupe) → Within R (refuse_match env tenant c k by d)
      unfolding refuse_match
      refuse_match-Within k Dedupe.new_company = search (frame_rules, order)
      refuse_match-Within k Dedupe.possible_match = search (frame_rules, order, own, refl)
      refuse_match-Within k Dedupe.exact_match = search (frame_rules, order, log-Within, own, refl)

      pub check_verdict-Within : (v : Verdict) → Within R (check_verdict env tenant c v by)
      unfolding check_verdict
      check_verdict-Within v = refuse_match-Within v.existing v.status

      pub creation_failed-Within :
          (k : Option Text) (e : Error) → Within R (creation_failed env tenant c by k e)
      unfolding creation_failed
      creation_failed-Within k e = search (frame_rules, order, log-Within, own, refl)

      module _
          (tick : (v : Option Text) (s : Db)
            → R s (put_checkpoint tenant c.id c.id create_company v s)) where
        finish_creation-Within : (k : Text) → Within R (finish_creation env tenant c k by)
        unfolding finish_creation record_success
        finish_creation-Within k = search (frame_rules, order, log-Within, own, tick, refl) depth 8

        pub after_call-Within : (r : Result Text) → Within R (after_call env tenant c by r)
        unfolding after_call
        after_call-Within (err e) = creation_failed-Within none e
        after_call-Within (ok k) =
            search (frame_rules, order, finish_creation-Within, creation_failed-Within)

        module _ (calls : (call : CrmCall) → Within R (crm_call env call)) where
          create_in_crm-Within : Within R (create_in_crm env tenant c by)
          unfolding create_in_crm
          create_in_crm-Within =
              bind-Within order _ _ (attempt-Within order _ (calls _)) after_call-Within

          create_new-Within : Within R (create_new env tenant c by)
          unfolding create_new
          create_new-Within = search (
            frame_rules, order, load_companies-Within, check_verdict-Within, create_in_crm-Within,
          )

          pub create_unless-Within : (k : Option Text) → Within R (create_unless env tenant c by k)
          unfolding create_unless
          create_unless-Within (some k) = recover_known-Within k
          create_unless-Within none = create_new-Within

  -- Discovery, which adds candidates.
  module _ (env : Env)
      (add : (s : Db) (c : Candidate)
        → c.id ≡ env.cuid s.next_row
        → R s (record s { next_row = suc s.next_row; candidates = c ∷ s.candidates })) where
    set_run-R : (id : Text) (f : DiscoveryRun → DiscoveryRun) (s : Db) → R s (set_run id f s)
    unfolding set_run
    set_run-R id f s = p.runs s s.next_row (le_refl _) _

    add_candidate-Within :
        (tenant run : Text) (f : Found) (fit : Fit) (v : Verdict) (by : Text)
        → Within R (add_candidate env tenant run f fit v by)
    unfolding add_candidate log
    add_candidate-Within tenant run f fit v by = record {
      run = λ s.
          order.chain s _ _ (add s (new_candidate env tenant run f fit v s) refl)
            ((log-Within env _).run _);
    }

    propose_candidate-Within :
        (tenant run : Text) (icp : IcpInput) (cs : List Company) (by : Text) (f : Found)
        → Within R (propose_candidate env tenant run icp cs by f)
    unfolding propose_candidate
    propose_candidate-Within tenant run icp cs by f = add_candidate-Within tenant run f _ _ by

    get_brain-Within : (tenant id : Text) → Within R (get_brain tenant id)
    unfolding get_brain
    get_brain-Within tenant id = search (frame_rules, order)

    require_run-Within : (tenant id : Text) → Within R (require_run tenant id)
    unfolding require_run
    require_run-Within tenant id = search (frame_rules, order)

    discover_all-Within :
        (tenant : Text) (run : DiscoveryRun) (limit : Option ℕ) (by : Text)
        → Within R (discover_all env tenant run limit by)
    unfolding discover_all
    discover_all-Within tenant run limit by =
        search
          (
            frame_rules, order, get_brain-Within, load_crm_companies-Within,
            propose_candidate-Within, set_run-R, log-Within,
          )
          depth 12

    discovery_failed-Within :
        (tenant : Text) (run : DiscoveryRun) (by : Text) (e : Error)
        → Within R (discovery_failed env tenant run by e)
    unfolding discovery_failed
    discovery_failed-Within tenant run by e = search (frame_rules, order, set_run-R, log-Within)

    pub execute_discovery-Within :
        (tenant id : Text) (limit : Option ℕ) (by : Text)
        → Within R (execute_discovery env tenant id limit by)
    unfolding execute_discovery
    execute_discovery-Within tenant id limit by = search (
      frame_rules, order, require_run-Within, set_run-R, discover_all-Within,
      discovery_failed-Within,
    )

    pub start_discovery-Within :
        (tenant id : Text) (limit : Option ℕ) (sync : Bool) (by : Text)
        → Within R (start_discovery env tenant id limit sync by)
    unfolding start_discovery
    start_discovery-Within tenant id limit sync by =
        search
          (
            frame_rules, order, require_tenant-Within, get_brain-Within, p.runs, le_suc, log-Within,
            execute_discovery-Within, p.jobs,
          )
          depth 12
