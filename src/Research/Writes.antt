-- ===== src/Research/Writes.antt =====
-- What research does to the database, in terms of its writes.
use zex_platform.Base.{ℕ, suc, ◌≤◌, arith, Text, Option, List, [], ◌∷◌}
use zex_platform.Base.Effects.{Error}
use zex_platform.Json.{Fields}
use zex_platform.Store.{
  AgentId, AuditLog, Candidate, IcpInput, ProviderFinding, ResearchRun, ScoreSnapshot, Question, Db,
  Env, Entry, log,
}
use zex_platform.Frames.{IsOrder, Within, pure-Within, bind-Within, frame_rules}
use zex_platform.AgentControl.Service.{is_paused, get_control_state}
use zex_platform.Prospects.Lookups.{require_run, get_brain}
use zex_platform.Research.Reading.{require_candidate, require_research_run}
use zex_platform.Research.Persist.{Order, View, persist_one, persist_all}
use zex_platform.Research.Runs.{
  set_run, finish_run, block, ask_provider, complete_research, collect_research, research_failed,
  process_research, research_candidate, research_unpaused, execute_research,
}

-- The writes of the runs, of the audit trail and of the count of queries.
pub record Permits (R : Db → Db → Type 0) : Type 0 where
  pub order : IsOrder R
  pub audit :
      (s : Db) (n : ℕ)
      → s.next_row ≤ n
      → (a : List AuditLog) → R s (record s { next_row = n; audit = a })
  pub runs : (s : Db) (rs : List ResearchRun) → R s (record s { research_runs = rs })
  pub reads : (s : Db) (n : ℕ) → R s (record s { reads = n })

le_suc : (n : ℕ) → n ≤ suc n
le_suc n = omega arith

pub persist_all-Within :
    {R : Db → Db → Type 0} (order : IsOrder R) (env : Env) (o : Order)
    → ((raw : ProviderFinding) → Within R (persist_one env o raw))
    → (fs : List ProviderFinding) → Within R (persist_all env o fs)
unfolding persist_all
persist_all-Within order env o one [] = search (frame_rules, order)
persist_all-Within order env o one (f ∷ fs) = bind-Within order (persist_one env o f) _ (one f) λ v.
    bind-Within order (persist_all env o fs) _ (persist_all-Within order env o one fs)
      λ vs. pure-Within order (v ∷ vs)

module _ {R : Db → Db → Type 0} (p : Permits R) where
  open p use {order}

  pub log-Within : (env : Env) (e : Entry) → Within R (log env e)
  unfolding log
  log-Within env e = record { run = λ s. p.audit s _ (le_suc _) _ }

  pub require_candidate-Within : (tenant id : Text) → Within R (require_candidate tenant id)
  unfolding require_candidate
  require_candidate-Within tenant id = search (frame_rules, order)

  require_research_run-Within :
      (tenant candidate_id id : Text) → Within R (require_research_run tenant candidate_id id)
  unfolding require_research_run
  require_research_run-Within tenant candidate_id id = search (frame_rules, order)

  require_run-Within : (tenant id : Text) → Within R (require_run tenant id)
  unfolding require_run
  require_run-Within tenant id = search (frame_rules, order)

  get_brain-Within : (tenant id : Text) → Within R (get_brain tenant id)
  unfolding get_brain
  get_brain-Within tenant id = search (frame_rules, order)

  is_paused-Within : (tenant : Text) (agent : AgentId) → Within R (is_paused tenant agent)
  unfolding is_paused get_control_state
  is_paused-Within tenant agent = search (frame_rules, order)

  set_run-allowed : (id : Text) (f : ResearchRun → ResearchRun) (s : Db) → R s (set_run id f s)
  unfolding set_run
  set_run-allowed id f s = p.runs s _

  pub finish_run-Within : (id : Text) (f : ResearchRun → ResearchRun) → Within R (finish_run id f)
  unfolding finish_run
  finish_run-Within id f = search (frame_rules, order, set_run-allowed)

  pub block-Within :
      (env : Env) (o : Order) (why action : Text) (after : Fields)
      → Within R (block env o why action after)
  unfolding block
  block-Within env o why action after = search (frame_rules, order, finish_run-Within, log-Within)

  ask_provider-Within : (env : Env) (q : Question) → Within R (ask_provider env q)
  unfolding ask_provider
  ask_provider-Within env q = search (frame_rules, order, p.reads)

  pub complete_research-Within :
      (env : Env) (o : Order) (c : Candidate) (icp : IcpInput) (s : Option ScoreSnapshot)
      (provider : Text) (vs : List View)
      → Within R (complete_research env o c icp s provider vs)
  unfolding complete_research
  complete_research-Within env o c icp s provider vs =
      search (frame_rules, order, finish_run-Within, log-Within)

  pub research_failed-Within :
      (env : Env) (o : Order) (e : Error) → Within R (research_failed env o e)
  unfolding research_failed
  research_failed-Within env o e = search (frame_rules, order, finish_run-Within, log-Within)

  module _ (env : Env) (o : Order)
      (one : (raw : ProviderFinding) → Within R (persist_one env o raw)) where
    pub collect_research-Within :
        (run : ResearchRun) (c : Candidate) (brain_id : Text)
        → Within R (collect_research env o run c brain_id)
    unfolding collect_research
    collect_research-Within run c brain_id =
        search
          (
            frame_rules,
            order,
            get_brain-Within,
            ask_provider-Within,
            persist_all-Within order env o one,
            complete_research-Within,
          )
          depth 12

    pub process_research-Within :
        (run : ResearchRun) (c : Candidate) (brain_id : Text)
        → Within R (process_research env o run c brain_id)
    unfolding process_research
    process_research-Within run c brain_id = search (
      frame_rules, order, set_run-allowed, log-Within, collect_research-Within,
      research_failed-Within,
    )

    research_candidate-Within :
        (run : ResearchRun) (c : Candidate) → Within R (research_candidate env o run c)
    unfolding research_candidate
    research_candidate-Within run c =
        search (frame_rules, order, require_run-Within, process_research-Within, block-Within)

    pub execute_research-Within : Within R (execute_research env o)
    unfolding execute_research research_unpaused
    execute_research-Within = search (
      frame_rules, order, require_research_run-Within, is_paused-Within, block-Within,
      require_candidate-Within, research_candidate-Within,
    )
