-- ===== src/Store/Research.antt =====
-- The rows of the research agent: what its provider finds, the package that is built from it, the runs,
-- and the score snapshots of why-now as far as research reads them. Confidence and relevance are in
-- hundredths.
use zex_platform.Base.{Text, ℕ, Bool, Option, List}

pub data FindingType : Type 0 where
  company_overview business_model product icp_relevance leadership hiring funding expansion
        tech_stack crm_change strategic_initiative pain_signal competitor recent_news
        objection_context outreach_hook :
      FindingType

pub data EvidenceType : Type 0 where
  explicit inferred : EvidenceType

-- `ProviderFinding`
pub record ProviderFinding : Type 0 where
  pub kind : FindingType
  pub title : Text
  pub summary : Text
  pub claim : Text
  pub source_url : Option Text
  pub source_title : Option Text
  pub source_type : Option Text
  pub excerpt : Option Text
  pub occurred_at : Option Text
  pub published_at : Option Text
  pub confidence : ℕ
  pub relevance : ℕ
  pub evidence : EvidenceType
  pub person_name : Option Text
  pub person_role : Option Text
  pub stale : Bool
  pub provider_key : Option Text

-- `ProspectResearchFinding`, with the columns of the provider's finding in one.
pub record Finding : Type 0 where
  pub id : Text
  pub tenant : Text
  pub run_id : Text
  pub candidate_id : Text
  pub found : ProviderFinding
  pub dedupe_key : Text

-- `ProviderResearchResult`
pub record Collected : Type 0 where
  pub provider : Text
  pub findings : List ProviderFinding

-- `ProspectResearchProviderContext`
pub record Question : Type 0 where
  pub company_name : Text
  pub domain : Option Text
  pub website_url : Option Text
  pub industry : Option Text
  pub company_size : Option Text
  pub geography : Option Text
  pub description : Option Text
  pub provider_key : Option Text
  pub buying_triggers : List Text
  pub use_cases : List Text
  pub fixture : Option Text

-- `over / under`
pub record Ratio : Type 0 where
  pub over : ℕ
  pub under : ℕ

pub record KeyFinding : Type 0 where
  pub id : Text
  pub kind : FindingType
  pub title : Text
  pub summary : Text
  pub claim : Text
  pub source_url : Option Text
  pub source_title : Option Text
  pub confidence : ℕ
  pub stale : Bool
  pub person_name : Option Text
  pub person_role : Option Text

-- An entry of `namedPeople`.
pub record Person : Type 0 where
  pub name : Text
  pub role : Option Text
  pub source_url : Option Text
  pub finding_id : Text

pub record OutreachContext : Type 0 where
  pub primary_angle : Text
  pub supporting_points : List Text
  pub personalization_facts : List Text
  pub risks : List Text
  pub do_not_claim : List Text
  pub suggested_buyer_roles : List Text

-- `ResearchPackage`
pub record Package : Type 0 where
  pub company_summary : Text
  pub why_relevant : Text
  pub why_now : Text
  pub why_now_snapshot_id : Option Text
  pub key_findings : List KeyFinding
  pub likely_roles : List Text
  pub named_people : List Person
  pub risks_objections : List Text
  pub outreach_context : OutreachContext
  pub confidence : Ratio
  pub research_version : Text
  pub finding_ids : List Text

pub data ResearchStatus : Type 0 where
  queued processing completed failed blocked : ResearchStatus

-- `completed_at` counts the rows that were created before, in place of the time.
pub record ResearchRun : Type 0 where
  pub id : Text
  pub tenant : Text
  pub candidate_id : Text
  pub status : ResearchStatus
  pub provider : Option Text
  pub completed_at : ℕ
  pub error : Option Text
  pub triggered_by : Text
  pub research_version : Text
  pub pkg : Option Package
  pub confidence : Option Ratio
  pub why_now_snapshot_id : Option Text
  pub finding_count : ℕ
  pub fixture : Option Text

pub record ScoreSnapshot : Type 0 where
  pub id : Text
  pub tenant : Text
  pub candidate_id : Text
  pub why_now : Text

-- What the `URL` class parses, with the rest of its parts in one.
pub record Url : Type 0 where
  pub protocol : Text
  pub hostname : Text
  pub pathname : Text
  pub hash : Text
  pub others : Text
