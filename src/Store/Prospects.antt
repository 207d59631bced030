-- ===== src/Store/Prospects.antt =====
-- The rows of prospect discovery: the ideal customer of a company brain, what a provider finds, the
-- candidates and the companies of the CRM.
use zex_platform.Base.{Text, ℕ, Option, List}
use zex_platform.Json.{Json}

-- The value of a qualification rule; a number or a boolean is its text, `String(value)`.
pub data RuleValue : Type 0 where
  one : Text → RuleValue
  many : List Text → RuleValue

pub data Polarity : Type 0 where
  positive negative : Polarity

pub record Rule : Type 0 where
  pub id : Text
  pub polarity : Polarity
  pub about : Text
  pub operator : Text
  pub value : RuleValue
  pub label : Option Text

pub record Icp : Type 0 where
  pub industries : List Text
  pub company_size : List Text
  pub geography : List Text
  pub use_cases : List Text
  pub buying_triggers : List Text
  pub disqualifiers : List Text

pub record Persona : Type 0 where
  pub id : Text
  pub role : Text
  pub seniority : Option Text
  pub function : Option Text
  pub buying_influence : Option Text

-- The payload of a company brain, as far as discovery reads it.
pub record Payload : Type 0 where
  pub icp : Icp
  pub personas : List Persona
  pub rules : List Rule

-- draft | analyzing | ready | failed
pub data BrainStatus : Type 0 where
  draft analyzing ready failed : BrainStatus

pub record Brain : Type 0 where
  pub id : Text
  pub tenant : Text
  pub company_name : Text
  pub website_url : Option Text
  pub status : BrainStatus
  pub payload : Option Payload

-- `ProspectDiscoveryIcpInput`
pub record IcpInput : Type 0 where
  pub company_name : Text
  pub website_url : Option Text
  pub icp : Icp
  pub personas : List Persona
  pub rules : List Rule
  pub limit : Option ℕ

pub data ReasonType : Type 0 where
  positive negative rule : ReasonType

pub record FitReason : Type 0 where
  pub kind : ReasonType
  pub label : Text
  pub detail : Option Text
  pub rule_id : Option Text
  pub about : Option Text

pub data FitBand : Type 0 where
  strong moderate weak disqualified unknown : FitBand

-- `ProviderCandidate`
pub record Found : Type 0 where
  pub provider_key : Text
  pub company_name : Text
  pub domain : Option Text
  pub website_url : Option Text
  pub industry : Option Text
  pub company_size : Option Text
  pub geography : Option Text
  pub description : Option Text
  pub evidence : Json
  pub buyer_roles : Json

-- `ProspectDiscoveryProviderResult`
pub record Discovered : Type 0 where
  pub provider : Text
  pub candidates : List Found

pub data RunStatus : Type 0 where
  queued processing completed failed : RunStatus

pub record DiscoveryRun : Type 0 where
  pub id : Text
  pub tenant : Text
  pub brain_id : Text
  pub status : RunStatus
  pub provider : Option Text
  pub error : Option Text

pub data CandidateStatus : Type 0 where
  proposed duplicate approved rejected created failed : CandidateStatus

pub data Dedupe : Type 0 where
  new_company exact_match possible_match : Dedupe

pub record Candidate : Type 0 where
  pub id : Text
  pub tenant : Text
  pub run_id : Text
  pub provider_key : Option Text
  pub company_name : Text
  pub domain : Option Text
  pub website_url : Option Text
  pub industry : Option Text
  pub company_size : Option Text
  pub geography : Option Text
  pub description : Option Text
  pub fit_score : ℕ
  pub fit_band : FitBand
  pub fit_reasons : List FitReason
  pub disqualifiers : List Text
  pub status : CandidateStatus
  pub dedupe : Dedupe
  pub existing_company : Option Text
  pub created_company : Option Text
  pub evidence : Json
  pub buyer_roles : Json
  pub last_error : Option Text

-- `TwentyCompany`
pub record Company : Type 0 where
  pub id : Text
  pub name : Option Text
  pub domain : Option Text
  pub website_url : Option Text
